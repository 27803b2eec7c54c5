-- ===== src/Query/Eval/Strata.antt =====
-- `stratified_magic_evaluate` (retia-core/src/query/eval.rs).
use retia.Prelude.{ℕ, zero, suc, leb, Bool, false, Option, none, some, List, [], ◌∷◌}
use retia.Prelude.Order.{Ord}
use retia.Prelude.Result.{Result, ok, err, panic, ◌>>=◌}
use retia.BTreeMap
use retia.BTreeMap.{BTreeMap}
use retia.Data.Value.{Externals, DataValue, FloatOps}
use retia.Runtime.TempStore.Epoch.{EpochStore, new_normal, new_meet}
use retia.Query.Eval.Rules.{
  EvalError, no_entry, lift, Stores, Engine, CompiledRuleSet, rules, fixed, meet_kind, first_aggr,
  arity, aggr_kind,
}
use retia.Query.Eval.Meets.{names}
use retia.Query.Eval.Epochs.{semi_naive_magic_evaluate}

module _ {X : Externals} {S : Type 0} ⦃s : Ord S⦄ where
  -- `stores.retain(..)`
  abbrev pub retain : BTreeMap S ℕ → ℕ → Stores X S → Stores X S
  retain store_lifetimes zero = λ stores. stores
  retain store_lifetimes (suc stratum) = BTreeMap.filter_keys λ name.
      elim (BTreeMap.get name store_lifetimes) [ none ↦ false | some n ↦ leb (suc stratum) n ]

  -- The store of the entry, out of the stores at the end.
  abbrev pub take_entry : S → Stores X S × Bool → Result EvalError (EpochStore X × Bool)
  take_entry entry_symbol (stores, early_return) = elim (BTreeMap.get entry_symbol stores) [
    | none ↦ err no_entry
    | some ret_area ↦ ok (ret_area, early_return)
  ]

module _ {X : Externals} (f : FloatOps X.F64) ⦃o : Ord (DataValue X)⦄ (draws : ℕ → X.F64)
    {S : Type 0} ⦃s : Ord S⦄ {e : Engine X S} where
  -- A new store for a rule set.
  abbrev pub new_store : CompiledRuleSet e → Result EvalError (EpochStore X)
  new_store set = aggr_kind set >>= λ kind. elim kind [
    | meet_kind ↦ elim set [
      | rules rs ↦ first_aggr rs >>= λ aggr. lift (new_meet {X = X} f (names aggr))
      | fixed fx ↦ panic
    ]
    | _ ↦ arity set >>= λ n. ok (new_normal X n)
  ]

  unfoldable pub insert_stores :
      List (S × CompiledRuleSet e) → Stores X S → Result EvalError (Stores X S)
  unfolding new_normal new_meet
  insert_stores [] stores = ok stores
  insert_stores ((rule_name, set) ∷ prog) stores =
      new_store set >>= λ store. insert_stores prog (BTreeMap.insert rule_name store stores)

  -- `for (stratum, cur_prog) in strata.iter().enumerate()`, from `stratum` on
  unfoldable pub run_strata :
      ℕ
      → BTreeMap S ℕ
      → Option ℕ
      → Option ℕ
      → ℕ
      → List (BTreeMap S (CompiledRuleSet e))
      → Stores X S
      → Bool
      → Option (Result EvalError (Stores X S × Bool))
  unfolding semi_naive_magic_evaluate insert_stores
  run_strata fuel lifetimes total skip stratum [] stores early_return =
      some (ok (stores, early_return))
  run_strata fuel lifetimes total skip stratum (cur_prog ∷ strata) stores early_return =
      elim (insert_stores cur_prog (retain lifetimes stratum stores)) [
        | err x ↦ some (err x)
        | panic ↦ some panic
        | ok stores' ↦ elim (semi_naive_magic_evaluate f draws fuel cur_prog stores' total skip) [
          | none ↦ none
          | some (err x) ↦ some (err x)
          | some panic ↦ some panic
          | some (ok (stores'', early)) ↦
              run_strata fuel lifetimes total skip (suc stratum) strata stores'' early
        ]
      ]

  unfoldable pub stratified_magic_evaluate :
      ℕ
      → S
      → List (BTreeMap S (CompiledRuleSet e))
      → BTreeMap S ℕ
      → Option ℕ
      → Option ℕ
      → Option (Result EvalError (EpochStore X × Bool))
  unfolding run_strata
  stratified_magic_evaluate fuel entry_symbol strata store_lifetimes total skip =
      elim (run_strata fuel store_lifetimes total skip 0 strata [] false) [
        | none ↦ none
        | some r ↦ some (r >>= take_entry entry_symbol)
      ]
