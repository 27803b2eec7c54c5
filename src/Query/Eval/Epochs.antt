-- ===== src/Query/Eval/Epochs.antt =====
-- `semi_naive_magic_evaluate` (retia-core/src/query/eval.rs). Rules that do not count results may run in
-- parallel: they read the stores and the limiter and change neither. The number of an epoch, a u32, only
-- tells the first one from the others.
use retia.Prelude.{ℕ, zero, suc, Bool, true, false, ◌||◌, Option, none, some, List, [], ◌∷◌}
use retia.Prelude.Order.{Ord}
use retia.Prelude.Result.{Result, ok, err, panic, ◌>>=◌}
use retia.BTreeMap
use retia.BTreeMap.{BTreeMap}
use retia.Data.Value.{Externals, DataValue, FloatOps}
use retia.Runtime.TempStore.Epoch
use retia.Runtime.TempStore.Epoch.{
  EpochStore, TempStore, normal, meet, has_delta, new_normal, new_meet,
}
use retia.Query.Eval.Rules.{
  EvalError, lift, Stores, Engine, CompiledRuleSet, rules, fixed, AggrKind, none_kind, normal_kind,
  meet_kind, aggr_kind,
}
use retia.Query.Eval.Limiter.{QueryLimiter, is_stopped}
use retia.Query.Eval.Plain.{
  unwrap, Run, should_check_limit, initial_rule_non_aggr_eval, incremental_rule_non_aggr_eval,
}
use retia.Query.Eval.Aggregate.{initial_rule_aggr_eval}
use retia.Query.Eval.Meets.{initial_rule_meet_eval, incremental_rule_meet_eval}

-- What the execution of one rule set leaves, and whether it was limited.
pub record Executed (X : Externals) : Type 0 where
  pub limiter : QueryLimiter
  pub used : Bool
  pub new_store : TempStore X

-- What the executions of an epoch leave: `used_limiter` and `to_merge`.
pub record Merging (X : Externals) (S : Type 0) : Type 0 where
  pub limiter : QueryLimiter
  pub used : Bool
  pub to_merge : BTreeMap S (TempStore X)

abbrev pub begin : {X : Externals} → QueryLimiter → Run X
begin limiter = record { limiter = limiter; out = []; stopped = false }

-- `res.1.wrap()`; the flag of the result is `stopped || check`.
abbrev pub wrap : {X : Externals} → Bool → Run X → Executed X
wrap check run = record {
  limiter = run.limiter;
  used = run.stopped || check;
  new_store = normal run.out;
}

module _ {X : Externals} (f : FloatOps X.F64) ⦃o : Ord (DataValue X)⦄ (draws : ℕ → X.F64)
    {S : Type 0} ⦃s : Ord S⦄ {e : Engine X S} where
  unfoldable pub execute_rules :
      AggrKind → S → CompiledRuleSet e → Stores X S → QueryLimiter → Result EvalError (Executed X)
  unfolding initial_rule_non_aggr_eval initial_rule_aggr_eval initial_rule_meet_eval
  execute_rules kind k (fixed fx) stores limiter = e.run_fixed fx stores >>= λ out.
      ok (record { limiter = limiter; used = false; new_store = normal out })
  execute_rules none_kind k (rules rs) stores limiter =
      let check = should_check_limit e k limiter in
      initial_rule_non_aggr_eval k check rs stores (begin limiter) >>= λ run. ok (wrap check run)
  execute_rules normal_kind k (rules rs) stores limiter =
      let check = should_check_limit e k limiter in
      initial_rule_aggr_eval f draws k check rs stores (begin limiter) >>= λ run.
      ok (wrap check run)
  execute_rules meet_kind k (rules rs) stores limiter =
      initial_rule_meet_eval f k rs stores >>= λ out.
      ok (record { limiter = limiter; used = false; new_store = meet out })

  -- `execution` of a later epoch. Normal aggregations and fixed rules ran once.
  unfoldable pub execute_again :
      AggrKind → S → CompiledRuleSet e → Stores X S → QueryLimiter → Result EvalError (Executed X)
  unfolding incremental_rule_non_aggr_eval incremental_rule_meet_eval
  execute_again kind k (fixed fx) stores limiter =
      ok (record { limiter = limiter; used = false; new_store = normal [] })
  execute_again none_kind k (rules rs) stores limiter =
      let check = should_check_limit e k limiter in
      incremental_rule_non_aggr_eval k check rs stores (begin limiter) >>= λ run.
      ok (wrap check run)
  execute_again normal_kind k (rules rs) stores limiter =
      ok (record { limiter = limiter; used = false; new_store = normal [] })
  execute_again meet_kind k (rules rs) stores limiter =
      incremental_rule_meet_eval f k rs stores >>= λ out.
      ok (record { limiter = limiter; used = false; new_store = meet out })

  -- `execution`, in the first epoch or a later one
  unfoldable pub execution :
      Bool → Stores X S → S → CompiledRuleSet e → QueryLimiter → Result EvalError (Executed X)
  unfolding execute_rules execute_again
  execution true stores k set limiter =
      aggr_kind set >>= λ kind. execute_rules kind k set stores limiter
  execution false stores k set limiter =
      aggr_kind set >>= λ kind. execute_again kind k set stores limiter

  -- Entry rules with a limit, in order; the loop ends when the limit is reached.
  unfoldable pub run_entries :
      Bool
      → Stores X S
      → List (S × CompiledRuleSet e)
      → Merging X S
      → Result EvalError (Merging X S)
  unfolding execution
  run_entries first stores [] m = ok m
  run_entries first stores ((k, set) ∷ prog) m = elim (should_check_limit e k m.limiter) [
    | false ↦ run_entries first stores prog m
    | true ↦ execution first stores k set m.limiter >>= λ x.
        let m' : Merging X S = record {
          limiter = x.limiter;
          used = m.used || x.used;
          to_merge = BTreeMap.insert k x.new_store m.to_merge;
        } in
        elim (is_stopped x.limiter) [ true ↦ ok m' | false ↦ run_entries first stores prog m' ]
  ]

  -- The other rules.
  unfoldable pub run_others :
      Bool
      → Stores X S
      → List (S × CompiledRuleSet e)
      → Merging X S
      → Result EvalError (Merging X S)
  unfolding execution
  run_others first stores [] m = ok m
  run_others first stores ((k, set) ∷ prog) m = elim (should_check_limit e k m.limiter) [
    | true ↦ run_others first stores prog m
    | false ↦ execution first stores k set m.limiter >>= λ x. run_others first stores prog (record {
      limiter = x.limiter;
      used = m.used || x.used;
      to_merge = BTreeMap.insert k x.new_store m.to_merge;
    })
  ]

module _ {X : Externals} ⦃o : Ord (DataValue X)⦄ {S : Type 0} ⦃s : Ord S⦄ where
  -- `for (k, new_store) in to_merge`: the stores, and `changed`
  unfoldable pub merge_all :
      List (S × TempStore X) → Stores X S → Bool → Result EvalError (Stores X S × Bool)
  unfolding Epoch.merge_in has_delta
  merge_all [] stores changed = ok (stores, changed)
  merge_all ((k, new_store) ∷ to_merge) stores changed = do
    old_store ← unwrap (BTreeMap.get k stores)
    store ← lift (Epoch.merge_in old_store new_store)
    merge_all to_merge (BTreeMap.insert k store stores) (changed || has_delta store)

-- The stores after an epoch, the limiter, `used_limiter` and `changed`.
pub record EpochEnd (X : Externals) (S : Type 0) : Type 0 where
  pub stores : Stores X S
  pub limiter : QueryLimiter
  pub used : Bool
  pub changed : Bool

module _ {X : Externals} (f : FloatOps X.F64) ⦃o : Ord (DataValue X)⦄ (draws : ℕ → X.F64)
    {S : Type 0} ⦃s : Ord S⦄ {e : Engine X S} where
  unfoldable pub run_epoch :
      Bool
      → BTreeMap S (CompiledRuleSet e)
      → Stores X S
      → QueryLimiter
      → Bool
      → Result EvalError (EpochEnd X S)
  unfolding run_entries run_others merge_all
  run_epoch first prog stores limiter used = do
    m ←
        run_entries f draws first stores prog
          (record { limiter = limiter; used = used; to_merge = [] })
    m' ← run_others f draws first stores prog m
    r ← merge_all m'.to_merge stores false
    ok (record { stores = r.0; limiter = m'.limiter; used = m'.used; changed = r.1 })

  -- `for epoch in 0u32..`, from the first epoch or a later one on. `none` is exhausted fuel.
  unfoldable pub run_epochs :
      ℕ
      → Bool
      → BTreeMap S (CompiledRuleSet e)
      → Stores X S
      → QueryLimiter
      → Bool
      → Option (Result EvalError (Stores X S × Bool))
  unfolding run_epoch
  run_epochs zero first prog stores limiter used = none
  run_epochs (suc fuel) first prog stores limiter used =
      elim (run_epoch first prog stores limiter used) [
        | err x ↦ some (err x)
        | panic ↦ some panic
        | ok r ↦ elim r.changed [
          | true ↦ run_epochs fuel false prog r.stores r.limiter r.used
          | false ↦ some (ok (r.stores, r.used))
        ]
      ]

  unfoldable pub semi_naive_magic_evaluate :
      ℕ
      → BTreeMap S (CompiledRuleSet e)
      → Stores X S
      → Option ℕ
      → Option ℕ
      → Option (Result EvalError (Stores X S × Bool))
  unfolding run_epochs
  semi_naive_magic_evaluate fuel prog stores total_num_to_take num_to_skip =
      run_epochs fuel true prog stores
        (record { total = total_num_to_take; skip = num_to_skip; counter = 0 }) false
