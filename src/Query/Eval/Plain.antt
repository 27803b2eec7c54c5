-- ===== src/Query/Eval/Plain.antt =====
-- The evaluation of rules without aggregations (retia-core/src/query/eval.rs).
use retia.Prelude.{
  Bool, true, false, ◌&&◌, Option, none, some, is_some, List, [], ◌∷◌, if◌then◌else◌,
}
use retia.Prelude.Order.{Ord}
use retia.Prelude.Result.{Result, ok, err, panic, ◌>>=◌, ◌>>◌}
use retia.BTreeMap
use retia.BTreeMap.{BTreeMap}
use retia.Data.Value.{Externals, DataValue}
use retia.Runtime.TempStore.Regular.{Tuple, RegularTempStore, put, put_with_skip}
use retia.Runtime.TempStore.Regular
use retia.Runtime.TempStore.Epoch
use retia.Runtime.TempStore.Epoch.{EpochStore, has_delta}
use retia.Query.Scc.{keys}
use retia.Query.Eval.Rules.{
  EvalError, lift, ContainedRuleMultiplicity, one, many, Stores, Engine, CompiledRule,
}
use retia.Query.Eval.Limiter.{QueryLimiter, incr_and_should_stop, should_skip_next}

-- `stores.get(symb).unwrap()` and the like
abbrev pub unwrap {ℓ} : {A : Type ℓ} → Option A → Result EvalError A
unwrap none = panic
unwrap (some a) = ok a

-- What a loop over items leaves, and whether it has returned early.
pub record Run (X : Externals) : Type 0 where
  pub limiter : QueryLimiter
  pub out : RegularTempStore X
  pub stopped : Bool

module _ {X : Externals} ⦃o : Ord (DataValue X)⦄ where
  abbrev pub put_next : QueryLimiter → Tuple X → RegularTempStore X → RegularTempStore X
  put_next limiter item out =
      if should_skip_next limiter then put_with_skip item out else put item out

  -- The loops over items, with the test `should_check_limit`
  unfoldable pub initial_items :
      Bool
      → List (Result EvalError (Tuple X))
      → QueryLimiter
      → RegularTempStore X
      → Result EvalError (Run X)
  unfolding put put_with_skip Regular.exists
  initial_items check [] limiter out = ok (record { limiter = limiter; out = out; stopped = false })
  initial_items check (err e ∷ items) limiter out = err e
  initial_items check (panic ∷ items) limiter out = panic
  initial_items false (ok item ∷ items) limiter out =
      initial_items false items limiter (put item out)
  initial_items true (ok item ∷ items) limiter out = elim (Regular.exists item out) [
    | true ↦ initial_items true items limiter out
    | false ↦ elim (incr_and_should_stop limiter).1 [
      | true ↦ ok (record {
        limiter = (incr_and_should_stop limiter).0;
        out = put_next limiter item out;
        stopped = true;
      })
      | false ↦
          initial_items true items (incr_and_should_stop limiter).0 (put_next limiter item out)
    ]
  ]

  -- An item that the store of the rule has is rederived and left out.
  unfoldable pub incremental_items :
      Bool
      → EpochStore X
      → List (Result EvalError (Tuple X))
      → QueryLimiter
      → RegularTempStore X
      → Result EvalError (Run X)
  unfolding put put_with_skip Epoch.exists_in
  incremental_items check prev [] limiter out =
      ok (record { limiter = limiter; out = out; stopped = false })
  incremental_items check prev (err e ∷ items) limiter out = err e
  incremental_items check prev (panic ∷ items) limiter out = panic
  incremental_items check prev (ok item ∷ items) limiter out =
      lift (Epoch.exists item prev) >>= λ old. elim old [
        | true ↦ incremental_items check prev items limiter out
        | false ↦ elim check [
          | false ↦ incremental_items check prev items limiter (put_next limiter item out)
          | true ↦ elim (incr_and_should_stop limiter).1 [
            | true ↦ ok (record {
              limiter = (incr_and_should_stop limiter).0;
              out = put_next limiter item out;
              stopped = true;
            })
            | false ↦
                incremental_items check prev items (incr_and_should_stop limiter).0
                  (put_next limiter item out)
          ]
        ]
      ]

module _ {X : Externals} {S : Type 0} where
  -- `for (symb, multiplicity) in rule.contained_rules.iter()`: `dependencies_changed` and
  -- `need_complete_run`
  unfoldable pub look_at_deltas :
      ⦃o : Ord (DataValue X)⦄ ⦃s : Ord S⦄
      → List (S × ContainedRuleMultiplicity)
      → Stores X S
      → Bool
      → Result EvalError (Bool × Bool)
  look_at_deltas [] stores changed = ok (changed, false)
  look_at_deltas ((symb, multiplicity) ∷ contained) stores changed =
      unwrap (BTreeMap.get symb stores) >>= λ store. elim (has_delta store) [
        | false ↦ look_at_deltas contained stores changed
        | true ↦ elim multiplicity [
          | many ↦ ok (true, true)
          | one ↦ look_at_deltas contained stores true
        ]
      ]

-- `limiter.total.is_some() && rule_symb.is_prog_entry()`
abbrev pub should_check_limit :
    {X : Externals} {S : Type 0} (e : Engine X S) → S → QueryLimiter → Bool
should_check_limit e rule_symb limiter = is_some limiter.total && e.is_prog_entry rule_symb

-- The rest of a loop, unless it has returned.
abbrev pub unless_stopped :
    {X : Externals} → (Run X → Result EvalError (Run X)) → Run X → Result EvalError (Run X)
unless_stopped next run = elim run.stopped [ true ↦ ok run | false ↦ next run ]

module _ {X : Externals} {S : Type 0} ⦃o : Ord (DataValue X)⦄ ⦃s : Ord S⦄ {e : Engine X S} where
  -- `initial_rule_non_aggr_eval`; the flag that it returns is `stopped || check`.
  unfoldable pub initial_rule_non_aggr_eval :
      S → Bool → List (CompiledRule e) → Stores X S → Run X → Result EvalError (Run X)
  unfolding initial_items
  initial_rule_non_aggr_eval rule_symb check [] stores run = ok run
  initial_rule_non_aggr_eval rule_symb check (rule ∷ rule_set) stores run = do
    items ← e.iter rule.relation none stores
    run' ← initial_items check items run.limiter run.out
    unless_stopped
        (λ r. e.check rule_symb >> initial_rule_non_aggr_eval rule_symb check rule_set stores r)
        run'

  -- `for delta_key in stores.keys()`
  unfoldable pub delta_runs :
      S
      → Bool
      → CompiledRule e
      → EpochStore X
      → Stores X S
      → List S
      → Run X
      → Result EvalError (Run X)
  unfolding incremental_items
  delta_runs rule_symb check rule prev stores [] run = ok run
  delta_runs rule_symb check rule prev stores (delta_key ∷ ks) run =
      elim (is_some (BTreeMap.get delta_key rule.contained_rules)) [
        | false ↦ delta_runs rule_symb check rule prev stores ks run
        | true ↦ (do
          items ← e.iter rule.relation (some delta_key) stores
          run' ← incremental_items check prev items run.limiter run.out
          unless_stopped
              (λ r. e.check rule_symb >> delta_runs rule_symb check rule prev stores ks r) run')
      ]

  -- One round of `for (rule_n, rule) in ruleset.iter().enumerate()`
  unfoldable pub incremental_rule :
      S → Bool → CompiledRule e → EpochStore X → Stores X S → Run X → Result EvalError (Run X)
  unfolding look_at_deltas delta_runs
  incremental_rule rule_symb check rule prev stores run =
      look_at_deltas rule.contained_rules stores false >>= λ (changed, complete). elim changed [
        | false ↦ ok run
        | true ↦ elim complete [
          | true ↦ (do
            items ← e.iter rule.relation none stores
            run' ← incremental_items check prev items run.limiter run.out
            unless_stopped (λ r. e.check rule_symb >> ok r) run')
          | false ↦ delta_runs rule_symb check rule prev stores (keys stores) run
        ]
      ]

  unfoldable pub incremental_rules :
      S
      → Bool
      → List (CompiledRule e)
      → EpochStore X
      → Stores X S
      → Run X
      → Result EvalError (Run X)
  unfolding incremental_rule
  incremental_rules rule_symb check [] prev stores run = ok run
  incremental_rules rule_symb check (rule ∷ rule_set) prev stores run =
      incremental_rule rule_symb check rule prev stores run
      >>= unless_stopped (incremental_rules rule_symb check rule_set prev stores)

  -- `incremental_rule_non_aggr_eval`
  unfoldable pub incremental_rule_non_aggr_eval :
      S → Bool → List (CompiledRule e) → Stores X S → Run X → Result EvalError (Run X)
  unfolding incremental_rules
  incremental_rule_non_aggr_eval rule_symb check rule_set stores run = do
    prev ← unwrap (BTreeMap.get rule_symb stores)
    incremental_rules rule_symb check rule_set prev stores run
