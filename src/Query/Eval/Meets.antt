-- ===== src/Query/Eval/Meets.antt =====
-- The evaluation of rules with meet aggregations (retia-core/src/query/eval.rs).
use retia.Prelude.{Bool, true, false, ◌&&◌, Option, none, some, is_some, List, [], ◌∷◌}
use retia.Prelude.Order.{Ord, list_ord}
use retia.Prelude.Result.{Result, ok, err, panic, ◌>>=◌, ◌>>◌}
use retia.BTreeMap
use retia.BTreeMap.{BTreeMap}
use retia.Data.Value.{Externals, DataValue, FloatOps}
use retia.Data.Aggr.Base.{MeetAggr}
use retia.Data.Aggr.Parse.{AggrName}
use retia.Runtime.TempStore.Regular.{Tuple}
use retia.Runtime.TempStore.Meet
use retia.Runtime.TempStore.Meet.{MeetAggrStore, init_all, meet_put}
use retia.Runtime.TempStore.Epoch.{is_nil}
use retia.Query.Stratify.Convert.{all}
use retia.Query.Scc.{keys}
use retia.Query.Eval.Rules.{EvalError, lift, Stores, Engine, CompiledRule, first_aggr}
use retia.Query.Eval.Plain.{look_at_deltas}

-- `op.init_val()` of each aggregation
abbrev pub init_vals : {X : Externals} → List (MeetAggr X) → Tuple X
init_vals [] = []
init_vals (op ∷ ops) = op.init_val ∷ init_vals ops

-- The names of the aggregations of a rule.
abbrev pub names :
    {X : Externals} → List (Option (AggrName × List (DataValue X))) → List (Option AggrName)
names [] = []
names (none ∷ aggr) = none ∷ names aggr
names (some (name, args) ∷ aggr) = some name ∷ names aggr

module _ {X : Externals} ⦃o : Ord (DataValue X)⦄ where
  unfoldable pub meet_items :
      List (Result EvalError (Tuple X)) → MeetAggrStore X → Result EvalError (MeetAggrStore X)
  unfolding meet_put
  meet_items [] store = ok store
  meet_items (err e ∷ items) store = err e
  meet_items (panic ∷ items) store = panic
  meet_items (ok item ∷ items) store = lift (meet_put item store) >>= λ r. meet_items items r.0

module _ {X : Externals} (f : FloatOps X.F64) ⦃o : Ord (DataValue X)⦄ where
  -- The initial values of a rule without any item and without keys.
  unfoldable pub put_init :
      List (Option (AggrName × List (DataValue X)))
      → Bool
      → MeetAggrStore X
      → Result EvalError (MeetAggrStore X)
  unfolding init_all meet_put
  put_init aggr true store = lift (init_all {X = X} f (names aggr)) >>= λ ops.
      lift (meet_put (init_vals ops) store) >>= λ r. ok r.0
  put_init aggr false store = ok store

module _ {X : Externals} (f : FloatOps X.F64) ⦃o : Ord (DataValue X)⦄ {S : Type 0} ⦃s : Ord S⦄
    {e : Engine X S} where
  unfoldable pub meet_rules :
      S → List (CompiledRule e) → Stores X S → MeetAggrStore X → Result EvalError (MeetAggrStore X)
  unfolding init_all meet_items
  meet_rules rule_symb [] stores store = ok store
  meet_rules rule_symb (rule ∷ rule_set) stores store = do
    ops ← lift (init_all {X = X} f (names rule.aggr))
    items ← e.iter rule.relation none stores
    store' ← meet_items items store
    e.check rule_symb
    meet_rules rule_symb rule_set stores store'

  unfoldable pub initial_rule_meet_eval :
      S → List (CompiledRule e) → Stores X S → Result EvalError (MeetAggrStore X)
  unfolding meet_rules put_init Meet.new
  initial_rule_meet_eval rule_symb rule_set stores = do
    aggr ← first_aggr rule_set
    store ← lift (Meet.new {X = X} f (names aggr))
    store' ← meet_rules rule_symb rule_set stores store
    put_init f aggr (is_nil store'.inner && all is_some aggr) store'

  unfoldable pub delta_meets :
      S
      → CompiledRule e
      → Stores X S
      → List S
      → MeetAggrStore X
      → Result EvalError (MeetAggrStore X)
  unfolding meet_items
  delta_meets rule_symb rule stores [] store = ok store
  delta_meets rule_symb rule stores (delta_key ∷ ks) store =
      elim (is_some (BTreeMap.get delta_key rule.contained_rules)) [
        | false ↦ delta_meets rule_symb rule stores ks store
        | true ↦ (do
          items ← e.iter rule.relation (some delta_key) stores
          store' ← meet_items items store
          e.check rule_symb
          delta_meets rule_symb rule stores ks store')
      ]

  unfoldable pub incremental_meet :
      S → CompiledRule e → Stores X S → MeetAggrStore X → Result EvalError (MeetAggrStore X)
  unfolding look_at_deltas delta_meets init_all
  incremental_meet rule_symb rule stores store =
      look_at_deltas rule.contained_rules stores false >>= λ (changed, complete). elim changed [
        | false ↦ ok store
        | true ↦ lift (init_all {X = X} f (names rule.aggr)) >>= λ _. elim complete [
          | true ↦ (do
            items ← e.iter rule.relation none stores
            store' ← meet_items items store
            e.check rule_symb
            ok store')
          | false ↦ delta_meets rule_symb rule stores (keys stores) store
        ]
      ]

  unfoldable pub incremental_meets :
      S → List (CompiledRule e) → Stores X S → MeetAggrStore X → Result EvalError (MeetAggrStore X)
  unfolding incremental_meet
  incremental_meets rule_symb [] stores store = ok store
  incremental_meets rule_symb (rule ∷ rule_set) stores store =
      incremental_meet rule_symb rule stores store >>= incremental_meets rule_symb rule_set stores

  unfoldable pub incremental_rule_meet_eval :
      S → List (CompiledRule e) → Stores X S → Result EvalError (MeetAggrStore X)
  unfolding incremental_meets Meet.new
  incremental_rule_meet_eval rule_symb rule_set stores = do
    aggr ← first_aggr rule_set
    store ← lift (Meet.new {X = X} f (names aggr))
    incremental_meets rule_symb rule_set stores store
