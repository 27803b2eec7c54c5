-- ===== src/Query/Eval/Aggregate.antt =====
-- The evaluation of rules with aggregations (retia-core/src/query/eval.rs). `draws` are the random draws
-- that an aggregation makes.
use retia.Prelude.{
  ℕ, suc, Bool, true, false, ◌&&◌, Option, none, some, is_some, List, [], ◌∷◌, get_elem?,
}
use retia.Prelude.Order.{Ord, list_ord}
use retia.Prelude.Result.{Result, ok, err, panic, ◌>>=◌, ◌>>◌}
use retia.BTreeMap
use retia.BTreeMap.{BTreeMap}
use retia.Data.Value.{Externals, DataValue, FloatOps}
use retia.Data.Aggr.Parse.{AggrName, NormalObj, normal_init}
use retia.Runtime.TempStore.Regular.{Tuple, RegularTempStore, put}
use retia.Runtime.TempStore.Epoch.{is_nil}
use retia.Query.Stratify.Convert.{all}
use retia.Query.Eval.Rules.{EvalError, lift, Stores, Engine, CompiledRule, first_aggr}
use retia.Query.Eval.Plain.{unwrap, Run, initial_items}

-- The elements of `aggr` that are none, by their positions from `i` on, and the others with theirs.
abbrev pub key_indices {ℓ} : {A : Type ℓ} → ℕ → List (Option A) → List ℕ
key_indices i [] = []
key_indices i (none ∷ aggr) = i ∷ key_indices (suc i) aggr
key_indices i (some a ∷ aggr) = key_indices (suc i) aggr

abbrev pub val_indices {ℓ} : {A : Type ℓ} → ℕ → List (Option A) → List (ℕ × A)
val_indices i [] = []
val_indices i (none ∷ aggr) = val_indices (suc i) aggr
val_indices i (some a ∷ aggr) = (i, a) ∷ val_indices (suc i) aggr

-- A `normal_op` in its state.
pub record Working (X : Externals) : Type 1 where
  pub obj : NormalObj X
  pub state : obj.State

module _ {X : Externals} where
  -- `keys_indices.iter().map(|i| t[*i].clone())`
  unfoldable pub extract_keys : List ℕ → Tuple X → Result EvalError (Tuple X)
  extract_keys [] t = ok []
  extract_keys (i ∷ is) t = unwrap (get_elem? t i) >>= λ v. extract_keys is t >>= λ vs. ok (v ∷ vs)

  abbrev pub set_one : Working X → DataValue X → Result EvalError (Working X)
  set_one w v = lift (w.obj.aggr.set_value w.state v) >>= λ state. ok (record w { state = state })

  abbrev pub get_one : Working X → Result EvalError (DataValue X)
  get_one w = lift (w.obj.aggr.get_value w.state)

  -- `aggr_ops[aggr_idx].normal_op.set(&item[*tuple_idx])?`
  unfoldable pub set_each :
      {A : Type 0} → List (ℕ × A) → Tuple X → List (Working X) → Result EvalError (List (Working X))
  set_each [] item ops = ok ops
  set_each ((i, a) ∷ is) item [] = panic
  set_each ((i, a) ∷ is) item (w ∷ ops) = unwrap (get_elem? item i) >>= λ v.
      set_one w v >>= λ w'. set_each is item ops >>= λ ops'. ok (w' ∷ ops')

  -- The values of a group in the order of the rule's head.
  unfoldable pub head_of :
      {A : Type 0} → List (Option A) → Tuple X → List (Working X) → Result EvalError (Tuple X)
  head_of [] ks ops = ok []
  head_of (none ∷ aggr) (k ∷ ks) ops = head_of aggr ks ops >>= λ vs. ok (k ∷ vs)
  head_of (some a ∷ aggr) ks (w ∷ ops) =
      get_one w >>= λ v. head_of aggr ks ops >>= λ vs. ok (v ∷ vs)
  head_of (none ∷ aggr) [] ops = panic
  head_of (some a ∷ aggr) ks [] = panic

  abbrev tuples :
      List (Option (AggrName × List (DataValue X)))
      → BTreeMap (Tuple X) (List (Working X))
      → List (Result EvalError (Tuple X))
  tuples aggr [] = []
  tuples aggr ((ks, ops) ∷ work) = head_of aggr ks ops ∷ tuples aggr work

module _ {X : Externals} (f : FloatOps X.F64) ⦃o : Ord (DataValue X)⦄ (draws : ℕ → X.F64) where
  abbrev pub start_one : AggrName × List (DataValue X) → Result EvalError (Working X)
  start_one (name, args) = lift (normal_init f draws args name) >>= λ obj.
      ok (record { obj = obj; state = obj.aggr.start })

  -- A vacant entry: each aggregation is new and set to its value.
  unfoldable pub start_each :
      List (ℕ × (AggrName × List (DataValue X))) → Tuple X → Result EvalError (List (Working X))
  start_each [] item = ok []
  start_each ((i, aggr) ∷ is) item = start_one aggr >>= λ w. unwrap (get_elem? item i) >>= λ v.
      set_one w v >>= λ w'. start_each is item >>= λ ops. ok (w' ∷ ops)

  -- `for item_res in rule.relation.iter(self, None, stores)?`
  unfoldable pub group_items :
      List (Option (AggrName × List (DataValue X)))
      → List (Result EvalError (Tuple X))
      → BTreeMap (Tuple X) (List (Working X))
      → Result EvalError (BTreeMap (Tuple X) (List (Working X)))
  unfolding extract_keys set_each start_each
  group_items aggr [] work = ok work
  group_items aggr (err e ∷ items) work = err e
  group_items aggr (panic ∷ items) work = panic
  group_items aggr (ok item ∷ items) work = do
    ks ← extract_keys (key_indices 0 aggr) item
    ops ← elim (BTreeMap.get ks work) [
      | some ops ↦ set_each (val_indices 0 aggr) item ops
      | none ↦ start_each (val_indices 0 aggr) item
    ]
    group_items aggr items (BTreeMap.insert ks ops work)

  -- `a.as_ref().unwrap()`, for the result without any item
  unfoldable pub empty_result :
      List (Option (AggrName × List (DataValue X))) → Result EvalError (Tuple X)
  empty_result [] = ok []
  empty_result (none ∷ aggr) = panic
  empty_result (some a ∷ aggr) =
      start_one a >>= λ w. get_one w >>= λ v. empty_result aggr >>= λ vs. ok (v ∷ vs)

  -- The result of a rule without any item and without keys.
  unfoldable pub first_out :
      List (Option (AggrName × List (DataValue X)))
      → Bool
      → RegularTempStore X
      → Result EvalError (RegularTempStore X)
  unfolding empty_result put
  first_out aggr true out = empty_result aggr >>= λ t. ok (put t out)
  first_out aggr false out = ok out

  module _ {S : Type 0} ⦃s : Ord S⦄ {e : Engine X S} where
    unfoldable pub group_rules :
        S
        → List (CompiledRule e)
        → Stores X S
        → BTreeMap (Tuple X) (List (Working X))
        → Result EvalError (BTreeMap (Tuple X) (List (Working X)))
    unfolding group_items
    group_rules rule_symb [] stores work = ok work
    group_rules rule_symb (rule ∷ rule_set) stores work = do
      items ← e.iter rule.relation none stores
      work' ← group_items rule.aggr items work
      e.check rule_symb
      group_rules rule_symb rule_set stores work'

    unfoldable pub initial_rule_aggr_eval :
        S → Bool → List (CompiledRule e) → Stores X S → Run X → Result EvalError (Run X)
    unfolding group_rules head_of first_out initial_items
    initial_rule_aggr_eval rule_symb check rule_set stores run = do
      work ← group_rules rule_symb rule_set stores []
      aggr ← first_aggr rule_set
      out ← first_out aggr (is_nil work && all is_some aggr) run.out
      initial_items check (tuples aggr work) run.limiter out
