-- ===== src/Query/Eval/View.antt =====
-- What the evaluation of plain rules promises (retia-core/src/query/eval.rs): the least stores that the
-- rules of a program keep.
use retia.Prelude.{
  ℕ, All, ◌≡◌, Bool, true, false, ◌||◌, ◌⊎◌, Option, none, some, is_some, List, [], ◌∷◌, map,
}
use retia.Prelude.Order.{Ord, list_ord}
use retia.Prelude.Result.{ok}
use retia.BTreeMap.{BTreeMap, IsSorted, get}
use retia.BTreeSet.{contains}
use retia.Data.Value.{Externals, DataValue}
use retia.Runtime.TempStore.Regular.{Tuple, RegularTempStore}
use retia.Runtime.TempStore.Epoch.{
  EpochStore, TempStore, normal, meet, delta_of, has_delta, new_normal,
}
use retia.Runtime.TempStore.Advance.{epoch}
use retia.Query.Eval.Rules.{
  many, Stores, Engine, CompiledRule, CompiledRuleSet, rules, none_kind, aggr_kind,
}

module _ {X : Externals} ⦃o : Ord (DataValue X)⦄ where
  -- Only stores without meet aggregations are looked into.
  abbrev pub in_temp : TempStore X → Tuple X → Bool
  in_temp (normal m) t = is_some (get t m)
  in_temp (meet m) t = false

  abbrev pub in_total : Option (EpochStore X) → Tuple X → Bool
  in_total none t = false
  in_total (some store) t = in_temp store.total t

  abbrev pub in_delta : Option (EpochStore X) → Tuple X → Bool
  in_delta none t = false
  in_delta (some store) t = in_temp (delta_of store) t

  -- A store of tuples, in order.
  pub record IsRegular (store : EpochStore X) : Type 0 where
    pub tuples : RegularTempStore X
    pub prev : RegularTempStore X
    pub is_epoch : store ≡ epoch tuples prev store.use_total_for_delta store.arity
    pub sorted : IsSorted tuples

  abbrev pub has_news : Option (EpochStore X) → Bool
  has_news none = false
  has_news (some store) = has_delta store

  abbrev pub DeltasHeld : {S : Type 0} ⦃s : Ord S⦄ → Stores X S → Type 0
  DeltasHeld {S} stores =
      (k : S) (t : Tuple X) → in_delta (get k stores) t ≡ true → in_total (get k stores) t ≡ true

abbrev pub Stored :
    {X : Externals} {S : Type 0} ⦃s : Ord S⦄ {e : Engine X S} → Stores X S → CompiledRule e → Type 0
Stored {S = S} stores rule =
    (j : S) → is_some (get j rule.contained_rules) ≡ true → is_some (get j stores) ≡ true

-- `rows` are what relations find, and `check` does not stop the query.
pub record Rows {X : Externals} {S : Type 0} (e : Engine X S) : Type 0 where
  pub rows : e.RelAlgebra → Option S → Stores X S → List (Tuple X)
  pub checks : (k : S) → e.check k ≡ ok tt

module _ {X : Externals} {S : Type 0} ⦃o : Ord (DataValue X)⦄ ⦃s : Ord S⦄ {e : Engine X S} where
  -- The stores of names that the program does not define stay.
  abbrev pub Agrees : BTreeMap S (CompiledRuleSet e) → Stores X S → Stores X S → Type 0
  Agrees prog stores stores' = (k : S) → get k prog ≡ none → get k stores' ≡ get k stores

  -- What holds of the stores before each epoch: those of the program have tuples, and the others are
  -- as at the start, without deltas. A delta is a part of its store, and contained rules have stores.
  pub record IsState (prog : BTreeMap S (CompiledRuleSet e)) (start stores : Stores X S)
      : Type 0 where
    pub regular :
        (k : S)
        → is_some (get k prog) ≡ true
        → (store : EpochStore X) × (get k stores ≡ some store) × IsRegular store
    pub settled : (k : S) → get k prog ≡ none → has_news (get k stores) ≡ false
    pub held : DeltasHeld stores
    pub stored :
        (k : S) (rule_set : List (CompiledRule e))
        → get k prog ≡ some (rules rule_set)
        → All (Stored stores) rule_set
    pub agrees : Agrees prog start stores

  -- `stores'` has what `stores` has and what its deltas tell.
  pub record Grows (prog : BTreeMap S (CompiledRuleSet e)) (stores stores' : Stores X S)
      : Type 0 where
    pub agrees : Agrees prog stores stores'
    pub adds :
        (k : S) (t : Tuple X)
        → is_some (get k prog) ≡ true
        → in_total (get k stores') t ≡ (in_total (get k stores) t || in_delta (get k stores') t)

module _ {X : Externals} {S : Type 0} ⦃o : Ord (DataValue X)⦄ ⦃s : Ord S⦄ {e : Engine X S}
    (r : Rows e) where
  open r use {rows}

  -- What semi-naive evaluation takes of the relation of a rule. It finds its rows without an error. Where a contained rule is read by its
  -- delta, there are no rows but those of its whole store. Where stores grow, a row is an old one or it
  -- is found by the delta of a contained rule, unless one with a delta is contained many times.
  pub record Reads (prog : BTreeMap S (CompiledRuleSet e)) (start : Stores X S)
      (rule : CompiledRule e) : Type 0 where
    pub finds :
        (stores : Stores X S)
        → IsState prog start stores
        → e.iter rule.relation none stores ≡ ok (map ok (rows rule.relation none stores))
    pub finds_by_delta :
        (stores : Stores X S) (k : S)
        → IsState prog start stores
        → is_some (get k rule.contained_rules) ≡ true
        → e.iter rule.relation (some k) stores ≡ ok (map ok (rows rule.relation (some k) stores))
    pub sound :
        (stores : Stores X S) (k : S) (t : Tuple X)
        → IsState prog start stores
        → is_some (get k rule.contained_rules) ≡ true
        → contains t (rows rule.relation (some k) stores) ≡ true
        → contains t (rows rule.relation none stores) ≡ true
    pub split :
        (stores stores' : Stores X S) (t : Tuple X)
        → IsState prog start stores
        → IsState prog start stores'
        → Grows prog stores stores'
        → ((k : S) → get k rule.contained_rules ≡ some many → has_news (get k stores') ≡ false)
        → contains t (rows rule.relation none stores') ≡ true
        → (contains t (rows rule.relation none stores) ≡ true)
          ⊎ ((k : S) × (is_some (get k rule.contained_rules) ≡ true)
              × (has_news (get k stores') ≡ true)
              × (contains t (rows rule.relation (some k) stores') ≡ true))

  -- The rows of the rules of a name.
  unfoldable pub derived : List (CompiledRule e) → Stores X S → Tuple X → Bool
  derived [] stores t = false
  derived (rule ∷ rule_set) stores t =
      contains t (rows rule.relation none stores) || derived rule_set stores t

  -- `holds` has, for each name, the rows that its rules find in stores with tuples of `holds` only.
  abbrev pub Keeps : BTreeMap S (CompiledRuleSet e) → Stores X S → (S → Tuple X → Type 0) → Type 0
  Keeps prog start holds =
      (stores' : Stores X S)
      → IsState prog start stores'
      → ((k : S) (t : Tuple X)
          → is_some (get k prog) ≡ true
          → in_total (get k stores') t ≡ true
          → holds k t)
      → (k : S) (rule_set : List (CompiledRule e)) (t : Tuple X)
      → get k prog ≡ some (rules rule_set)
      → derived rule_set stores' t ≡ true
      → holds k t

  pub record IsFixpoint (prog : BTreeMap S (CompiledRuleSet e)) (stores fin : Stores X S)
      : Type 1 where
    pub closed :
        (k : S) (rule_set : List (CompiledRule e)) (t : Tuple X)
        → get k prog ≡ some (rules rule_set)
        → derived rule_set fin t ≡ true
        → in_total (get k fin) t ≡ true
    pub least :
        (holds : S → Tuple X → Type 0)
        → Keeps prog stores holds
        → (k : S) (t : Tuple X) → is_some (get k prog) ≡ true
        → in_total (get k fin) t ≡ true
        → holds k t
    pub regular :
        (k : S)
        → is_some (get k prog) ≡ true
        → (store : EpochStore X) × (get k fin ≡ some store) × IsRegular store
    pub settled : (k : S) → has_news (get k fin) ≡ false
    pub agrees : Agrees prog stores fin

  -- A program of rules without aggregations.
  pub record IsPlain (prog : BTreeMap S (CompiledRuleSet e)) (start : Stores X S) : Type 0 where
    pub sorted : IsSorted prog
    pub plain :
        (k : S) (set : CompiledRuleSet e)
        → get k prog ≡ some set
        → (rule_set : List (CompiledRule e)) × (set ≡ rules rule_set)
          × (aggr_kind set ≡ ok none_kind)
    pub reads :
        (k : S) (rule_set : List (CompiledRule e))
        → get k prog ≡ some (rules rule_set)
        → All (Reads prog start) rule_set

-- The stores that a stratum starts with: new ones for its names, and settled ones of earlier strata.
pub record Starts {X : Externals} {S : Type 0} ⦃o : Ord (DataValue X)⦄ ⦃s : Ord S⦄ {e : Engine X S}
    (prog : BTreeMap S (CompiledRuleSet e)) (stores : Stores X S) : Type 0 where
  pub new : (k : S) → is_some (get k prog) ≡ true → (n : ℕ) × (get k stores ≡ some (new_normal X n))
  pub settled : (k : S) → get k prog ≡ none → has_news (get k stores) ≡ false
  pub stored :
      (k : S) (rule_set : List (CompiledRule e))
      → get k prog ≡ some (rules rule_set)
      → All (Stored stores) rule_set
