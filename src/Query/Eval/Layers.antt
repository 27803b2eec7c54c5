-- ===== src/Query/Eval/Layers.antt =====
-- What the evaluation of strata of plain rules promises (retia-core/src/query/eval.rs).
use retia.Prelude.{
  ℕ, zero, suc, ◌*◌, ◌<◌, leb, ◌≡◌, Bool, true, false, ◌&&◌, ◌||◌, none, some, is_some, List, [],
  ◌∷◌, length, All, if◌then◌else◌,
}
use retia.Prelude.Order.{Ord, list_ord}
use retia.Prelude.Result.{ok}
use retia.BTreeMap.{BTreeMap, IsSorted, get}
use retia.BTreeSet.{contains}
use retia.Data.Value.{Externals, DataValue}
use retia.Runtime.TempStore.Regular.{Tuple}
use retia.Runtime.TempStore.Epoch.{EpochStore, new_normal}
use retia.Query.Eval.Rules.{
  Stores, Engine, CompiledRule, CompiledRuleSet, rules, none_kind, aggr_kind,
}
use retia.Query.Eval.View.{IsRegular, in_total, Rows, Reads, Keeps, Starts, IsFixpoint}

module _ {S : Type 0} ⦃s : Ord S⦄ where
  -- Whether a store is still there in a stratum.
  abbrev pub outlives : BTreeMap S ℕ → ℕ → S → Bool
  outlives lifetimes zero k = true
  outlives lifetimes (suc n) k = elim (get k lifetimes) [ none ↦ false | some m ↦ leb (suc n) m ]

  -- The names that have a store in a stratum, `has` those of the stratum before.
  abbrev pub stores_of {ℓ} : {V : Type ℓ} → BTreeMap S ℕ → ℕ → BTreeMap S V → (S → Bool) → S → Bool
  stores_of lifetimes n prog has k = is_some (get k prog) || (outlives lifetimes n k && has k)

module _ {X : Externals} {S : Type 0} ⦃o : Ord (DataValue X)⦄ ⦃s : Ord S⦄ {e : Engine X S} where
  -- Stores that a stratum may start with: the names of `has` are there, with tuples of `us` only.
  pub record Fits (us : List (Tuple X)) (has : S → Bool) (prog : BTreeMap S (CompiledRuleSet e))
      (start : Stores X S) : Type 0 where
    pub starts : Starts prog start
    pub present : (k : S) → has k ≡ true → is_some (get k start) ≡ true
    pub regular : (k : S) (store : EpochStore X) → get k start ≡ some store → IsRegular store
    pub within : (k : S) (t : Tuple X) → in_total (get k start) t ≡ true → contains t us ≡ true

  -- The stores with which a stratum starts: new ones, and those of before that live on.
  pub record Begins (lifetimes : BTreeMap S ℕ) (n : ℕ) (prog : BTreeMap S (CompiledRuleSet e))
      (stores start : Stores X S) : Type 0 where
    pub new :
        (k : S) → is_some (get k prog) ≡ true → (m : ℕ) × (get k start ≡ some (new_normal X m))
    pub kept :
        (k : S)
        → get k prog ≡ none
        → get k start ≡ (if outlives lifetimes n k then get k stores else none)

module _ {X : Externals} {S : Type 0} ⦃o : Ord (DataValue X)⦄ ⦃s : Ord S⦄ {e : Engine X S}
    (r : Rows e) (us : List (Tuple X)) (lifetimes : BTreeMap S ℕ) where
  -- A stratum of plain rules, which contain names with a store only and find tuples of `us` only.
  pub record IsLayer (has : S → Bool) (prog : BTreeMap S (CompiledRuleSet e)) : Type 0 where
    pub sorted : IsSorted prog
    pub plain :
        (k : S) (set : CompiledRuleSet e)
        → get k prog ≡ some set
        → (rule_set : List (CompiledRule e)) × (set ≡ rules rule_set)
          × (aggr_kind set ≡ ok none_kind)
    pub contained :
        (k : S) (rule_set : List (CompiledRule e))
        → get k prog ≡ some (rules rule_set)
        → All
            (λ rule. (j : S) → is_some (get j rule.contained_rules) ≡ true → has j ≡ true)
            rule_set
    pub reads :
        (start : Stores X S)
        → Fits us has prog start
        → (k : S) (rule_set : List (CompiledRule e)) → get k prog ≡ some (rules rule_set)
        → All (Reads r prog start) rule_set
    pub bounded :
        (start : Stores X S)
        → Fits us has prog start
        → Keeps r prog start (λ k t. contains t us ≡ true)

  -- Strata from `n` on, with fuel for each, the last of which leaves a store for the entry.
  abbrev pub IsLayered : ℕ → S → ℕ → List (BTreeMap S (CompiledRuleSet e)) → (S → Bool) → Type 0
  IsLayered fuel entry n [] has = has entry ≡ true
  IsLayered fuel entry n (prog ∷ strata) has =
      IsLayer (stores_of lifetimes n prog has) prog
      × (length prog * length us < fuel)
      × IsLayered fuel entry (suc n) strata (stores_of lifetimes n prog has)

  -- Each stratum reaches the fixpoint of its rules over the stores of the strata before.
  pub data Evaluated
      : ℕ → List (BTreeMap S (CompiledRuleSet e)) → Stores X S → Stores X S → Type 1 where
    done : {n : ℕ} {stores : Stores X S} → Evaluated n [] stores stores
    next :
        {n : ℕ} {prog : BTreeMap S (CompiledRuleSet e)}
        {strata : List (BTreeMap S (CompiledRuleSet e))} {stores fin : Stores X S}
        (start mid : Stores X S)
        → Begins lifetimes n prog stores start
        → IsFixpoint r prog start mid
        → Evaluated (suc n) strata mid fin
        → Evaluated n (prog ∷ strata) stores fin
