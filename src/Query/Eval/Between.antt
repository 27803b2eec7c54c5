-- ===== src/Query/Eval/Between.antt =====
-- The stores between two strata of plain rules (retia-core/src/query/eval.rs).
use retia.Prelude.{
  ℕ, ◌≡◌, ◌⊎◌, refl, ap, ◌&&◌, ◌||◌, ◌∙◌, sym, subst, Bool, true, false, none, some, is_some, List,
  [], All-imp, Bool-cases, Option-cases, inl, inr,
}
use retia.Prelude.Order.{Ord, list_ord}
use retia.BTreeMap.{BTreeMap, get}
use retia.BTreeSet.{contains}
use retia.Data.Value.{Externals, DataValue}
use retia.Runtime.TempStore.Regular.{Tuple}
use retia.Runtime.TempStore.Epoch.{EpochStore, new_normal}
use retia.Query.Eval.Rules.{Stores, Engine, CompiledRuleSet}
use retia.Query.Eval.View.{IsRegular, in_total, has_news, Rows, IsFixpoint}
use retia.Query.Eval.Layers.{outlives, stores_of, Fits, Begins, IsLayer}

module _ {X : Externals} ⦃o : Ord (DataValue X)⦄ where
  new_normal-IsRegular : (m : ℕ) → IsRegular (new_normal X m)
  unfolding new_normal
  new_normal-IsRegular m = record { tuples = []; prev = []; is_epoch = refl; sorted = tt }

  new_normal-in_total : (m : ℕ) (t : Tuple X) → in_total (some (new_normal X m)) t ≡ false
  unfolding new_normal get
  new_normal-in_total m t = refl

module _ {X : Externals} {S : Type 0} ⦃o : Ord (DataValue X)⦄ ⦃s : Ord S⦄ where
  -- What the strata before have left: settled stores for the names of `has`, with tuples of `us` only.
  pub record Left (us : List (Tuple X)) (has : S → Bool) (stores : Stores X S) : Type 0 where
    pub settled : (k : S) → has_news (get k stores) ≡ false
    pub present : (k : S) → has k ≡ true → is_some (get k stores) ≡ true
    pub regular : (k : S) (store : EpochStore X) → get k stores ≡ some store → IsRegular store
    pub within : (k : S) (t : Tuple X) → in_total (get k stores) t ≡ true → contains t us ≡ true

  in_total-nothing : (k : S) (t : Tuple X) → in_total (get k []) t ≡ false
  unfolding get
  in_total-nothing k t = refl

  pub none-Left : (us : List (Tuple X)) → Left us (λ k. false) []
  unfolding get
  none-Left us = record {
    settled = λ k. refl;
    present = λ k (h : false ≡ true). absurd (cc);
    regular = λ k store h. absurd (cc h);
    within = λ k t h. absurd (cc (in_total-nothing k t));
  }

module _ {X : Externals} {S : Type 0} ⦃o : Ord (DataValue X)⦄ ⦃s : Ord S⦄ {e : Engine X S}
    (r : Rows e) (us : List (Tuple X)) (lifetimes : BTreeMap S ℕ) (n : ℕ) (has : S → Bool)
    (prog : BTreeMap S (CompiledRuleSet e))
    (layer : IsLayer r us lifetimes (stores_of lifetimes n prog has) prog) where
  module _ (stores start : Stores X S) (left : Left us has stores)
      (begins : Begins lifetimes n prog stores start) where
    -- A name outside the stratum has the store of before or none.
    old_or_none : (k : S) → get k prog ≡ none → (get k start ≡ none) ⊎ (get k start ≡ get k stores)
    old_or_none k h = elim (Bool-cases (outlives lifetimes n k)) [
      | inl i ↦ inr (begins.kept k h ∙ rw i refl)
      | inr i ↦ inl (begins.kept k h ∙ rw i refl)
    ]

    start-present : (k : S) → stores_of lifetimes n prog has k ≡ true → is_some (get k start) ≡ true
    start-present k h = elim (Option-cases (get k prog)) [
      | inl i ↦
          let both : (outlives lifetimes n k && has k) ≡ true =
            ap (λ x. is_some x || (outlives lifetimes n k && has k)) (sym i) ∙ h in
          elim (Bool-cases (outlives lifetimes n k)) [
            | inl c ↦
                let had : has k ≡ true = ap (λ b. b && has k) (sym c) ∙ both in
                let is : get k start ≡ get k stores = begins.kept k i ∙ rw c refl in
                ap is_some is ∙ left.present k had
            | inr c ↦
                let not_both : (outlives lifetimes n k && has k) ≡ false = ap (λ b. b && has k) c in
                absurd (cc)
          ]
      | inr (set, i) ↦ let (m, j) = begins.new k (ap is_some i) in ap is_some j
    ]

    start-IsRegular : (k : S) (store : EpochStore X) → get k start ≡ some store → IsRegular store
    start-IsRegular k store h = elim (Option-cases (get k prog)) [
      | inl i ↦ elim (old_or_none k i) [
        | inl j ↦ absurd (cc)
        | inr j ↦ left.regular k store (sym j ∙ h)
      ]
      | inr (set, i) ↦
          let (m, j) = begins.new k (ap is_some i) in
          let same : new_normal X m ≡ store = cc in
          subst (λ x. IsRegular x) same (new_normal-IsRegular m)
    ]

    start-within : (k : S) (t : Tuple X) → in_total (get k start) t ≡ true → contains t us ≡ true
    start-within k t h = elim (Option-cases (get k prog)) [
      | inl i ↦ elim (old_or_none k i) [
        | inl j ↦
            let none_there : in_total (get k start) t ≡ false = ap (λ x. in_total x t) j in
            absurd (cc)
        | inr j ↦ left.within k t (ap (λ x. in_total x t) (sym j) ∙ h)
      ]
      | inr (set, i) ↦
          let (m, j) = begins.new k (ap is_some i) in
          let none_there : in_total (get k start) t ≡ false =
            ap (λ x. in_total x t) j ∙ new_normal-in_total m t in
          absurd (cc)
    ]

    start-settled : (k : S) → get k prog ≡ none → has_news (get k start) ≡ false
    start-settled k i = elim (old_or_none k i) [
      | inl j ↦ ap has_news j
      | inr j ↦ ap has_news j ∙ left.settled k
    ]

    pub start-Fits : Fits us (stores_of lifetimes n prog has) prog start
    start-Fits = record {
      starts = record {
        new = begins.new;
        settled = start-settled;
        stored = λ k rule_set h.
            All-imp (λ rule c j i. start-present j (c j i)) rule_set (layer.contained k rule_set h);
      };
      present = start-present;
      regular = start-IsRegular;
      within = start-within;
    }

  module _ (start fin : Stores X S) (fits : Fits us (stores_of lifetimes n prog has) prog start)
      (fix : IsFixpoint r prog start fin) where
    pub fin-Left : Left us (stores_of lifetimes n prog has) fin
    fin-Left = record {
      settled = fix.settled;
      present = λ k h. elim (Option-cases (get k prog)) [
        | inl i ↦ ap is_some (fix.agrees k i) ∙ fits.present k h
        | inr (set, i) ↦ let (store, is, regular) = fix.regular k (ap is_some i) in ap is_some is
      ];
      regular = λ k store h. elim (Option-cases (get k prog)) [
        | inl i ↦ fits.regular k store (sym (fix.agrees k i) ∙ h)
        | inr (set, i) ↦
            let (store', is, regular) = fix.regular k (ap is_some i) in
            let same : store' ≡ store = cc in subst (λ x. IsRegular x) same regular
      ];
      within = λ k t h. elim (Option-cases (get k prog)) [
        | inl i ↦ fits.within k t (ap (λ x. in_total x t) (sym (fix.agrees k i)) ∙ h)
        | inr (set, i) ↦
            fix.least (λ k t. contains t us ≡ true) (layer.bounded start fits) k t (ap is_some i) h
      ];
    }
