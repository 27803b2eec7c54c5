-- ===== src/Query/Eval/SampleStrata.antt =====
-- Two strata for the tests of the evaluation: the second one reads the first (retia-core/src/query/eval.rs).
use retia.Prelude.{
  ℕ, ◌≡◌, refl, ap, ◌∙◌, sym, subst, Bool, true, false, some, is_some, List, [], ◌∷◌, All, arith,
  inl, inr,
}
use retia.Prelude.Order.{Ord, list_ord, nat_ord}
use retia.BTreeMap.{BTreeMap, get}
use retia.BTreeMap.Laws.{key_cases}
use retia.BTreeSet.{contains}
use retia.Data.Value.{DataValue}
use retia.Data.Value.Sample.{sample}
use retia.Query.Eval.Rules.{Stores, CompiledRuleSet, rules, aggr_kind}
use retia.Query.Eval.View.{in_total, Reads, derived, Keeps}
use retia.Query.Eval.Layers.{stores_of, IsLayer, IsLayered}
use retia.Query.Eval.Sample.{
  no, yes, engine, base, step, program, program_rows, only, base-Reads, step-Reads, contains-if,
  in_two,
}

module _ ⦃o : Ord (DataValue sample)⦄ where
  abbrev pub reader : BTreeMap ℕ (CompiledRuleSet engine)
  reader = (1, rules (step ∷ [])) ∷ []

  abbrev pub two_strata : List (BTreeMap ℕ (CompiledRuleSet engine))
  two_strata = program ∷ reader ∷ []

abbrev pub lifetimes : BTreeMap ℕ ℕ
lifetimes = (0, 1) ∷ (1, 1) ∷ []

module _ ⦃o : Ord (DataValue sample)⦄ where
  only_reader :
      (k : ℕ) (set : CompiledRuleSet engine)
      → get k reader ≡ some set
      → (k ≡ 1) × (set ≡ rules (step ∷ []))
  only_reader k set h = elim (key_cases k 1 (rules (step ∷ [])) []) [
    | inl (i, g) ↦ (i, cc)
    | inr (d, g) ↦ absurd (unfold get in cc)
  ]

  step_zero : (j : ℕ) → is_some (get j step.contained_rules) ≡ true → j ≡ 0
  unfolding get
  step_zero j h = ground (arith, nat_ord.eq_of_cmp j 0)

  abbrev first_has : ℕ → Bool
  first_has = stores_of lifetimes 0 program (λ k. false)

  zero_first : first_has 0 ≡ true
  unfolding get nat_ord
  zero_first = refl

  zero_second : stores_of lifetimes 1 reader first_has 0 ≡ true
  unfolding get nat_ord
  zero_second = refl

  base_contains_none : (j : ℕ) → is_some (get j base.contained_rules) ≡ false
  unfolding get
  base_contains_none j = refl

  program-IsLayer : IsLayer program_rows (no ∷ yes ∷ []) lifetimes first_has program
  program-IsLayer = record {
    sorted = (tt, tt);
    plain = λ k set h. let (i, same) = only k set h in (base ∷ step ∷ [], same, ap aggr_kind same);
    contained = λ k rule_set h.
        let (i, same) = only k (rules rule_set) h in
        let i : base ∷ step ∷ [] ≡ rule_set = cc same in
        subst
          (All (λ rule. (j : ℕ) → is_some (get j rule.contained_rules) ≡ true → first_has j ≡ true))
          i
          (
            (λ j c. absurd (cc (base_contains_none j))),
            ((λ j c. ap first_has (step_zero j c) ∙ zero_first), tt),
          );
    reads = λ start fits k rule_set h.
        let (i, same) = only k (rules rule_set) h in
        let i : base ∷ step ∷ [] ≡ rule_set = cc same in
        subst (All (Reads program_rows program start)) i
          (base-Reads program start, (step-Reads program start, tt));
    bounded = λ start fits. in_two start;
  }

  in_two_reader :
      (begin : Stores sample ℕ)
      → Keeps program_rows reader begin (λ k t. contains t (no ∷ yes ∷ []) ≡ true)
  unfolding derived contains
  in_two_reader begin stores state held k rule_set t h d =
      let (i, same) = only_reader k (rules rule_set) h in
      let i : rule_set ≡ step ∷ [] = cc same in
      let d' : derived program_rows (step ∷ []) stores t ≡ true =
        ap (λ x. derived program_rows x stores t) (sym i) ∙ d in
      ground (arith, contains-if t (in_total (get 0 stores) no))

  reader-IsLayer :
      IsLayer program_rows (no ∷ yes ∷ []) lifetimes (stores_of lifetimes 1 reader first_has) reader
  reader-IsLayer = record {
    sorted = (tt, tt);
    plain = λ k set h. let (i, same) = only_reader k set h in (step ∷ [], same, ap aggr_kind same);
    contained = λ k rule_set h.
        let (i, same) = only_reader k (rules rule_set) h in
        let i : step ∷ [] ≡ rule_set = cc same in
        subst
          (All (λ rule.
            (j : ℕ)
            → is_some (get j rule.contained_rules) ≡ true
            → stores_of lifetimes 1 reader first_has j ≡ true))
          i
          ((λ j c. ap (stores_of lifetimes 1 reader first_has) (step_zero j c) ∙ zero_second), tt);
    reads = λ start fits k rule_set h.
        let (i, same) = only_reader k (rules rule_set) h in
        let i : step ∷ [] ≡ rule_set = cc same in
        subst (All (Reads program_rows reader start)) i (step-Reads reader start, tt);
    bounded = λ start fits. in_two_reader start;
  }

  pub two_strata-IsLayered :
      IsLayered program_rows (no ∷ yes ∷ []) lifetimes 3 1 0 two_strata (λ k. false)
  unfolding get nat_ord
  two_strata-IsLayered = (program-IsLayer, omega arith, (reader-IsLayer, omega arith, refl))
