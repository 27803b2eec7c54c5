-- ===== src/Query/Eval/Deltas.antt =====
-- What a plain rule derives in a later epoch (retia-core/src/query/eval.rs).
use retia.Prelude.{
  ◌≡◌, ◌⊎◌, refl, ap, ◌∙◌, Bool, true, false, none, some, is_some, List, [], ◌∷◌, arith, Bool-cases,
  Option-cases, inl, inr,
}
use retia.Prelude.Order.{Ord, list_ord, eq?}
use retia.Prelude.Result.{ok}
use retia.BTreeMap.{get}
use retia.Data.Value.{Externals, DataValue}
use retia.Runtime.TempStore.Epoch.{EpochStore, has_delta}
use retia.Query.Eval.Rules.{ContainedRuleMultiplicity, one, many, Stores}
use retia.Query.Eval.Plain.{look_at_deltas}
use retia.Query.Eval.View.{has_news}

mult_cases : (m : ContainedRuleMultiplicity) → (m ≡ one) ⊎ (m ≡ many)
mult_cases one = inl refl
mult_cases many = inr refl

module _ {X : Externals} {S : Type 0} ⦃o : Ord (DataValue X)⦄ ⦃s : Ord S⦄ where
  -- What the loop over the contained rules tells.
  pub record Looks (contained : List (S × ContainedRuleMultiplicity)) (stores : Stores X S)
      (changed complete : Bool) : Type 0 where
    pub quiet :
        changed ≡ false
        → (k : S) → is_some (get k contained) ≡ true
        → has_news (get k stores) ≡ false
    pub once :
        complete ≡ false → (k : S) → get k contained ≡ some many → has_news (get k stores) ≡ false

  -- Splits on whether `k` is `j`.
  news_cons {ℓ} :
      {A : Type ℓ} (k j : S) (m : A) (contained : List (S × A)) (stores : Stores X S)
      (store : EpochStore X)
      → get j stores ≡ some store
      → has_delta store ≡ false
      → (is_some (get k contained) ≡ true → has_news (get k stores) ≡ false)
      → is_some (get k ((j, m) ∷ contained)) ≡ true
      → has_news (get k stores) ≡ false
  unfolding get
  news_cons k j m contained stores store e d rest h = elim (Bool-cases (eq? k j)) [
    | inl same ↦
        let i : k ≡ j = s.eq_of_cmp k j (ground arith) in
        ap (λ x. has_news (get x stores)) i ∙ ap has_news e ∙ d
    | inr differ ↦ rest (ground arith)
  ]

  pub look_at_deltas-Looks :
      (contained : List (S × ContainedRuleMultiplicity)) (stores : Stores X S) (before : Bool)
      → ((k : S) → is_some (get k contained) ≡ true → is_some (get k stores) ≡ true)
      → (changed complete : Bool) × (look_at_deltas contained stores before
          ≡ ok (changed, complete))
        × Looks contained stores changed complete
        × (changed ≡ false → before ≡ false)
  unfolding look_at_deltas get
  look_at_deltas-Looks [] stores before stored = (
    before,
    false,
    refl,
    record {
      quiet = λ e k (h : false ≡ true). absurd (cc);
      once = λ e k (h : none ≡ some many). absurd (cc);
    },
    λ e. e,
  )
  look_at_deltas-Looks ((j, m) ∷ contained) stores before stored =
      let rest : (k : S) → is_some (get k contained) ≡ true → is_some (get k stores) ≡ true =
        λ k h. stored k (ground arith) in
      elim (Option-cases (get j stores)) [
        | inl e ↦ absurd (ground (arith, stored j, s.cmp_self j))
        | inr (store, e) ↦ elim (Bool-cases (has_delta store)) [
          | inl d ↦ elim (mult_cases m) [
            | inl f ↦
                let (changed, complete, runs, l, b) =
                  look_at_deltas-Looks contained stores true rest in
                let moved : changed ≡ false → true ≡ false = b in
                (
                  changed,
                  complete,
                  ground arith,
                  record {
                    quiet = λ g k h. absurd (cc (moved g));
                    once = λ g k h. l.once g k (ground arith);
                  },
                  λ g. absurd (cc (moved g)),
                )
            | inr f ↦ (
              true,
              true,
              ground arith,
              record {
                quiet = λ (g : true ≡ false) k h. absurd (cc);
                once = λ (g : true ≡ false) k h. absurd (cc);
              },
              λ (g : true ≡ false). absurd (cc),
            )
          ]
          | inr d ↦
              let (changed, complete, runs, l, b) =
                look_at_deltas-Looks contained stores before rest in
              (
                changed,
                complete,
                ground arith,
                record {
                  quiet = λ f k h. news_cons k j m contained stores store e d (l.quiet f k) h;
                  once = λ f k h. elim (Bool-cases (eq? k j)) [
                    | inl same ↦
                        let i : k ≡ j = s.eq_of_cmp k j (ground arith) in
                        ap (λ x. has_news (get x stores)) i ∙ ap has_news e ∙ d
                    | inr differ ↦ l.once f k (ground arith)
                  ];
                },
                b,
              )
        ]
      ]
