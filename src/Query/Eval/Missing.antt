-- ===== src/Query/Eval/Missing.antt =====
-- How many tuples of a finite set the names of a program do not have yet: less after each epoch
-- that changes anything (retia-core/src/query/eval.rs).
use retia.Prelude.{
  ℕ, ◌+◌, ◌*◌, ◌≤◌, ◌<◌, ◌≡◌, ap, ◌∙◌, sym, Bool, true, false, List, [], ◌∷◌, is_some, length,
  if◌then◌else◌, arith, Bool-cases, inl, inr,
}
use retia.Prelude.Order.{Ord, list_ord, eq?}
use retia.BTreeMap.{get}
use retia.BTreeMap.Laws.{key_cases}
use retia.BTreeSet.{contains}

module _ {T : Type 0} ⦃o : Ord T⦄ where
  pub missing : (T → Bool) → List T → ℕ
  missing has [] = 0
  missing has (u ∷ us) = (if has u then 0 else 1) + missing has us

  missing-le : (has : T → Bool) (us : List T) → missing has us ≤ length us
  unfolding missing
  missing-le has [] = omega arith
  missing-le has (u ∷ us) = ground (arith, missing-le has us)

  module _ (has has' : T → Bool) (mono : (t : T) → has t ≡ true → has' t ≡ true) where
    missing-le-missing : (us : List T) → missing has' us ≤ missing has us
    unfolding missing
    missing-le-missing [] = omega arith
    missing-le-missing (u ∷ us) = ground (arith, mono u, missing-le-missing us)

    missing-lt-missing :
        (t : T)
        → has t ≡ false
        → has' t ≡ true
        → (us : List T) → contains t us ≡ true
        → missing has' us < missing has us
    unfolding missing contains
    missing-lt-missing t h h' [] c = absurd (cc)
    missing-lt-missing t h h' (u ∷ us) c = elim (Bool-cases (eq? t u)) [
      | inl e ↦
          let i : t ≡ u = o.eq_of_cmp t u (ground arith) in
          let g : has u ≡ false = ap has (sym i) ∙ h in
          let g' : has' u ≡ true = ap has' (sym i) ∙ h' in ground (arith, missing-le-missing us)
      | inr e ↦ ground (arith, mono u, missing-lt-missing t h h' us)
    ]

  module _ {S V : Type 0} ⦃s : Ord S⦄ where
    pub all_missing : List (S × V) → (S → T → Bool) → List T → ℕ
    all_missing [] has us = 0
    all_missing ((k, v) ∷ prog) has us = missing (has k) us + all_missing prog has us

    pub all_missing-le :
        (prog : List (S × V)) (has : S → T → Bool) (us : List T)
        → all_missing prog has us ≤ length prog * length us
    unfolding all_missing
    all_missing-le [] has us = omega arith
    all_missing-le ((k, v) ∷ prog) has us =
        grind (arith, missing-le (has k) us, all_missing-le prog has us)

    module _ (has has' : S → T → Bool) (mono : (k : S) (t : T) → has k t ≡ true → has' k t ≡ true)
        (us : List T) where
      all_missing-le-all_missing :
          (prog : List (S × V)) → all_missing prog has' us ≤ all_missing prog has us
      unfolding all_missing
      all_missing-le-all_missing [] = omega arith
      all_missing-le-all_missing ((k, v) ∷ prog) =
          omega (
            arith,
            missing-le-missing (has k) (has' k) (mono k) us,
            all_missing-le-all_missing prog,
          )

      pub all_missing-lt-all_missing :
          (k : S) (t : T)
          → has k t ≡ false
          → has' k t ≡ true
          → contains t us ≡ true
          → (prog : List (S × V)) → is_some (get k prog) ≡ true
          → all_missing prog has' us < all_missing prog has us
      unfolding all_missing
      all_missing-lt-all_missing k t h h' c [] i = absurd (unfold get in cc)
      all_missing-lt-all_missing k t h h' c ((j, v) ∷ prog) i = elim (key_cases k j v prog) [
        | inl (same, g) ↦ omega (
          arith,
          missing-lt-missing (has j) (has' j) (mono j) t (ap (λ x. has x t) (sym same) ∙ h)
              (ap (λ x. has' x t) (sym same) ∙ h') us c,
          all_missing-le-all_missing prog,
        )
        | inr (differ, g) ↦ omega (
          arith,
          missing-le-missing (has j) (has' j) (mono j) us,
          all_missing-lt-all_missing k t h h' c prog (ap is_some (sym g) ∙ i),
        )
      ]
