-- ===== src/Query/Logical/Negation.antt =====
-- `negation_normal_form` (retia-core/src/query/logical.rs) keeps what a body says.
use retia.Prelude.{◌≡◌, refl, sym, subst, Bool, true, false, not, ◌&&◌, ◌||◌, arith}
use retia.Prelude.Result.{Result, ok, err, panic, ◌>>=◌}
use retia.Query.Logical.{
  Atoms, InputAtom, InputAtoms, rule, named_field_relation, relation, predicate, negation,
  conjunction, disjunction, unification, search, nil, cons, Error, unsafe_negation,
  negation_normal_form, negate_nnf, nnf_all, negate_all,
}
use retia.Query.Logical.Meaning.{
  Truth, holds, all_hold, some_holds, safe, safe_negated, all_safe, all_safe_negated, is_normal,
  all_normal,
}

double_negation : (b : Bool) → not (not b) ≡ b
double_negation b = ground arith

de_morgan :
    (a conj disj : Bool)
    → ((not a && not disj) ≡ not (a || disj)) × ((not a || not conj) ≡ not (a && conj))
de_morgan a conj disj = (ground arith, ground arith)

module _ {A : Atoms} (m : Truth A) where
  -- A result for a body: an equivalent one in normal form if it is safe, and else the error.
  abbrev pub Normalizes : Bool → Bool → Result Error (InputAtom A) → Type 0
  Normalizes truth is_safe (ok a) = (is_safe ≡ true) × (holds m a ≡ truth) × (is_normal a ≡ true)
  Normalizes truth is_safe (err e) = (is_safe ≡ false) × (e ≡ unsafe_negation)
  Normalizes truth is_safe panic = ⊥

  -- The same for the arguments, by what all or one of them say.
  abbrev AllNormalize : Bool → Bool → Bool → Result Error (InputAtoms A) → Type 0
  AllNormalize conj disj is_safe (ok args) =
      (is_safe ≡ true)
      × (all_hold m args ≡ conj)
      × (some_holds m args ≡ disj)
      × (all_normal args ≡ true)
  AllNormalize conj disj is_safe (err e) = (is_safe ≡ false) × (e ≡ unsafe_negation)
  AllNormalize conj disj is_safe panic = ⊥

  as_conjunction :
      (conj disj is_safe : Bool) (u : Result Error (InputAtoms A))
      → AllNormalize conj disj is_safe u
      → Normalizes conj is_safe (u >>= λ args. ok (conjunction args))
        × Normalizes disj is_safe (u >>= λ args. ok (disjunction args))
  unfolding holds is_normal
  as_conjunction conj disj is_safe (ok args) h = ((h.0, h.1, h.3), (h.0, h.2, h.3))
  as_conjunction conj disj is_safe (err e) h = (h, h)
  as_conjunction conj disj is_safe panic h = absurd h

  more_args :
      (truth is_safe conj disj all_safe : Bool) (u : Result Error (InputAtom A))
      (us : Result Error (InputAtoms A))
      → Normalizes truth is_safe u
      → AllNormalize conj disj all_safe us
      → AllNormalize
          (truth && conj)
          (truth || disj)
          (is_safe && all_safe)
          (u >>= λ a. us >>= λ args. ok (cons a args))
  unfolding holds is_normal
  more_args truth is_safe conj disj all_safe (ok a) (ok args) h k = ground arith
  more_args truth is_safe conj disj all_safe (ok a) (err e) h k = ground arith
  more_args truth is_safe conj disj all_safe (ok a) panic h k = absurd k
  more_args truth is_safe conj disj all_safe (err e) us h k = ground arith
  more_args truth is_safe conj disj all_safe panic us h k = absurd h

  mutual
    unfolding negation_normal_form holds safe is_normal

    nnf_goes : (a : InputAtom A) → Normalizes (holds m a) (safe a) (negation_normal_form a)
    nnf_goes (rule r) = (refl, refl, refl)
    nnf_goes (named_field_relation r) = (refl, refl, refl)
    nnf_goes (relation r) = (refl, refl, refl)
    nnf_goes (predicate p) = (refl, refl, refl)
    nnf_goes (negation a) = negate_nnf_goes a
    nnf_goes (conjunction args) = (as_conjunction _ _ _ (nnf_all args) (all_normalize args)).0
    nnf_goes (disjunction args) = (as_conjunction _ _ _ (nnf_all args) (all_normalize args)).1
    nnf_goes (unification u) = (refl, refl, refl)
    nnf_goes (search s) = (refl, refl, refl)

    negate_nnf_goes :
        (a : InputAtom A) → Normalizes (not (holds m a)) (safe_negated a) (negate_nnf a)
    negate_nnf_goes (rule r) = (refl, refl, refl)
    negate_nnf_goes (named_field_relation r) = (refl, refl, refl)
    negate_nnf_goes (relation r) = (refl, refl, refl)
    negate_nnf_goes (predicate p) = (refl, refl, refl)
    negate_nnf_goes (negation a) =
        subst (λ t. Normalizes t (safe a) (negation_normal_form a))
          (sym (double_negation (holds m a))) (nnf_goes a)
    negate_nnf_goes (conjunction args) =
        (as_conjunction _ _ _ (negate_all args) (all_negated args)).1
    negate_nnf_goes (disjunction args) =
        (as_conjunction _ _ _ (negate_all args) (all_negated args)).0
    negate_nnf_goes (unification u) = (refl, refl)
    negate_nnf_goes (search s) = (refl, refl)

    all_normalize :
        (args : InputAtoms A)
        → AllNormalize (all_hold m args) (some_holds m args) (all_safe args) (nnf_all args)
    all_normalize nil = (refl, refl, refl, refl)
    all_normalize (cons a args) =
        more_args _ _ _ _ _ (negation_normal_form a) (nnf_all args) (nnf_goes a)
          (all_normalize args)

    all_negated :
        (args : InputAtoms A)
        → AllNormalize
            (not (some_holds m args))
            (not (all_hold m args))
            (all_safe_negated args)
            (negate_all args)
    all_negated nil = (refl, refl, refl, refl)
    all_negated (cons a args) =
        let (conj, disj) = de_morgan (holds m a) (all_hold m args) (some_holds m args) in
        subst
          (λ t.
            AllNormalize t (not (holds m a && all_hold m args))
              (safe_negated a && all_safe_negated args) (negate_all (cons a args)))
          conj
          (subst
            (λ t.
              AllNormalize (not (holds m a) && not (some_holds m args)) t
                (safe_negated a && all_safe_negated args) (negate_all (cons a args)))
            disj
            (more_args _ _ _ _ _ (negate_nnf a) (negate_all args) (negate_nnf_goes a)
              (all_negated args)))

  -- The negation normal form of a safe body succeeds, says the same as the body whatever its atoms
  -- say, and has negations only before applications of rules and relations. That of any other body,
  -- one with a unification or a search under an odd number of negations, fails as an unsafe negation.
  pub negation_normal_form-Normalizes :
      (a : InputAtom A) → Normalizes (holds m a) (safe a) (negation_normal_form a)
  negation_normal_form-Normalizes a = nnf_goes a
