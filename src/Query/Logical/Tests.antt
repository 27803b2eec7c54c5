-- ===== src/Query/Logical/Tests.antt =====
-- The normal forms of small bodies.
use retia.Prelude.{ℕ, ◌*◌, ◌==◌, ◌≡◌, refl, ◌&&◌, [], ◌∷◌, length}
use retia.Prelude.Result.{ok, err}
use retia.Query.Logical.{
  Atoms, plain, InputAtom, rule, predicate, negation, conjunction, disjunction, unification, nil,
  cons, Disjunction, unsafe_negation, negation_normal_form, conjunctive_to_disjunctive_de_morgen,
}
use retia.Query.Logical.Meaning.{Truth, holds, safe}
use retia.Query.Logical.Negation.{Normalizes, negation_normal_form-Normalizes}
use retia.Query.Logical.Conjuncts.{says, conjunctive_to_disjunctive-says}

abbrev numbered : Atoms
numbered = record {
  RuleApply = ℕ;
  NamedFieldApply = ℕ;
  RelationApply = ℕ;
  OtherExpr = ℕ;
  Unification = ℕ;
  SearchInput = ℕ;
}

abbrev ones : Truth numbered
ones = record {
  rule_holds = λ n. n == 1;
  named_holds = λ n. n == 1;
  relation_holds = λ n. n == 1;
  expr_holds = λ n. n == 1;
  unification_holds = λ n. n == 1;
  search_holds = λ n. n == 1;
}

-- not (rule 0 and not (rule 1 or predicate 2))
abbrev body : InputAtom numbered
body = negation (
    conjunction (
      cons (rule 0)
        (cons (negation (disjunction (cons (rule 1) (cons (predicate (plain 2)) nil)))) nil)))

nnf_runs :
    (negation_normal_form body
      ≡ ok (
          disjunction (
            cons
              (negation (rule 0))
              (cons (disjunction (cons (rule 1) (cons (predicate (plain 2)) nil))) nil))))
    × (negation_normal_form {A = numbered} (negation (unification 0)) ≡ err unsafe_negation)
unfolding negation_normal_form
nnf_runs = (refl, refl)

negation_normal_form-Normalizes_example :
    Normalizes ones (holds ones body) (safe body) (negation_normal_form body)
negation_normal_form-Normalizes_example = negation_normal_form-Normalizes ones body

abbrev left : Disjunction ℕ
left = (1 ∷ []) ∷ (2 ∷ []) ∷ []

abbrev right : Disjunction ℕ
right = (3 ∷ 1 ∷ []) ∷ (1 ∷ []) ∷ []

conjunctive_to_disjunctive-says_example :
    (says (λ n. n == 1) (conjunctive_to_disjunctive_de_morgen left right)
      ≡ (says (λ n. n == 1) left && says (λ n. n == 1) right))
    × (length (conjunctive_to_disjunctive_de_morgen left right) ≡ length left * length right)
conjunctive_to_disjunctive-says_example = conjunctive_to_disjunctive-says (λ n. n == 1) left right
