-- ===== src/Query/Logical.antt =====
-- The normal forms of rule bodies (retia-core/src/query/logical.rs). Positions in the source text are
-- left out.
pub mod Meaning
pub mod Negation
pub mod Conjuncts
mod Tests
use retia.Prelude.{List, [], ◌∷◌, ◌++◌, map}
use retia.Prelude.Result.{Result, ok, err, ◌>>=◌}

-- What the atoms apply and search, which the normal forms only pass on.
pub record Atoms : Type 1 where
  pub RuleApply : Type 0
  pub NamedFieldApply : Type 0
  pub RelationApply : Type 0
  pub OtherExpr : Type 0
  pub Unification : Type 0
  pub SearchInput : Type 0

-- `Expr`, by whether it is an application of `OP_NEGATE`, which `Expr::negate` makes.
pub data Expr (E : Type 0) : Type 0 where
  plain : E → Expr E
  negate : Expr E → Expr E

mutual
  pub data InputAtom (A : Atoms) : Type 0 where
    rule : A.RuleApply → InputAtom A
    named_field_relation : A.NamedFieldApply → InputAtom A
    relation : A.RelationApply → InputAtom A
    predicate : Expr A.OtherExpr → InputAtom A
    negation : InputAtom A → InputAtom A
    conjunction : InputAtoms A → InputAtom A
    disjunction : InputAtoms A → InputAtom A
    unification : A.Unification → InputAtom A
    search : A.SearchInput → InputAtom A

  pub data InputAtoms (A : Atoms) : Type 0 where
    nil : InputAtoms A
    cons : InputAtom A → InputAtoms A → InputAtoms A

-- `UnsafeNegation`
pub data Error : Type 0 where
  unsafe_negation : Error

module _ {A : Atoms} where
  -- `negate_nnf` is `negation_normal_form` of a negation.
  unfoldable mutual
    pub negation_normal_form : InputAtom A → Result Error (InputAtom A)
    negation_normal_form (rule r) = ok (rule r)
    negation_normal_form (named_field_relation r) = ok (named_field_relation r)
    negation_normal_form (relation r) = ok (relation r)
    negation_normal_form (predicate p) = ok (predicate p)
    negation_normal_form (negation a) = negate_nnf a
    negation_normal_form (conjunction args) = nnf_all args >>= λ args'. ok (conjunction args')
    negation_normal_form (disjunction args) = nnf_all args >>= λ args'. ok (disjunction args')
    negation_normal_form (unification u) = ok (unification u)
    negation_normal_form (search s) = ok (search s)

    pub negate_nnf : InputAtom A → Result Error (InputAtom A)
    negate_nnf (rule r) = ok (negation (rule r))
    negate_nnf (named_field_relation r) = ok (negation (named_field_relation r))
    negate_nnf (relation r) = ok (negation (relation r))
    negate_nnf (predicate p) = ok (predicate (negate p))
    negate_nnf (negation a) = negation_normal_form a
    negate_nnf (conjunction args) = negate_all args >>= λ args'. ok (disjunction args')
    negate_nnf (disjunction args) = negate_all args >>= λ args'. ok (conjunction args')
    negate_nnf (unification u) = err unsafe_negation
    negate_nnf (search s) = err unsafe_negation

    pub nnf_all : InputAtoms A → Result Error (InputAtoms A)
    nnf_all nil = ok nil
    nnf_all (cons a args) =
        negation_normal_form a >>= λ a'. nnf_all args >>= λ args'. ok (cons a' args')

    pub negate_all : InputAtoms A → Result Error (InputAtoms A)
    negate_all nil = ok nil
    negate_all (cons a args) =
        negate_nnf a >>= λ a'. negate_all args >>= λ args'. ok (cons a' args')

-- `Disjunction`, of `Conjunction`s of some atoms.
abbrev pub Disjunction : Type 0 → Type 0
Disjunction N = List (List N)

-- `for right in &right_args`
abbrev pub extend_each : {N : Type 0} → List N → Disjunction N → Disjunction N
extend_each left [] = []
extend_each left (right ∷ rights) = (left ++ right) ∷ extend_each left rights

unfoldable pub conjunctive_to_disjunctive_de_morgen :
    {N : Type 0} → Disjunction N → Disjunction N → Disjunction N
conjunctive_to_disjunctive_de_morgen [] rights = []
conjunctive_to_disjunctive_de_morgen (left ∷ lefts) rights =
    extend_each left rights ++ conjunctive_to_disjunctive_de_morgen lefts rights
