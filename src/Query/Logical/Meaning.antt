-- ===== src/Query/Logical/Meaning.antt =====
-- What a rule body says, given what its atoms say.
use retia.Prelude.{Bool, true, false, not, ◌&&◌, ◌||◌}
use retia.Query.Logical.{
  Atoms, Expr, plain, negate, InputAtom, InputAtoms, rule, named_field_relation, relation,
  predicate, negation, conjunction, disjunction, unification, search, nil, cons,
}

pub record Truth (A : Atoms) : Type 0 where
  pub rule_holds : A.RuleApply → Bool
  pub named_holds : A.NamedFieldApply → Bool
  pub relation_holds : A.RelationApply → Bool
  pub expr_holds : A.OtherExpr → Bool
  pub unification_holds : A.Unification → Bool
  pub search_holds : A.SearchInput → Bool

module _ {A : Atoms} (m : Truth A) where
  abbrev pub predicate_holds : Expr A.OtherExpr → Bool
  predicate_holds (plain e) = m.expr_holds e
  predicate_holds (negate p) = not (predicate_holds p)

  unfoldable mutual
    pub holds : InputAtom A → Bool
    holds (rule r) = m.rule_holds r
    holds (named_field_relation r) = m.named_holds r
    holds (relation r) = m.relation_holds r
    holds (predicate p) = predicate_holds p
    holds (negation a) = not (holds a)
    holds (conjunction args) = all_hold args
    holds (disjunction args) = some_holds args
    holds (unification u) = m.unification_holds u
    holds (search s) = m.search_holds s

    pub all_hold : InputAtoms A → Bool
    all_hold nil = true
    all_hold (cons a args) = holds a && all_hold args

    pub some_holds : InputAtoms A → Bool
    some_holds nil = false
    some_holds (cons a args) = holds a || some_holds args

module _ {A : Atoms} where
  -- No unification or search stands under an odd number of negations; `safe_negated` is for what stands
  -- under one more.
  unfoldable mutual
    pub safe : InputAtom A → Bool
    safe (negation a) = safe_negated a
    safe (conjunction args) = all_safe args
    safe (disjunction args) = all_safe args
    safe _ = true

    pub safe_negated : InputAtom A → Bool
    safe_negated (negation a) = safe a
    safe_negated (conjunction args) = all_safe_negated args
    safe_negated (disjunction args) = all_safe_negated args
    safe_negated (unification u) = false
    safe_negated (search s) = false
    safe_negated _ = true

    pub all_safe : InputAtoms A → Bool
    all_safe nil = true
    all_safe (cons a args) = safe a && all_safe args

    pub all_safe_negated : InputAtoms A → Bool
    all_safe_negated nil = true
    all_safe_negated (cons a args) = safe_negated a && all_safe_negated args

  -- Negations stand only before applications of rules and relations.
  abbrev pub applies : InputAtom A → Bool
  applies (rule r) = true
  applies (named_field_relation r) = true
  applies (relation r) = true
  applies _ = false

  unfoldable mutual
    pub is_normal : InputAtom A → Bool
    is_normal (negation a) = applies a
    is_normal (conjunction args) = all_normal args
    is_normal (disjunction args) = all_normal args
    is_normal _ = true

    pub all_normal : InputAtoms A → Bool
    all_normal nil = true
    all_normal (cons a args) = is_normal a && all_normal args
