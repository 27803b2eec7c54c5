-- ===== src/Query/Stratify/Uses.antt =====
-- The dependencies of a program (retia-core/src/query/stratify.rs), read off its rules.
use retia.Prelude.{
  ℕ, ◌≡◌, refl, ap, Bool, true, false, not, ◌&&◌, ◌||◌, Option, none, some, List, [], ◌∷◌,
  if◌then◌else◌, arith, Bool-cases, Option-cases, inl, inr, get_elem?,
}
use retia.Prelude.Order.{Ord, eq?}
use retia.BTreeMap.{BTreeMap, get, insert, IsSorted}
use retia.BTreeMap.Laws.{get-insert, get-Above}
use retia.BTreeSet.{BTreeSet, contains}
use retia.BTreeSet.Laws.{contains-insert}
use retia.Query.Program.{
  Parts, NormalFormAtom, rule, relation, negated_rule, negated_relation, predicate, unification,
  hnsw_search, fts_search, lsh_search, NormalFormInlineRule, in_mem, NormalFormRulesOrFixed, rules,
  fixed,
}
use retia.Query.Stratify.Convert.{
  has_aggr, is_meet_rule_set, is_meet_rule, is_fixed_rule, contained_rules, names_where,
  add_dependency, note_rules,
}
use retia.Query.Stratify.Verified.{get-cons}
use retia.Query.Stratify.Reduced.{carries}

module _ {P : Parts} {S : Type 0} ⦃o : Ord S⦄ where
  -- Whether the rules of a name pass a test.
  abbrev pub rules_pass :
      (NormalFormRulesOrFixed P S → Bool) → BTreeMap S (NormalFormRulesOrFixed P S) → S → Bool
  rules_pass test prog v = elim (get v prog) [ none ↦ false | some rs ↦ test rs ]

  -- A use of `v` in the rules of `k` that must wait until `v` is complete: a negated one, one of a
  -- fixed rule, one under an aggregation that is not a meet of `k` over itself, and one of another
  -- name whose rules are a meet aggregation.
  abbrev pub forbidden :
      BTreeMap S (NormalFormRulesOrFixed P S)
      → S
      → List (NormalFormInlineRule P S)
      → S
      → Bool
      → Bool
  forbidden prog k rs v negated =
      negated
      || (rules_pass is_fixed_rule prog v
          || (if has_aggr rs
              then not (is_meet_rule_set rs && eq? k v)
              else rules_pass is_meet_rule prog v && not (eq? v k)))

  -- An atom that applies a name's rules, negated or not.
  abbrev pub Applies : NormalFormAtom P S → S → Bool → Type 0
  Applies (rule name args) v negated = (name ≡ v) × (negated ≡ false)
  Applies (negated_rule name args) v negated = (name ≡ v) × (negated ≡ true)
  Applies (relation r) v negated = ⊥
  Applies (negated_relation r) v negated = ⊥
  Applies (predicate e) v negated = ⊥
  Applies (unification u) v negated = ⊥
  Applies (hnsw_search q) v negated = ⊥
  Applies (fts_search q) v negated = ⊥
  Applies (lsh_search q) v negated = ⊥

  pub contained_rules-Applies :
      (atom : NormalFormAtom P S) (v : S) (negated : Bool)
      → Applies atom v negated
      → contained_rules atom ≡ (v, negated) ∷ []
  contained_rules-Applies (rule name args) v negated h = cc
  contained_rules-Applies (negated_rule name args) v negated h = cc
  contained_rules-Applies (relation r) v negated h = absurd h
  contained_rules-Applies (negated_relation r) v negated h = absurd h
  contained_rules-Applies (predicate e) v negated h = absurd h
  contained_rules-Applies (unification u) v negated h = absurd h
  contained_rules-Applies (hnsw_search q) v negated h = absurd h
  contained_rules-Applies (fts_search q) v negated h = absurd h
  contained_rules-Applies (lsh_search q) v negated h = absurd h

  -- The rules use a name, in an atom of a body or as an argument, and `p` is whether the use has to wait.
  abbrev pub Uses :
      BTreeMap S (NormalFormRulesOrFixed P S) → S → NormalFormRulesOrFixed P S → S → Bool → Type 0
  Uses prog k (rules rs) v p =
      (n : ℕ) × (r : NormalFormInlineRule P S) × (m : ℕ) × (atom : NormalFormAtom P S)
      × (negated : Bool) × (get_elem? rs n ≡ some r)
      × (get_elem? r.body m ≡ some atom)
      × Applies atom v negated
      × (p ≡ forbidden prog k rs v negated)
  Uses prog k (fixed apply) v p =
      (n : ℕ) × (bindings : List S) × (get_elem? apply.rule_args n ≡ some (in_mem v bindings))
      × (p ≡ true)

  pub contains_names :
      (test : NormalFormRulesOrFixed P S → Bool) (prog : BTreeMap S (NormalFormRulesOrFixed P S))
      (v : S)
      → IsSorted prog
      → contains v (names_where test prog) ≡ rules_pass test prog v
  unfolding names_where
  contains_names test [] v s = unfold get contains in refl
  contains_names test ((k, rs) ∷ prog) v s = elim (Bool-cases (eq? v k)) [
    | inl same ↦
        let i = o.eq_of_cmp v k (ground arith) in
        let gone : get v prog ≡ none = rw i (get-Above k prog s.0) in
        ground (
          arith,
          get-cons v k rs prog,
          contains_names test prog v s.1,
          contains-insert v k (names_where test prog),
        )
    | inr other ↦ ground (
      arith,
      get-cons v k rs prog,
      contains_names test prog v s.1,
      contains-insert v k (names_where test prog),
    )
  ]

module _ {S : Type 0} ⦃o : Ord S⦄ where
  insert_keeps :
      (t v : S) (p q : Bool) (ret : BTreeMap S Bool)
      → carries q (get t ret) ≡ true
      → (eq? t v ≡ true → carries q (some p) ≡ true)
      → carries q (get t (insert v p ret)) ≡ true
  insert_keeps t v p q ret h f = ground (arith, get-insert t v p ret)

  -- What was found stays found, and poisoned if it was.
  dependency_keeps :
      (aggr meet : Bool) (k v t : S) (fm ff n : Bool) (q : Bool) (ret : BTreeMap S Bool)
      → carries q (get t ret) ≡ true
      → carries q (get t (insert v (add_dependency aggr meet k v fm ff n (get v ret)) ret)) ≡ true
  dependency_keeps aggr meet k v t fm ff n q ret h =
      insert_keeps t v (add_dependency aggr meet k v fm ff n (get v ret)) q ret h kept
    where
      kept :
          eq? t v ≡ true
          → carries q (some (add_dependency aggr meet k v fm ff n (get v ret))) ≡ true
      kept e =
          let f = ap (λ x. get x ret) (o.eq_of_cmp t v (ground arith)) in
          elim (Option-cases (get v ret)) [
            | inl g ↦ absurd (ground arith)
            | inr (old, g) ↦ ground arith
          ]

  eq?_sym : (k v : S) → eq? k v ≡ eq? v k
  eq?_sym k v = elim (Bool-cases (eq? k v)) [
    | inl e ↦ let i = o.eq_of_cmp k v (ground arith) in rw i refl
    | inr e ↦ elim (Bool-cases (eq? v k)) [
      | inl f ↦ let i = o.eq_of_cmp v k (ground arith) in rw i refl
      | inr f ↦ ground arith
    ]
  ]

  -- The entry that a use makes is poisoned if the use has to wait.
  dependency_adds :
      (aggr meet : Bool) (k v : S) (fm ff n : Bool) (old : Option Bool)
      → carries
          (n || (ff || (if aggr then not (meet && eq? k v) else fm && not (eq? v k))))
          (some (add_dependency aggr meet k v (fm && not (eq? v k)) ff n old))
        ≡ true
  dependency_adds aggr meet k v fm ff n none = ground (arith, eq?_sym k v)
  dependency_adds aggr meet k v fm ff n (some old) = ground (arith, eq?_sym k v)

  module _ (meet_rules fixed_rules : BTreeSet S) (k : S) (aggr meet : Bool) where
    pub note_rules_keeps :
        (contained ret : BTreeMap S Bool) (t : S) (q : Bool)
        → carries q (get t ret) ≡ true
        → carries q (get t (note_rules meet_rules fixed_rules k aggr meet contained ret)) ≡ true
    unfolding note_rules
    note_rules_keeps [] ret t q h = h
    note_rules_keeps ((v, n) ∷ contained) ret t q h = note_rules_keeps contained _ t q (
        dependency_keeps aggr meet k v t (contains v meet_rules && not (eq? v k))
          (contains v fixed_rules) n q ret h)

    pub note_rules_adds :
        (ret : BTreeMap S Bool) (v : S) (n : Bool)
        → carries
            (n
              || (contains v fixed_rules
                  || (if aggr
                      then not (meet && eq? k v)
                      else contains v meet_rules && not (eq? v k))))
            (get v (note_rules meet_rules fixed_rules k aggr meet ((v, n) ∷ []) ret))
          ≡ true
    unfolding note_rules
    note_rules_adds ret v n = ground (
      arith,
      get-insert v v
          (add_dependency aggr meet k v (contains v meet_rules && not (eq? v k))
            (contains v fixed_rules) n (get v ret))
          ret,
      o.cmp_self v,
      dependency_adds aggr meet k v (contains v meet_rules) (contains v fixed_rules) n (get v ret),
    )
