-- ===== src/Query/Stratify/Rules.antt =====
-- Where `into_stratified_program` (retia-core/src/query/stratify.rs) puts each rule.
use retia.Prelude.{
  ℕ, zero, suc, ◌<◌, ◌==◌, ◌≡◌, refl, ap, ◌∙◌, Bool, false, ◌&&◌, Option, none, some, List, [], ◌∷◌,
  length, replicate, get_elem?, set, length-set, get_elem?-set, get_elem?-lt, if◌then◌else◌, arith,
  Bool-cases, Option-cases, inl, inr,
}
use retia.Prelude.Order.{Ord, eq?}
use retia.Prelude.Result.{ok}
use retia.BTreeMap.{BTreeMap, get, IsSorted}
use retia.BTreeMap.Laws.{get-insert, get-Above}
use retia.Query.Program.{Parts, NormalFormRulesOrFixed, NormalFormProgram}
use retia.Query.Stratify.Place.{add_rule, place_rules}
use retia.Query.Stratify.Verified.{get-cons}

abbrev pub is_at : ℕ → Option ℕ → Bool
is_at i none = false
is_at i (some j) = j == i

module _ {P : Parts} {S : Type 0} ⦃o : Ord S⦄ where
  -- The rules of a name in one of the strata.
  abbrev pub rules_at : List (NormalFormProgram P S) → ℕ → S → Option (NormalFormRulesOrFixed P S)
  rules_at ret i k = elim (get_elem? ret i) [ none ↦ none | some p ↦ get k p.prog ]

  -- The strata after one name.
  abbrev placed_once :
      List (NormalFormProgram P S)
      → ℕ
      → S
      → NormalFormRulesOrFixed P S
      → NormalFormProgram P S
      → List (NormalFormProgram P S)
  placed_once ret idx name rs target = set ret idx (add_rule name rs target)

  rules_at-once :
      (ret : List (NormalFormProgram P S)) (idx : ℕ) (name : S) (rs : NormalFormRulesOrFixed P S)
      (target : NormalFormProgram P S) (i : ℕ) (k : S)
      → get_elem? ret idx ≡ some target
      → idx < length ret
      → rules_at (placed_once ret idx name rs target) i k
        ≡ (if (i == idx) && eq? k name then some rs else rules_at ret i k)
  rules_at-once ret idx name rs target i k e h = elim (Bool-cases (i == idx)) [
    | inl same ↦
        let j : i ≡ idx = ground arith in
        let f = ap (get_elem? ret) j in
        ground (
          arith,
          get_elem?-set ret idx (add_rule name rs target) i h,
          get-insert k name rs target.prog,
        )
    | inr other ↦ ground (arith, get_elem?-set ret idx (add_rule name rs target) i h)
  ]

  -- A name's rules are put in its stratum; what was there before stays.
  pub record Places (at : S → Option ℕ) (prog : BTreeMap S (NormalFormRulesOrFixed P S))
      (ret out : List (NormalFormProgram P S)) : Type 0 where
    pub size : length out ≡ length ret
    pub reads :
        (i : ℕ) (k : S)
        → rules_at out i k ≡ elim (get k prog) [
          | none ↦ rules_at ret i k
          | some rs ↦ if is_at i (at k) then some rs else rules_at ret i k
        ]

  pub place_rules-Places :
      (at : S → Option ℕ) (prog : BTreeMap S (NormalFormRulesOrFixed P S))
      (ret : List (NormalFormProgram P S))
      → IsSorted prog
      → ((k : S) (i : ℕ) → at k ≡ some i → i < length ret)
      → (out : List (NormalFormProgram P S)) × (place_rules at prog ret ≡ ok out)
        × Places at prog ret out
  unfolding place_rules
  place_rules-Places at [] ret s below =
      (ret, refl, record { size = refl; reads = λ i k. unfold get in refl })
  place_rules-Places at ((name, rs) ∷ prog) ret s below = elim (Option-cases (at name)) [
    | inl e ↦
        let (out, runs, rest) = place_rules-Places at prog ret s.1 below in
        (
          out,
          ground arith,
          record {
            size = rest.size;
            reads = λ i k. elim (Bool-cases (eq? k name)) [
              | inl same ↦
                  let j = o.eq_of_cmp k name (ground arith) in
                  let f = ap at j in
                  let g : get k prog ≡ none = rw j (get-Above name prog s.0) in
                  ground (arith, rest.reads i k, get-cons k name rs prog)
              | inr other ↦ ground (arith, rest.reads i k, get-cons k name rs prog)
            ];
          },
        )
    | inr (idx, e) ↦
        let h = below name idx e in
        let (target, there) = get_elem?-lt ret idx h in
        let mid = placed_once ret idx name rs target in
        let (out, runs, rest) =
          place_rules-Places at prog mid s.1
            (λ k i f. rw (length-set ret idx (add_rule name rs target)) (below k i f)) in
        (
          out,
          ground arith,
          record {
            size = rest.size ∙ length-set ret idx (add_rule name rs target);
            reads = λ i k. elim (Bool-cases (eq? k name)) [
              | inl same ↦
                  let j = o.eq_of_cmp k name (ground arith) in
                  let f = ap at j in
                  let g : get k prog ≡ none = rw j (get-Above name prog s.0) in
                  ground (
                    arith,
                    rest.reads i k,
                    get-cons k name rs prog,
                    rules_at-once ret idx name rs target i k there h,
                  )
              | inr other ↦ ground (
                arith,
                rest.reads i k,
                get-cons k name rs prog,
                rules_at-once ret idx name rs target i k there h,
              )
            ];
          },
        )
  ]

  -- A stratum that is still blank has no rules.
  pub rules_at-replicate :
      (n i : ℕ) (k : S) (p : NormalFormProgram P S)
      → get k p.prog ≡ none
      → rules_at (replicate n p) i k ≡ none
  rules_at-replicate zero i k p h = refl
  rules_at-replicate (suc n) zero k p h = h
  rules_at-replicate (suc n) (suc i) k p h = rules_at-replicate n i k p h
