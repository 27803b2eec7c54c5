-- ===== src/Query/Stratify/Ranks.antt =====
-- The components that `into_stratified_program` (retia-core/src/query/stratify.rs) sorts have no cycle: ranks that
-- every edge between two of them raises.
use retia.Prelude.{
  ℕ, ◌<◌, ◌≤◌, ◌==◌, ◌≡◌, refl, sym, ap, ◌∙◌, true, false, some, none, List, [], ◌∷◌, get_elem?,
  map, map-get_elem?, get_elem?-map, arith, Bool-cases, inl, inr,
}
use retia.Prelude.Order.{Ord}
use retia.BTreeSet
use retia.BTreeSet.{BTreeSet, contains, insert}
use retia.BTreeSet.Laws.{contains-insert, contains-extend}
use retia.Query.Graph.{Graph, reachable_components}
use retia.Query.Graph.Reaches.{Reaches, here, Reaches-trans, missing, missing_grows, missing-insert}
use retia.Query.Graph.Walk.{reachable_components-Reaches}
use retia.Query.Scc.{keys}
use retia.Query.Scc.Correct.{AreComponents}

module _ {S : Type 0} ⦃o : Ord S⦄ where
  pub contains-collect : (k : S) (s : List S) → contains k (BTreeSet.collect s) ≡ contains k s
  contains-collect k s = contains-extend k [] s ∙ unfold contains in refl

  -- The components as sets are the same.
  pub collect-AreComponents :
      (graph : Graph S) (sccs : List (List S))
      → AreComponents graph sccs
      → AreComponents graph (map BTreeSet.collect sccs)
  collect-AreComponents graph sccs c = record {
    covers = λ k h.
        (let (j, scc, at, d) = c.covers k h in
          (
            j,
            BTreeSet.collect scc,
            get_elem?-map BTreeSet.collect sccs j scc at,
            contains-collect k scc ∙ d,
          ));
    inside = λ j scc k at d.
        (let (scc', at', e) = map-get_elem? BTreeSet.collect sccs j scc at in
          c.inside j scc' k at' (listed k scc scc' e d));
    together = λ j scc a b at d d'.
        (let (scc', at', e) = map-get_elem? BTreeSet.collect sccs j scc at in
          c.together j scc' a b at' (listed a scc scc' e d) (listed b scc scc' e d'));
    apart = λ i j us vs a b at at' d d' p q.
        (let (us', h, e) = map-get_elem? BTreeSet.collect sccs i us at in
          let (vs', h', e') = map-get_elem? BTreeSet.collect sccs j vs at' in
          c.apart i j us' vs' a b h h' (listed a us us' e d) (listed b vs vs' e' d') p q);
  }
    where
      listed :
          (k : S) (scc scc' : List S)
          → scc ≡ BTreeSet.collect scc'
          → contains k scc ≡ true
          → contains k scc' ≡ true
      listed k scc scc' e d = sym (contains-collect k scc') ∙ ap (contains k) (sym e) ∙ d

  -- A set with one more of the elements lacks fewer.
  missing_less :
      (xs : List S) (k : S) (s t : BTreeSet S)
      → contains k xs ≡ true
      → contains k s ≡ false
      → contains k t ≡ true
      → ((p : S) → contains p s ≡ true → contains p t ≡ true)
      → missing xs t < missing xs s
  missing_less xs k s t h off on inside =
      let grows = missing_grows xs (insert k s) t (λ p e.
        ground (arith, contains-insert p k s, inside p, o.eq_of_cmp p k, ap (λ x. contains x t))) in
      omega (arith, grows, missing-insert xs k s h off)

  module _ (graph : Graph S) (sccs : List (BTreeSet S)) (c : AreComponents graph sccs) where
    -- How many nodes a node does not reach.
    abbrev height : S → ℕ
    height k = elim (reachable_components graph k) [
      | none ↦ 0
      | some reached ↦ missing (keys graph) reached
    ]

    height_le : (a b : S) → Reaches graph a b → height a ≤ height b
    height_le a b p =
        let (s, runs, _, is) = reachable_components-Reaches graph a in
        let (t, runs', _, is') = reachable_components-Reaches graph b in
        let le =
          missing_grows (keys graph) t s
            (λ k h. (is k).1 (Reaches-trans graph a b k p ((is' k).0 h))) in
        rw (runs, runs', height) le

    height_less :
        (a b : S)
        → contains a (keys graph) ≡ true
        → Reaches graph a b
        → (Reaches graph b a → ⊥)
        → height a < height b
    height_less a b h p q =
        let (s, runs, _, is) = reachable_components-Reaches graph a in
        let (t, runs', _, is') = reachable_components-Reaches graph b in
        let off : contains a t ≡ false = elim (Bool-cases (contains a t)) [
          | inl e ↦ absurd (q ((is' a).0 e))
          | inr e ↦ e
        ] in
        let less =
          missing_less (keys graph) a t s h off ((is a).1 here)
            (λ k e. (is k).1 (Reaches-trans graph a b k p ((is' k).0 e))) in
        rw (runs, runs', height) less

    -- The height of the first node.
    abbrev first_height : BTreeSet S → ℕ
    first_height [] = 0
    first_height (k ∷ scc) = height k

    abbrev pub component_rank : ℕ → ℕ
    component_rank i = elim (get_elem? sccs i) [ none ↦ 0 | some scc ↦ first_height scc ]

    component_rank-height :
        (i : ℕ) (scc : BTreeSet S) (k : S)
        → get_elem? sccs i ≡ some scc
        → contains k scc ≡ true
        → component_rank i ≡ height k
    component_rank-height i [] k at h = absurd (unfold contains in cc)
    component_rank-height i (x ∷ scc) k at h =
        let first : contains x (x ∷ scc) ≡ true = unfold contains in ground (arith, o.cmp_self x) in
        let le = height_le x k (c.together i (x ∷ scc) x k at first h) in
        let ge = height_le k x (c.together i (x ∷ scc) k x at h first) in
        rw (at, component_rank) (omega (arith, le, ge))

    -- A path between two components raises the rank.
    pub component_rank_less :
        (i j : ℕ) (scc scc' : BTreeSet S) (a b : S)
        → get_elem? sccs i ≡ some scc
        → get_elem? sccs j ≡ some scc'
        → contains a scc ≡ true
        → contains b scc' ≡ true
        → Reaches graph a b
        → (i == j) ≡ false
        → component_rank i < component_rank j
    component_rank_less i j scc scc' a b at at' h h' p other =
        let less =
          height_less a b (c.inside i scc a at h) p
            (λ q. (let same = c.apart i j scc scc' a b at at' h h' p q in absurd (ground arith))) in
        omega
          (arith, component_rank-height i scc a at h, component_rank-height j scc' b at' h', less)
