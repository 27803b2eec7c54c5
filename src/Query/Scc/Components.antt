-- ===== src/Query/Scc/Components.antt =====
-- `strongly_connected_components` (retia-core/src/query/graph.rs) covers the nodes that have a row.
use retia.Prelude.{
  ℕ, zero, suc, ◌+◌, ◌<◌, ◌≤◌, ◌==◌, ◌≡◌, refl, sym, ap, ◌∙◌, subst, true, some, List, [], ◌∷◌,
  length, map, get_elem?, get_elem?-lt, length-map, map-get_elem?, lt-get_elem?, mem, arith,
  Bool-cases, Option-cases, inl, inr,
}
use retia.Prelude.Order.{Ord, eq?}
use retia.BTreeMap.{BTreeMap, get, insert}
use retia.BTreeMap.Laws.{get-insert}
use retia.BTreeSet.{contains}
use retia.Query.Graph.{Graph}
use retia.Query.Scc.{
  keys, into_values, invert, indexed, at_indices, all_at_indices, strongly_connected_components,
}
use retia.Query.Scc.Shape.{IsRows}
use retia.Query.Scc.Groups.{Below, AllBelow, run-covers}

length-keys : {K V : Type 0} (m : BTreeMap K V) → length (keys m) ≡ length m
length-keys [] = refl
length-keys ((k, v) ∷ m) = ap suc (length-keys m)

length-into_values : {K V : Type 0} (m : BTreeMap K V) → length (into_values m) ≡ length m
length-into_values [] = refl
length-into_values ((k, v) ∷ m) = ap suc (length-into_values m)

module _ {T : Type 0} ⦃o : Ord T⦄ where
  invert_below :
      (n idx : ℕ) (ks : List T) (acc : BTreeMap T ℕ)
      → ((v : T) (i : ℕ) → get v acc ≡ some i → i < n)
      → idx + length ks ≤ n
      → (v : T) (i : ℕ) → get v (invert idx ks acc) ≡ some i
      → i < n
  unfolding invert
  invert_below n idx [] acc below h v i e = below v i e
  invert_below n idx (k ∷ ks) acc below h v i e =
      invert_below n (suc idx) ks (insert k idx acc)
        (λ w j found. ground (arith, get-insert w k idx acc, below w j)) (omega arith) v i e

  indexed-Below :
      (n : ℕ) (inverse : BTreeMap T ℕ) (vs : List T)
      → ((v : T) (i : ℕ) → get v inverse ≡ some i → i < n)
      → Below n (indexed inverse vs)
  unfolding indexed
  indexed-Below n inverse [] below i h = absurd (cc)
  indexed-Below n inverse (v ∷ vs) below i h = elim (Option-cases (get v inverse)) [
    | inl e ↦ indexed-Below n inverse vs below i (ground arith)
    | inr (j, e) ↦ ground (arith, below v j e, indexed-Below n inverse vs below i)
  ]

  at_indices-runs :
      (indices : List T) (vs : List ℕ)
      → Below (length indices) vs
      → (ks : List T) × (at_indices indices vs ≡ some ks)
        × ((i : ℕ) (k : T) → mem i vs ≡ true → get_elem? indices i ≡ some k → contains k ks ≡ true)
  unfolding at_indices contains
  at_indices-runs indices [] below = ([], refl, λ i k h e. absurd (cc))
  at_indices-runs indices (v ∷ vs) below =
      let (j, at) = get_elem?-lt indices v (below v (ground arith)) in
      let (ks, runs, has) = at_indices-runs indices vs (λ i h. below i (ground arith)) in
      (
        j ∷ ks,
        rw (at, runs) refl,
        λ i k h e. elim (Bool-cases (i == v)) [
          | inl same ↦
              let index : i ≡ v = ground arith in
              let found : get_elem? indices v ≡ some k = rw (← index) e in
              ground (arith, o.cmp_self k, has i k)
          | inr other ↦ ground (arith, has i k)
        ],
      )

  all_at_indices-runs :
      (indices : List T) (groups : List (List ℕ))
      → AllBelow (length indices) groups
      → (sccs : List (List T)) × (all_at_indices indices groups ≡ some sccs)
        × (length sccs ≡ length groups)
        × ((j i : ℕ) (vs : List ℕ) (k : T)
            → get_elem? groups j ≡ some vs
            → mem i vs ≡ true
            → get_elem? indices i ≡ some k
            → (scc : List T) × (get_elem? sccs j ≡ some scc) × (contains k scc ≡ true))
  unfolding all_at_indices
  all_at_indices-runs indices [] below = ([], refl, refl, λ j i vs k e h f. absurd (cc))
  all_at_indices-runs indices (ws ∷ groups) below =
      let (ks, runs, has) = at_indices-runs indices ws below.0 in
      let (sccs, runs', size, has') = all_at_indices-runs indices groups below.1 in
      (ks ∷ sccs, rw (runs, runs') refl, ap suc size, found ks sccs has has')
    where
      found :
          (ks : List T) (sccs : List (List T))
          → ((i : ℕ) (k : T)
              → mem i ws ≡ true
              → get_elem? indices i ≡ some k
              → contains k ks ≡ true)
          → ((j i : ℕ) (vs : List ℕ) (k : T)
              → get_elem? groups j ≡ some vs
              → mem i vs ≡ true
              → get_elem? indices i ≡ some k
              → (scc : List T) × (get_elem? sccs j ≡ some scc) × (contains k scc ≡ true))
          → (j i : ℕ) (vs : List ℕ) (k : T) → get_elem? (ws ∷ groups) j ≡ some vs
          → mem i vs ≡ true
          → get_elem? indices i ≡ some k
          → (scc : List T) × (get_elem? (ks ∷ sccs) j ≡ some scc) × (contains k scc ≡ true)
      found ks sccs has has' zero i vs k e h f = (ks, refl, ground (arith, has i k))
      found ks sccs has has' (suc j) i vs k e h f = has' j i vs k e h f

  contains-get_elem? :
      (indices : List T) (i : ℕ) (k : T) → get_elem? indices i ≡ some k → contains k indices ≡ true
  unfolding contains
  contains-get_elem? [] i k h = absurd (cc)
  contains-get_elem? (j ∷ indices) zero k h = ground (arith, o.cmp_self k)
  contains-get_elem? (j ∷ indices) (suc i) k h = ground (arith, contains-get_elem? indices i k)

  at_indices-inside :
      (indices : List T) (vs : List ℕ) (ks : List T) (k : T)
      → at_indices indices vs ≡ some ks
      → contains k ks ≡ true
      → contains k indices ≡ true
  unfolding at_indices contains
  at_indices-inside indices [] ks k h c = absurd (ground arith)
  at_indices-inside indices (v ∷ vs) ks k h c = elim (Option-cases (get_elem? indices v)) [
    | inl e ↦ absurd (ground arith)
    | inr (j, e) ↦ elim (Option-cases (at_indices indices vs)) [
      | inl f ↦ absurd (ground arith)
      | inr (js, f) ↦
          let same : ks ≡ j ∷ js = ground arith in
          let c' : contains k (j ∷ js) ≡ true = rw (← same) c in
          ground (
            arith,
            o.eq_of_cmp k j,
            contains-get_elem? indices v j e,
            at_indices-inside indices vs js k f,
          )
    ]
  ]

  all_at_indices-inside :
      (indices : List T) (groups : List (List ℕ)) (sccs : List (List T)) (i : ℕ) (scc : List T)
      (k : T)
      → all_at_indices indices groups ≡ some sccs
      → get_elem? sccs i ≡ some scc
      → contains k scc ≡ true
      → contains k indices ≡ true
  unfolding all_at_indices
  all_at_indices-inside indices [] sccs i scc k h e c =
      let same : sccs ≡ [] = ground arith in
      let e' = ap (λ x. get_elem? x i) (sym same) ∙ e in absurd (cc)
  all_at_indices-inside indices (vs ∷ groups) sccs i scc k h e c =
      elim (Option-cases (at_indices indices vs)) [
        | inl f ↦ absurd (ground arith)
        | inr (ks, f) ↦ elim (Option-cases (all_at_indices indices groups)) [
          | inl g ↦ absurd (ground arith)
          | inr (kss, g) ↦
              let same : sccs ≡ ks ∷ kss = ground arith in
              let e' = ap (λ x. get_elem? x i) (sym same) ∙ e in
              inside_cons vs ks kss f (λ n. all_at_indices-inside indices groups kss n scc k g) i e'
        ]
      ]
    where
      inside_cons :
          (vs : List ℕ) (ks : List T) (kss : List (List T))
          → at_indices indices vs ≡ some ks
          → ((n : ℕ)
              → get_elem? kss n ≡ some scc
              → contains k scc ≡ true
              → contains k indices ≡ true)
          → (n : ℕ) → get_elem? (ks ∷ kss) n ≡ some scc
          → contains k indices ≡ true
      inside_cons vs ks kss f later zero e =
          let c' : contains k ks ≡ true = ap (contains k) (cc) ∙ c in
          at_indices-inside indices vs ks k f c'
      inside_cons vs ks kss f later (suc n) e = later n e c

  key_index : (ks : List T) (k : T) → contains k ks ≡ true → (i : ℕ) × (get_elem? ks i ≡ some k)
  unfolding contains
  key_index [] k h = absurd (cc)
  key_index (j ∷ ks) k h = elim (Bool-cases (eq? k j)) [
    | inl e ↦ (0, ground (arith, o.eq_of_cmp k j))
    | inr e ↦ let (i, at) = key_index ks k (ground arith) in (suc i, at)
  ]

  pub indexed-IsRows :
      (graph : Graph T)
      → IsRows (length graph) (map (indexed (invert 0 (keys graph) [])) (into_values graph))
  indexed-IsRows graph =
      let inverse = invert 0 (keys graph) [] in
      let below = λ (v : T) (i : ℕ).
        invert_below (length graph) 0 (keys graph) [] (λ w j e. absurd (unfold get in cc))
          (omega (arith, length-keys graph)) v i in
      record {
        size = length-map (indexed inverse) (into_values graph) ∙ length-into_values graph;
        inside = λ at tos v e h.
            (let (vs, _, same) = map-get_elem? (indexed inverse) (into_values graph) at tos e in
              indexed-Below (length graph) inverse vs below v (ap (mem v) (sym same) ∙ h));
      }

  -- `strongly_connected_components` returns no more components than there are nodes with a row, and
  -- each of these nodes is in one, and no others are.
  pub strongly_connected_components-covers :
      (graph : Graph T)
      → (sccs : List (List T)) × (strongly_connected_components graph ≡ some sccs)
        × (length sccs ≤ length graph)
        × ((k : T)
            → contains k (keys graph) ≡ true
            → (j : ℕ) × (scc : List T) × (get_elem? sccs j ≡ some scc) × (contains k scc ≡ true))
        × ((j : ℕ) (scc : List T) (k : T)
            → get_elem? sccs j ≡ some scc
            → contains k scc ≡ true
            → contains k (keys graph) ≡ true)
  unfolding strongly_connected_components
  strongly_connected_components-covers graph =
      let (groups, runs, few, all, covers) = run-covers (length graph) _ (indexed-IsRows graph) in
      let (sccs, runs', size, has) =
        all_at_indices-runs (keys graph) groups
          (subst (λ n. AllBelow n groups) (sym (length-keys graph)) all) in
      (
        sccs,
        rw (runs, runs') refl,
        omega (arith, size),
        λ k h.
            (let (i, at) = key_index (keys graph) k h in
              let (j, vs, group, member) =
                covers i (omega (arith, lt-get_elem? (keys graph) i at, length-keys graph)) in
              let (scc, there, inside) = has j i vs k group member at in (j, scc, there, inside)),
        λ j scc k. all_at_indices-inside (keys graph) groups sccs j scc k runs',
      )
