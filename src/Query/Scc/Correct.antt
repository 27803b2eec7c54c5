-- ===== src/Query/Scc/Correct.antt =====
-- `strongly_connected_components` (retia-core/src/query/graph.rs) returns the classes of nodes that reach each other.
use retia.Prelude.{
  ℕ, zero, suc, ◌≤◌, ◌≡◌, refl, sym, ap, ◌∙◌, true, some, List, [], ◌∷◌, length, get_elem?, mem,
  arith, Bool-cases, Option-cases, inl, inr,
}
use retia.Prelude.Order.{Ord, eq?}
use retia.BTreeMap.{IsSorted}
use retia.BTreeSet.{contains}
use retia.Query.Graph.{Graph}
use retia.Query.Graph.Reaches.{Reaches}
use retia.Query.Scc.{keys, at_indices, all_at_indices, strongly_connected_components, run}
use retia.Query.Scc.Classes.{AreClasses, run-AreClasses}
use retia.Query.Scc.Components.{indexed-IsRows, strongly_connected_components-covers}
use retia.Query.Scc.Indices.{rows, Leads-Reaches, Reaches-Leads}

module _ {T : Type 0} ⦃o : Ord T⦄ where
  -- A node of a component has an index in the group that the component comes from.
  at_indices-mem :
      (indices : List T) (vs : List ℕ) (ks : List T) (k : T)
      → at_indices indices vs ≡ some ks
      → contains k ks ≡ true
      → (i : ℕ) × (mem i vs ≡ true) × (get_elem? indices i ≡ some k)
  unfolding at_indices contains
  at_indices-mem indices [] ks k h c = absurd (ground arith)
  at_indices-mem indices (v ∷ vs) ks k h c = elim (Option-cases (get_elem? indices v)) [
    | inl e ↦ absurd (ground arith)
    | inr (j, e) ↦ elim (Option-cases (at_indices indices vs)) [
      | inl f ↦ absurd (ground arith)
      | inr (js, f) ↦
          let same : ks ≡ j ∷ js = ground arith in
          let c' : contains k (j ∷ js) ≡ true = rw (← same) c in
          elim (Bool-cases (eq? k j)) [
            | inl g ↦ (v, ground arith, e ∙ ap some (sym (ground (arith, o.eq_of_cmp k j))))
            | inr g ↦
                let (i, m, at) = at_indices-mem indices vs js k f (ground arith) in
                (i, ground arith, at)
          ]
    ]
  ]

  all_at_indices-group :
      (indices : List T) (groups : List (List ℕ)) (sccs : List (List T)) (j : ℕ) (scc : List T)
      → all_at_indices indices groups ≡ some sccs
      → get_elem? sccs j ≡ some scc
      → (vs : List ℕ) × (get_elem? groups j ≡ some vs) × (at_indices indices vs ≡ some scc)
  unfolding all_at_indices
  all_at_indices-group indices [] sccs j scc h e =
      let same : sccs ≡ [] = ground arith in
      let e' = ap (λ x. get_elem? x j) (sym same) ∙ e in absurd (cc)
  all_at_indices-group indices (vs ∷ groups) sccs j scc h e =
      elim (Option-cases (at_indices indices vs)) [
        | inl f ↦ absurd (ground arith)
        | inr (ks, f) ↦ elim (Option-cases (all_at_indices indices groups)) [
          | inl g ↦ absurd (ground arith)
          | inr (kss, g) ↦
              let same : sccs ≡ ks ∷ kss = ground arith in
              group_of ks kss f (λ l. all_at_indices-group indices groups kss l scc g) j
                (ap (λ x. get_elem? x j) (sym same) ∙ e)
        ]
      ]
    where
      group_of :
          (ks : List T) (kss : List (List T))
          → at_indices indices vs ≡ some ks
          → ((l : ℕ)
              → get_elem? kss l ≡ some scc
              → (ws : List ℕ) × (get_elem? groups l ≡ some ws) × (at_indices indices ws ≡ some scc))
          → (j : ℕ) → get_elem? (ks ∷ kss) j ≡ some scc
          → (ws : List ℕ) × (get_elem? (vs ∷ groups) j ≡ some ws)
            × (at_indices indices ws ≡ some scc)
      group_of ks kss f later zero e = (vs, refl, f ∙ e)
      group_of ks kss f later (suc j) e = later j e

  -- What the components of a graph promise.
  pub record AreComponents (graph : Graph T) (sccs : List (List T)) : Type 0 where
    pub covers :
        (k : T)
        → contains k (keys graph) ≡ true
        → (j : ℕ) × (scc : List T) × (get_elem? sccs j ≡ some scc) × (contains k scc ≡ true)
    pub inside :
        (j : ℕ) (scc : List T) (k : T)
        → get_elem? sccs j ≡ some scc
        → contains k scc ≡ true
        → contains k (keys graph) ≡ true
    pub together :
        (j : ℕ) (scc : List T) (a b : T)
        → get_elem? sccs j ≡ some scc
        → contains a scc ≡ true
        → contains b scc ≡ true
        → Reaches graph a b
    pub apart :
        (i j : ℕ) (scc scc' : List T) (a b : T)
        → get_elem? sccs i ≡ some scc
        → get_elem? sccs j ≡ some scc'
        → contains a scc ≡ true
        → contains b scc' ≡ true
        → Reaches graph a b
        → Reaches graph b a
        → i ≡ j

  module _ (graph : Graph T) (sorted : IsSorted graph) (groups : List (List ℕ))
      (sccs : List (List T)) (c : AreClasses (rows graph sorted) groups)
      (runs : all_at_indices (keys graph) groups ≡ some sccs) where
    group-together :
        (j : ℕ) (scc : List T) (a b : T)
        → get_elem? sccs j ≡ some scc
        → contains a scc ≡ true
        → contains b scc ≡ true
        → Reaches graph a b
    group-together j scc a b at h k =
        let (vs, at', is) = all_at_indices-group (keys graph) groups sccs j scc runs at in
        let (u, m, key) = at_indices-mem (keys graph) vs scc a is h in
        let (v, m', key') = at_indices-mem (keys graph) vs scc b is k in
        let (there, back) = c.together j u v vs at' m m' in
        let (b', key'', path) = Leads-Reaches graph sorted u v a key there in
        let same : some b' ≡ some b = sym key'' ∙ key' in
        let e : b' ≡ b = ground arith in rw (← e) path

    group-apart :
        (i j : ℕ) (scc scc' : List T) (a b : T)
        → get_elem? sccs i ≡ some scc
        → get_elem? sccs j ≡ some scc'
        → contains a scc ≡ true
        → contains b scc' ≡ true
        → Reaches graph a b
        → Reaches graph b a
        → i ≡ j
    group-apart i j scc scc' a b at at' h k p q =
        let (us, here, is) = all_at_indices-group (keys graph) groups sccs i scc runs at in
        let (vs, there, is') = all_at_indices-group (keys graph) groups sccs j scc' runs at' in
        let (u, m, key) = at_indices-mem (keys graph) us scc a is h in
        let (v, m', key') = at_indices-mem (keys graph) vs scc' b is' k in
        c.apart i j u v us vs here there m m' (Reaches-Leads graph sorted u a key v b key' p)
          (Reaches-Leads graph sorted v b key' u a key q)

  -- `strongly_connected_components` of a graph with its nodes in order returns and does not panic. Each
  -- node with a row is in a component, and no other node is; the nodes of a component reach each other,
  -- and two nodes that reach each other stand in one component only. So the components are the classes
  -- of mutual reachability, and there are no more of them than nodes with a row.
  pub strongly_connected_components-AreComponents :
      (graph : Graph T)
      → IsSorted graph
      → (sccs : List (List T)) × (strongly_connected_components graph ≡ some sccs)
        × (length sccs ≤ length graph)
        × AreComponents graph sccs
  unfolding strongly_connected_components
  strongly_connected_components-AreComponents graph sorted =
      let (sccs, runs, few, covers, inside) = strongly_connected_components-covers graph in
      elim (Option-cases (run (rows graph sorted))) [
        | inl e ↦ absurd (ground arith)
        | inr (groups, e) ↦
            let c =
              run-AreClasses (length graph) (rows graph sorted) groups (indexed-IsRows graph) e in
            let is : all_at_indices (keys graph) groups ≡ some sccs = ground arith in
            (
              sccs,
              runs,
              few,
              record {
                covers = covers;
                inside = inside;
                together = group-together graph sorted groups sccs c is;
                apart = group-apart graph sorted groups sccs c is;
              },
            )
      ]
