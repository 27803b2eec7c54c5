-- ===== src/Query/Stratify/Sound.antt =====
-- What `into_stratified_program` (retia-core/src/query/stratify.rs) returns for a graph and components that cover it.
use retia.Prelude.{
  ℕ, ◌<◌, ◌≤◌, ◌==◌, ◌≡◌, refl, sym, ap, ◌∙◌, Bool, true, false, Option, some, is_some, List, [],
  length, length-replicate, get_elem?, arith, Bool-cases, Option-cases, inl, inr,
}
use retia.Prelude.Order.{Ord}
use retia.Prelude.Result.{ok, err}
use retia.BTreeMap.{BTreeMap, get, IsSorted}
use retia.BTreeSet.{BTreeSet, contains}
use retia.Query.Kahn.{StratifiedGraph}
use retia.Query.Kahn.Edges.{edge}
use retia.Query.Kahn.Strata.{stratum, stratum-lt}
use retia.Query.Kahn.Ends.{IsRanked, Stratifies}
use retia.Query.Kahn.Correct.{IsComplete, generalized_kahn-acyclic}
use retia.Query.Program.{Parts, NormalFormProgram}
use retia.Query.Stratify.Reduce.{
  unstratifiable, verify_no_cycle, make_scc_reduced_graph, index_components, reduce_rows,
}
use retia.Query.Stratify.Place.{invert_sort, stratum_of, stratify_by}
use retia.Query.Stratify.Verified.{
  verify_no_cycle_lem, index_components_lem, index_components-covers,
}
use retia.Query.Stratify.Components.{Reduces, reduce_rows-Reduces}
use retia.Query.Stratify.Only.{reduce_rows_only}
use retia.Query.Stratify.Stratification.{IsStratification, blank, blanks, placed_reads}
use retia.Query.Stratify.Placed.{invert_sort_lem, Lifetimes, lifetimes_of-Lifetimes}
use retia.Query.Stratify.Rules.{Places, place_rules-Places}

module _ {P : Parts} {S : Type 0} ⦃o : Ord S⦄ (self : NormalFormProgram P S)
    (graph : StratifiedGraph S) where
  module _ (sccs : List (BTreeSet S)) (sorted : IsSorted self.prog)
      (few : length sccs ≤ length graph)
      (covers : (k : S)
        → is_some (get k graph) ≡ true
        → (j : ℕ) × (scc : BTreeSet S) × (get_elem? sccs j ≡ some scc) × (contains k scc ≡ true))
      (inside : (j : ℕ) (scc : BTreeSet S) (k : S)
        → get_elem? sccs j ≡ some scc
        → contains k scc ≡ true
        → is_some (get k graph) ≡ true)
      (sorted_graph : IsSorted graph) (rank : ℕ → ℕ)
      (raised : (k v : S) (vs : BTreeMap S Bool) (f t : ℕ) (scc scc' : BTreeSet S)
        → get k graph ≡ some vs
        → is_some (get v vs) ≡ true
        → get_elem? sccs f ≡ some scc
        → get_elem? sccs t ≡ some scc'
        → contains k scc ≡ true
        → contains v scc' ≡ true
        → (f == t) ≡ false
        → rank f < rank t) where
    abbrev indices : BTreeMap S ℕ
    indices = index_components 0 sccs []

    below : (k : S) (i : ℕ) → get k indices ≡ some i → i < length graph
    below k i e = omega (arith, (index_components_lem sccs k i e).3)

    known : (k : S) → is_some (get k graph) ≡ true → is_some (get k indices) ≡ true
    known k h = let (j, scc, at, c) = covers k h in index_components-covers 0 sccs [] k j scc at c

    -- Names of one component have no poisoned edge between them.
    same_component :
        (k v : S) (vs : BTreeMap S Bool) (f : ℕ)
        → verify_no_cycle graph sccs ≡ ok tt
        → get k graph ≡ some vs
        → get v vs ≡ some true
        → get k indices ≡ some f
        → get v indices ≡ some f
        → ⊥
    same_component k v vs f verified e g a b =
        let (scc, at, c, _) = index_components_lem sccs k f a in
        let (scc', at', c', _) = index_components_lem sccs v f b in
        let same : scc ≡ scc' = cc in
        let inside : contains v scc ≡ true = rw same c' in
        let outside = verify_no_cycle_lem graph sccs k v vs f scc verified e at c g in cc

    -- Every edge of the graph of components raises the rank.
    reduced-IsRanked :
        (reduced : StratifiedGraph ℕ)
        → reduce_rows indices graph [] ≡ ok reduced
        → IsRanked reduced rank
    reduced-IsRanked reduced runs f t p e =
        elim (reduce_rows_only indices graph [] reduced f t sorted_graph runs (ground arith)) [
          | inl h ↦ absurd (unfold get in cc)
          | inr (k, vs, h, a, (v, c, b, other)) ↦
              let (scc, at, d, _) = index_components_lem sccs k f a in
              let (scc', at', d', _) = index_components_lem sccs v t b in
              raised k v vs f t scc scc' h c at at' d d' other
        ]

    module _ (verified : verify_no_cycle graph sccs ≡ ok tt) (reduced : StratifiedGraph ℕ)
        (r : Reduces (length graph) indices below graph [] reduced) (sort : List (List ℕ))
        (s : Stratifies (length graph) reduced sort) where
      abbrev at : S → Option ℕ
      at = stratum_of indices (invert_sort 0 sort [])

      at_lem :
          (k : S) (i : ℕ)
          → at k ≡ some i
          → (f : ℕ) × (get k indices ≡ some f) × (stratum f sort ≡ some i)
      at_lem k i h = elim (Option-cases (get k indices)) [
        | inl e ↦ absurd (ground arith)
        | inr (f, e) ↦ (f, e, sym (invert_sort_lem sort f s.once) ∙ ground arith)
      ]

      at_below : (k : S) (i : ℕ) → at k ≡ some i → i < length sort
      at_below k i h = let (f, _, e) = at_lem k i h in stratum-lt f sort i e

      at_kept : (k : S) (i : ℕ) → at k ≡ some i → is_some (get k graph) ≡ true
      at_kept k i h =
          let (f, e, _) = at_lem k i h in
          let (scc, there, c, _) = index_components_lem sccs k f e in inside f scc k there c

      at_ordered :
          (k v : S) (vs : BTreeMap S Bool) (p : Bool) (i j : ℕ)
          → get k graph ≡ some vs
          → get v vs ≡ some p
          → at k ≡ some i
          → at v ≡ some j
          → (i ≤ j) × (p ≡ true → i < j)
      at_ordered k v vs p i j e g a b =
          let (f, c, l) = at_lem k i a in
          let (t, d, m) = at_lem v j b in
          elim (Bool-cases (f == t)) [
            | inl same ↦
                let x : f ≡ t = ground arith in
                let y : i ≡ j = ground (arith, ap (λ z. stratum z sort) x) in
                (
                  omega arith,
                  λ q. absurd (same_component k v vs f verified e (g ∙ ap some q) c (rw x d)),
                )
            | inr other ↦
                let h = r.adds k v vs p f t e g c d other in
                elim (Option-cases (edge reduced f t)) [
                  | inl none_ ↦ absurd (ground arith)
                  | inr (q, found) ↦
                      let (i', l', le, less) = s.stratified f t j q found m in
                      let y : i ≡ i' = ground arith in
                      (omega arith, λ z. omega (arith, less (ground arith)))
                ]
          ]

      at_complete :
          (k : S)
          → is_some (get k graph) ≡ true
          → IsComplete (length graph) sort
          → (i : ℕ) × (at k ≡ some i)
      at_complete k h complete = elim (Option-cases (get k indices)) [
        | inl e ↦ absurd (ground (arith, known k h))
        | inr (f, e) ↦
            let full = complete f (below k f e) in
            elim (Option-cases (stratum f sort)) [
              | inl g ↦ absurd (ground arith)
              | inr (i, g) ↦ (i, ground (arith, invert_sort_lem sort f s.once))
            ]
      ]

    -- The strata and lifetimes after the sort.
    placed :
        verify_no_cycle graph sccs ≡ ok tt
        → (reduced : StratifiedGraph ℕ) → reduce_rows indices graph [] ≡ ok reduced
        → Reduces (length graph) indices below graph [] reduced
        → (sort : List (List ℕ)) → Stratifies (length graph) reduced sort
        → IsComplete (length graph) sort
        → (lifetimes : BTreeMap S ℕ) (strata : List (NormalFormProgram P S))
        → Lifetimes (stratum_of indices (invert_sort 0 sort [])) (length sort) graph [] lifetimes
        → Places
            (stratum_of indices (invert_sort 0 sort []))
            self.prog
            (blanks self (length sort))
            strata
        → IsStratification self graph strata lifetimes
    placed verified reduced runs r sort s complete lifetimes strata l p =
        let at : S → Option ℕ = stratum_of indices (invert_sort 0 sort []) in
        let reads = λ (i : ℕ) (k : S). placed_reads self at (length sort) strata p i k in
        record {
          ordered = λ k v vs q i j e g a b.
              at_ordered verified reduced r sort s k v vs q i j e g (ground (arith, reads i k))
                (ground (arith, reads j v));
          kept = λ i k h. at_kept verified reduced r sort s k i (ground (arith, reads i k));
          unchanged = λ i k rs h. ground (arith, reads i k);
          once = λ i j k a b. ground (arith, reads i k, reads j k);
          alive = λ k v vs i e g a.
              (let size : length strata ≡ length sort =
                  p.size ∙ length-replicate (length sort) (blank self) in
                rw size (l.covers k v vs i e g (ground (arith, reads i k))));
          complete = λ k h g.
              (let (i, e) = at_complete verified reduced r sort s k h complete in
                elim (Option-cases (get k self.prog)) [
                  | inl f ↦ absurd (ground arith)
                  | inr (rs, f) ↦ (i, ground (arith, p.reads i k))
                ]);
        }

    -- From components that cover the graph and have no poisoned edge, the steps return a stratification.
    pub stratify_by-IsStratification :
        verify_no_cycle graph sccs ≡ ok tt
        → (strata : List (NormalFormProgram P S)) × (lifetimes : BTreeMap S ℕ) × (stratify_by self
              graph sccs
            ≡ ok (strata, lifetimes))
          × IsStratification self graph strata lifetimes
    unfolding stratify_by make_scc_reduced_graph
    stratify_by-IsStratification e =
        let (reduced, runs, r) = reduce_rows-Reduces (length graph) indices below graph [] known in
        let g = r.is_graph (record { keys = tt; rows = tt }) in
        let (sort, sorts, s, complete) =
          generalized_kahn-acyclic (length graph) reduced g (rank, reduced-IsRanked reduced runs) in
        let at : S → Option ℕ = stratum_of indices (invert_sort 0 sort []) in
        let limit = at_below e reduced r sort s in
        let (lifetimes, runs', l) = lifetimes_of-Lifetimes at (length sort) graph [] limit in
        let (strata, runs'', p) =
          place_rules-Places at self.prog (blanks self (length sort)) sorted
            (λ k i h. rw (length-replicate (length sort) (blank self)) (limit k i h)) in
        (
          strata,
          lifetimes,
          rw (e, runs, sorts, runs', runs'') refl,
          placed e reduced runs r sort s complete lifetimes strata l p,
        )

  pub stratify_by-unstratifiable :
      (sccs : List (BTreeSet S))
      → verify_no_cycle graph sccs ≡ err unstratifiable
      → stratify_by self graph sccs ≡ err unstratifiable
  unfolding stratify_by
  stratify_by-unstratifiable sccs e = rw e refl
