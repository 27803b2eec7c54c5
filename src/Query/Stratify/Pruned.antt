-- ===== src/Query/Stratify/Pruned.antt =====
-- The graph that `into_stratified_program` (retia-core/src/query/stratify.rs) prunes to the names that the entry reaches.
use retia.Prelude.{
  ℕ, suc, ◌≤◌, ◌≡◌, ◌↔◌, refl, sym, ap, ◌∙◌, subst, Bool, true, some, none, is_some, List, [], ◌∷◌,
  length, map, length-map, arith, Bool-cases, Option-cases, inl, inr, if◌then◌else◌,
}
use retia.Prelude.Order.{Ord}
use retia.Prelude.Result.{ok}
use retia.BTreeMap
use retia.BTreeMap.{BTreeMap, get, IsSorted, Above}
use retia.BTreeMap.Laws.{get-filter_keys, filter_keys-IsSorted}
use retia.BTreeSet
use retia.BTreeSet.{BTreeSet, contains}
use retia.Query.Graph.{children}
use retia.Query.Graph.Reaches.{Reaches, here, step}
use retia.Query.Graph.Walk.{reachable_components-Reaches}
use retia.Query.Kahn.{StratifiedGraph}
use retia.Query.Scc.{keys}
use retia.Query.Scc.Correct.{AreComponents, strongly_connected_components-AreComponents}
use retia.Query.Program.{Parts, NormalFormProgram}
use retia.Query.Stratify.Convert.{convert_normal_form_program_to_graph}
use retia.Query.Stratify.Reduce.{reduce_to_graph, verify_no_cycle}
use retia.Query.Stratify.Place.{into_stratified_program, stratify_by}
use retia.Query.Stratify.Stratification.{IsStratification}
use retia.Query.Stratify.Sound.{stratify_by-IsStratification}
use retia.Query.Stratify.Edges.{convert-IsSorted}
use retia.Query.Stratify.Ranks.{collect-AreComponents, component_rank, component_rank_less}

module _ {S : Type 0} ⦃o : Ord S⦄ where
  -- Pruning the graph is pruning it with its marks.
  filter-reduce :
      (test : S → Bool) (g : StratifiedGraph S)
      → BTreeMap.filter_keys test (reduce_to_graph g)
        ≡ reduce_to_graph (BTreeMap.filter_keys test g)
  unfolding BTreeMap.filter_keys reduce_to_graph
  filter-reduce test [] = refl
  filter-reduce test ((k, vs) ∷ g) = elim (Bool-cases (test k)) [
    | inl e ↦ ground (arith, filter-reduce test g)
    | inr e ↦ ground (arith, filter-reduce test g)
  ]

  length-reduce : (g : StratifiedGraph S) → length (reduce_to_graph g) ≡ length g
  unfolding reduce_to_graph
  length-reduce [] = refl
  length-reduce ((k, vs) ∷ g) = ap suc (length-reduce g)

  pub contains-keys :
      {V : Type 0} (k : S) (m : BTreeMap S V) → contains k (keys m) ≡ is_some (get k m)
  unfolding contains get
  contains-keys k [] = refl
  contains-keys k ((j, v) ∷ m) = ground (arith, contains-keys k m)

  pub get-reduce :
      (g : StratifiedGraph S) (k : S)
      → get k (reduce_to_graph g) ≡ elim (get k g) [ none ↦ none | some vs ↦ some (keys vs) ]
  unfolding get reduce_to_graph
  get-reduce [] k = refl
  get-reduce ((j, vs) ∷ g) k = ground (arith, get-reduce g k)

  reduce-Above : (k : S) (g : StratifiedGraph S) → Above k g → Above k (reduce_to_graph g)
  unfolding reduce_to_graph
  reduce-Above k [] a = tt
  reduce-Above k ((j, vs) ∷ g) a = (a.0, reduce-Above k g a.1)

  reduce-IsSorted : (g : StratifiedGraph S) → IsSorted g → IsSorted (reduce_to_graph g)
  unfolding reduce_to_graph
  reduce-IsSorted [] s = tt
  reduce-IsSorted ((k, vs) ∷ g) s = (reduce-Above k g s.0, reduce-IsSorted g s.1)

  pub contains-keys_reduce :
      (g : StratifiedGraph S) (k : S) → contains k (keys (reduce_to_graph g)) ≡ is_some (get k g)
  contains-keys_reduce g k = contains-keys k (reduce_to_graph g) ∙ elim (Option-cases (get k g)) [
    | inl e ↦ ground (arith, get-reduce g k)
    | inr (vs, e) ↦ ground (arith, get-reduce g k)
  ]

  pub reduce_edge :
      (g : StratifiedGraph S) (k v : S) (vs : BTreeMap S Bool)
      → get k g ≡ some vs
      → is_some (get v vs) ≡ true
      → contains v (children (reduce_to_graph g) k) ≡ true
  reduce_edge g k v vs e h = ground (arith, get-reduce g k, contains-keys v vs)

module _ {P : Parts} {S : Type 0} ⦃o : Ord S⦄ (prog_entry : S) (self : NormalFormProgram P S) where
  -- The graph of all names.
  abbrev pub whole : StratifiedGraph S
  whole = convert_normal_form_program_to_graph self

  abbrev pub pruned : BTreeSet S → StratifiedGraph S
  pruned reachable = BTreeMap.filter_keys (λ k. contains k reachable) whole

  pub get-pruned :
      (reachable : BTreeSet S) (k : S)
      → get k (pruned reachable) ≡ (if contains k reachable then get k whole else none)
  get-pruned reachable k = get-filter_keys k (λ j. contains j reachable) whole

  pub pruned-IsSorted : (reachable : BTreeSet S) → IsSorted self.prog → IsSorted (pruned reachable)
  pruned-IsSorted reachable s =
      filter_keys-IsSorted (λ k. contains k reachable) whole (convert-IsSorted self s)

  -- What is sorted: the names that the entry reaches, and their components.
  pub record Prunes (reachable : BTreeSet S) (sccs : List (BTreeSet S)) : Type 0 where
    pub is_reached :
        (k : S) → (contains k reachable ≡ true) ↔ Reaches (reduce_to_graph whole) prog_entry k
    pub few : length sccs ≤ length (pruned reachable)
    pub components : AreComponents (reduce_to_graph (pruned reachable)) sccs
    pub runs : into_stratified_program prog_entry self ≡ stratify_by self (pruned reachable) sccs

  pub into_stratified_program-Prunes :
      IsSorted self.prog
      → (reachable : BTreeSet S) × (sccs : List (BTreeSet S)) × Prunes reachable sccs
  unfolding into_stratified_program
  into_stratified_program-Prunes s =
      let (reachable, walks, _, reaches) =
        reachable_components-Reaches (reduce_to_graph whole) prog_entry in
      let same = filter-reduce (λ k. contains k reachable) whole in
      let sorted =
        subst IsSorted (sym same)
          (reduce-IsSorted (pruned reachable) (pruned-IsSorted reachable s)) in
      let (sccs, found, few, c) = strongly_connected_components-AreComponents _ sorted in
      (
        reachable,
        map BTreeSet.collect sccs,
        record {
          is_reached = reaches;
          few = omega (
            arith,
            few,
            length-map BTreeSet.collect sccs,
            ap length same,
            length-reduce (pruned reachable),
          );
          components = collect-AreComponents _ sccs (subst (λ g. AreComponents g sccs) same c);
          runs = rw (walks, found) refl;
        },
      )

  -- Components without a poisoned edge lead to a stratification.
  pub Prunes-IsStratification :
      (reachable : BTreeSet S) (sccs : List (BTreeSet S))
      → IsSorted self.prog
      → Prunes reachable sccs
      → verify_no_cycle (pruned reachable) sccs ≡ ok tt
      → (strata : List (NormalFormProgram P S)) × (lifetimes : BTreeMap S ℕ) × (stratify_by self
            (pruned reachable)
            sccs
          ≡ ok (strata, lifetimes))
        × IsStratification self (pruned reachable) strata lifetimes
  Prunes-IsStratification reachable sccs s p verified =
      let c = p.components in
      let graph = pruned reachable in
      stratify_by-IsStratification self graph sccs s p.few
        (λ k h. c.covers k (contains-keys_reduce graph k ∙ h))
        (λ j scc k at d. sym (contains-keys_reduce graph k) ∙ c.inside j scc k at d)
        (pruned-IsSorted reachable s) (component_rank (reduce_to_graph graph) sccs c)
        (λ k v vs f t scc scc' e h at at' d d' other.
          component_rank_less (reduce_to_graph graph) sccs c f t scc scc' k v at at' d d'
            (step here (reduce_edge graph k v vs e h)) other)
        verified
