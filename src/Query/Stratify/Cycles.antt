-- ===== src/Query/Stratify/Cycles.antt =====
-- When `into_stratified_program` (retia-core/src/query/stratify.rs) reports that there is no stratification.
use retia.Prelude.{
  ◌≡◌, ◌↔◌, sym, ap, ◌∙◌, Bool, true, some, none, is_some, List, get_elem?, arith, Bool-cases,
  Option-cases, inl, inr, if◌then◌else◌,
}
use retia.Prelude.Order.{Ord}
use retia.Prelude.Result.{ok, err}
use retia.BTreeMap.{BTreeMap, get, IsSorted}
use retia.BTreeSet.{BTreeSet, contains}
use retia.Query.Graph.{children}
use retia.Query.Graph.Reaches.{Reaches, here, step, Reaches-trans}
use retia.Query.Kahn.{StratifiedGraph}
use retia.Query.Program.{Parts, NormalFormProgram}
use retia.Query.Stratify.Convert.{convert_normal_form_program_to_graph}
use retia.Query.Stratify.Reduce.{unstratifiable, reduce_to_graph, verify_no_cycle}
use retia.Query.Stratify.Place.{into_stratified_program}
use retia.Query.Stratify.Verified.{verify_no_cycle_lem, verify_no_cycle_total}
use retia.Query.Stratify.Sound.{stratify_by-unstratifiable}
use retia.Query.Stratify.Pruned.{
  whole, pruned, get-pruned, pruned-IsSorted, Prunes, into_stratified_program-Prunes,
  Prunes-IsStratification, contains-keys_reduce, reduce_edge, get-reduce,
}
use retia.Query.Stratify.Rows.{whole-IsSorted_rows}
use retia.Query.Stratify.Refused.{verify_no_cycle_err}

-- A poisoned edge on a cycle, between names that the entry reaches.
pub record PoisonedCycle {S : Type 0} ⦃o : Ord S⦄ (graph : StratifiedGraph S) (prog_entry : S)
    : Type 0 where
  pub from : S
  pub to : S
  pub row : BTreeMap S Bool
  pub has_row : get from graph ≡ some row
  pub poisoned : get to row ≡ some true
  pub reached : Reaches (reduce_to_graph graph) prog_entry from
  pub back : Reaches (reduce_to_graph graph) to from

module _ {P : Parts} {S : Type 0} ⦃o : Ord S⦄ (prog_entry : S) (self : NormalFormProgram P S) where
  module _ (reachable : BTreeSet S) (sccs : List (BTreeSet S))
      (t : Prunes prog_entry self reachable sccs) where
    abbrev graph : StratifiedGraph S
    graph = pruned prog_entry self reachable

    abbrev marked : StratifiedGraph S
    marked = whole prog_entry self

    get-graph : (k : S) → get k graph ≡ (if contains k reachable then get k marked else none)
    get-graph k = get-pruned prog_entry self reachable k

    -- The edges of the pruned graph are those of the whole from reached names.
    children-pruned :
        (k : S)
        → contains k reachable ≡ true
        → children (reduce_to_graph graph) k ≡ children (reduce_to_graph marked) k
    children-pruned k h = elim (Option-cases (get k marked)) [
      | inl e ↦ ground (arith, get-graph k, get-reduce graph k, get-reduce marked k)
      | inr (vs, e) ↦ ground (arith, get-graph k, get-reduce graph k, get-reduce marked k)
    ]

    children-unpruned :
        (k v : S)
        → contains v (children (reduce_to_graph graph) k) ≡ true
        → contains k reachable ≡ true
    children-unpruned k v h = elim (Bool-cases (contains k reachable)) [
      | inl e ↦ e
      | inr e ↦ unfold contains in absurd (ground (arith, get-graph k, get-reduce graph k))
    ]

    Reaches-whole :
        (a b : S) → Reaches (reduce_to_graph graph) a b → Reaches (reduce_to_graph marked) a b
    Reaches-whole a b here = here
    Reaches-whole a b (step {b = c} p e) =
        step (Reaches-whole a c p)
          (ap (contains b) (sym (children-pruned c (children-unpruned c b e))) ∙ e)

    Reaches-pruned :
        (a b : S)
        → Reaches (reduce_to_graph marked) prog_entry a
        → Reaches (reduce_to_graph marked) a b
        → Reaches (reduce_to_graph graph) a b
    Reaches-pruned a b q here = here
    Reaches-pruned a b q (step {b = c} p e) =
        let known = (t.is_reached c).1 (Reaches-trans _ prog_entry a c q p) in
        step (Reaches-pruned a c q p) (ap (contains b) (children-pruned c known) ∙ e)

    -- A node that leads to one with a row has one.
    Reaches-keys :
        (a b : S)
        → Reaches (reduce_to_graph graph) a b
        → is_some (get b graph) ≡ true
        → is_some (get a graph) ≡ true
    Reaches-keys a b here h = h
    Reaches-keys a b (step {b = c} p e) h = Reaches-keys a c p (elim (Option-cases (get c graph)) [
      | inl f ↦ unfold contains in absurd (ground (arith, get-reduce graph c))
      | inr (vs, f) ↦ ground arith
    ])

    refused-PoisonedCycle :
        IsSorted self.prog
        → verify_no_cycle graph sccs ≡ err unstratifiable
        → PoisonedCycle marked prog_entry
    refused-PoisonedCycle s h =
        let (k, vs, e, (v, j, scc, f, at, c, d)) =
          verify_no_cycle_err graph sccs (pruned-IsSorted prog_entry self reachable s)
            (λ i us g. whole-IsSorted_rows self i us (ground (arith, get-graph i))) h in
        record {
          from = k;
          to = v;
          row = vs;
          has_row = ground (arith, get-graph k);
          poisoned = f;
          reached = (t.is_reached k).0 (ground (arith, get-graph k));
          back = Reaches-whole v k (t.components.together j scc v k at d c);
        }

    PoisonedCycle-refused : PoisonedCycle marked prog_entry → verify_no_cycle graph sccs ≡ ok tt → ⊥
    PoisonedCycle-refused p h =
        let c = t.components in
        let known = (t.is_reached p.from).1 p.reached in
        let row : get p.from graph ≡ some p.row = ground (arith, get-graph p.from, p.has_row) in
        let edge = reduce_edge graph p.from p.to p.row row (ground (arith, p.poisoned)) in
        let edge' = reduce_edge marked p.from p.to p.row p.has_row (ground (arith, p.poisoned)) in
        let back = Reaches-pruned p.to p.from (step p.reached edge') p.back in
        let has_to = Reaches-keys p.to p.from back (ground arith) in
        let (i, scc, at, d) = c.covers p.from (contains-keys_reduce graph p.from ∙ ground arith) in
        let (j, scc', at', d') = c.covers p.to (contains-keys_reduce graph p.to ∙ has_to) in
        let same = c.apart i j scc scc' p.from p.to at at' d d' (step here edge) back in
        let equal : some scc ≡ some scc' = sym at ∙ ap (get_elem? sccs) same ∙ at' in
        let equal' : scc ≡ scc' = cc in
        let inside : contains p.to scc ≡ true = rw equal' d' in
        let outside =
          verify_no_cycle_lem graph sccs p.from p.to p.row i scc h row at d p.poisoned in
        cc

  -- For a program with its names in order, the code reports that it cannot be stratified exactly if a
  -- poisoned edge lies on a cycle of the graph of its names, between names that the entry reaches.
  pub into_stratified_program-PoisonedCycle :
      IsSorted self.prog
      → (into_stratified_program prog_entry self ≡ err unstratifiable)
        ↔ PoisonedCycle (convert_normal_form_program_to_graph self) prog_entry
  into_stratified_program-PoisonedCycle s =
      let (reachable, sccs, t) = into_stratified_program-Prunes prog_entry self s in
      (
        λ h. elim (verify_no_cycle_total (pruned prog_entry self reachable) sccs) [
          | inr e ↦ refused-PoisonedCycle reachable sccs t s e
          | inl e ↦
              let (strata, lifetimes, runs, _) =
                Prunes-IsStratification prog_entry self reachable sccs s t e in
              let both = sym h ∙ t.runs ∙ runs in absurd (ground arith)
        ],
        λ p. elim (verify_no_cycle_total (pruned prog_entry self reachable) sccs) [
          | inr e ↦ t.runs ∙ stratify_by-unstratifiable self _ sccs e
          | inl e ↦ absurd (PoisonedCycle-refused reachable sccs t p e)
        ],
      )
