-- ===== src/Query/Stratify/Correct.antt =====
-- `NormalFormProgram::into_stratified_program` (retia-core/src/query/stratify.rs) stratifies a program.
use retia.Prelude.{
  ℕ, ◌-◌, ◌<◌, ◌≤◌, ◌≡◌, ◌∙◌, Bool, true, some, is_some, List, length, arith, Option-cases, inl,
  inr, ◌⊎◌,
}
use retia.Prelude.Order.{Ord}
use retia.Prelude.Result.{ok, err}
use retia.BTreeMap.{BTreeMap, get, IsSorted}
use retia.BTreeSet.{BTreeSet}
use retia.Query.Graph.Reaches.{Reaches}
use retia.Query.Kahn.{StratifiedGraph}
use retia.Query.Program.{Parts, NormalFormRulesOrFixed, NormalFormProgram}
use retia.Query.Stratify.Convert.{convert_normal_form_program_to_graph}
use retia.Query.Stratify.Reduce.{unstratifiable, reduce_to_graph}
use retia.Query.Stratify.Place.{into_stratified_program}
use retia.Query.Stratify.Reduced.{carries}
use retia.Query.Stratify.Placed.{lives}
use retia.Query.Stratify.Rules.{rules_at}
use retia.Query.Stratify.Stratification.{IsStratification}
use retia.Query.Stratify.Sound.{stratify_by-unstratifiable}
use retia.Query.Stratify.Pruned.{
  pruned, get-pruned, Prunes, into_stratified_program-Prunes, Prunes-IsStratification,
}
use retia.Query.Stratify.Verified.{verify_no_cycle_total}
use retia.Query.Stratify.Uses.{Uses}
use retia.Query.Stratify.Edges.{Uses-edge, is_some-convert}

module _ {P : Parts} {S : Type 0} ⦃o : Ord S⦄ (prog_entry : S) (self : NormalFormProgram P S) where
  -- What a stratified program promises, by the rules of the program it comes from. Strata are
  -- evaluated from the last one on.
  pub record IsStratified (strata : List (NormalFormProgram P S)) (lifetimes : BTreeMap S ℕ)
      : Type 0 where
    pub waits :
        (k v : S) (rs : NormalFormRulesOrFixed P S) (p : Bool) (i j : ℕ)
        → rules_at strata i k ≡ some rs
        → Uses self.prog k rs v p
        → is_some (rules_at strata j v) ≡ true
        → (i ≤ j) × (p ≡ true → i < j)
    pub alive :
        (k v : S) (rs : NormalFormRulesOrFixed P S) (p : Bool) (i : ℕ)
        → rules_at strata i k ≡ some rs
        → Uses self.prog k rs v p
        → lives (length strata - 1 - i) (get v lifetimes) ≡ true
    pub unchanged :
        (i : ℕ) (k : S) (rs : NormalFormRulesOrFixed P S)
        → rules_at strata i k ≡ some rs
        → get k self.prog ≡ some rs
    pub once :
        (i j : ℕ) (k : S)
        → is_some (rules_at strata i k) ≡ true
        → is_some (rules_at strata j k) ≡ true
        → i ≡ j
    pub reached :
        (i : ℕ) (k : S)
        → is_some (rules_at strata i k) ≡ true
        → Reaches (reduce_to_graph (convert_normal_form_program_to_graph self)) prog_entry k
    pub complete :
        (k : S)
        → Reaches (reduce_to_graph (convert_normal_form_program_to_graph self)) prog_entry k
        → is_some (get k self.prog) ≡ true
        → (i : ℕ) × (is_some (rules_at strata i k) ≡ true)

  module _ (reachable : BTreeSet S) (sccs : List (BTreeSet S)) (sorted : IsSorted self.prog)
      (t : Prunes prog_entry self reachable sccs) where
    abbrev graph : StratifiedGraph S
    graph = pruned prog_entry self reachable

    pruned_edge :
        (k v : S) (rs : NormalFormRulesOrFixed P S) (p : Bool)
        → get k self.prog ≡ some rs
        → Uses self.prog k rs v p
        → is_some (get k graph) ≡ true
        → (vs : BTreeMap S Bool) × (get k graph ≡ some vs) × (carries p (get v vs) ≡ true)
    pruned_edge k v rs p h u kept =
        let (vs, e, c) = Uses-edge self k v rs p sorted h u in
        (vs, ground (arith, get-pruned prog_entry self reachable k), c)

    pruned_reached :
        (k : S)
        → is_some (get k graph) ≡ true
        → Reaches (reduce_to_graph (convert_normal_form_program_to_graph self)) prog_entry k
    pruned_reached k h = (t.is_reached k).0 (ground (arith, get-pruned prog_entry self reachable k))

    reached_pruned :
        (k : S)
        → Reaches (reduce_to_graph (convert_normal_form_program_to_graph self)) prog_entry k
        → is_some (get k self.prog) ≡ true
        → is_some (get k graph) ≡ true
    reached_pruned k p h =
        let c = (t.is_reached k).1 p in
        ground (arith, get-pruned prog_entry self reachable k, is_some-convert self k)

    -- A stratification of the pruned graph stratifies the program.
    IsStratification-IsStratified :
        (strata : List (NormalFormProgram P S)) (lifetimes : BTreeMap S ℕ)
        → IsStratification self graph strata lifetimes
        → IsStratified strata lifetimes
    IsStratification-IsStratified strata lifetimes st = record {
      waits = λ k v rs p i j h u g.
          (let there : is_some (rules_at strata i k) ≡ true = ground arith in
            let (vs, e, c) = pruned_edge k v rs p (st.unchanged i k rs h) u (st.kept i k there) in
            elim (Option-cases (get v vs)) [
              | inl none_ ↦ absurd (ground arith)
              | inr (q, f) ↦
                  let (le, less) = st.ordered k v vs q i j e f there g in
                  (le, λ z. less (ground arith))
            ]);
      alive = λ k v rs p i h u.
          (let there : is_some (rules_at strata i k) ≡ true = ground arith in
            let (vs, e, c) = pruned_edge k v rs p (st.unchanged i k rs h) u (st.kept i k there) in
            st.alive k v vs i e
              (elim (Option-cases (get v vs)) [
                | inl none_ ↦ absurd (ground arith)
                | inr (q, f) ↦ ground arith
              ])
              there);
      unchanged = st.unchanged;
      once = st.once;
      reached = λ i k h. pruned_reached k (st.kept i k h);
      complete = λ k p h. st.complete k (reached_pruned k p h) h;
    }

  -- A program with its names in order is stratified, or the report says that a component has a
  -- poisoned edge; the code does not panic. In the strata, a rule stands exactly where it is reached
  -- from the entry, unchanged, and in one stratum only. A rule's stratum is not behind that of a name
  -- it uses, and is before it, so that it is evaluated later, where the use is negated, of or by a
  -- fixed rule, under an aggregation that is not a meet over itself, or of another rule's meet
  -- aggregation. The store of a name lives at least until the last stratum that uses it.
  pub into_stratified_program-IsStratified :
      IsSorted self.prog
      → (into_stratified_program prog_entry self ≡ err unstratifiable)
        ⊎ ((strata : List (NormalFormProgram P S)) × (lifetimes : BTreeMap S ℕ)
            × (into_stratified_program prog_entry self ≡ ok (strata, lifetimes))
            × IsStratified strata lifetimes)
  into_stratified_program-IsStratified s =
      let (reachable, sccs, t) = into_stratified_program-Prunes prog_entry self s in
      elim (verify_no_cycle_total (pruned prog_entry self reachable) sccs) [
        | inr e ↦ inl (t.runs ∙ stratify_by-unstratifiable self _ sccs e)
        | inl e ↦
            let (strata, lifetimes, runs, st) =
              Prunes-IsStratification prog_entry self reachable sccs s t e in
            inr (
              strata,
              lifetimes,
              t.runs ∙ runs,
              IsStratification-IsStratified reachable sccs s t strata lifetimes st,
            )
      ]
