-- ===== src/Query/Kahn/Ends.antt =====
-- The loop of `generalized_kahn` (retia-core/src/query/graph.rs) ends: what it has then.
use retia.Prelude.{
  ℕ, zero, suc, ◌<◌, ◌≡◌, refl, sym, ap, ◌∙◌, Bool, true, false, some, is_some, List, [], ◌∷◌, ◌++◌,
  length, mem, IsUnique, get_or_zero, lacking, lacking-cons, lacking-length, arith,
}
use retia.Prelude.Order.{nat_ord}
use retia.Query.Kahn.{
  Kahn, StratifiedGraph, Turn, done, more, finish, take_safe, turn, run, kahn_loop, edges_of,
}
use retia.Query.Kahn.Edges.{edge, waiting_none, edge-lt, IsGraph, edges_of-IsRow}
use retia.Query.Kahn.Relax.{relax_edges-Relaxed}
use retia.Query.Kahn.Strata.{
  stratum, stratum-append, rev_onto, emission, emission-append, mem-emission, IsTopological,
  IsStratified,
}
use retia.Query.Kahn.Invariant.{Inv, emitted}
use retia.Query.Kahn.Emit.{removed, removed-Counted, unemitted, Inv-emit, out_emitted}
use retia.Query.Kahn.Begin.{begin_stratum-Begun}
use retia.Query.Kahn.Start.{degrees-runs, start, start-Inv}

-- Every edge goes to a node of higher rank.
abbrev pub IsRanked : StratifiedGraph ℕ → (ℕ → ℕ) → Type 0
IsRanked graph rank = (u v : ℕ) (p : Bool) → edge graph u v ≡ some p → rank u < rank v

-- What a stratification of a graph of `n` nodes promises.
pub record Stratifies (n : ℕ) (graph : StratifiedGraph ℕ) (strata : List (List ℕ)) : Type 0 where
  pub once : IsUnique (emission strata [])
  pub known : (v : ℕ) → is_some (stratum v strata) ≡ true → v < n
  pub topological : IsTopological graph (emission strata [])
  pub stratified : IsStratified graph strata

-- What the loop ends with, the in-degrees that are left included.
pub record Ended (n : ℕ) (graph : StratifiedGraph ℕ) (strata : List (List ℕ)) (degrees : List ℕ)
    : Type 0 where
  pub sorted : Stratifies n graph strata
  pub size : length degrees ≡ n
  pub idle : (v : ℕ) → v < n → get_or_zero degrees v ≡ 0 → is_some (stratum v strata) ≡ true
  pub drained : (rank : ℕ → ℕ) → IsRanked graph rank → (v : ℕ) → v < n → get_or_zero degrees v ≡ 0

finish-stratum :
    (v : ℕ) (ret : List (List ℕ)) (current : List ℕ)
    → stratum v (finish ret current) ≡ stratum v (ret ++ current ∷ [])
finish-stratum v ret [] = ground (arith, stratum-append v ret [])
finish-stratum v ret (x ∷ current) = refl

finish-emission :
    (ret : List (List ℕ)) (current : List ℕ)
    → emission (finish ret current) [] ≡ rev_onto current (emission ret [])
finish-emission ret [] = refl
finish-emission ret (x ∷ current) = emission-append ret (x ∷ current) []

upto : ℕ → List ℕ
upto zero = []
upto (suc k) = k ∷ upto k

length-upto : (n : ℕ) → length (upto n) ≡ n
unfolding upto
length-upto zero = refl
length-upto (suc n) = ap suc (length-upto n)

mem-upto : (n v : ℕ) → v < n → mem v (upto n) ≡ true
unfolding upto
mem-upto zero v h = absurd (omega arith)
mem-upto (suc n) v h = ground (arith, mem-upto n v)

module _ (n : ℕ) (graph : StratifiedGraph ℕ) (g : IsGraph n graph) where
  module _ (st : Kahn) (inv : Inv n graph st) (empty : st.safe_pending ≡ [])
      (drained : st.unsafe_nodes ≡ []) where
    idle_emitted : (v : ℕ) → v < n → get_or_zero st.in_degree v ≡ 0 → mem v (emitted st) ≡ true
    idle_emitted v h d = ground (arith, inv.reached v h d, ap (mem v) empty, ap (mem v) drained)

    all_emitted :
        (rank : ℕ → ℕ)
        → IsRanked graph rank
        → (bound v : ℕ) → rank v < bound
        → v < n
        → mem v (emitted st) ≡ true
    all_emitted rank ranked zero v h k = absurd (omega arith)
    all_emitted rank ranked (suc bound) v h k = idle_emitted v k (
        inv.degree v
        ∙ waiting_none graph (emitted st) v g.keys λ u p e.
          all_emitted rank ranked bound u (omega (arith, ranked u v p e))
            (edge-lt n graph u v p g.rows e))

    ended-Stratifies : Stratifies n graph (finish st.ret st.current_stratum)
    ended-Stratifies =
        let same = finish-emission st.ret st.current_stratum in
        let member = λ (v : ℕ). mem-emission v (finish st.ret st.current_stratum) [] in
        record {
          once = rw same inv.once;
          known = λ v h. inv.known v (ground (arith, member v, ap (mem v) same));
          topological = rw same inv.topological;
          stratified = λ u v j p e h.
              (let (i, found, a, b) =
                  inv.stratified u v j p e (sym (finish-stratum v st.ret st.current_stratum) ∙ h) in
                (i, finish-stratum u st.ret st.current_stratum ∙ found, a, b));
        }

    ended : Ended n graph (finish st.ret st.current_stratum) st.in_degree
    ended = record {
      sorted = ended-Stratifies;
      size = inv.size;
      idle = λ v h d. ground (
        arith,
        mem-emission v (finish st.ret st.current_stratum) [],
        ap (mem v) (finish-emission st.ret st.current_stratum),
        idle_emitted v h d,
      );
      drained = λ rank ranked v h.
          inv.settled v (all_emitted rank ranked (suc (rank v)) v (omega arith) h);
    }

  -- How a turn ends: with a stratification, or in a state with one more node emitted.
  abbrev TurnEnds : Kahn → Turn → Type 0
  TurnEnds st (done ret degrees) = Ended n graph ret degrees
  TurnEnds st (more out) =
      Inv n graph out
      × ((r : ℕ) × (emitted out ≡ r ∷ emitted st) × (r < n) × (mem r (emitted st) ≡ false))

  take_safe_ends :
      (st : Kahn)
      → Inv n graph st
      → (st.safe_pending ≡ [] → st.unsafe_nodes ≡ [])
      → (safe : List ℕ) → st.safe_pending ≡ safe
      → (t : Turn) × (take_safe graph st safe ≡ some t) × TurnEnds st t
  unfolding take_safe
  take_safe_ends st inv drained [] e =
      (done (finish st.ret st.current_stratum) st.in_degree, refl, ended st inv e (drained e))
  take_safe_ends st inv drained (r ∷ rest) e =
      let (sorted, row) = edges_of-IsRow n graph r g.rows in
      let (out, runs, rx) =
        relax_edges-Relaxed n (edges_of graph r) (removed st r rest) inv.size sorted row
          (removed-Counted n graph g st r rest inv e) in
      (
        more out,
        rw runs,
        (
          Inv-emit n graph g st r rest inv e out rx,
          (
            r,
            out_emitted n graph g st r rest inv e out rx,
            (inv.ready r (ground (arith, ap (mem r) e))).0,
            unemitted n graph g st r rest inv e,
          ),
        ),
      )

  -- Beginning a stratum emits nothing.
  TurnEnds-moved :
      (st mid : Kahn) (t : Turn) → emitted mid ≡ emitted st → TurnEnds mid t → TurnEnds st t
  TurnEnds-moved st mid (done ret degrees) e ends = ends
  TurnEnds-moved st mid (more out) e (inv, (r, a, b, c)) =
      (inv, (r, a ∙ ap (λ x. r ∷ x) e, b, ap (mem r) (sym e) ∙ c))

  turn_ends : (st : Kahn) → Inv n graph st → (t : Turn) × (turn graph st ≡ some t) × TurnEnds st t
  unfolding turn
  turn_ends st inv =
      let (mid, runs, b) = begin_stratum-Begun n graph st inv in
      let (t, runs', ends) = take_safe_ends mid b.inv b.drained mid.safe_pending refl in
      (t, rw runs runs', TurnEnds-moved st mid t b.same ends)

  abbrev RunEnds : ℕ → Kahn → Type 0
  RunEnds fuel st =
      (strata : List (List ℕ)) × (degrees : List ℕ) × (run fuel graph st ≡ some (strata, degrees))
      × Ended n graph strata degrees

  -- Each turn leaves fewer nodes to emit.
  run_turn :
      (fuel : ℕ) (st : Kahn)
      → ((out : Kahn) → Inv n graph out → lacking (upto n) (emitted out) < fuel → RunEnds fuel out)
      → lacking (upto n) (emitted st) < suc fuel
      → (t : Turn) → turn graph st ≡ some t
      → TurnEnds st t
      → RunEnds (suc fuel) st
  unfolding run
  run_turn fuel st next h (done strata degrees) e ends = (strata, degrees, rw e refl, ends)
  run_turn fuel st next h (more out) e (inv, (r, emits, known, fresh)) =
      let fewer = lacking-cons (upto n) (emitted st) r (mem-upto n r known) fresh in
      let (strata, degrees, runs, s) = next out inv (rw emits (omega (arith, fewer))) in
      (strata, degrees, rw e runs, s)

  run_ends :
      (fuel : ℕ) (st : Kahn)
      → Inv n graph st
      → lacking (upto n) (emitted st) < fuel
      → RunEnds fuel st
  run_ends zero st inv h = absurd (omega arith)
  run_ends (suc fuel) st inv h =
      let (t, e, ends) = turn_ends st inv in run_turn fuel st (run_ends fuel) h t e ends

  pub kahn_loop_ends :
      (strata : List (List ℕ)) × (degrees : List ℕ) × (kahn_loop graph n ≡ some (strata, degrees))
      × Ended n graph strata degrees
  unfolding kahn_loop
  kahn_loop_ends =
      let (degrees, runs, size, counts) = degrees-runs n graph g.rows in
      let few = lacking-length (upto n) [] in
      let (strata, left, runs', s) =
        run_ends (suc n) (start degrees) (start-Inv n graph degrees size counts)
          (omega (arith, few, length-upto n)) in
      (strata, left, rw runs runs', s)
