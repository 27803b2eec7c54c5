-- ===== src/Query/Kahn/Emit.antt =====
-- A turn that emits a node keeps the invariant (retia-core/src/query/graph.rs).
use retia.Prelude.{
  ℕ, ◌<◌, ◌≤◌, ◌==◌, ◌≡◌, ap, subst, ◌∙◌, Bool, true, false, ◌||◌, some, is_some, List, [], ◌∷◌,
  ◌++◌, length, mem, mem-append, IsUnique, get_or_zero, arith, inl, inr, Bool-cases, Option-cases,
  if◌then◌else◌,
}
use retia.Prelude.Order.{nat_ord}
use retia.Query.Kahn.{Kahn, StratifiedGraph, edges_of}
use retia.Query.Kahn.Edges.{
  edge, waiting, waiting_zero, waiting_emit, IsGraph, RowOf-get, edges_of-IsRow,
}
use retia.Query.Kahn.Relax.{Relaxed, Counted}
use retia.Query.Kahn.Strata.{
  stratum, stratum-append, stratum-lt, emission, mem-rev_onto, mem-emission, rev_onto-append,
  IsTopological, IsStratified,
}
use retia.Query.Kahn.Invariant.{Inv, emitted}

-- The state in which the edges of the removed node are relaxed.
abbrev pub removed : Kahn → ℕ → List ℕ → Kahn
removed st r rest = record st {
  safe_pending = rest;
  current_stratum = st.current_stratum ++ r ∷ [];
}

mem_pushed : (v r : ℕ) (s : List ℕ) → mem v (s ++ r ∷ []) ≡ ((v == r) || mem v s)
mem_pushed v r s = ground (arith, mem-append v s (r ∷ []))

module _ (n : ℕ) (graph : StratifiedGraph ℕ) (g : IsGraph n graph) (st : Kahn) (r : ℕ)
    (rest : List ℕ) (inv : Inv n graph st) (front : st.safe_pending ≡ r ∷ rest) where
  in_front : mem r st.safe_pending ≡ true
  in_front = rw front (ground arith)

  behind : (v : ℕ) → mem v rest ≡ true → mem v st.safe_pending ≡ true
  behind v h = rw front (ground arith)

  alone : mem r rest ≡ false
  alone = let u = subst IsUnique front inv.unique in u.0

  pub unemitted : mem r (emitted st) ≡ false
  unemitted = (inv.ready r in_front).2

  -- Before it is removed, each target of the node waits for it.
  target_waits : (v : ℕ) → is_some (edge graph r v) ≡ true → 0 < get_or_zero st.in_degree v
  target_waits v h =
      ground (arith, inv.degree v, waiting_emit graph (emitted st) r v g.keys unemitted)

  pub removed-Counted : Counted (edges_of graph r) (removed st r rest)
  removed-Counted v h = elim (Bool-cases (mem v rest)) [
    | inl c ↦ absurd (ground (arith, target_waits v h, inv.ready v (behind v c)))
    | inr c ↦ (target_waits v h, c)
  ]

  module _ (out : Kahn) (rx : Relaxed (edges_of graph r) (removed st r rest) out) where
    pub out_emitted : emitted out ≡ r ∷ emitted st
    out_emitted =
        rw (rx.same_ret, rx.same_stratum)
          (rev_onto-append st.current_stratum (emission st.ret []) r)

    out_degree : (v : ℕ) → get_or_zero out.in_degree v ≡ waiting graph (emitted out) v
    out_degree v = rw out_emitted (
        omega
          (arith, rx.degree v, inv.degree v, waiting_emit graph (emitted st) r v g.keys unemitted))

    out_current : (v : ℕ) → mem v out.current_stratum ≡ ((v == r) || mem v st.current_stratum)
    out_current v = rw rx.same_stratum (mem_pushed v r st.current_stratum)

    -- A target of the node is a node that has not been emitted.
    target_fresh :
        (v : ℕ) → is_some (edge graph r v) ≡ true → (v < n) × (mem v (emitted out) ≡ false)
    target_fresh v h = elim (Option-cases (edge graph r v)) [
      | inl e ↦ ground arith
      | inr (p, e) ↦ (
        RowOf-get n (edges_of graph r) v p (edges_of-IsRow n graph r g.rows).1 e,
        rw out_emitted (ground (arith, inv.settled v, target_waits v h, inv.ready r in_front)),
      )
    ]

    out_ready :
        (v : ℕ)
        → mem v out.safe_pending ≡ true
        → (v < n)
          × (get_or_zero out.in_degree v ≡ 0)
          × (mem v (emitted out) ≡ false)
          × (mem v out.unsafe_nodes ≡ false)
    out_ready v h = elim (Bool-cases (mem v rest)) [
      | inl c ↦
          let (a, b, d, e) = inv.ready v (behind v c) in
          (
            a,
            omega (arith, rx.degree v),
            rw out_emitted (ground (arith, alone)),
            ground (arith, rx.held v, rx.degree v),
          )
      | inr c ↦
          let t : is_some (edge graph r v) ≡ true = ground (arith, rx.pending v) in
          let (a, b) = target_fresh v t in
          (a, ground (arith, rx.pending v), b, ground (arith, rx.pending v))
    ]

    out_marks :
        (u v : ℕ)
        → mem u out.current_stratum ≡ true
        → edge graph u v ≡ some true
        → mem v out.unsafe_nodes ≡ true
    out_marks u v h e = elim (Bool-cases (u == r)) [
      | inl c ↦ ground (arith, rx.held v)
      | inr c ↦ ground (arith, rx.held v, out_current u, inv.marks u v)
    ]

    out_clean :
        (u v : ℕ)
        → mem v out.safe_pending ≡ true
        → edge graph u v ≡ some true
        → mem u out.current_stratum ≡ false
    out_clean u v h e = elim (Bool-cases (mem u out.current_stratum)) [
      | inl c ↦ absurd (ground (arith, out_marks u v c e, out_ready v h))
      | inr c ↦ c
    ]

    out_held : (v : ℕ) → mem v out.unsafe_nodes ≡ true → (v < n) × (mem v (emitted out) ≡ false)
    out_held v h = elim (Bool-cases (mem v st.unsafe_nodes)) [
      | inl c ↦
          ((inv.held v c).0, rw out_emitted (ground (arith, inv.held v c, inv.ready r in_front)))
      | inr c ↦ target_fresh v (ground (arith, rx.held v))
    ]

    out_reached :
        (v : ℕ)
        → v < n
        → get_or_zero out.in_degree v ≡ 0
        → (mem v (emitted out) || mem v out.safe_pending || mem v out.unsafe_nodes) ≡ true
    out_reached v h d = elim (Bool-cases (is_some (edge graph r v))) [
      | inl c ↦ ground (arith, rx.pending v)
      | inr c ↦
          rw out_emitted (
            ground (arith, rx.degree v, inv.reached v h, rx.pending v, rx.held v, ap (mem v) front))
    ]

    out_once : IsUnique (emitted out)
    out_once = rw out_emitted (unemitted, inv.once)

    -- Whatever leads to the node has been emitted.
    source_emitted : (u : ℕ) (p : Bool) → edge graph u r ≡ some p → mem u (emitted st) ≡ true
    source_emitted u p e =
        waiting_zero graph (emitted st) u r p (omega (arith, inv.degree r, inv.ready r in_front)) e

    out-IsTopological : IsTopological graph (emitted out)
    out-IsTopological = rw out_emitted (source_emitted, inv.topological)

    -- The node joins the last stratum; the others stay where they are.
    out_stratum :
        (v : ℕ)
        → stratum v (out.ret ++ out.current_stratum ∷ [])
          ≡ (if v == r then some (length st.ret) else stratum v (st.ret ++ st.current_stratum ∷ []))
    out_stratum v =
        rw (rx.same_ret, rx.same_stratum)
          (ground (
            arith,
            stratum-append v st.ret (st.current_stratum ++ r ∷ []),
            stratum-append v st.ret st.current_stratum,
            mem_pushed v r st.current_stratum,
            mem-rev_onto r st.current_stratum (emission st.ret []),
            mem-emission r st.ret [],
            unemitted,
          ))

    source_stratum :
        (u : ℕ) (p : Bool)
        → edge graph u r ≡ some p
        → (i : ℕ) × (stratum u (st.ret ++ st.current_stratum ∷ []) ≡ some i)
          × (i ≤ length st.ret)
          × (p ≡ true → i < length st.ret)
    source_stratum u p e = elim (Option-cases (stratum u st.ret)) [
      | inl absent ↦ (
        length st.ret,
        ground (
          arith,
          stratum-append u st.ret st.current_stratum,
          source_emitted u p e,
          mem-rev_onto u st.current_stratum (emission st.ret []),
          mem-emission u st.ret [],
        ),
        omega arith,
        λ q. absurd (
            ground (
              arith,
              inv.clean u r in_front,
              source_emitted u p e,
              mem-rev_onto u st.current_stratum (emission st.ret []),
              mem-emission u st.ret [],
            )),
      )
      | inr (i, found) ↦ (
        i,
        ground (arith, stratum-append u st.ret st.current_stratum),
        omega (arith, stratum-lt u st.ret i found),
        λ q. stratum-lt u st.ret i found,
      )
    ]

    not_itself :
        (u i : ℕ) → stratum u (st.ret ++ st.current_stratum ∷ []) ≡ some i → (u == r) ≡ false
    not_itself u i h = ground (
      arith,
      stratum-append u st.ret st.current_stratum,
      mem-rev_onto u st.current_stratum (emission st.ret []),
      mem-emission u st.ret [],
      unemitted,
    )

    out-IsStratified : IsStratified graph (out.ret ++ out.current_stratum ∷ [])
    out-IsStratified u v j p e h = elim (Bool-cases (v == r)) [
      | inl c ↦
          let same : v ≡ r = ground arith in
          let (i, found, a, b) = source_stratum u p (subst (λ x. edge graph u x ≡ some p) same e) in
          (
            i,
            ground (arith, out_stratum u, not_itself u i found),
            ground (arith, out_stratum v),
            λ q. ground (arith, out_stratum v, b q),
          )
      | inr c ↦
          let (i, found, a, b) = inv.stratified u v j p e (ground (arith, out_stratum v)) in
          (i, ground (arith, out_stratum u, not_itself u i found), a, b)
    ]

    pub Inv-emit : Inv n graph out
    Inv-emit = record {
      size = rx.size ∙ inv.size;
      degree = out_degree;
      ready = out_ready;
      clean = out_clean;
      settled = λ v h.
          ground (arith, ap (mem v) out_emitted, inv.settled v, rx.degree v, inv.ready r in_front);
      known = λ v h. ground (arith, ap (mem v) out_emitted, inv.known v, inv.ready r in_front);
      unique = rx.unique ((subst IsUnique front inv.unique).1);
      held = out_held;
      marks = out_marks;
      sorted = rx.sorted inv.sorted;
      reached = out_reached;
      once = out_once;
      topological = out-IsTopological;
      stratified = out-IsStratified;
    }
