-- ===== src/Query/Scc/Lower.antt =====
-- The step of `TarjanScc::dfs` after a visit (retia-core/src/query/graph.rs): it lowers the low of the
-- node at hand.
use retia.Prelude.{
  ℕ, ◌<◌, ◌≤◌, ◌==◌, ◌≡◌, refl, ap, ◌∙◌, true, false, ◌&&◌, some, List, length, set, length-set,
  mem, mem-differs, get_or_zero, get_or_zero-set, get_elem?-get_or_zero, if◌then◌else◌, arith,
  Bool-cases, inl, inr, min, leb,
}
use retia.Query.Scc.{TarjanScc, lower}
use retia.Query.Scc.State.{has_edge, Leads, here, step, Leads-trans, number, Inv}

module _ (n : ℕ) (graph : List (List ℕ)) (gray : List ℕ) (at to : ℕ) (st : TarjanScc)
    (inv : Inv n graph gray st) (on : mem at st.stack ≡ true) (known : to < n) where
  at_known : at < length st.low
  at_known = omega (arith, inv.shape.stack at on, inv.shape.low)

  -- The low that the node has after the step.
  abbrev pub least : ℕ
  least = min (get_or_zero st.low at) (get_or_zero st.low to)

  abbrev pub lowered : TarjanScc
  lowered = if mem to st.stack then record st { low = set st.low at least } else st

  pub lower-lowered : lower at to st ≡ some lowered
  unfolding lower
  lower-lowered = elim (Bool-cases (mem to st.stack)) [
    | inl e ↦
        rw
          (
            inv.on to known,
            e,
            get_elem?-get_or_zero st.low at at_known,
            get_elem?-get_or_zero st.low to (omega (arith, inv.shape.low)),
          )
          refl
    | inr e ↦ rw (inv.on to known, e) refl
  ]

  module _ (gray_at : mem at gray ≡ true) (edge : has_edge graph at to ≡ true)
      (met : mem to st.stack ≡ true) where
    abbrev lower_state : TarjanScc
    lower_state = record st { low = set st.low at least }

    reads :
        (v : ℕ) → get_or_zero lower_state.low v ≡ (if v == at then least else get_or_zero st.low v)
    reads v = get_or_zero-set st.low at least v at_known

    not_at : (v : ℕ) → mem v gray ≡ false → (v == at) ≡ false
    not_at v h = mem-differs v at gray h gray_at

    off_at : (v : ℕ) → mem v st.stack ≡ false → (v == at) ≡ false
    off_at v h = mem-differs v at st.stack h on

    lower_low_at :
        (v : ℕ)
        → mem v st.stack ≡ true
        → (y : ℕ) × (mem y st.stack ≡ true)
          × (number st.ids y ≡ get_or_zero lower_state.low v)
          × Leads graph v y
    lower_low_at v h =
        let (y, a, b, p) = inv.low_at v h in
        elim (Bool-cases (v == at)) [
          | inr e ↦ (y, a, ground (arith, reads v), p)
          | inl e ↦
              let i : v ≡ at = ground arith in
              let f = ap (get_or_zero st.low) i in
              let (z, c, d, q) = inv.low_at to met in
              elim (Bool-cases (leb (get_or_zero st.low at) (get_or_zero st.low to))) [
                | inl g ↦ (y, a, ground (arith, reads v), p)
                | inr g ↦ (
                  z,
                  c,
                  ground (arith, reads v),
                  rw i (Leads-trans graph at to z (step here edge) q),
                )
              ]
        ]

    lower_low_le : (v : ℕ) → mem v st.stack ≡ true → get_or_zero lower_state.low v ≤ number st.ids v
    lower_low_le v h = elim (Bool-cases (v == at)) [
      | inr e ↦ ground (arith, reads v, inv.low_le v h)
      | inl e ↦
          let i : v ≡ at = ground arith in
          ground (arith, reads v, inv.low_le at on, ap (number st.ids) i)
    ]

    lower_state-Inv : Inv n graph gray lower_state
    lower_state-Inv = record {
      shape = record {
        ids = inv.shape.ids;
        low = length-set st.low at least ∙ inv.shape.low;
        on_stack = inv.shape.on_stack;
        stack = inv.shape.stack;
      };
      positive = inv.positive;
      bounded = inv.bounded;
      injective = inv.injective;
      on = inv.on;
      visited = inv.visited;
      descends = inv.descends;
      grays = inv.grays;
      low_le = lower_low_le;
      low_at = lower_low_at;
      back = λ v h e. ground (arith, reads v, not_at v e, inv.back v h e);
      edges = λ v w h e f.
          (let (a, b) = inv.edges v w h e f in (a, λ g. ground (arith, reads v, not_at v e, b g)));
      gone = inv.gone;
      roots = λ v h e.
          (let (r, a, b, c, p, q) = inv.roots v h e in
            (r, a, b, ground (arith, reads v, off_at v e), p, q));
      classes = λ u v h e k f p q.
          ground (arith, reads u, reads v, off_at u e, off_at v f, inv.classes u v h e k f p q);
    }

  -- The step keeps what holds, changes no other low, and lowers that of the node to the met one's.
  pub lowered-Inv : mem at gray ≡ true → has_edge graph at to ≡ true → Inv n graph gray lowered
  lowered-Inv g e = elim (Bool-cases (mem to st.stack)) [
    | inl met ↦ rw met (lower_state-Inv g e met)
    | inr off ↦ rw off inv
  ]

  pub lowered_low :
      (v : ℕ)
      → get_or_zero lowered.low v
        ≡ (if (v == at) && mem to st.stack then least else get_or_zero st.low v)
  lowered_low v = elim (Bool-cases (mem to st.stack)) [
    | inl met ↦ rw met (ground (arith, get_or_zero-set st.low at least v at_known))
    | inr off ↦ rw off (ground arith)
  ]

  pub lowered_same : (lowered.stack ≡ st.stack) × (lowered.ids ≡ st.ids) × (lowered.id ≡ st.id)
  lowered_same = elim (Bool-cases (mem to st.stack)) [
    | inl met ↦ rw met (refl, refl, refl)
    | inr off ↦ rw off (refl, refl, refl)
  ]
