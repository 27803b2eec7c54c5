-- ===== src/Query/Scc/Settled.antt =====
-- `TarjanScc::dfs` (retia-core/src/query/graph.rs) keeps the invariant where it has popped a component.
use retia.Prelude.{
  ℕ, suc, ◌<◌, ◌≤◌, ◌==◌, ◌≡◌, sym, ◌∙◌, subst, true, false, some, List, ◌∷◌, get_elem?, mem,
  get_or_zero, arith, Bool-cases, inl, inr,
}
use retia.Query.Scc.{TarjanScc}
use retia.Query.Scc.State.{has_edge, Leads, number, Inv}
use retia.Query.Scc.Pop.{Popped}
use retia.Query.Scc.Component.{
  Descends-append, Ready, member, below, on_stack_lem, member_on, member_above, member_off, closed,
  Leads-back, Leads-to, gone_closed, order,
}

module _ {n : ℕ} {graph : List (List ℕ)} {gray : List ℕ} {at : ℕ} {part rest : List ℕ}
    {st : TarjanScc} (c : Ready n graph gray at part rest st) (out : TarjanScc)
    (p : Popped at (number st.ids at) part rest st out) where
  low_kept : (v : ℕ) → member c v ≡ false → get_or_zero out.low v ≡ get_or_zero st.low v
  low_kept v h = ground (arith, p.low v)

  low_member : (v : ℕ) → member c v ≡ true → get_or_zero out.low v ≡ number st.ids at
  low_member v h = ground (arith, p.low v)

  off_rest : (v : ℕ) → mem v st.stack ≡ false → (mem v rest ≡ false) × (member c v ≡ false)
  off_rest v h = ground (arith, on_stack_lem c v)

  after_gone :
      (v w : ℕ)
      → 0 < number st.ids v
      → mem v rest ≡ false
      → has_edge graph v w ≡ true
      → (0 < number st.ids w) × (mem w rest ≡ false)
  after_gone v w h e f = elim (Bool-cases (member c v)) [
    | inl m ↦
        let (a, b) = closed c v w m f in
        (
          a,
          elim (Bool-cases (mem w rest)) [
            | inl r ↦
                absurd (ground (arith, member_off c w r, b (ground (arith, on_stack_lem c w))))
            | inr r ↦ r
          ],
        )
    | inr m ↦
        let (a, b) = c.inv.gone v w h (ground (arith, on_stack_lem c v)) f in (a, (off_rest w b).0)
  ]

  after_roots :
      (v : ℕ)
      → 0 < number st.ids v
      → mem v rest ≡ false
      → (r : ℕ) × (0 < number st.ids r)
        × (mem r rest ≡ false)
        × (number st.ids r ≡ get_or_zero out.low v)
        × Leads graph v r
        × Leads graph r v
  after_roots v h e = elim (Bool-cases (member c v)) [
    | inl m ↦ (
      at,
      c.inv.visited at (member_on c at (ground arith)),
      ground (arith, below c at),
      sym (low_member v m),
      Leads-back c (suc (number st.ids v)) v (omega arith) m,
      Leads-to c v m,
    )
    | inr m ↦
        let (r, a, b, c, q, q') = c.inv.roots v h (ground (arith, on_stack_lem c v)) in
        (r, a, (off_rest r b).0, c ∙ sym (low_kept v m), q, q')
  ]

  after_classes :
      (u v : ℕ)
      → 0 < number st.ids u
      → mem u rest ≡ false
      → 0 < number st.ids v
      → mem v rest ≡ false
      → Leads graph u v
      → Leads graph v u
      → get_or_zero out.low u ≡ get_or_zero out.low v
  after_classes u v h e k f q q' = elim (Bool-cases (member c u)) [
    | inl m ↦ elim (Bool-cases (member c v)) [
      | inl m' ↦ low_member u m ∙ sym (low_member v m')
      | inr m' ↦
          let gone = gone_closed c v u k (ground (arith, on_stack_lem c v)) q' in
          absurd (ground (arith, member_on c u m))
    ]
    | inr m ↦ elim (Bool-cases (member c v)) [
      | inl m' ↦
          let gone = gone_closed c u v h (ground (arith, on_stack_lem c u)) q in
          absurd (ground (arith, member_on c v m'))
      | inr m' ↦
          low_kept u m
          ∙ c.inv.classes u v h (ground (arith, on_stack_lem c u)) k
              (ground (arith, on_stack_lem c v)) q q'
          ∙ sym (low_kept v m')
    ]
  ]

  -- A node that stays on the stack was on it, in the other part, and keeps its low.
  stays :
      (v : ℕ)
      → mem v rest ≡ true
      → (mem v st.stack ≡ true)
        × (get_or_zero out.low v ≡ get_or_zero st.low v)
        × ((v == at) ≡ false)
  stays v h =
      let off = member_off c v h in (ground (arith, on_stack_lem c v), low_kept v off, ground arith)

  not_gray : (v : ℕ) → mem v rest ≡ true → mem v gray ≡ false → mem v (at ∷ gray) ≡ false
  not_gray v h e = ground (arith, stays v h)

  after_low_at :
      (v : ℕ)
      → mem v rest ≡ true
      → (y : ℕ) × (mem y rest ≡ true) × (number st.ids y ≡ get_or_zero out.low v) × Leads graph v y
  after_low_at v h =
      let (on, same, _) = stays v h in
      let (y, a, b, path) = c.inv.low_at v on in
      let less : number st.ids y < number st.ids at =
        omega (arith, b, c.inv.low_le v on, below c v h) in
      (
        y,
        elim (Bool-cases (mem y rest)) [
          | inl e ↦ e
          | inr e ↦
              absurd (omega (arith, less, member_above c y (ground (arith, on_stack_lem c y))))
        ],
        b ∙ sym same,
        path,
      )

  after_edges :
      (v w : ℕ)
      → mem v rest ≡ true
      → mem v gray ≡ false
      → has_edge graph v w ≡ true
      → (0 < number st.ids w) × (mem w rest ≡ true → get_or_zero out.low v ≤ number st.ids w)
  after_edges v w h e f =
      let (on, same, _) = stays v h in
      let (a, b) = c.inv.edges v w on (not_gray v h e) f in (a, λ g. rw same (b (stays w g).0))

  after_on : (v : ℕ) → v < n → get_elem? out.on_stack v ≡ some (mem v rest)
  after_on v h = elim (Bool-cases (member c v)) [
    | inl m ↦ ground (arith, p.on v (omega (arith, c.inv.shape.on_stack)), member_off c v)
    | inr m ↦
        ground (arith, p.on v (omega (arith, c.inv.shape.on_stack)), c.inv.on v h, on_stack_lem c v)
  ]

  -- The state with the ids and the stack that are known.
  abbrev settled : TarjanScc
  settled = record {
    id = st.id;
    ids = st.ids;
    low = out.low;
    on_stack = out.on_stack;
    stack = rest;
  }

  settled-Inv : Inv n graph gray settled
  settled-Inv = record {
    shape = record {
      ids = c.inv.shape.ids;
      low = p.size_low ∙ c.inv.shape.low;
      on_stack = p.size_on ∙ c.inv.shape.on_stack;
      stack = λ v h. c.inv.shape.stack v (stays v h).0;
    };
    positive = c.inv.positive;
    bounded = c.inv.bounded;
    injective = c.inv.injective;
    on = after_on;
    visited = λ v h. c.inv.visited v (stays v h).0;
    descends = (Descends-append st.ids part rest at (order c)).2;
    grays = c.kept;
    low_le = λ v h. (let (on, same, _) = stays v h in rw same (c.inv.low_le v on));
    low_at = after_low_at;
    back = λ v h e. (let (on, same, _) = stays v h in rw same (c.inv.back v on (not_gray v h e)));
    edges = after_edges;
    gone = after_gone;
    roots = after_roots;
    classes = after_classes;
  }

  settled_lem : out ≡ settled
  settled_lem = ground (arith, p.same_id, p.same_ids, p.stack)

  pub popped-Inv : Inv n graph gray out
  popped-Inv = subst (Inv n graph gray) (sym settled_lem) settled-Inv

  pub popped_low : (v : ℕ) → mem v rest ≡ true → get_or_zero out.low v ≡ get_or_zero st.low v
  popped_low v h = (stays v h).1
