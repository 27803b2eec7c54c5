-- ===== src/Query/Scc/Leave.antt =====
-- The end of a call of `TarjanScc::dfs` (retia-core/src/query/graph.rs).
use mathlib.Core.List.{append_assoc}
use retia.Prelude.{
  ℕ, zero, suc, ◌<◌, ◌≤◌, ◌==◌, ◌≡◌, refl, sym, ap, ◌∙◌, true, false, some, none, Option, List, [],
  ◌∷◌, ◌++◌, get_elem?, mem, mem-append, get_or_zero, get_elem?-get_or_zero, if◌then◌else◌, arith,
  Bool-cases, inl, inr,
}
use retia.Query.Scc.{TarjanScc, pop_component, leave}
use retia.Query.Scc.Shape.{blank, blank-set}
use retia.Query.Scc.State.{has_edge, Leads, here, number, Inv}
use retia.Query.Scc.Enter.{entered, number-entered, entered_low, entered-Inv, unnumbered, stacked}
use retia.Query.Scc.Pop.{pop_component-Popped}
use retia.Query.Scc.Component.{Ready}
use retia.Query.Scc.Settled.{popped-Inv, popped_low}
use retia.Query.Scc.Visits.{Visits, Looks}

pub get_elem?-number :
    (ids : List (Option ℕ)) (v : ℕ)
    → 0 < number ids v
    → get_elem? ids v ≡ some (some (number ids v))
get_elem?-number [] v h = absurd (omega arith)
get_elem?-number (none ∷ ids) zero h = absurd (omega arith)
get_elem?-number (some i ∷ ids) zero h = refl
get_elem?-number (i ∷ ids) (suc v) h = get_elem?-number ids v h

-- The call of a node ends, and it stays on the stack.
ungray :
    (n : ℕ) (graph : List (List ℕ)) (gray : List ℕ) (at : ℕ) (st : TarjanScc)
    → Inv n graph (at ∷ gray) st
    → get_or_zero st.low at < number st.ids at
    → ((w : ℕ)
        → has_edge graph at w ≡ true
        → (0 < number st.ids w) × (mem w st.stack ≡ true → get_or_zero st.low at ≤ number st.ids w))
    → Inv n graph gray st
ungray n graph gray at st inv less looked = record {
  shape = inv.shape;
  positive = inv.positive;
  bounded = inv.bounded;
  injective = inv.injective;
  on = inv.on;
  visited = inv.visited;
  descends = inv.descends;
  grays = λ v h. inv.grays v (ground arith);
  low_le = inv.low_le;
  low_at = inv.low_at;
  back = λ v h e. elim (Bool-cases (v == at)) [
    | inl f ↦
        let i : v ≡ at = ground arith in
        omega (arith, less, ap (number st.ids) i, ap (get_or_zero st.low) i)
    | inr f ↦ inv.back v h (ground arith)
  ];
  edges = λ v w h e k. elim (Bool-cases (v == at)) [
    | inl f ↦
        let i : v ≡ at = ground arith in
        let (a, b) = looked w (ap (λ x. has_edge graph x w) (sym i) ∙ k) in
        (a, λ m. omega (arith, b m, ap (get_or_zero st.low) i))
    | inr f ↦ inv.edges v w h (ground arith) k
  ];
  gone = inv.gone;
  roots = inv.roots;
  classes = inv.classes;
}

module _ (n : ℕ) (graph : List (List ℕ)) (gray : List ℕ) (at : ℕ) (tos : List ℕ)
    (st out : TarjanScc) (inv : Inv n graph gray st) (new : get_elem? st.ids at ≡ some none)
    (row : get_elem? graph at ≡ some tos)
    (look : Looks n graph gray at tos (entered at st) out) where
  begun : Inv n graph (at ∷ gray) (entered at st)
  begun = entered-Inv n graph gray at st inv new

  before : (v : ℕ) → number (entered at st).ids v ≡ (if v == at then suc st.id else number st.ids v)
  before v = number-entered n graph gray at st inv new v

  given_lem : number out.ids at ≡ suc st.id
  given_lem = ground (arith, look.keeps at, before at)

  at_on : mem at out.stack ≡ true
  at_on = rw look.stack (ground (arith, mem-append at look.part (at ∷ st.stack)))

  looked :
      (w : ℕ)
      → has_edge graph at w ≡ true
      → (0 < number out.ids w)
        × (mem w out.stack ≡ true → get_or_zero out.low at ≤ number out.ids w)
  looked w e = look.met w (ground (arith, row))

  fresh_lem : (z : ℕ) → mem z look.part ≡ true → (number st.ids z ≡ 0) × ((z == at) ≡ false)
  fresh_lem z h = ground (arith, look.fresh z h, before z)

  keeps_lem : (v : ℕ) → 0 < number st.ids v → number out.ids v ≡ number st.ids v
  keeps_lem v h = elim (Bool-cases (v == at)) [
    | inl e ↦
        let i : v ≡ at = ground arith in
        absurd (omega (arith, ap (number st.ids) i, unnumbered n graph gray at st inv new))
    | inr e ↦ ground (arith, look.keeps v, before v)
  ]

  reach_lem : (z : ℕ) → 0 < number out.ids z → number st.ids z ≡ 0 → Leads graph at z
  reach_lem z h e = elim (Bool-cases (z == at)) [
    | inl f ↦ let i : z ≡ at = ground arith in rw i here
    | inr f ↦ look.reach z h (ground (arith, before z))
  ]

  fewer_lem : blank out.ids ≤ blank st.ids
  fewer_lem = omega (arith, look.fewer, blank-set st.ids at (suc st.id) new)

  lows_lem : (v : ℕ) → mem v st.stack ≡ true → get_or_zero out.low v ≡ get_or_zero st.low v
  lows_lem v h = ground (
    arith,
    look.lows v,
    stacked n graph gray at st inv new v h,
    entered_low n graph gray at st inv new v,
  )

  ended :
      (z : ℕ)
      → mem z look.part ≡ true
      → (get_or_zero out.low at ≤ get_or_zero out.low z)
        × (mem z (at ∷ gray) ≡ false)
        × Leads graph at z
  ended z h = (
    look.least_of z h,
    elim (Bool-cases (mem z (at ∷ gray))) [
      | inl e ↦ absurd (omega (arith, begun.visited z (begun.grays z e), look.fresh z h))
      | inr e ↦ e
    ],
    look.reach z
        (look.inv.visited z
          (rw look.stack (ground (arith, mem-append z look.part (at ∷ st.stack)))))
        (look.fresh z h),
  )

  stays_gray : get_or_zero out.low at < number out.ids at → Visits n graph gray at st out
  stays_gray less = record {
    inv = ungray n graph gray at out look.inv less looked;
    keeps = keeps_lem;
    part = look.part ++ at ∷ [];
    stack = look.stack ∙ sym (append_assoc look.part (at ∷ []) st.stack);
    fresh = λ z h. ground (
      arith,
      mem-append z look.part (at ∷ []),
      fresh_lem z,
      unnumbered n graph gray at st inv new,
    );
    reach = reach_lem;
    fewer = fewer_lem;
    known = omega (arith, given_lem);
    least_of = λ z h. (at_on, ground (arith, mem-append z look.part (at ∷ []), look.least_of z));
    lows = lows_lem;
  }

  at_fresh : mem at look.part ≡ false
  at_fresh = ground (arith, fresh_lem at)

  ready : get_or_zero out.low at ≡ number out.ids at → Ready n graph gray at look.part st.stack out
  ready top = record {
    inv = look.inv;
    split = look.stack;
    top = top;
    ended = ended;
    looked = looked;
    kept = inv.grays;
  }

  pops :
      get_or_zero out.low at ≡ number out.ids at
      → (fin : TarjanScc) × (pop_component at (number out.ids at) out.stack out ≡ some fin)
        × Visits n graph gray at st fin
  pops top =
      let (fin, runs, p) =
        pop_component-Popped n at (number out.ids at) look.part st.stack out look.inv.shape.low
          look.inv.shape.on_stack (λ v h. look.inv.shape.stack v (rw look.stack h)) at_fresh in
      (
        fin,
        ap (λ s. pop_component at (number out.ids at) s out) look.stack ∙ runs,
        record {
          inv = popped-Inv (ready top) fin p;
          keeps = λ v h. ap (λ ids. number ids v) p.same_ids ∙ keeps_lem v h;
          part = [];
          stack = p.stack;
          fresh = λ z h. absurd (cc);
          reach = λ z h e. reach_lem z (omega (arith, ap (λ ids. number ids z) p.same_ids)) e;
          fewer = omega (arith, fewer_lem, ap blank p.same_ids);
          known = omega (arith, given_lem, ap (λ ids. number ids at) p.same_ids);
          least_of = λ z h. absurd (cc);
          lows = λ v h. popped_low (ready top) fin p v h ∙ lows_lem v h;
        },
      )

  pub leave-Visits : (fin : TarjanScc) × (leave at out ≡ some fin) × Visits n graph gray at st fin
  unfolding leave
  leave-Visits =
      let low_le = look.inv.low_le at at_on in
      let known = get_elem?-number out.ids at (omega (arith, given_lem)) in
      let low =
        get_elem?-get_or_zero out.low at
          (omega (arith, look.inv.shape.stack at at_on, look.inv.shape.low)) in
      elim (Bool-cases (number out.ids at == get_or_zero out.low at)) [
        | inl e ↦ let (fin, runs, v) = pops (ground arith) in (fin, rw (known, low, e) runs, v)
        | inr e ↦ (out, rw (known, low, e) refl, stays_gray (ground arith))
      ]
