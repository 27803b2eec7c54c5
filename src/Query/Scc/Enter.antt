-- ===== src/Query/Scc/Enter.antt =====
-- The begin of a call of `TarjanScc::dfs`, and its steps over edges (retia-core/src/query/graph.rs).
use retia.Prelude.{
  ℕ, suc, ◌<◌, ◌==◌, ◌≡◌, refl, ap, ◌∙◌, true, false, Option, none, some, List, [], ◌∷◌, length,
  get_elem?, set, length-set, get_elem?-set, lt-get_elem?, mem, mem-differs, get_or_zero,
  get_or_zero-set, if◌then◌else◌, arith, Bool-cases, inl, inr,
}
use retia.Query.Scc.{TarjanScc, enter}
use retia.Query.Scc.Shape.{write-runs}
use retia.Query.Scc.State.{
  has_edge, Leads, here, number, number-set, number-get_elem?, Descends, Inv,
}

-- The state after `at` has been pushed.
abbrev pub entered : ℕ → TarjanScc → TarjanScc
entered at st = record {
  id = suc st.id;
  ids = set st.ids at (some (suc st.id));
  low = set st.low at (suc st.id);
  on_stack = set st.on_stack at true;
  stack = at ∷ st.stack;
}

Descends-set :
    (ids : List (Option ℕ)) (at i : ℕ) (stack : List ℕ)
    → at < length ids
    → mem at stack ≡ false
    → Descends ids stack
    → Descends (set ids at (some i)) stack
Descends-set ids at i [] h out d = tt
Descends-set ids at i (x ∷ xs) h out d = (
  λ y e. ground (
    arith,
    number-set ids at i y h,
    number-set ids at i x h,
    d.0 y e,
    mem-differs at y xs (ground arith) e,
  ),
  Descends-set ids at i xs h (ground arith) d.1,
)

module _ (n : ℕ) (graph : List (List ℕ)) (gray : List ℕ) (at : ℕ) (st : TarjanScc)
    (inv : Inv n graph gray st) (new : get_elem? st.ids at ≡ some none) where
  known : at < length st.ids
  known = lt-get_elem? st.ids at new

  pub unnumbered : number st.ids at ≡ 0
  unnumbered = number-get_elem? st.ids at none new

  at_off : mem at st.stack ≡ false
  at_off = elim (Bool-cases (mem at st.stack)) [
    | inl e ↦ absurd (omega (arith, inv.visited at e, unnumbered))
    | inr e ↦ e
  ]

  pub enter-entered : enter at st ≡ some (entered at st)
  unfolding enter
  enter-entered =
      rw
        (
          write-runs st.on_stack at true (omega (arith, inv.shape.ids, inv.shape.on_stack, known)),
          write-runs st.ids at (some (suc st.id)) known,
          write-runs st.low at (suc st.id) (omega (arith, inv.shape.ids, inv.shape.low, known)),
        )
        refl

  pub number-entered :
      (v : ℕ) → number (entered at st).ids v ≡ (if v == at then suc st.id else number st.ids v)
  number-entered v = number-set st.ids at (suc st.id) v known

  pub entered_low :
      (v : ℕ)
      → get_or_zero (entered at st).low v ≡ (if v == at then suc st.id else get_or_zero st.low v)
  entered_low v =
      get_or_zero-set st.low at (suc st.id) v (omega (arith, inv.shape.ids, inv.shape.low, known))

  other : (v : ℕ) → 0 < number st.ids v → (v == at) ≡ false
  other v h = elim (Bool-cases (v == at)) [
    | inl e ↦
        let i : v ≡ at = ground arith in absurd (omega (arith, ap (number st.ids) i, unnumbered))
    | inr e ↦ e
  ]

  pub stacked : (v : ℕ) → mem v st.stack ≡ true → (v == at) ≡ false
  stacked v h = other v (inv.visited v h)

  -- A node that has been popped before: it is not the new one.
  popped :
      (v : ℕ)
      → 0 < number (entered at st).ids v
      → mem v (at ∷ st.stack) ≡ false
      → (0 < number st.ids v) × (mem v st.stack ≡ false) × ((v == at) ≡ false)
  popped v h e = ground (arith, number-entered v)

  entered_low_at :
      (v : ℕ)
      → mem v (at ∷ st.stack) ≡ true
      → (y : ℕ) × (mem y (at ∷ st.stack) ≡ true)
        × (number (entered at st).ids y ≡ get_or_zero (entered at st).low v)
        × Leads graph v y
  entered_low_at v h = elim (Bool-cases (v == at)) [
    | inl e ↦ (v, h, ground (arith, number-entered v, entered_low v), here)
    | inr e ↦
        let (y, on, same, path) = inv.low_at v (ground arith) in
        (y, ground arith, ground (arith, number-entered y, entered_low v, stacked y on), path)
  ]

  entered_roots :
      (v : ℕ)
      → 0 < number (entered at st).ids v
      → mem v (at ∷ st.stack) ≡ false
      → (r : ℕ) × (0 < number (entered at st).ids r)
        × (mem r (at ∷ st.stack) ≡ false)
        × (number (entered at st).ids r ≡ get_or_zero (entered at st).low v)
        × Leads graph v r
        × Leads graph r v
  entered_roots v h e =
      let (a, b, c) = popped v h e in
      let (r, d, off, same, there, back) = inv.roots v a b in
      (
        r,
        ground (arith, number-entered r, other r d),
        ground (arith, other r d),
        ground (arith, number-entered r, other r d, entered_low v),
        there,
        back,
      )

  entered_gone :
      (v w : ℕ)
      → 0 < number (entered at st).ids v
      → mem v (at ∷ st.stack) ≡ false
      → has_edge graph v w ≡ true
      → (0 < number (entered at st).ids w) × (mem w (at ∷ st.stack) ≡ false)
  entered_gone v w h e f =
      let (a, b, c) = popped v h e in
      let (x, y) = inv.gone v w a b f in
      (ground (arith, number-entered w, other w x), ground (arith, other w x))

  pub entered-Inv : Inv n graph (at ∷ gray) (entered at st)
  entered-Inv = record {
    shape = record {
      ids = length-set st.ids at _ ∙ inv.shape.ids;
      low = length-set st.low at _ ∙ inv.shape.low;
      on_stack = length-set st.on_stack at _ ∙ inv.shape.on_stack;
      stack = λ v h. ground (arith, inv.shape.stack v, inv.shape.ids, known);
    };
    positive = λ v i h.
        ground (arith, get_elem?-set st.ids at (some (suc st.id)) v known, inv.positive v i);
    bounded = λ v. ground (arith, number-entered v, inv.bounded v);
    injective = λ u v h e. ground (
      arith,
      number-entered u,
      number-entered v,
      inv.injective u v,
      inv.bounded u,
      inv.bounded v,
    );
    on = λ v h. ground (
      arith,
      inv.on v h,
      get_elem?-set st.on_stack at true v (omega (arith, inv.shape.ids, inv.shape.on_stack, known)),
    );
    visited = λ v h. ground (arith, number-entered v, inv.visited v);
    descends = (
      λ y h. ground (arith, number-entered y, number-entered at, stacked y h, inv.bounded y),
      Descends-set st.ids at (suc st.id) st.stack known at_off inv.descends,
    );
    grays = λ v h. ground (arith, inv.grays v);
    low_le = λ v h. ground (arith, number-entered v, entered_low v, inv.low_le v);
    low_at = entered_low_at;
    back = λ v h e. ground (arith, number-entered v, entered_low v, inv.back v);
    edges = λ v w h e f.
        (let (a, b) = inv.edges v w (ground arith) (ground arith) f in
          (
            ground (arith, number-entered w, other w a),
            λ g. ground (arith, number-entered w, other w a, entered_low v, b),
          ));
    gone = entered_gone;
    roots = entered_roots;
    classes = λ u v h e k f p q.
        (let (a, b, c) = popped u h e in
          let (a', b', c') = popped v k f in
          ground (arith, entered_low u, entered_low v, inv.classes u v a b a' b' p q));
  }
