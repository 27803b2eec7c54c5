-- ===== src/Query/Scc/Visits.antt =====
-- What a visit of a node and a look at its edges do in `TarjanScc::dfs` (retia-core/src/query/graph.rs).
use mathlib.Core.List.{append_assoc}
use retia.Prelude.{
  ℕ, ◌<◌, ◌≤◌, ◌==◌, ◌≡◌, refl, sym, ap, ◌∙◌, true, false, ◌&&◌, Option, List, [], ◌∷◌, ◌++◌, mem,
  mem-append, get_or_zero, if◌then◌else◌, arith, Bool-cases, inl, inr,
}
use retia.Query.Scc.{TarjanScc}
use retia.Query.Scc.Shape.{blank}
use retia.Query.Scc.State.{has_edge, Leads, here, step, Leads-trans, number, Inv}
use retia.Query.Scc.Lower.{least, lowered, lowered-Inv, lowered_low, lowered_same}

-- After a visit of `at`: the nodes that it has met and not popped lie on the stack.
pub record Visits (n : ℕ) (graph : List (List ℕ)) (gray : List ℕ) (at : ℕ) (st out : TarjanScc)
    : Type 0 where
  pub inv : Inv n graph gray out
  pub keeps : (v : ℕ) → 0 < number st.ids v → number out.ids v ≡ number st.ids v
  pub part : List ℕ
  pub stack : out.stack ≡ part ++ st.stack
  pub fresh : (z : ℕ) → mem z part ≡ true → number st.ids z ≡ 0
  pub reach : (z : ℕ) → 0 < number out.ids z → number st.ids z ≡ 0 → Leads graph at z
  pub fewer : blank out.ids ≤ blank st.ids
  pub known : 0 < number out.ids at
  pub least_of :
      (z : ℕ)
      → mem z part ≡ true
      → (mem at out.stack ≡ true) × (get_or_zero out.low at ≤ get_or_zero out.low z)
  pub lows : (v : ℕ) → mem v st.stack ≡ true → get_or_zero out.low v ≡ get_or_zero st.low v

-- After a look at some edges of `at`.
pub record Looks (n : ℕ) (graph : List (List ℕ)) (gray : List ℕ) (at : ℕ) (tos : List ℕ)
    (st out : TarjanScc) : Type 0 where
  pub inv : Inv n graph (at ∷ gray) out
  pub keeps : (v : ℕ) → 0 < number st.ids v → number out.ids v ≡ number st.ids v
  pub part : List ℕ
  pub stack : out.stack ≡ part ++ st.stack
  pub fresh : (z : ℕ) → mem z part ≡ true → number st.ids z ≡ 0
  pub reach : (z : ℕ) → 0 < number out.ids z → number st.ids z ≡ 0 → Leads graph at z
  pub fewer : blank out.ids ≤ blank st.ids
  pub lower : get_or_zero out.low at ≤ get_or_zero st.low at
  pub least_of : (z : ℕ) → mem z part ≡ true → get_or_zero out.low at ≤ get_or_zero out.low z
  pub lows :
      (v : ℕ)
      → mem v st.stack ≡ true
      → (v == at) ≡ false
      → get_or_zero out.low v ≡ get_or_zero st.low v
  pub met :
      (w : ℕ)
      → mem w tos ≡ true
      → (0 < number out.ids w)
        × (mem w out.stack ≡ true → get_or_zero out.low at ≤ number out.ids w)

-- A node that was met before needs no visit.
pub Visits-known :
    (n : ℕ) (graph : List (List ℕ)) (gray : List ℕ) (at : ℕ) (st : TarjanScc)
    → Inv n graph gray st
    → 0 < number st.ids at
    → Visits n graph gray at st st
Visits-known n graph gray at st inv h = record {
  inv = inv;
  keeps = λ v k. refl;
  part = [];
  stack = refl;
  fresh = λ z e. absurd (cc);
  reach = λ z k e. absurd (omega arith);
  fewer = omega arith;
  known = h;
  least_of = λ z e. absurd (cc);
  lows = λ v e. refl;
}

pub Looks-nothing :
    (n : ℕ) (graph : List (List ℕ)) (gray : List ℕ) (at : ℕ) (st : TarjanScc)
    → Inv n graph (at ∷ gray) st
    → Looks n graph gray at [] st st
Looks-nothing n graph gray at st inv = record {
  inv = inv;
  keeps = λ v k. refl;
  part = [];
  stack = refl;
  fresh = λ z e. absurd (cc);
  reach = λ z k e. absurd (omega arith);
  fewer = omega arith;
  lower = omega arith;
  least_of = λ z e. absurd (cc);
  lows = λ v e f. refl;
  met = λ w e. absurd (cc);
}

-- A node that is on the stack is not one that is met later.
numbered_differs :
    (ids : List (Option ℕ)) (z at : ℕ) → number ids z ≡ 0 → 0 < number ids at → (z == at) ≡ false
numbered_differs ids z at e h = elim (Bool-cases (z == at)) [
  | inl f ↦ let i : z ≡ at = ground arith in absurd (omega (arith, ap (number ids) i))
  | inr f ↦ f
]

module _ (n : ℕ) (graph : List (List ℕ)) (gray : List ℕ) (at to : ℕ) (st mid : TarjanScc)
    (on : mem at st.stack ≡ true) (numbered : 0 < number st.ids at)
    (edge : has_edge graph at to ≡ true) (below : to < n)
    (v : Visits n graph (at ∷ gray) to st mid) where
  pub still_on : mem at mid.stack ≡ true
  still_on = rw v.stack (ground (arith, mem-append at v.part st.stack))

  abbrev after : TarjanScc
  after = lowered n graph (at ∷ gray) at to mid v.inv still_on below

  after_low :
      (w : ℕ)
      → get_or_zero after.low w ≡ (
          if (w == at) && mem to mid.stack
          then least n graph (at ∷ gray) at to mid v.inv still_on below
          else get_or_zero mid.low w)
  after_low w = lowered_low n graph (at ∷ gray) at to mid v.inv still_on below w

  at_low : get_or_zero mid.low at ≡ get_or_zero st.low at
  at_low = v.lows at on

  -- One edge: its target is visited, and the low is lowered to the target's.
  pub Looks-one : Looks n graph gray at (to ∷ []) st after
  Looks-one =
      let (same_stack, same_ids, _) =
        lowered_same n graph (at ∷ gray) at to mid v.inv still_on below in
      record {
        inv = lowered-Inv n graph (at ∷ gray) at to mid v.inv still_on below (ground arith) edge;
        keeps = λ w h. ap (λ ids. number ids w) same_ids ∙ v.keeps w h;
        part = v.part;
        stack = same_stack ∙ v.stack;
        fresh = v.fresh;
        reach = λ z h e.
            Leads-trans graph at to z (step here edge)
              (v.reach z (omega (arith, ap (λ ids. number ids z) same_ids)) e);
        fewer = omega (arith, ap blank same_ids, v.fewer);
        lower = ground (arith, after_low at, at_low);
        least_of = λ z h. ground (
          arith,
          after_low at,
          after_low z,
          v.least_of z h,
          numbered_differs st.ids z at (v.fresh z h) numbered,
        );
        lows = λ w h e. ground (arith, after_low w, v.lows w h);
        met = λ w h.
            (let i : w ≡ to = ground arith in
              (
                omega (arith, ap (number after.ids) i, ap (λ ids. number ids to) same_ids, v.known),
                λ g.
                    (let f : mem to mid.stack ≡ true =
                        ap (mem to) (sym same_stack) ∙ ap (λ x. mem x after.stack) (sym i) ∙ g in
                      ground (
                        arith,
                        after_low at,
                        v.inv.low_le to f,
                        ap (number after.ids) i,
                        ap (λ ids. number ids to) same_ids,
                      )),
              ));
      }

module _ (n : ℕ) (graph : List (List ℕ)) (gray : List ℕ) (at to : ℕ) (tos : List ℕ)
    (st mid out : TarjanScc) (on : mem at st.stack ≡ true) (numbered : 0 < number st.ids at)
    (first : Looks n graph gray at (to ∷ []) st mid)
    (others : Looks n graph gray at tos mid out) where
  both_least :
      (z : ℕ)
      → mem z (others.part ++ first.part) ≡ true
      → get_or_zero out.low at ≤ get_or_zero out.low z
  both_least z h = elim (Bool-cases (mem z others.part)) [
    | inl e ↦ others.least_of z e
    | inr e ↦
        let f : mem z first.part ≡ true = ground (arith, mem-append z others.part first.part) in
        let g : mem z mid.stack ≡ true =
          rw first.stack (ground (arith, mem-append z first.part st.stack)) in
        omega (
          arith,
          others.lower,
          first.least_of z f,
          others.lows z g (numbered_differs st.ids z at (first.fresh z f) numbered),
        )
  ]

  both_fresh : (z : ℕ) → mem z (others.part ++ first.part) ≡ true → number st.ids z ≡ 0
  both_fresh z h = elim (Bool-cases (mem z others.part)) [
    | inl e ↦
        let f = others.fresh z e in
        elim (Bool-cases (number st.ids z == 0)) [
          | inl g ↦ ground arith
          | inr g ↦
              let k : 0 < number st.ids z = ground arith in absurd (omega (arith, first.keeps z k))
        ]
    | inr e ↦ first.fresh z (ground (arith, mem-append z others.part first.part))
  ]

  both_reach : (z : ℕ) → 0 < number out.ids z → number st.ids z ≡ 0 → Leads graph at z
  both_reach z h e = elim (Bool-cases (number mid.ids z == 0)) [
    | inl f ↦ others.reach z h (ground arith)
    | inr f ↦ first.reach z (ground arith) e
  ]

  both_met :
      (w : ℕ)
      → mem w (to ∷ tos) ≡ true
      → (0 < number out.ids w)
        × (mem w out.stack ≡ true → get_or_zero out.low at ≤ number out.ids w)
  both_met w h = elim (Bool-cases (mem w tos)) [
    | inl e ↦ others.met w e
    | inr e ↦
        let (a, b) = first.met w (ground arith) in
        let same = others.keeps w a in
        (
          omega arith,
          λ g. elim (Bool-cases (mem w others.part)) [
            | inl f ↦ absurd (omega (arith, others.fresh w f))
            | inr f ↦
                let k : mem w mid.stack ≡ true =
                  ground (arith, ap (mem w) others.stack, mem-append w others.part mid.stack) in
                omega (arith, b k, others.lower)
          ],
        )
  ]

  pub Looks-cons : Looks n graph gray at (to ∷ tos) st out
  Looks-cons = record {
    inv = others.inv;
    keeps = λ w h. (let e = first.keeps w h in others.keeps w (omega arith) ∙ e);
    part = others.part ++ first.part;
    stack =
        others.stack
        ∙ ap (λ s. others.part ++ s) first.stack
        ∙ sym (append_assoc others.part first.part st.stack);
    fresh = both_fresh;
    reach = both_reach;
    fewer = omega (arith, first.fewer, others.fewer);
    lower = omega (arith, first.lower, others.lower);
    least_of = both_least;
    lows = λ w h e.
        others.lows w (rw first.stack (ground (arith, mem-append w first.part st.stack))) e
        ∙ first.lows w h e;
    met = both_met;
  }
