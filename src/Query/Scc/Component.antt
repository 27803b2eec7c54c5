-- ===== src/Query/Scc/Component.antt =====
-- What `TarjanScc::dfs` (retia-core/src/query/graph.rs) pops is a class of nodes that lead to each other.
use retia.Prelude.{
  ℕ, zero, suc, ◌<◌, ◌≤◌, ◌==◌, ◌≡◌, sym, ap, ◌∙◌, subst, Bool, true, false, ◌||◌, List, [], ◌∷◌,
  ◌++◌, mem, mem-append, get_or_zero, arith, Bool-cases, inl, inr, Option,
}
use retia.Query.Scc.{TarjanScc}
use retia.Query.Scc.State.{has_edge, Leads, here, step, Leads-trans, number, Descends, Inv}

-- What the order of the stack says of its two parts.
pub Descends-append :
    (ids : List (Option ℕ)) (part rest : List ℕ) (at : ℕ)
    → Descends ids (part ++ at ∷ rest)
    → ((z : ℕ) → mem z part ≡ true → number ids at < number ids z)
      × ((y : ℕ) → mem y rest ≡ true → number ids y < number ids at)
      × Descends ids rest
Descends-append ids [] rest at d = (λ z h. absurd (cc), d.0, d.1)
Descends-append ids (x ∷ part) rest at d =
    let (above, below, r) = Descends-append ids part rest at d.1 in (in_part above, below, r)
  where
    in_part :
        ((z : ℕ) → mem z part ≡ true → number ids at < number ids z)
        → (z : ℕ) → mem z (x ∷ part) ≡ true
        → number ids at < number ids z
    in_part above z h = elim (Bool-cases (z == x)) [
      | inl e ↦
          let i : z ≡ x = ground arith in
          let f = d.0 at (ground (arith, mem-append at part (at ∷ rest))) in
          omega (arith, f, ap (number ids) i)
      | inr e ↦ above z (ground arith)
    ]

-- A state in which the call of `at` ends and finds its component on top of the stack: `part`, then `at`.
pub record Ready (n : ℕ) (graph : List (List ℕ)) (gray : List ℕ) (at : ℕ) (part rest : List ℕ)
    (st : TarjanScc) : Type 0 where
  pub inv : Inv n graph (at ∷ gray) st
  pub split : st.stack ≡ part ++ at ∷ rest
  pub top : get_or_zero st.low at ≡ number st.ids at
  pub ended :
      (z : ℕ)
      → mem z part ≡ true
      → (get_or_zero st.low at ≤ get_or_zero st.low z)
        × (mem z (at ∷ gray) ≡ false)
        × Leads graph at z
  pub looked :
      (w : ℕ)
      → has_edge graph at w ≡ true
      → (0 < number st.ids w) × (mem w st.stack ≡ true → get_or_zero st.low at ≤ number st.ids w)
  pub kept : (v : ℕ) → mem v gray ≡ true → mem v rest ≡ true

module _ {n : ℕ} {graph : List (List ℕ)} {gray : List ℕ} {at : ℕ} {part rest : List ℕ}
    {st : TarjanScc} (c : Ready n graph gray at part rest st) where
  -- The component.
  abbrev pub member : ℕ → Bool
  member v = (v == at) || mem v part

  pub order : Descends st.ids (part ++ at ∷ rest)
  order = subst (Descends st.ids) c.split c.inv.descends

  pub above : (z : ℕ) → mem z part ≡ true → number st.ids at < number st.ids z
  above = (Descends-append st.ids part rest at order).0

  pub below : (y : ℕ) → mem y rest ≡ true → number st.ids y < number st.ids at
  below = (Descends-append st.ids part rest at order).1

  pub on_stack_lem : (v : ℕ) → mem v st.stack ≡ (member v || mem v rest)
  on_stack_lem v = rw c.split (ground (arith, mem-append v part (at ∷ rest)))

  pub member_on : (v : ℕ) → member v ≡ true → mem v st.stack ≡ true
  member_on v h = ground (arith, on_stack_lem v)

  pub member_above : (v : ℕ) → member v ≡ true → number st.ids at ≤ number st.ids v
  member_above v h = elim (Bool-cases (v == at)) [
    | inl e ↦ let i : v ≡ at = ground arith in omega (arith, ap (number st.ids) i)
    | inr e ↦ omega (arith, above v (ground arith))
  ]

  -- A node on the stack with a number not below is in the component.
  member_of : (v : ℕ) → mem v st.stack ≡ true → number st.ids at ≤ number st.ids v → member v ≡ true
  member_of v h le = ground (arith, on_stack_lem v, below v)

  pub member_off : (v : ℕ) → mem v rest ≡ true → member v ≡ false
  member_off v h = elim (Bool-cases (member v)) [
    | inl e ↦ absurd (omega (arith, below v h, member_above v e))
    | inr e ↦ e
  ]

  -- An edge from the component stays in it, or leads to what has been popped.
  pub closed :
      (v w : ℕ)
      → member v ≡ true
      → has_edge graph v w ≡ true
      → (0 < number st.ids w) × (mem w st.stack ≡ true → member w ≡ true)
  closed v w h e = elim (Bool-cases (v == at)) [
    | inl f ↦
        let i : v ≡ at = ground arith in
        let (a, b) = c.looked w (ap (λ x. has_edge graph x w) (sym i) ∙ e) in
        (a, λ g. member_of w g (omega (arith, b g, c.top)))
    | inr f ↦
        let m : mem v part ≡ true = ground arith in
        let (le, fresh, _) = c.ended v m in
        let (a, b) = c.inv.edges v w (member_on v h) fresh e in
        (a, λ g. member_of w g (omega (arith, b g, le, c.top)))
  ]

  pub Leads-back : (bound v : ℕ) → number st.ids v < bound → member v ≡ true → Leads graph v at
  Leads-back zero v h m = absurd (omega arith)
  Leads-back (suc bound) v h m = elim (Bool-cases (v == at)) [
    | inl f ↦ let i : v ≡ at = ground arith in subst (λ x. Leads graph x at) (sym i) here
    | inr f ↦
        let inside : mem v part ≡ true = ground arith in
        let (le, fresh, _) = c.ended v inside in
        let (y, on, same, path) = c.inv.low_at v (member_on v m) in
        let less = c.inv.back v (member_on v m) fresh in
        Leads-trans graph v y at path (
          Leads-back bound y (omega (arith, same, less))
            (member_of y on (omega (arith, same, le, c.top))))
  ]

  pub Leads-to : (v : ℕ) → member v ≡ true → Leads graph at v
  Leads-to v m = elim (Bool-cases (v == at)) [
    | inl f ↦ let i : v ≡ at = ground arith in subst (Leads graph at) (sym i) here
    | inr f ↦ (c.ended v (ground arith)).2
  ]

  -- What has been popped before leads to nothing that is on the stack.
  pub gone_closed :
      (v w : ℕ)
      → 0 < number st.ids v
      → mem v st.stack ≡ false
      → Leads graph v w
      → (0 < number st.ids w) × (mem w st.stack ≡ false)
  gone_closed v _ h e here = (h, e)
  gone_closed v w h e (step p f) = let (a, b) = gone_closed v _ h e p in c.inv.gone _ w a b f
