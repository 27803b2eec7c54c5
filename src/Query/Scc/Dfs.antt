-- ===== src/Query/Scc/Dfs.antt =====
-- The calls of `TarjanScc::dfs` (retia-core/src/query/graph.rs) end in states that keep the invariant.
use retia.Prelude.{
  ℕ, zero, suc, ◌+◌, ◌<◌, ◌≤◌, ◌==◌, ◌≡◌, refl, sym, ap, ◌∙◌, true, false, some, none, Option, List,
  [], ◌∷◌, length, replicate, length-replicate, get_elem?, get_elem?-lt, lt-get_elem?, mem,
  get_or_zero, arith, Bool-cases, inl, inr,
}
use retia.Query.Scc.{TarjanScc, new, visit, visit_all, dfs, dfs_all}
use retia.Query.Scc.Shape.{blank, blank-set, blank-length, IsRows}
use retia.Query.Scc.State.{has_edge, Leads, Leads-trans, number, number-get_elem?, Inv}
use retia.Query.Scc.Enter.{entered, enter-entered, entered-Inv}
use retia.Query.Scc.Lower.{lowered, lower-lowered}
use retia.Query.Scc.Visits.{
  Visits, Looks, Visits-known, Looks-nothing, Looks-one, Looks-cons, still_on,
}
use retia.Query.Scc.Leave.{leave-Visits}

module _ (n : ℕ) (graph : List (List ℕ)) (g : IsRows n graph) where
  -- `dfs` from a new node ends if there is fuel for the nodes without an id.
  abbrev DfsVisits : ℕ → Type 0
  DfsVisits fuel =
      (gray : List ℕ) (at : ℕ) (st : TarjanScc)
      → Inv n graph gray st
      → get_elem? st.ids at ≡ some none
      → blank st.ids ≤ fuel
      → (out : TarjanScc) × (dfs graph fuel at st ≡ some out) × Visits n graph gray at st out

  visit-Visits :
      (fuel : ℕ) (gray : List ℕ) (to : ℕ) (st : TarjanScc)
      → DfsVisits fuel
      → Inv n graph gray st
      → to < n
      → blank st.ids ≤ fuel
      → (out : TarjanScc) × (visit (dfs graph fuel) to st ≡ some out)
        × Visits n graph gray to st out
  unfolding visit
  visit-Visits fuel gray to st ends inv h b =
      let (known, e) = get_elem?-lt st.ids to (omega (arith, inv.shape.ids)) in visited known e
    where
      visited :
          (known : Option ℕ)
          → get_elem? st.ids to ≡ some known
          → (out : TarjanScc) × (visit (dfs graph fuel) to st ≡ some out)
            × Visits n graph gray to st out
      visited none e = let (out, runs, v) = ends gray to st inv e b in (out, rw e runs, v)
      visited (some i) e = (
        st,
        rw e refl,
        Visits-known n graph gray to st inv
            (omega (arith, inv.positive to i e, number-get_elem? st.ids to (some i) e)),
      )

  visit_all-Looks :
      (fuel : ℕ) (gray : List ℕ) (at : ℕ) (tos : List ℕ) (st : TarjanScc)
      → DfsVisits fuel
      → Inv n graph (at ∷ gray) st
      → ((v : ℕ) → mem v tos ≡ true → (v < n) × (has_edge graph at v ≡ true))
      → blank st.ids ≤ fuel
      → (out : TarjanScc) × (visit_all (dfs graph fuel) at tos st ≡ some out)
        × Looks n graph gray at tos st out
  unfolding visit_all
  visit_all-Looks fuel gray at [] st ends inv inside b =
      (st, refl, Looks-nothing n graph gray at st inv)
  visit_all-Looks fuel gray at (to ∷ tos) st ends inv inside b =
      let (below, edge) = inside to (ground arith) in
      let on = inv.grays at (ground arith) in
      let numbered = inv.visited at on in
      let (mid, runs, v) = visit-Visits fuel (at ∷ gray) to st ends inv below b in
      let on' = still_on n graph gray at to st mid on numbered edge below v in
      let first = Looks-one n graph gray at to st mid on numbered edge below v in
      let next = lowered n graph (at ∷ gray) at to mid v.inv on' below in
      let (out, runs', others) =
        visit_all-Looks fuel gray at tos next ends first.inv (λ w h. inside w (ground arith))
          (omega (arith, first.fewer)) in
      (
        out,
        rw (runs, lower-lowered n graph (at ∷ gray) at to mid v.inv on' below) runs',
        Looks-cons n graph gray at to tos st next out on numbered first others,
      )

  pub dfs-Visits : (fuel : ℕ) → DfsVisits fuel
  unfolding dfs
  dfs-Visits zero gray at st inv new b = absurd (omega (arith, blank-set st.ids at 0 new))
  dfs-Visits (suc fuel) gray at st inv new b =
      let (tos, row) =
        get_elem?-lt graph at (omega (arith, lt-get_elem? st.ids at new, inv.shape.ids, g.size)) in
      let (out, runs, look) =
        visit_all-Looks fuel gray at tos (entered at st) (dfs-Visits fuel)
          (entered-Inv n graph gray at st inv new)
          (λ v e. (g.inside at tos v row e, ground (arith, row)))
          (omega (arith, blank-set st.ids at (suc st.id) new)) in
      let (fin, runs', v) = leave-Visits n graph gray at tos st out inv new row look in
      (fin, rw (enter-entered n graph gray at st inv new, row, runs) runs', v)

  dfs_all-Inv :
      (rounds i : ℕ) (st : TarjanScc)
      → Inv n graph [] st
      → ((v : ℕ) → v < i → 0 < number st.ids v)
      → rounds + i ≡ n
      → (out : TarjanScc) × (dfs_all graph rounds i st ≡ some out)
        × Inv n graph [] out
        × ((v : ℕ) → v < n → 0 < number out.ids v)
  unfolding dfs_all
  dfs_all-Inv zero i st inv done h = (st, refl, inv, λ v k. done v (omega arith))
  dfs_all-Inv (suc rounds) i st inv done h =
      let few : blank st.ids ≤ suc (length graph) =
        omega (arith, blank-length st.ids, inv.shape.ids, g.size) in
      let (mid, runs, v) =
        visit-Visits (suc (length graph)) [] i st (dfs-Visits (suc (length graph))) inv
          (omega arith) few in
      let (out, runs', inv', all) =
        dfs_all-Inv rounds (suc i) mid v.inv
          (λ w k. elim (Bool-cases (w == i)) [
            | inl e ↦
                let same : w ≡ i = ground arith in omega (arith, v.known, ap (number mid.ids) same)
            | inr e ↦ let old = done w (ground arith) in omega (arith, v.keeps w old)
          ])
          (omega arith) in
      (out, rw runs runs', inv', all)

  number-replicate : (m v : ℕ) → number (replicate m none) v ≡ 0
  number-replicate zero v = refl
  number-replicate (suc m) zero = refl
  number-replicate (suc m) (suc v) = number-replicate m v

  get_elem?-replicate :
      {A : Type 0} (m v : ℕ) (a : A) → v < m → get_elem? (replicate m a) v ≡ some a
  get_elem?-replicate zero v a h = absurd (omega arith)
  get_elem?-replicate (suc m) zero a h = refl
  get_elem?-replicate (suc m) (suc v) a h = get_elem?-replicate m v a (omega arith)

  new-positive : (m v i : ℕ) → get_elem? (replicate m none) v ≡ some (some i) → 0 < i
  new-positive zero v i h = absurd (cc)
  new-positive (suc m) zero i h = absurd (ground arith)
  new-positive (suc m) (suc v) i h = new-positive m v i h

  new-Inv : Inv n graph [] (new (length graph))
  new-Inv =
      let blank_number = number-replicate (length graph) in
      record {
        shape = record {
          ids = length-replicate (length graph) none ∙ g.size;
          low = length-replicate (length graph) 0 ∙ g.size;
          on_stack = length-replicate (length graph) false ∙ g.size;
          stack = λ v h. absurd (cc);
        };
        positive = λ v i h. new-positive (length graph) v i h;
        bounded = λ v. omega (arith, blank_number v);
        injective = λ u v h e. absurd (omega (arith, blank_number u));
        on = λ v h. get_elem?-replicate (length graph) v false (omega (arith, g.size));
        visited = λ v h. absurd (cc);
        descends = tt;
        grays = λ v h. absurd (cc);
        low_le = λ v h. absurd (cc);
        low_at = λ v h. absurd (cc);
        back = λ v h. absurd (cc);
        edges = λ v w h. absurd (cc);
        gone = λ v w h. absurd (omega (arith, blank_number v));
        roots = λ v h. absurd (omega (arith, blank_number v));
        classes = λ u v h. absurd (omega (arith, blank_number u));
      }

  -- When no call runs, the stack is empty: the nodes on it would have lower and lower lows.
  off_stack :
      (st : TarjanScc)
      → Inv n graph [] st
      → (bound v : ℕ) → number st.ids v < bound
      → mem v st.stack ≡ false
  off_stack st inv zero v h = absurd (omega arith)
  off_stack st inv (suc bound) v h = elim (Bool-cases (mem v st.stack)) [
    | inl e ↦
        let (y, on, same, path) = inv.low_at v e in
        let off = off_stack st inv bound y (omega (arith, inv.back v e refl, same)) in
        absurd (ground arith)
    | inr e ↦ e
  ]

  pub dfs_all-classes :
      (out : TarjanScc) × (dfs_all graph (length graph) 0 (new (length graph)) ≡ some out)
      × (length out.low ≡ n)
      × ((u v : ℕ)
          → u < n
          → v < n
          → get_or_zero out.low u ≡ get_or_zero out.low v
          → Leads graph u v × Leads graph v u)
      × ((u v : ℕ)
          → u < n
          → v < n
          → Leads graph u v
          → Leads graph v u
          → get_or_zero out.low u ≡ get_or_zero out.low v)
  dfs_all-classes =
      let (out, runs, inv, all) =
        dfs_all-Inv (length graph) 0 (new (length graph)) new-Inv (λ v h. absurd (omega arith))
          (omega (arith, g.size)) in
      let off = λ (v : ℕ). off_stack out inv (suc (number out.ids v)) v (omega arith) in
      (
        out,
        runs,
        inv.shape.low,
        same_low out inv all off,
        λ u v h k p q. inv.classes u v (all u h) (off u) (all v k) (off v) p q,
      )
    where
      same_low :
          (out : TarjanScc)
          → Inv n graph [] out
          → ((v : ℕ) → v < n → 0 < number out.ids v)
          → ((v : ℕ) → mem v out.stack ≡ false)
          → (u v : ℕ) → u < n
          → v < n
          → get_or_zero out.low u ≡ get_or_zero out.low v
          → Leads graph u v × Leads graph v u
      same_low out inv all off u v h k e =
          let (r, a, b, c, there, back) = inv.roots u (all u h) (off u) in
          let (r', a', b', c', there', back') = inv.roots v (all v k) (off v) in
          let i : r ≡ r' = inv.injective r r' a (c ∙ e ∙ sym c') in
          (Leads-trans graph u r v there (rw i back'), Leads-trans graph v r u (rw i there') back)
