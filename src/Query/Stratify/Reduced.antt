-- ===== src/Query/Stratify/Reduced.antt =====
-- The graph of components (retia-core/src/query/stratify.rs) has an edge for each edge between two of them.
use retia.Prelude.{
  ℕ, ◌<◌, ◌==◌, ◌≡◌, ap, Bool, true, false, not, ◌||◌, Option, none, some, [], ◌∷◌, if◌then◌else◌,
  arith, Bool-cases, Option-cases, inl, inr,
}
use retia.Prelude.Order.{Ord, eq?, nat_ord}
use retia.BTreeMap.{BTreeMap, get, insert, IsSorted}
use retia.BTreeMap.Laws.{insert-IsSorted}
use retia.Query.Kahn.Edges.{get-insert_nat, RowOf}
use retia.Query.Stratify.Reduce.{add_reduced, reduce_edges}
use retia.Query.Stratify.Verified.{get-cons}

-- An edge, poisoned if `p` is.
abbrev pub carries : Bool → Option Bool → Bool
carries p none = false
carries p (some q) = not p || q

RowOf-insert :
    (n k : ℕ) (p : Bool) (m : BTreeMap ℕ Bool) → k < n → RowOf n m → RowOf n (insert k p m)
unfolding insert nat_ord
RowOf-insert n k p [] h r = (h, tt)
RowOf-insert n k p ((j, q) ∷ m) h r = ground (arith, RowOf-insert n k p m h)

-- What a row of the graph is.
abbrev pub IsRow : ℕ → BTreeMap ℕ Bool → Type 0
IsRow n m = IsSorted m × RowOf n m

add_reduced-IsRow :
    (n ti : ℕ) (p : Bool) (cur : BTreeMap ℕ Bool)
    → ti < n
    → IsRow n cur
    → IsRow n (add_reduced ti p cur)
add_reduced-IsRow n ti p cur h r = elim (Option-cases (get ti cur)) [
  | inl e ↦ rw (e, add_reduced) (insert-IsSorted ti p cur r.0, RowOf-insert n ti p cur h r.1)
  | inr (q, e) ↦
      rw (e, add_reduced)
        (insert-IsSorted ti (q || p) cur r.0, RowOf-insert n ti (q || p) cur h r.1)
]

add_reduced_adds :
    (ti : ℕ) (p : Bool) (cur : BTreeMap ℕ Bool) → carries p (get ti (add_reduced ti p cur)) ≡ true
add_reduced_adds ti p cur = elim (Option-cases (get ti cur)) [
  | inl e ↦ ground (arith, get-insert_nat ti ti p cur)
  | inr (q, e) ↦ ground (arith, get-insert_nat ti ti (q || p) cur)
]

add_reduced_keeps :
    (ti : ℕ) (p : Bool) (cur : BTreeMap ℕ Bool) (t : ℕ) (q : Bool)
    → carries q (get t cur) ≡ true
    → carries q (get t (add_reduced ti p cur)) ≡ true
add_reduced_keeps ti p cur t q h = elim (Bool-cases (t == ti)) [
  | inl same ↦
      let i : t ≡ ti = ground arith in
      let f = ap (λ x. get x cur) i in
      elim (Option-cases (get ti cur)) [
        | inl e ↦ ground (arith, get-insert_nat t ti p cur)
        | inr (r, e) ↦ ground (arith, get-insert_nat t ti (r || p) cur)
      ]
  | inr other ↦ elim (Option-cases (get ti cur)) [
    | inl e ↦ ground (arith, get-insert_nat t ti p cur)
    | inr (r, e) ↦ ground (arith, get-insert_nat t ti (r || p) cur)
  ]
]

module _ {S : Type 0} ⦃o : Ord S⦄ (n : ℕ) (indices : BTreeMap S ℕ)
    (below : (k : S) (i : ℕ) → get k indices ≡ some i → i < n) where
  -- The row after one edge.
  abbrev reduced_once : ℕ → S → Bool → BTreeMap ℕ Bool → BTreeMap ℕ Bool
  reduced_once fi to p cur = elim (get to indices) [
    | none ↦ cur
    | some ti ↦ if fi == ti then cur else add_reduced ti p cur
  ]

  once-IsRow :
      (fi : ℕ) (to : S) (p : Bool) (cur : BTreeMap ℕ Bool)
      → IsRow n cur
      → IsRow n (reduced_once fi to p cur)
  once-IsRow fi to p cur r = elim (Option-cases (get to indices)) [
    | inl e ↦ rw (e, reduced_once) r
    | inr (ti, e) ↦ elim (Bool-cases (fi == ti)) [
      | inl same ↦ rw (e, reduced_once, same) r
      | inr other ↦ rw (e, reduced_once, other) (add_reduced-IsRow n ti p cur (below to ti e) r)
    ]
  ]

  once_keeps :
      (fi : ℕ) (to : S) (p : Bool) (cur : BTreeMap ℕ Bool) (t : ℕ) (q : Bool)
      → carries q (get t cur) ≡ true
      → carries q (get t (reduced_once fi to p cur)) ≡ true
  once_keeps fi to p cur t q h = elim (Option-cases (get to indices)) [
    | inl e ↦ rw (e, reduced_once) h
    | inr (ti, e) ↦ elim (Bool-cases (fi == ti)) [
      | inl same ↦ rw (e, reduced_once, same) h
      | inr other ↦ rw (e, reduced_once, other) (add_reduced_keeps ti p cur t q h)
    ]
  ]

  pub reduce_edges-IsRow :
      (fi : ℕ) (tos : BTreeMap S Bool) (cur : BTreeMap ℕ Bool)
      → IsRow n cur
      → IsRow n (reduce_edges indices fi tos cur)
  unfolding reduce_edges
  reduce_edges-IsRow fi [] cur r = r
  reduce_edges-IsRow fi ((to, p) ∷ tos) cur r =
      reduce_edges-IsRow fi tos (reduced_once fi to p cur) (once-IsRow fi to p cur r)

  pub reduce_edges_keeps :
      (fi : ℕ) (tos : BTreeMap S Bool) (cur : BTreeMap ℕ Bool) (t : ℕ) (q : Bool)
      → carries q (get t cur) ≡ true
      → carries q (get t (reduce_edges indices fi tos cur)) ≡ true
  unfolding reduce_edges
  reduce_edges_keeps fi [] cur t q h = h
  reduce_edges_keeps fi ((to, p) ∷ tos) cur t q h =
      reduce_edges_keeps fi tos (reduced_once fi to p cur) t q (once_keeps fi to p cur t q h)

  once_adds :
      (fi ti : ℕ) (to : S) (p : Bool) (cur : BTreeMap ℕ Bool)
      → get to indices ≡ some ti
      → (fi == ti) ≡ false
      → carries p (get ti (reduced_once fi to p cur)) ≡ true
  once_adds fi ti to p cur e h = rw (e, reduced_once, h) (add_reduced_adds ti p cur)

  pub reduce_edges_adds :
      (fi ti : ℕ) (tos : BTreeMap S Bool) (cur : BTreeMap ℕ Bool) (v : S) (p : Bool)
      → get v indices ≡ some ti
      → (fi == ti) ≡ false
      → get v tos ≡ some p
      → carries p (get ti (reduce_edges indices fi tos cur)) ≡ true
  unfolding reduce_edges
  reduce_edges_adds fi ti [] cur v p e h f = absurd (unfold get in cc)
  reduce_edges_adds fi ti ((to, q) ∷ tos) cur v p e h f = elim (Bool-cases (eq? v to)) [
    | inl same ↦
        let i : v ≡ to = ground (arith, o.eq_of_cmp v to) in
        let j : get to indices ≡ some ti = rw (← i) e in
        let k : q ≡ p = ground (arith, get-cons v to q tos) in
        reduce_edges_keeps fi tos (reduced_once fi to q cur) ti p
          (rw (← k) (once_adds fi ti to q cur j h))
    | inr other ↦
        reduce_edges_adds fi ti tos (reduced_once fi to q cur) v p e h
          (ground (arith, get-cons v to q tos))
  ]
