-- ===== src/Query/Stratify/Only.antt =====
-- The graph of components (retia-core/src/query/stratify.rs) has an edge only for an edge between two of them.
use retia.Prelude.{
  ℕ, ◌==◌, ◌≡◌, sym, ap, ◌∙◌, Bool, true, false, ◌||◌, none, some, is_some, [], ◌∷◌, if◌then◌else◌,
  arith, Bool-cases, Option-cases, inl, inr, ◌⊎◌,
}
use retia.Prelude.Order.{Ord, eq?, nat_ord}
use retia.Prelude.Result.{ok}
use retia.BTreeMap.{BTreeMap, get, insert, IsSorted}
use retia.BTreeMap.Laws.{get-Above}
use retia.Query.Kahn.{StratifiedGraph}
use retia.Query.Kahn.Edges.{get-insert_nat, edge}
use retia.Query.Stratify.Reduce.{add_reduced, reduce_edges, entry_or_default, reduce_rows}
use retia.Query.Stratify.Verified.{get-cons}
use retia.Query.Stratify.Components.{edge-insert}

add_reduced_only :
    (ti : ℕ) (p : Bool) (cur : BTreeMap ℕ Bool) (t : ℕ)
    → is_some (get t (add_reduced ti p cur)) ≡ true
    → (is_some (get t cur) ≡ true) ⊎ (t ≡ ti)
add_reduced_only ti p cur t h = elim (Bool-cases (t == ti)) [
  | inl e ↦ inr (ground arith)
  | inr e ↦ elim (Option-cases (get ti cur)) [
    | inl f ↦ inl (ground (arith, get-insert_nat t ti p cur))
    | inr (q, f) ↦ inl (ground (arith, get-insert_nat t ti (q || p) cur))
  ]
]

module _ {S : Type 0} ⦃o : Ord S⦄ (indices : BTreeMap S ℕ) where
  -- An edge of a row of the graph of components comes from one of a name's.
  abbrev FromRow : ℕ → BTreeMap S Bool → ℕ → Type 0
  FromRow fi tos t =
      (v : S) × (is_some (get v tos) ≡ true) × (get v indices ≡ some t) × ((fi == t) ≡ false)

  once_only :
      (fi : ℕ) (to : S) (p : Bool) (cur : BTreeMap ℕ Bool) (t : ℕ)
      → is_some (
          get t (elim (get to indices) [
            | none ↦ cur
            | some ti ↦ if fi == ti then cur else add_reduced ti p cur
          ]))
        ≡ true
      → (is_some (get t cur) ≡ true) ⊎ ((get to indices ≡ some t) × ((fi == t) ≡ false))
  once_only fi to p cur t h = elim (Option-cases (get to indices)) [
    | inl e ↦ inl (ground arith)
    | inr (ti, e) ↦ elim (Bool-cases (fi == ti)) [
      | inl f ↦ inl (ground arith)
      | inr f ↦
          let g : is_some (get t (add_reduced ti p cur)) ≡ true = ground arith in
          elim (add_reduced_only ti p cur t g) [
            | inl k ↦ inl k
            | inr k ↦ inr (e ∙ ap some (sym k), ap (λ x. fi == x) k ∙ f)
          ]
    ]
  ]

  reduce_edges_only :
      (fi : ℕ) (tos : BTreeMap S Bool) (cur : BTreeMap ℕ Bool) (t : ℕ)
      → is_some (get t (reduce_edges indices fi tos cur)) ≡ true
      → (is_some (get t cur) ≡ true) ⊎ FromRow fi tos t
  unfolding reduce_edges
  reduce_edges_only fi [] cur t h = inl h
  reduce_edges_only fi ((to, p) ∷ tos) cur t h = elim (reduce_edges_only fi tos _ t h) [
    | inr (v, e, f, g) ↦ inr (v, ground (arith, get-cons v to p tos), f, g)
    | inl e ↦ elim (once_only fi to p cur t e) [
      | inl f ↦ inl f
      | inr (f, g) ↦ inr (to, ground (arith, get-cons to to p tos, o.cmp_self to), f, g)
    ]
  ]

  -- An edge of the graph of components comes from one of the graph's.
  abbrev pub FromGraph : StratifiedGraph S → ℕ → ℕ → Type 0
  FromGraph graph u t =
      (k : S) × (vs : BTreeMap S Bool) × (get k graph ≡ some vs)
      × (get k indices ≡ some u)
      × FromRow u vs t

  row_only :
      (fi : ℕ) (tos : BTreeMap S Bool) (ret : StratifiedGraph ℕ) (u t : ℕ)
      → is_some (edge (insert fi (reduce_edges indices fi tos (entry_or_default fi ret)) ret) u t)
        ≡ true
      → (is_some (edge ret u t) ≡ true) ⊎ ((u ≡ fi) × FromRow u tos t)
  row_only fi tos ret u t h =
      let e = edge-insert fi u t (reduce_edges indices fi tos (entry_or_default fi ret)) ret in
      elim (Bool-cases (u == fi)) [
        | inr f ↦ inl (ground arith)
        | inl f ↦
            let i : u ≡ fi = ground arith in
            elim (reduce_edges_only fi tos (entry_or_default fi ret) t (ground arith)) [
              | inl g ↦ inl (ap (λ x. is_some (edge ret x t)) i ∙ g)
              | inr (v, a, b, c) ↦ inr (i, (v, a, b, ap (λ x. x == t) i ∙ c))
            ]
      ]

  pub reduce_rows_only :
      (graph : StratifiedGraph S) (ret out : StratifiedGraph ℕ) (u t : ℕ)
      → IsSorted graph
      → reduce_rows indices graph ret ≡ ok out
      → is_some (edge out u t) ≡ true
      → (is_some (edge ret u t) ≡ true) ⊎ FromGraph graph u t
  unfolding reduce_rows
  reduce_rows_only [] ret out u t s h e =
      let i : ret ≡ out = ground arith in inl (ap (λ x. is_some (edge x u t)) i ∙ e)
  reduce_rows_only ((from, tos) ∷ graph) ret out u t s h e =
      elim (Option-cases (get from indices)) [
        | inl f ↦ absurd (ground arith)
        | inr (fi, f) ↦ elim (reduce_rows_only graph _ out u t s.1 (ground arith) e) [
          | inr (k, vs, a, b, c) ↦ inr (
            k,
            vs,
            elim (Bool-cases (eq? k from)) [
              | inl g ↦
                  let i : k ≡ from = o.eq_of_cmp k from (ground arith) in
                  let l : get from graph ≡ some vs = rw (← i) a in
                  absurd (ground (arith, get-Above from graph s.0))
              | inr g ↦ get-cons k from tos graph ∙ ground arith
            ],
            b,
            c,
          )
          | inl g ↦ elim (row_only fi tos ret u t g) [
            | inl a ↦ inl a
            | inr (i, c) ↦ inr (
              from,
              tos,
              ground (arith, get-cons from from tos graph, o.cmp_self from),
              f ∙ ap some (sym i),
              c,
            )
          ]
        ]
      ]
