-- ===== src/Query/Stratify/Components.antt =====
-- `make_scc_reduced_graph` (retia-core/src/query/stratify.rs) returns a graph of the components.
use retia.Prelude.{
  ℕ, ◌<◌, ◌==◌, ◌≡◌, refl, ap, Bool, true, false, some, is_some, [], ◌∷◌, if◌then◌else◌, arith,
  Bool-cases, Option-cases, inl, inr,
}
use retia.Prelude.Order.{Ord, eq?, nat_ord}
use retia.Prelude.Result.{ok}
use retia.BTreeMap.{BTreeMap, get, insert, IsSorted}
use retia.BTreeMap.Laws.{insert-IsSorted}
use retia.Query.Kahn.{StratifiedGraph}
use retia.Query.Kahn.Edges.{get-insert_nat, edge, RowOf, RowsOf, IsGraph, edges_of-IsRow}
use retia.Query.Stratify.Reduce.{reduce_edges, entry_or_default, reduce_rows}
use retia.Query.Stratify.Verified.{get-cons}
use retia.Query.Stratify.Reduced.{
  carries, reduce_edges-IsRow, reduce_edges_keeps, reduce_edges_adds,
}

RowsOf-insert :
    (n k : ℕ) (row : BTreeMap ℕ Bool) (m : StratifiedGraph ℕ)
    → k < n
    → IsSorted row
    → RowOf n row
    → RowsOf n m
    → RowsOf n (insert k row m)
unfolding insert nat_ord
RowsOf-insert n k row [] h s r rs = (h, s, r, tt)
RowsOf-insert n k row ((j, q) ∷ m) h s r rs = ground (arith, RowsOf-insert n k row m h s r)

pub edge-insert :
    (k u v : ℕ) (row : BTreeMap ℕ Bool) (m : StratifiedGraph ℕ)
    → edge (insert k row m) u v ≡ (if u == k then get v row else edge m u v)
edge-insert k u v row m = ground (arith, get-insert_nat u k row m)

module _ {S : Type 0} ⦃o : Ord S⦄ (n : ℕ) (indices : BTreeMap S ℕ)
    (below : (k : S) (i : ℕ) → get k indices ≡ some i → i < n) where
  -- The graph after the edges of one name.
  abbrev row_added : ℕ → BTreeMap S Bool → StratifiedGraph ℕ → StratifiedGraph ℕ
  row_added fi tos ret = insert fi (reduce_edges indices fi tos (entry_or_default fi ret)) ret

  row_added-IsGraph :
      (fi : ℕ) (tos : BTreeMap S Bool) (ret : StratifiedGraph ℕ)
      → fi < n
      → IsGraph n ret
      → IsGraph n (row_added fi tos ret)
  row_added-IsGraph fi tos ret h g =
      let r =
        reduce_edges-IsRow n indices below fi tos (entry_or_default fi ret)
          (edges_of-IsRow n ret fi g.rows) in
      record {
        keys = insert-IsSorted fi _ ret g.keys;
        rows = RowsOf-insert n fi _ ret h r.0 r.1 g.rows;
      }

  row_added_keeps :
      (fi : ℕ) (tos : BTreeMap S Bool) (ret : StratifiedGraph ℕ) (u v : ℕ) (q : Bool)
      → carries q (edge ret u v) ≡ true
      → carries q (edge (row_added fi tos ret) u v) ≡ true
  row_added_keeps fi tos ret u v q h = elim (Bool-cases (u == fi)) [
    | inl same ↦
        let i : u ≡ fi = ground arith in
        let f = ap (λ x. edge ret x v) i in
        ground (
          arith,
          edge-insert fi u v (reduce_edges indices fi tos (entry_or_default fi ret)) ret,
          reduce_edges_keeps n indices below fi tos (entry_or_default fi ret) v q,
        )
    | inr other ↦
        ground
          (arith, edge-insert fi u v (reduce_edges indices fi tos (entry_or_default fi ret)) ret)
  ]

  row_added_adds :
      (fi ti : ℕ) (tos : BTreeMap S Bool) (ret : StratifiedGraph ℕ) (v : S) (p : Bool)
      → get v indices ≡ some ti
      → (fi == ti) ≡ false
      → get v tos ≡ some p
      → carries p (edge (row_added fi tos ret) fi ti) ≡ true
  row_added_adds fi ti tos ret v p e h f = ground (
    arith,
    edge-insert fi fi ti (reduce_edges indices fi tos (entry_or_default fi ret)) ret,
    reduce_edges_adds n indices below fi ti tos (entry_or_default fi ret) v p e h f,
  )

  -- What the graph of components has of the edges of the names.
  pub record Reduces (graph : StratifiedGraph S) (ret out : StratifiedGraph ℕ) : Type 0 where
    pub is_graph : IsGraph n ret → IsGraph n out
    pub keeps :
        (u v : ℕ) (q : Bool) → carries q (edge ret u v) ≡ true → carries q (edge out u v) ≡ true
    pub adds :
        (k v : S) (vs : BTreeMap S Bool) (p : Bool) (fi ti : ℕ)
        → get k graph ≡ some vs
        → get v vs ≡ some p
        → get k indices ≡ some fi
        → get v indices ≡ some ti
        → (fi == ti) ≡ false
        → carries p (edge out fi ti) ≡ true

  pub reduce_rows-Reduces :
      (graph : StratifiedGraph S) (ret : StratifiedGraph ℕ)
      → ((k : S) → is_some (get k graph) ≡ true → is_some (get k indices) ≡ true)
      → (out : StratifiedGraph ℕ) × (reduce_rows indices graph ret ≡ ok out) × Reduces graph ret out
  unfolding reduce_rows
  reduce_rows-Reduces [] ret known = (
    ret,
    refl,
    record {
      is_graph = λ g. g;
      keeps = λ u v q h. h;
      adds = λ k v vs p fi ti e. absurd (unfold get in cc);
    },
  )
  reduce_rows-Reduces ((from, tos) ∷ graph) ret known =
      let has : is_some (get from indices) ≡ true =
        known from (ground (arith, get-cons from from tos graph, o.cmp_self from)) in
      let rest = λ (mid : StratifiedGraph ℕ).
        reduce_rows-Reduces graph mid
          (λ k h. known k (ground (arith, get-cons k from tos graph))) in
      elim (Option-cases (get from indices)) [
        | inl e ↦ absurd (ground arith)
        | inr (fi, e) ↦
            let (out, runs, r) = rest (row_added fi tos ret) in
            (
              out,
              rw e runs,
              record {
                is_graph = λ g. r.is_graph (row_added-IsGraph fi tos ret (below from fi e) g);
                keeps = λ u v q h. r.keeps u v q (row_added_keeps fi tos ret u v q h);
                adds = λ k v vs p gi ti f a b c d. elim (Bool-cases (eq? k from)) [
                  | inl same ↦
                      let i : k ≡ from = ground (arith, o.eq_of_cmp k from) in
                      let j : gi ≡ fi = ground (arith, ap (λ x. get x indices) i) in
                      let w : tos ≡ vs = ground (arith, get-cons k from tos graph) in
                      let l : (fi == ti) ≡ false = ground arith in
                      let f' : get v tos ≡ some p = rw w a in
                      rw j (r.keeps fi ti p (row_added_adds fi ti tos ret v p c l f'))
                  | inr other ↦
                      r.adds k v vs p gi ti (ground (arith, get-cons k from tos graph)) a b c d
                ];
              },
            )
      ]
