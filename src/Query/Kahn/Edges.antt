-- ===== src/Query/Kahn/Edges.antt =====
-- The edges of a graph (retia-core/src/query/graph.rs), and how many a node still waits for.
use retia.Prelude.{
  ℕ, ◌+◌, ◌<◌, ◌≡◌, refl, Bool, true, false, not, ◌&&◌, Option, none, some, is_some, List, [], ◌∷◌,
  if◌then◌else◌, arith, mem, ◌==◌, inl, inr, Option-cases,
}
use retia.Prelude.Order.{nat_ord}
use retia.BTreeMap.{BTreeMap, get, insert, Above, IsSorted}
use retia.BTreeMap.Laws.{get-Above, get-insert}
use retia.Query.Kahn.{StratifiedGraph, edges_of}

-- The edge from one node to another, and whether it is poisoned.
abbrev pub edge : StratifiedGraph ℕ → ℕ → ℕ → Option Bool
edge graph u v = get v (edges_of graph u)

-- The graph and each of its rows are maps, and every edge goes from a node to a node.
abbrev pub RowOf : ℕ → BTreeMap ℕ Bool → Type 0
RowOf n [] = Unit
RowOf n ((v, p) ∷ tos) = (v < n) × RowOf n tos

abbrev pub RowsOf : ℕ → StratifiedGraph ℕ → Type 0
RowsOf n [] = Unit
RowsOf n ((u, tos) ∷ graph) = (u < n) × IsSorted tos × RowOf n tos × RowsOf n graph

pub record IsGraph (n : ℕ) (graph : StratifiedGraph ℕ) : Type 0 where
  pub keys : IsSorted graph
  pub rows : RowsOf n graph

-- How many nodes outside `emitted` have an edge to `v`.
abbrev pub waiting : StratifiedGraph ℕ → List ℕ → ℕ → ℕ
waiting [] emitted v = 0
waiting ((u, tos) ∷ graph) emitted v =
    (if is_some (get v tos) && not (mem u emitted) then 1 else 0) + waiting graph emitted v

pub get_cons :
    {V : Type 0} (u k : ℕ) (w : V) (m : BTreeMap ℕ V)
    → get u ((k, w) ∷ m) ≡ (if u == k then some w else get u m)
unfolding get nat_ord
get_cons u k w m = ground arith

pub get-insert_nat :
    {V : Type 0} (p k : ℕ) (v : V) (m : BTreeMap ℕ V)
    → get p (insert k v m) ≡ (if p == k then some v else get p m)
unfolding nat_ord
get-insert_nat p k v m = ground (arith, get-insert p k v m)

-- A node that waits for nothing has its edges from emitted nodes only.
pub waiting_zero :
    (graph : StratifiedGraph ℕ) (emitted : List ℕ) (u v : ℕ) (p : Bool)
    → waiting graph emitted v ≡ 0
    → edge graph u v ≡ some p
    → mem u emitted ≡ true
waiting_zero [] emitted u v p h e = unfold get in ground arith
waiting_zero ((k, tos) ∷ graph) emitted u v p h e =
    ground (arith, get_cons u k tos graph, waiting_zero graph emitted u v p)

waiting_other :
    (graph : StratifiedGraph ℕ) (emitted : List ℕ) (r v : ℕ)
    → Above r graph
    → waiting graph (r ∷ emitted) v ≡ waiting graph emitted v
unfolding nat_ord
waiting_other [] emitted r v a = refl
waiting_other ((k, tos) ∷ graph) emitted r v a = ground (arith, waiting_other graph emitted r v)

edge_cons :
    (k u v : ℕ) (tos : BTreeMap ℕ Bool) (graph : StratifiedGraph ℕ)
    → edge ((k, tos) ∷ graph) u v ≡ (if u == k then get v tos else edge graph u v)
edge_cons k u v tos graph = ground (arith, get_cons u k tos graph)

edge-Above : (graph : StratifiedGraph ℕ) (r v : ℕ) → Above r graph → edge graph r v ≡ none
unfolding get
edge-Above graph r v a = ground (arith, get-Above r graph a)

-- Emitting a node lets its targets wait for one node less.
pub waiting_emit :
    (graph : StratifiedGraph ℕ) (emitted : List ℕ) (r v : ℕ)
    → IsSorted graph
    → mem r emitted ≡ false
    → waiting graph (r ∷ emitted) v + (if is_some (edge graph r v) then 1 else 0)
      ≡ waiting graph emitted v
waiting_emit [] emitted r v h e = unfold get in refl
waiting_emit ((k, tos) ∷ graph) emitted r v h e = ground (
  arith,
  edge_cons k r v tos graph,
  edge-Above graph k v h.0,
  waiting_emit graph emitted r v h.1 e,
  waiting_other graph emitted k v h.0,
)

pub RowOf-get :
    (n : ℕ) (tos : BTreeMap ℕ Bool) (v : ℕ) (p : Bool) → RowOf n tos → get v tos ≡ some p → v < n
unfolding get nat_ord
RowOf-get n [] v p h e = ground arith
RowOf-get n ((k, q) ∷ tos) v p h e = ground (arith, RowOf-get n tos v p)

pub edges_of-IsRow :
    (n : ℕ) (graph : StratifiedGraph ℕ) (u : ℕ)
    → RowsOf n graph
    → IsSorted (edges_of graph u) × RowOf n (edges_of graph u)
edges_of-IsRow n [] u h = unfold get in (tt, tt)
edges_of-IsRow n ((k, tos) ∷ graph) u h =
    ground (arith, get_cons u k tos graph, edges_of-IsRow n graph u h.3)

-- A row that is not empty belongs to a node.
pub edge-lt :
    (n : ℕ) (graph : StratifiedGraph ℕ) (u v : ℕ) (p : Bool)
    → RowsOf n graph
    → edge graph u v ≡ some p
    → u < n
edge-lt n [] u v p h e = unfold get in ground arith
edge-lt n ((k, tos) ∷ graph) u v p h e =
    ground (arith, edge_cons k u v tos graph, edge-lt n graph u v p h.3)

edge_below :
    (k u v : ℕ) (tos : BTreeMap ℕ Bool) (graph : StratifiedGraph ℕ) (p : Bool)
    → Above k graph
    → edge graph u v ≡ some p
    → edge ((k, tos) ∷ graph) u v ≡ some p
edge_below k u v tos graph p a e = ground (arith, edge_cons k u v tos graph, edge-Above graph k v a)

-- A node whose edges all come from emitted nodes waits for nothing.
pub waiting_none :
    (graph : StratifiedGraph ℕ) (emitted : List ℕ) (v : ℕ)
    → IsSorted graph
    → ((u : ℕ) (p : Bool) → edge graph u v ≡ some p → mem u emitted ≡ true)
    → waiting graph emitted v ≡ 0
waiting_none [] emitted v h all = refl
waiting_none ((k, tos) ∷ graph) emitted v h all = elim (Option-cases (get v tos)) [
  | inl e ↦ ground (arith, waiting_none graph emitted v h.1 rest)
  | inr (p, e) ↦ ground (
    arith,
    waiting_none graph emitted v h.1 rest,
    all k p (ground (arith, edge_cons k k v tos graph)),
  )
]
  where
    rest : (u : ℕ) (p : Bool) → edge graph u v ≡ some p → mem u emitted ≡ true
    rest u p e = all u p (edge_below k u v tos graph p h.0 e)
