-- ===== src/Query/Scc/Tests.antt =====
-- The components of a small graph (retia-core/src/query/graph.rs).
use retia.Prelude.{ℕ, ◌≤◌, ◌≡◌, refl, arith, some, List, [], ◌∷◌, length}
use retia.Prelude.Order.{nat_ord}
use retia.BTreeMap
use retia.BTreeMap.{IsSorted}
use retia.BTreeSet
use retia.Query.Graph.{Graph}
use retia.Query.Scc.{strongly_connected_components}
use retia.Query.Scc.Correct.{AreComponents, strongly_connected_components-AreComponents}

-- Two cycles with an edge between them, and a node that leads to itself and to one with no row.
abbrev cycles : Graph ℕ
cycles =
    (1, 2 ∷ []) ∷ (2, 3 ∷ 4 ∷ []) ∷ (3, 1 ∷ []) ∷ (4, 6 ∷ []) ∷ (6, 4 ∷ []) ∷ (7, 7 ∷ 9 ∷ []) ∷ []

cycles-IsSorted : IsSorted cycles
unfolding nat_ord
cycles-IsSorted = ground arith

strongly_connected_components_runs :
    strongly_connected_components cycles ≡ some ((1 ∷ 2 ∷ 3 ∷ []) ∷ (4 ∷ 6 ∷ []) ∷ (7 ∷ []) ∷ [])
unfolding strongly_connected_components BTreeMap.get BTreeMap.insert BTreeSet.contains nat_ord
strongly_connected_components_runs = refl

strongly_connected_components-AreComponents_example :
    (sccs : List (List ℕ)) × (strongly_connected_components cycles ≡ some sccs)
    × (length sccs ≤ 6)
    × AreComponents cycles sccs
strongly_connected_components-AreComponents_example =
    strongly_connected_components-AreComponents cycles cycles-IsSorted
