-- ===== src/Query/Graph/Tests.antt =====
-- The nodes that a small graph reaches.
use retia.Prelude.{ℕ, ◌≡◌, ◌↔◌, refl, true, some, [], ◌∷◌}
use retia.Prelude.Order.{nat_ord}
use retia.BTreeMap
use retia.BTreeSet
use retia.BTreeSet.{BTreeSet}
use retia.Query.Graph.{Graph, reachable_components}
use retia.Query.Graph.Reaches.{Reaches}
use retia.Query.Graph.Walk.{reachable_components-Reaches}

-- A cycle, and a node that leads to it.
abbrev rules : Graph ℕ
rules = (1, 2 ∷ []) ∷ (2, 3 ∷ 1 ∷ []) ∷ (4, 1 ∷ []) ∷ []

reachable_components_runs : reachable_components rules 1 ≡ some (1 ∷ 2 ∷ 3 ∷ [])
unfolding reachable_components BTreeMap.get BTreeSet.contains BTreeSet.insert nat_ord
reachable_components_runs = refl

reachable_components-Reaches_example :
    (collected : BTreeSet ℕ) × (reachable_components rules 1 ≡ some collected)
    × BTreeSet.IsSorted collected
    × ((p : ℕ) → (BTreeSet.contains p collected ≡ true) ↔ Reaches rules 1 p)
reachable_components-Reaches_example = reachable_components-Reaches rules 1
