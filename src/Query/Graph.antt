-- ===== src/Query/Graph.antt =====
-- `Graph` and `reachable_components` (retia-core/src/query/graph.rs).
pub mod Reaches
pub mod Walk
mod Tests
use retia.Prelude.{ℕ, zero, suc, Option, none, some, List, [], ◌∷◌, ◌++◌, length, if◌then◌else◌}
use retia.Prelude.Order.{Ord}
use retia.BTreeMap
use retia.BTreeMap.{BTreeMap}
use retia.BTreeSet
use retia.BTreeSet.{BTreeSet}

abbrev pub Graph : Type 0 → Type 0
Graph T = BTreeMap T (List T)

-- Every node that an edge leads to.
abbrev pub targets : {T : Type 0} → Graph T → List T
targets [] = []
targets ((k, tos) ∷ graph) = tos ++ targets graph

module _ {T : Type 0} ⦃o : Ord T⦄ where
  -- `graph.get(starting)`, a missing node without edges
  abbrev pub children : Graph T → T → List T
  children graph starting = elim (BTreeMap.get starting graph) [ none ↦ [] | some tos ↦ tos ]

  -- `for el in children`, where `walk` is the recursive call. `none` is exhausted fuel.
  unfoldable pub walk_children :
      (T → BTreeSet T → Option (BTreeSet T)) → List T → BTreeSet T → Option (BTreeSet T)
  walk_children walk [] collected = some collected
  walk_children walk (el ∷ els) collected =
      if BTreeSet.contains el collected
      then walk_children walk els collected
      else elim (walk el (BTreeSet.insert el collected)) [
        | none ↦ none
        | some collected' ↦ walk_children walk els collected'
      ]

  -- `Reachable::walk`
  unfoldable pub walk : Graph T → ℕ → T → BTreeSet T → Option (BTreeSet T)
  walk graph zero starting collected = none
  walk graph (suc fuel) starting collected =
      walk_children (walk graph fuel) (children graph starting) collected

  unfoldable pub reachable_components : Graph T → T → Option (BTreeSet T)
  unfolding walk walk_children
  reachable_components graph start = walk graph (suc (length (targets graph))) start (start ∷ [])
