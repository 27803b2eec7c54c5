-- ===== src/Query/Kahn/Tests.antt =====
-- A run of `generalized_kahn` (retia-core/src/query/graph.rs) on a small graph.
use retia.Prelude.{ℕ, ◌≡◌, refl, arith, true, false, none, some, ◌⊎◌, List, [], ◌∷◌}
use retia.Prelude.Order.{nat_ord}
use retia.BTreeMap
use retia.BTreeSet
use retia.Query.Kahn.{StratifiedGraph, kahn_loop, generalized_kahn}
use retia.Query.Kahn.Edges.{IsGraph}
use retia.Query.Kahn.Ends.{Stratifies}
use retia.Query.Kahn.Correct.{IsComplete, IsAcyclic, generalized_kahn-Stratifies}

-- Node 2 is reached from 0 by a plain edge and from 1 by a poisoned one; node 4 has no edges.
abbrev diamond : StratifiedGraph ℕ
diamond =
    (0, (1, false) ∷ (2, false) ∷ []) ∷ (1, (2, true) ∷ (3, false) ∷ []) ∷ (2, (3, false) ∷ []) ∷ []

generalized_kahn_runs : generalized_kahn diamond 5 ≡ some ((4 ∷ 0 ∷ 1 ∷ []) ∷ (2 ∷ 3 ∷ []) ∷ [])
unfolding generalized_kahn BTreeMap.get BTreeSet.contains BTreeSet.insert nat_ord
generalized_kahn_runs = refl

diamond-IsGraph : IsGraph 5 diamond
unfolding nat_ord
diamond-IsGraph = record { keys = ground arith; rows = ground arith }

-- The nodes of a cycle are left, which the assertion finds.
abbrev cycle : StratifiedGraph ℕ
cycle = (0, (1, false) ∷ []) ∷ (1, (0, false) ∷ []) ∷ []

generalized_kahn_panics : generalized_kahn cycle 3 ≡ none
unfolding generalized_kahn BTreeMap.get BTreeSet.contains BTreeSet.insert nat_ord
generalized_kahn_panics = refl

kahn_loop_runs : kahn_loop cycle 3 ≡ some ((2 ∷ []) ∷ [], 1 ∷ 1 ∷ 0 ∷ [])
unfolding kahn_loop BTreeMap.get BTreeSet.contains BTreeSet.insert nat_ord
kahn_loop_runs = refl

generalized_kahn-Stratifies_example :
    (strata : List (List ℕ)) × (degrees : List ℕ) × (kahn_loop diamond 5 ≡ some (strata, degrees))
    × Stratifies 5 diamond strata
    × (((generalized_kahn diamond 5 ≡ some strata) × IsComplete 5 strata)
        ⊎ ((generalized_kahn diamond 5 ≡ none) × ¬ IsAcyclic diamond))
generalized_kahn-Stratifies_example = generalized_kahn-Stratifies 5 diamond diamond-IsGraph
