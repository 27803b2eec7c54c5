-- ===== src/Query/Kahn/Correct.antt =====
-- `generalized_kahn` (retia-core/src/query/graph.rs) ends, and stratifies its graph.
use retia.Prelude.{
  ℕ, zero, suc, ◌<◌, ◌≡◌, refl, true, none, some, is_some, ◌==◌, ◌⊎◌, inl, inr, Bool-cases, List,
  [], ◌∷◌, length, get_or_zero, arith,
}
use retia.Prelude.Order.{nat_ord}
use retia.Query.Kahn.{StratifiedGraph, kahn_loop, sum, generalized_kahn}
use retia.Query.Kahn.Edges.{IsGraph}
use retia.Query.Kahn.Strata.{stratum}
use retia.Query.Kahn.Ends.{IsRanked, Stratifies, kahn_loop_ends}

abbrev pub IsAcyclic : StratifiedGraph ℕ → Type 0
IsAcyclic graph = (rank : ℕ → ℕ) × IsRanked graph rank

-- Every node is emitted.
abbrev pub IsComplete : ℕ → List (List ℕ) → Type 0
IsComplete n strata = (v : ℕ) → v < n → is_some (stratum v strata) ≡ true

sum-zero : (ds : List ℕ) (v : ℕ) → sum ds ≡ 0 → get_or_zero ds v ≡ 0
unfolding sum
sum-zero [] v h = refl
sum-zero (d ∷ ds) zero h = omega arith
sum-zero (d ∷ ds) (suc v) h = sum-zero ds v (omega arith)

zero-sum : (ds : List ℕ) → ((v : ℕ) → v < length ds → get_or_zero ds v ≡ 0) → sum ds ≡ 0
unfolding sum
zero-sum [] h = refl
zero-sum (d ∷ ds) h =
    let rest = zero-sum ds (λ v k. h (suc v) (omega arith)) in
    omega (arith, rest, h 0 (omega arith))

module _ (n : ℕ) (graph : StratifiedGraph ℕ) (g : IsGraph n graph) where
  -- On a graph whose edges join nodes below `n`, the loop of `generalized_kahn` ends without a panic, also
  -- if the graph has a cycle. No node is emitted twice, and each after all nodes that lead to it. An
  -- edge between strata leads forward, and a poisoned edge never stays in a stratum. With debug
  -- assertions, `generalized_kahn` returns these strata, and then every node is emitted, or the
  -- assertion panics, and then the graph has a cycle: no ranks of the nodes rise along all edges.
  pub generalized_kahn-Stratifies :
      (strata : List (List ℕ)) × (degrees : List ℕ) × (kahn_loop graph n ≡ some (strata, degrees))
      × Stratifies n graph strata
      × (((generalized_kahn graph n ≡ some strata) × IsComplete n strata)
          ⊎ ((generalized_kahn graph n ≡ none) × ¬ IsAcyclic graph))
  unfolding generalized_kahn
  generalized_kahn-Stratifies =
      let (strata, degrees, runs, end) = kahn_loop_ends n graph g in
      (
        strata,
        degrees,
        runs,
        end.sorted,
        elim (Bool-cases (sum degrees == 0)) [
          | inl zeros ↦
              inl (rw runs (rw zeros refl), λ v h. end.idle v h (sum-zero degrees v (ground arith)))
          | inr other ↦ inr (
            rw runs (rw other refl),
            λ (rank, ranked).
                (let zeros =
                    zero-sum degrees (λ v h. end.drained rank ranked v (rw (← end.size) h)) in
                  ground arith),
          )
        ],
      )

  -- On a graph without a cycle the assertion holds.
  pub generalized_kahn-acyclic :
      IsAcyclic graph
      → (strata : List (List ℕ)) × (generalized_kahn graph n ≡ some strata)
        × Stratifies n graph strata
        × IsComplete n strata
  generalized_kahn-acyclic acyclic =
      let (strata, degrees, runs, s, end) = generalized_kahn-Stratifies in
      elim end [
        | inl (returns, complete) ↦ (strata, returns, s, complete)
        | inr (panics, cyclic) ↦ absurd (cyclic acyclic)
      ]
