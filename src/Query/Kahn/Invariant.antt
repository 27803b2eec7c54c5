-- ===== src/Query/Kahn/Invariant.antt =====
-- What holds before each turn of `generalized_kahn` (retia-core/src/query/graph.rs).
use retia.Prelude.{
  ℕ, ◌<◌, ◌≡◌, true, false, ◌||◌, some, List, [], ◌∷◌, ◌++◌, length, mem, IsUnique, get_or_zero,
}
use retia.Prelude.Order.{nat_ord}
use retia.BTreeSet
use retia.Query.Kahn.{Kahn, StratifiedGraph}
use retia.Query.Kahn.Edges.{edge, waiting}
use retia.Query.Kahn.Strata.{rev_onto, emission, IsTopological, IsStratified}

-- The nodes emitted so far, the last one first.
abbrev pub emitted : Kahn → List ℕ
emitted st = rev_onto st.current_stratum (emission st.ret [])

pub record Inv (n : ℕ) (graph : StratifiedGraph ℕ) (st : Kahn) : Type 0 where
  pub size : length st.in_degree ≡ n
  pub degree : (v : ℕ) → get_or_zero st.in_degree v ≡ waiting graph (emitted st) v
  pub ready :
      (v : ℕ)
      → mem v st.safe_pending ≡ true
      → (v < n)
        × (get_or_zero st.in_degree v ≡ 0)
        × (mem v (emitted st) ≡ false)
        × (mem v st.unsafe_nodes ≡ false)
  pub clean :
      (u v : ℕ)
      → mem v st.safe_pending ≡ true
      → edge graph u v ≡ some true
      → mem u st.current_stratum ≡ false
  pub settled : (v : ℕ) → mem v (emitted st) ≡ true → get_or_zero st.in_degree v ≡ 0
  pub known : (v : ℕ) → mem v (emitted st) ≡ true → v < n
  pub unique : IsUnique st.safe_pending
  pub held : (v : ℕ) → mem v st.unsafe_nodes ≡ true → (v < n) × (mem v (emitted st) ≡ false)
  pub marks :
      (u v : ℕ)
      → mem u st.current_stratum ≡ true
      → edge graph u v ≡ some true
      → mem v st.unsafe_nodes ≡ true
  pub sorted : BTreeSet.IsSorted st.unsafe_nodes
  pub reached :
      (v : ℕ)
      → v < n
      → get_or_zero st.in_degree v ≡ 0
      → (mem v (emitted st) || mem v st.safe_pending || mem v st.unsafe_nodes) ≡ true
  pub once : IsUnique (emitted st)
  pub topological : IsTopological graph (emitted st)
  pub stratified : IsStratified graph (st.ret ++ st.current_stratum ∷ [])
