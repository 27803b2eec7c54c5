-- ===== src/Query/Scc/Shape.antt =====
-- The sizes of the vectors of `TarjanScc` (retia-core/src/query/graph.rs), and what a graph on indices is.
use retia.Prelude.{
  ℕ, zero, suc, ◌<◌, ◌≤◌, ◌≡◌, refl, ap, true, Option, none, some, List, [], ◌∷◌, length, get_elem?,
  set, get_elem?-lt, mem, arith,
}
use retia.Query.Scc.{TarjanScc, write}

pub write-runs :
    {A : Type 0} (xs : List A) (i : ℕ) (a : A) → i < length xs → write xs i a ≡ some (set xs i a)
write-runs xs i a h = let (old, e) = get_elem?-lt xs i h in rw e refl

-- How many nodes have no id.
abbrev pub blank : List (Option ℕ) → ℕ
blank [] = 0
blank (none ∷ ids) = suc (blank ids)
blank (some i ∷ ids) = blank ids

pub blank-set :
    (ids : List (Option ℕ)) (at i : ℕ)
    → get_elem? ids at ≡ some none
    → suc (blank (set ids at (some i))) ≡ blank ids
blank-set [] at i h = absurd (cc)
blank-set (none ∷ ids) zero i h = refl
blank-set (some j ∷ ids) zero i h = absurd (cc)
blank-set (none ∷ ids) (suc at) i h = ap suc (blank-set ids at i h)
blank-set (some j ∷ ids) (suc at) i h = blank-set ids at i h

pub blank-length : (ids : List (Option ℕ)) → blank ids ≤ length ids
blank-length [] = omega arith
blank-length (none ∷ ids) = omega (arith, blank-length ids)
blank-length (some i ∷ ids) = omega (arith, blank-length ids)

-- The vectors have an entry for each node, and nodes are on the stack.
pub record Shape (n : ℕ) (st : TarjanScc) : Type 0 where
  pub ids : length st.ids ≡ n
  pub low : length st.low ≡ n
  pub on_stack : length st.on_stack ≡ n
  pub stack : (v : ℕ) → mem v st.stack ≡ true → v < n

-- The rows lead to nodes.
pub record IsRows (n : ℕ) (graph : List (List ℕ)) : Type 0 where
  pub size : length graph ≡ n
  pub inside :
      (at : ℕ) (tos : List ℕ) (v : ℕ) → get_elem? graph at ≡ some tos → mem v tos ≡ true → v < n
