-- ===== src/Query/Scc/Pop.antt =====
-- `TarjanScc::dfs` (retia-core/src/query/graph.rs) pops a component off the stack.
use retia.Prelude.{
  ℕ, ◌<◌, ◌==◌, ◌≡◌, refl, ◌∙◌, true, false, ◌||◌, some, List, [], ◌∷◌, ◌++◌, length, get_elem?,
  set, length-set, get_elem?-set, mem, get_or_zero, get_or_zero-set, if◌then◌else◌, arith, ==_iff,
}
use retia.Query.Scc.{TarjanScc, pop_component}
use retia.Query.Scc.Shape.{write-runs}

-- The state after the nodes `part` and then `at` have been popped.
pub record Popped (at root : ℕ) (part rest : List ℕ) (st out : TarjanScc) : Type 0 where
  pub same_id : out.id ≡ st.id
  pub same_ids : out.ids ≡ st.ids
  pub stack : out.stack ≡ rest
  pub size_low : length out.low ≡ length st.low
  pub size_on : length out.on_stack ≡ length st.on_stack
  pub low :
      (v : ℕ)
      → get_or_zero out.low v ≡ (if (v == at) || mem v part then root else get_or_zero st.low v)
  pub on :
      (v : ℕ)
      → v < length st.on_stack
      → get_elem? out.on_stack v
        ≡ (if (v == at) || mem v part then some false else get_elem? st.on_stack v)

-- The state after one node has been popped.
abbrev pop_once : ℕ → ℕ → List ℕ → TarjanScc → TarjanScc
pop_once node root stack st = record st {
  on_stack = set st.on_stack node false;
  low = set st.low node root;
  stack = stack;
}

pub pop_component-Popped :
    (n at root : ℕ) (part rest : List ℕ) (st : TarjanScc)
    → length st.low ≡ n
    → length st.on_stack ≡ n
    → ((v : ℕ) → mem v (part ++ at ∷ rest) ≡ true → v < n)
    → mem at part ≡ false
    → (out : TarjanScc) × (pop_component at root (part ++ at ∷ rest) st ≡ some out)
      × Popped at root part rest st out
unfolding pop_component
pop_component-Popped n at root [] rest st l k below out =
    let h : at < n = below at (ground arith) in
    (
      pop_once at root rest st,
      rw
          (
            write-runs st.on_stack at false (omega arith),
            write-runs st.low at root (omega arith),
            (==_iff at at).1 refl,
          )
          refl,
      record {
        same_id = refl;
        same_ids = refl;
        stack = refl;
        size_low = length-set st.low at root;
        size_on = length-set st.on_stack at false;
        low = λ v. ground (arith, get_or_zero-set st.low at root v (omega arith));
        on = λ v e. ground (arith, get_elem?-set st.on_stack at false v (omega arith));
      },
    )
pop_component-Popped n at root (x ∷ part) rest st l k below out =
    let h : x < n = below x (ground arith) in
    let other : (x == at) ≡ false = ground arith in
    let mid : TarjanScc = pop_once x root (part ++ at ∷ rest) st in
    let (fin, runs, p) =
      pop_component-Popped n at root part rest mid (length-set st.low x root ∙ l)
        (length-set st.on_stack x false ∙ k) (λ v e. below v (ground arith)) (ground arith) in
    (
      fin,
      rw
          (
            write-runs st.on_stack x false (omega arith),
            write-runs st.low x root (omega arith),
            other,
          )
          runs,
      record {
        same_id = p.same_id;
        same_ids = p.same_ids;
        stack = p.stack;
        size_low = p.size_low ∙ length-set st.low x root;
        size_on = p.size_on ∙ length-set st.on_stack x false;
        low = λ v. ground (arith, p.low v, get_or_zero-set st.low x root v (omega arith));
        on = λ v e. ground (
          arith,
          p.on v (omega (arith, length-set st.on_stack x false)),
          get_elem?-set st.on_stack x false v (omega arith),
        );
      },
    )
