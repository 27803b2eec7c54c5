-- ===== src/Query/Kahn/Begin.antt =====
-- The beginning of a stratum keeps the invariant (retia-core/src/query/graph.rs).
use retia.Prelude.{
  ℕ, ◌<◌, ◌==◌, ◌≡◌, refl, sym, ap, subst, ◌∙◌, true, false, ◌||◌, ◌&&◌, some, List, [], ◌∷◌, ◌++◌,
  length, mem, IsUnique, get_or_zero, get_elem?-get_or_zero, arith, if◌then◌else◌,
}
use retia.Prelude.Order.{nat_ord}
use retia.BTreeSet
use retia.Query.Kahn.{Kahn, StratifiedGraph, push_ready, begin_stratum}
use retia.Query.Kahn.Strata.{stratum, stratum-append, emission-append, IsStratified}
use retia.Query.Kahn.Invariant.{Inv, emitted}

Above-not_mem : (v : ℕ) (s : List ℕ) → BTreeSet.Above v s → mem v s ≡ false
unfolding nat_ord
Above-not_mem v [] a = refl
Above-not_mem v (x ∷ s) a = ground (arith, Above-not_mem v s)

-- What `push_ready` makes of the nodes of a set.
record Readied (degrees nodes pending out : List ℕ) : Type 0 where
  pub members :
      (v : ℕ) → mem v out ≡ (mem v pending || (mem v nodes && (get_or_zero degrees v == 0)))
  pub unique :
      BTreeSet.IsSorted nodes
      → IsUnique pending
      → ((v : ℕ) → mem v nodes ≡ true → mem v pending ≡ false)
      → IsUnique out

push_ready-Readied :
    (degrees nodes pending : List ℕ)
    → ((v : ℕ) → mem v nodes ≡ true → v < length degrees)
    → (out : List ℕ) × (push_ready degrees nodes pending ≡ some out)
      × Readied degrees nodes pending out
unfolding push_ready
push_ready-Readied degrees [] pending h =
    (pending, refl, record { members = λ v. ground arith; unique = λ s u d. u })
push_ready-Readied degrees (x ∷ nodes) pending h =
    let pending' : List ℕ = if get_or_zero degrees x == 0 then x ∷ pending else pending in
    let known = h x (ground arith) in
    let (out, runs, more) = push_ready-Readied degrees nodes pending' (λ v e. h v (ground arith)) in
    (
      out,
      rw (get_elem?-get_or_zero degrees x known) runs,
      record {
        members = λ v. ground (arith, more.members v);
        unique = λ s u d.
            more.unique s.1 (ground (arith, d x))
              (λ v e. ground (arith, d v, Above-not_mem x nodes s.0));
      },
    )

-- The state at which a turn takes a node: no node is left aside where none is pending.
pub record Begun (n : ℕ) (graph : StratifiedGraph ℕ) (st out : Kahn) : Type 0 where
  pub inv : Inv n graph out
  pub drained : out.safe_pending ≡ [] → out.unsafe_nodes ≡ []
  pub same : emitted out ≡ emitted st

module _ (n : ℕ) (graph : StratifiedGraph ℕ) (st : Kahn) (inv : Inv n graph st) where
  -- The state after a stratum has begun with the nodes `ready`.
  abbrev begun : List ℕ → Kahn
  begun ready = record st {
    ret = st.ret ++ st.current_stratum ∷ [];
    current_stratum = [];
    safe_pending = ready;
    unsafe_nodes = [];
  }

  module _ (ready : List ℕ) (empty : st.safe_pending ≡ [])
      (r : Readied st.in_degree st.unsafe_nodes [] ready) where
    emitted-begun : emitted (begun ready) ≡ emitted st
    emitted-begun = emission-append st.ret st.current_stratum []

    begun_stratum :
        (v : ℕ)
        → stratum v ((st.ret ++ st.current_stratum ∷ []) ++ [] ∷ [])
          ≡ stratum v (st.ret ++ st.current_stratum ∷ [])
    begun_stratum v = ground (arith, stratum-append v (st.ret ++ st.current_stratum ∷ []) [])

    begun-IsStratified : IsStratified graph ((st.ret ++ st.current_stratum ∷ []) ++ [] ∷ [])
    begun-IsStratified u v j p e h =
        let (i, found, a, b) = inv.stratified u v j p e (sym (begun_stratum v) ∙ h) in
        (i, begun_stratum u ∙ found, a, b)

    begun-Inv : Inv n graph (begun ready)
    begun-Inv = record {
      size = inv.size;
      degree = λ v. rw emitted-begun (inv.degree v);
      ready = λ v h. rw emitted-begun (
          let (a, b) = inv.held v (ground (arith, r.members v)) in
          (a, ground (arith, r.members v), b, refl));
      clean = λ u v h e. refl;
      settled = λ v h. inv.settled v (ap (mem v) (sym emitted-begun) ∙ h);
      known = λ v h. inv.known v (ap (mem v) (sym emitted-begun) ∙ h);
      unique = r.unique inv.sorted tt (λ v h. refl);
      held = λ v h. absurd (cc);
      marks = λ u v h e. absurd (cc);
      sorted = tt;
      reached = λ v h d.
          rw emitted-begun (ground (arith, inv.reached v h d, r.members v, ap (mem v) empty));
      once = rw emitted-begun inv.once;
      topological = rw emitted-begun inv.topological;
      stratified = begun-IsStratified;
    }

  stays : (st.safe_pending ≡ [] → st.unsafe_nodes ≡ []) → Begun n graph st st
  stays h = record { inv = inv; drained = h; same = refl }

  begin_cases :
      (safe nodes : List ℕ)
      → st.safe_pending ≡ safe
      → st.unsafe_nodes ≡ nodes
      → (out : Kahn) × (begin_stratum st safe nodes ≡ some out) × Begun n graph st out
  unfolding begin_stratum
  begin_cases [] [] e f = (st, refl, stays (λ _. f))
  begin_cases (x ∷ safe) nodes e f = (st, refl, stays (λ h. cc))
  begin_cases [] (x ∷ nodes) e f =
      let (ready, runs, r) =
        push_ready-Readied st.in_degree (x ∷ nodes) []
          (λ v h. subst (λ k. v < k) (sym inv.size) (inv.held v (ap (mem v) f ∙ h)).0) in
      let r' = subst (λ s. Readied st.in_degree s [] ready) (sym f) r in
      (
        begun ready,
        rw runs,
        record { inv = begun-Inv ready e r'; drained = λ _. refl; same = emitted-begun ready e r' },
      )

  pub begin_stratum-Begun :
      (out : Kahn) × (begin_stratum st st.safe_pending st.unsafe_nodes ≡ some out)
      × Begun n graph st out
  begin_stratum-Begun = begin_cases st.safe_pending st.unsafe_nodes refl refl
