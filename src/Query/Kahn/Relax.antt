-- ===== src/Query/Kahn/Relax.antt =====
-- What the edges of a removed node do to the degrees, the safe and the unsafe nodes
-- (retia-core/src/query/graph.rs).
use retia.Prelude.{
  ℕ, ◌+◌, ◌-◌, ◌<◌, ◌==◌, ◌≡◌, refl, ◌∙◌, Bool, true, false, not, ◌&&◌, ◌||◌, Option, none, some,
  is_some, List, [], ◌∷◌, length, if◌then◌else◌, arith, set, length-set, mem, IsUnique, get_or_zero,
  get_elem?-get_or_zero, get_or_zero-set,
}
use retia.Prelude.Order.{nat_ord}
use retia.BTreeMap.{BTreeMap, get, Above, IsSorted}
use retia.BTreeMap.Laws.{get-Above}
use retia.BTreeSet
use retia.BTreeSet.Laws.{contains-insert, insert-IsSorted}
use retia.Query.Kahn.{Kahn, relax_edge, relax_edges}
use retia.Query.Kahn.Edges.{RowOf, get_cons}

-- Membership in a set and in its list of elements.
pub mem-contains : (v : ℕ) (s : List ℕ) → BTreeSet.contains v s ≡ mem v s
unfolding BTreeSet.contains nat_ord
mem-contains v [] = refl
mem-contains v (x ∷ s) = ground (arith, mem-contains v s)

pub mem-insert : (v k : ℕ) (s : List ℕ) → mem v (BTreeSet.insert k s) ≡ ((v == k) || mem v s)
unfolding nat_ord
mem-insert v k s =
    ground (arith, mem-contains v s, mem-contains v (BTreeSet.insert k s), contains-insert v k s)

abbrev pub is_poisoned : Option Bool → Bool
is_poisoned (some true) = true
is_poisoned _ = false

-- `out` is the state after the edges `tos` of one node.
pub record Relaxed (tos : BTreeMap ℕ Bool) (st out : Kahn) : Type 0 where
  pub same_ret : out.ret ≡ st.ret
  pub same_stratum : out.current_stratum ≡ st.current_stratum
  pub size : length out.in_degree ≡ length st.in_degree
  pub degree :
      (v : ℕ)
      → get_or_zero st.in_degree v
        ≡ get_or_zero out.in_degree v + (if is_some (get v tos) then 1 else 0)
  pub held : (v : ℕ) → mem v out.unsafe_nodes ≡ (is_poisoned (get v tos) || mem v st.unsafe_nodes)
  pub pending :
      (v : ℕ)
      → mem v out.safe_pending ≡ (
          mem v st.safe_pending
          || (is_some (get v tos)
              && ((get_or_zero out.in_degree v == 0) && not (mem v out.unsafe_nodes))))
  pub unique : IsUnique st.safe_pending → IsUnique out.safe_pending
  pub sorted : BTreeSet.IsSorted st.unsafe_nodes → BTreeSet.IsSorted out.unsafe_nodes

-- The degrees of the targets count the edges, so none of them is pending.
abbrev pub Counted : BTreeMap ℕ Bool → Kahn → Type 0
Counted tos st =
    (v : ℕ)
    → is_some (get v tos) ≡ true
    → (0 < get_or_zero st.in_degree v) × (mem v st.safe_pending ≡ false)

-- The state after one edge.
after_edge : ℕ → Bool → Kahn → Kahn
after_edge nxt p st =
    let unsafe' = if p then BTreeSet.insert nxt st.unsafe_nodes else st.unsafe_nodes in
    let d' = get_or_zero st.in_degree nxt - 1 in
    record st {
      in_degree = set st.in_degree nxt d';
      unsafe_nodes = unsafe';
      safe_pending =
          if (d' == 0) && not (BTreeSet.contains nxt unsafe')
          then nxt ∷ st.safe_pending
          else st.safe_pending;
    }

relax_edge-runs :
    (nxt : ℕ) (p : Bool) (st : Kahn)
    → nxt < length st.in_degree
    → 0 < get_or_zero st.in_degree nxt
    → relax_edge nxt p st ≡ some (after_edge nxt p st)
unfolding relax_edge after_edge
relax_edge-runs nxt p st h d = ground (arith, get_elem?-get_or_zero st.in_degree nxt h)

get_single : (v k : ℕ) (p : Bool) → get v ((k, p) ∷ []) ≡ (if v == k then some p else none)
unfolding get nat_ord
get_single v k p = ground arith

after_edge-Relaxed :
    (nxt : ℕ) (p : Bool) (st : Kahn)
    → nxt < length st.in_degree
    → 0 < get_or_zero st.in_degree nxt
    → mem nxt st.safe_pending ≡ false
    → Relaxed ((nxt, p) ∷ []) st (after_edge nxt p st)
unfolding after_edge
after_edge-Relaxed nxt p st h d fresh = record {
  same_ret = refl;
  same_stratum = refl;
  size = length-set st.in_degree nxt _;
  degree = λ v. ground (
    arith,
    get_single v nxt p,
    get_or_zero-set st.in_degree nxt (get_or_zero st.in_degree nxt - 1) v h,
  );
  held = λ v. ground (arith, get_single v nxt p, mem-insert v nxt st.unsafe_nodes);
  pending = λ v. ground (
    arith,
    get_single v nxt p,
    get_or_zero-set st.in_degree nxt (get_or_zero st.in_degree nxt - 1) v h,
    mem-insert v nxt st.unsafe_nodes,
    mem-contains nxt st.unsafe_nodes,
    mem-contains nxt (BTreeSet.insert nxt st.unsafe_nodes),
    mem-insert nxt nxt st.unsafe_nodes,
  );
  unique = λ u. ground (arith);
  sorted = λ s. ground (arith, insert-IsSorted nxt st.unsafe_nodes s);
}

-- An edge to another node, and then the others.
module _ (nxt : ℕ) (p : Bool) (tos : BTreeMap ℕ Bool) (st mid out : Kahn) (above : Above nxt tos)
    (first : Relaxed ((nxt, p) ∷ []) st mid) (others : Relaxed tos mid out) where
  both_held :
      (v : ℕ)
      → mem v out.unsafe_nodes ≡ (is_poisoned (get v ((nxt, p) ∷ tos)) || mem v st.unsafe_nodes)
  both_held v = ground (
    arith,
    get_cons v nxt p tos,
    get_single v nxt p,
    get-Above nxt tos above,
    first.held v,
    others.held v,
  )

  both_degree :
      (v : ℕ)
      → get_or_zero st.in_degree v
        ≡ get_or_zero out.in_degree v + (if is_some (get v ((nxt, p) ∷ tos)) then 1 else 0)
  both_degree v = ground (
    arith,
    get_cons v nxt p tos,
    get_single v nxt p,
    get-Above nxt tos above,
    first.degree v,
    others.degree v,
  )

  both_pending :
      (v : ℕ)
      → mem v out.safe_pending ≡ (
          mem v st.safe_pending
          || (is_some (get v ((nxt, p) ∷ tos))
              && ((get_or_zero out.in_degree v == 0) && not (mem v out.unsafe_nodes))))
  both_pending v = ground (
    arith,
    get_cons v nxt p tos,
    get_single v nxt p,
    get-Above nxt tos above,
    first.pending v,
    others.pending v,
    first.degree v,
    others.degree v,
    first.held v,
    others.held v,
  )

  Relaxed-cons : Relaxed ((nxt, p) ∷ tos) st out
  Relaxed-cons = record {
    same_ret = others.same_ret ∙ first.same_ret;
    same_stratum = others.same_stratum ∙ first.same_stratum;
    size = others.size ∙ first.size;
    degree = both_degree;
    held = both_held;
    pending = both_pending;
    unique = λ u. others.unique (first.unique u);
    sorted = λ s. others.sorted (first.sorted s);
  }

-- The nodes that the later edges lead to are still counted.
Counted-rest :
    (nxt : ℕ) (p : Bool) (tos : BTreeMap ℕ Bool) (st mid : Kahn)
    → Above nxt tos
    → Relaxed ((nxt, p) ∷ []) st mid
    → Counted ((nxt, p) ∷ tos) st
    → Counted tos mid
Counted-rest nxt p tos st mid above first counted v e = ground (
  arith,
  get_cons v nxt p tos,
  get_single v nxt p,
  get-Above nxt tos above,
  first.pending v,
  first.degree v,
  counted v,
)

relax_edges_nil : (st : Kahn) → Relaxed [] st st
unfolding get
relax_edges_nil st = record {
  same_ret = refl;
  same_stratum = refl;
  size = refl;
  degree = λ v. omega arith;
  held = λ v. refl;
  pending = λ v. ground arith;
  unique = λ u. u;
  sorted = λ s. s;
}

-- The edges of a node are relaxed without a panic.
pub relax_edges-Relaxed :
    (n : ℕ) (tos : BTreeMap ℕ Bool) (st : Kahn)
    → length st.in_degree ≡ n
    → IsSorted tos
    → RowOf n tos
    → Counted tos st
    → (out : Kahn) × (relax_edges tos st ≡ some out) × Relaxed tos st out
unfolding relax_edges
relax_edges-Relaxed n [] st size s row counted = (st, refl, relax_edges_nil st)
relax_edges-Relaxed n ((nxt, p) ∷ tos) st size s row counted =
    let has : is_some (get nxt ((nxt, p) ∷ tos)) ≡ true = ground (arith, get_cons nxt nxt p tos) in
    let (d, fresh) = counted nxt has in
    let first = after_edge-Relaxed nxt p st (omega arith) d fresh in
    let (out, runs, others) =
      relax_edges-Relaxed n tos (after_edge nxt p st) (first.size ∙ size) s.1 row.1
        (Counted-rest nxt p tos st (after_edge nxt p st) s.0 first counted) in
    (
      out,
      rw (relax_edge-runs nxt p st (omega arith) d) runs,
      Relaxed-cons nxt p tos st (after_edge nxt p st) out s.0 first others,
    )
