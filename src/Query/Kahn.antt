-- ===== src/Query/Kahn.antt =====
-- `StratifiedGraph` and `generalized_kahn` (retia-core/src/query/graph.rs).
mod Tests
pub mod Edges
pub mod Relax
pub mod Strata
pub mod Invariant
pub mod Emit
pub mod Begin
pub mod Start
pub mod Ends
pub mod Correct
use retia.Prelude.{
  ℕ, zero, suc, ◌+◌, ◌==◌, Bool, true, false, not, ◌&&◌, Option, none, some, List, [], ◌∷◌, ◌++◌,
  replicate, get_elem?, set, if◌then◌else◌,
}
use retia.Prelude.Order.{nat_ord}
use retia.Prelude.Options.{◌>>=◌}
use retia.BTreeMap
use retia.BTreeMap.{BTreeMap}
use retia.BTreeSet
use retia.BTreeSet.{BTreeSet}

-- An edge is marked by whether it is poisoned.
abbrev pub StratifiedGraph : Type 0 → Type 0
StratifiedGraph T = BTreeMap T (BTreeMap T Bool)

-- The local variables of the loop. Where a step has none as its result, an index is out of bounds, a
-- subtraction goes below 0, the assertion at the end fails, or fuel runs out. A vector that serves as a
-- stack has its last element first.
pub record Kahn : Type 0 where
  pub in_degree : List ℕ
  pub ret : List (List ℕ)
  pub current_stratum : List ℕ
  pub safe_pending : List ℕ
  pub unsafe_nodes : BTreeSet ℕ

-- `d - 1`, which panics at 0
abbrev pub decrement : ℕ → Option ℕ
decrement zero = none
decrement (suc d) = some d

-- `for to in tos.keys() { in_degree[*to] += 1 }`
unfoldable pub count_keys : BTreeMap ℕ Bool → List ℕ → Option (List ℕ)
count_keys [] in_degree = some in_degree
count_keys ((to, poisoned) ∷ tos) in_degree = do
  d ← get_elem? in_degree to
  count_keys tos (set in_degree to (d + 1))

-- `for tos in graph.values()`
unfoldable pub count_edges : StratifiedGraph ℕ → List ℕ → Option (List ℕ)
unfolding count_keys
count_edges [] in_degree = some in_degree
count_edges ((from, tos) ∷ graph) in_degree = do
  in_degree' ← count_keys tos in_degree
  count_edges graph in_degree'

-- `for (node, degree) in in_degree.iter().enumerate()`, from `node` on
unfoldable pub push_zeros : ℕ → List ℕ → List ℕ → List ℕ
push_zeros node [] safe_pending = safe_pending
push_zeros node (degree ∷ degrees) safe_pending =
    push_zeros (suc node) degrees (if degree == 0 then node ∷ safe_pending else safe_pending)

-- `for node in &unsafe_nodes`
unfoldable pub push_ready : List ℕ → BTreeSet ℕ → List ℕ → Option (List ℕ)
push_ready in_degree [] safe_pending = some safe_pending
push_ready in_degree (node ∷ nodes) safe_pending = do
  d ← get_elem? in_degree node
  push_ready in_degree nodes (if d == 0 then node ∷ safe_pending else safe_pending)

-- A new stratum begins where no safe node is left and an unsafe one is.
unfoldable pub begin_stratum : Kahn → List ℕ → BTreeSet ℕ → Option Kahn
unfolding push_ready
begin_stratum st [] (node ∷ nodes) = do
  ready ← push_ready st.in_degree (node ∷ nodes) []
  some record st {
    ret = st.ret ++ st.current_stratum ∷ [];
    current_stratum = [];
    safe_pending = ready;
    unsafe_nodes = [];
  }
begin_stratum st [] [] = some st
begin_stratum st (node ∷ nodes) held = some st

-- One edge of the node that was removed.
unfoldable pub relax_edge : ℕ → Bool → Kahn → Option Kahn
relax_edge nxt poisoned st = do
  d ← get_elem? st.in_degree nxt
  d' ← decrement d
  let unsafe' = if poisoned then BTreeSet.insert nxt st.unsafe_nodes else st.unsafe_nodes
  some record st {
    in_degree = set st.in_degree nxt d';
    unsafe_nodes = unsafe';
    safe_pending =
        if (d' == 0) && not (BTreeSet.contains nxt unsafe')
        then nxt ∷ st.safe_pending
        else st.safe_pending;
  }

-- `for (nxt, poisoned) in edges`
unfoldable pub relax_edges : BTreeMap ℕ Bool → Kahn → Option Kahn
unfolding relax_edge
relax_edges [] st = some st
relax_edges ((nxt, poisoned) ∷ edges) st = do
  st' ← relax_edge nxt poisoned st
  relax_edges edges st'

-- The edges of a node, none if the graph lacks it.
abbrev pub edges_of : StratifiedGraph ℕ → ℕ → BTreeMap ℕ Bool
edges_of graph node = elim (BTreeMap.get node graph) [ none ↦ [] | some edges ↦ edges ]

-- How a turn of the loop ends: with `ret` and `in_degree` at the `break`, or with the next state.
pub data Turn : Type 0 where
  done : List (List ℕ) → List ℕ → Turn
  more : Kahn → Turn

-- `if !current_stratum.is_empty() { ret.push(current_stratum) }`
abbrev pub finish : List (List ℕ) → List ℕ → List (List ℕ)
finish ret [] = ret
finish ret (v ∷ vs) = ret ++ (v ∷ vs) ∷ []

-- The rest of a turn, by the nodes that are pending.
unfoldable pub take_safe : StratifiedGraph ℕ → Kahn → List ℕ → Option Turn
unfolding relax_edges
take_safe graph st [] = some (done (finish st.ret st.current_stratum) st.in_degree)
take_safe graph st (removed ∷ rest) = do
  st' ←
      relax_edges (edges_of graph removed)
        (record st { safe_pending = rest; current_stratum = st.current_stratum ++ removed ∷ [] })
  some (more st')

unfoldable pub turn : StratifiedGraph ℕ → Kahn → Option Turn
unfolding begin_stratum take_safe
turn graph st = do
  st' ← begin_stratum st st.safe_pending st.unsafe_nodes
  take_safe graph st' st'.safe_pending

unfoldable pub run : ℕ → StratifiedGraph ℕ → Kahn → Option (List (List ℕ) × List ℕ)
unfolding turn
run zero graph st = none
run (suc fuel) graph st = turn graph st >>= λ t. elim t [
  | done ret in_degree ↦ some (ret, in_degree)
  | more st' ↦ run fuel graph st'
]

-- All but the assertion: a build without debug assertions returns this `ret`. Each turn but the last
-- emits a node.
unfoldable pub kahn_loop : StratifiedGraph ℕ → ℕ → Option (List (List ℕ) × List ℕ)
unfolding count_edges push_zeros run
kahn_loop graph num_nodes = do
  in_degree ← count_edges graph (replicate num_nodes 0)
  run (suc num_nodes) graph record {
    in_degree = in_degree;
    ret = [];
    current_stratum = [];
    safe_pending = push_zeros 0 in_degree [];
    unsafe_nodes = [];
  }

-- `in_degree.iter().sum::<usize>()`
unfoldable pub sum : List ℕ → ℕ
sum [] = 0
sum (d ∷ ds) = d + sum ds

-- With debug assertions: `debug_assert_eq!(in_degree.iter().sum::<usize>(), 0)` panics where nodes of a
-- cycle are left.
unfoldable pub generalized_kahn : StratifiedGraph ℕ → ℕ → Option (List (List ℕ))
unfolding kahn_loop sum
generalized_kahn graph num_nodes = do
  (ret, in_degree) ← kahn_loop graph num_nodes
  if sum in_degree == 0 then some ret else none
