-- ===== src/Query/Kahn/Start.antt =====
-- The state before the first turn (retia-core/src/query/graph.rs).
use retia.Prelude.{
  ℕ, zero, suc, ◌+◌, ◌-◌, ◌<◌, ◌≤◌, ◌==◌, ltb, ◌≡◌, refl, Bool, true, ◌&&◌, some, is_some, List, [],
  ◌∷◌, length, replicate, length-replicate, mem, IsUnique, get_or_zero, set, length-set,
  get_elem?-get_or_zero, get_or_zero-set, arith, if◌then◌else◌, Bool-cases, inl, inr, ◌∙◌,
}
use retia.Prelude.Order.{nat_ord}
use retia.BTreeMap.{BTreeMap, get, IsSorted}
use retia.BTreeMap.Laws.{get-Above}
use retia.Query.Kahn.{Kahn, StratifiedGraph, count_keys, count_edges, push_zeros}
use retia.Query.Kahn.Edges.{RowOf, RowsOf, get_cons, waiting}
use retia.Query.Kahn.Invariant.{Inv}

count_keys-runs :
    (n : ℕ) (tos : BTreeMap ℕ Bool) (d : List ℕ)
    → length d ≡ n
    → IsSorted tos
    → RowOf n tos
    → (out : List ℕ) × (count_keys tos d ≡ some out)
      × (length out ≡ n)
      × ((v : ℕ) → get_or_zero out v ≡ get_or_zero d v + (if is_some (get v tos) then 1 else 0))
unfolding count_keys
count_keys-runs n [] d size s row = (d, refl, size, λ v. unfold get in omega arith)
count_keys-runs n ((k, p) ∷ tos) d size s row =
    let d' = set d k (get_or_zero d k + 1) in
    let (out, runs, size', reads) = count_keys-runs n tos d' (length-set d k _ ∙ size) s.1 row.1 in
    (
      out,
      rw (get_elem?-get_or_zero d k (omega arith)) runs,
      size',
      λ v. ground (
        arith,
        reads v,
        get_cons v k p tos,
        get-Above k tos s.0,
        get_or_zero-set d k (get_or_zero d k + 1) v (omega arith),
      ),
    )

count_edges-runs :
    (n : ℕ) (graph : StratifiedGraph ℕ) (d : List ℕ)
    → length d ≡ n
    → RowsOf n graph
    → (out : List ℕ) × (count_edges graph d ≡ some out)
      × (length out ≡ n)
      × ((v : ℕ) → get_or_zero out v ≡ get_or_zero d v + waiting graph [] v)
unfolding count_edges
count_edges-runs n [] d size rows = (d, refl, size, λ v. omega arith)
count_edges-runs n ((u, tos) ∷ graph) d size rows =
    let (mid, runs, size', reads) = count_keys-runs n tos d size rows.1 rows.2 in
    let (out, runs', size'', reads') = count_edges-runs n graph mid size' rows.3 in
    (out, rw runs runs', size'', λ v. ground (arith, reads v, reads' v))

get_or_zero-replicate : (n v : ℕ) → get_or_zero (replicate n 0) v ≡ 0
get_or_zero-replicate zero v = refl
get_or_zero-replicate (suc n) zero = refl
get_or_zero-replicate (suc n) (suc v) = get_or_zero-replicate n v

pub degrees-runs :
    (n : ℕ) (graph : StratifiedGraph ℕ)
    → RowsOf n graph
    → (out : List ℕ) × (count_edges graph (replicate n 0) ≡ some out)
      × (length out ≡ n)
      × ((v : ℕ) → get_or_zero out v ≡ waiting graph [] v)
degrees-runs n graph rows =
    let (out, runs, size, reads) =
      count_edges-runs n graph (replicate n 0) (length-replicate n 0) rows in
    (out, runs, size, λ v. omega (arith, reads v, get_or_zero-replicate n v))

get_or_zero-later :
    (d : ℕ) (ds : List ℕ) (node v : ℕ)
    → suc node ≤ v
    → get_or_zero (d ∷ ds) (v - node) ≡ get_or_zero ds (v - suc node)
get_or_zero-later d ds node v h = let e : v - node ≡ suc (v - suc node) = omega arith in rw e refl

-- A vertex is pushed if its degree is 0.
record Zeros (node : ℕ) (ds pending out : List ℕ) : Type 0 where
  pub kept : (v : ℕ) → v < node → mem v out ≡ mem v pending
  pub read :
      (v : ℕ)
      → node ≤ v
      → ((v : ℕ) → mem v pending ≡ true → v < node)
      → mem v out ≡ (ltb v (node + length ds) && (get_or_zero ds (v - node) == 0))
  pub unique : IsUnique pending → ((v : ℕ) → mem v pending ≡ true → v < node) → IsUnique out

-- The vertices that are pending once `node` has been read.
abbrev with_zero : ℕ → ℕ → List ℕ → List ℕ
with_zero node d pending = if d == 0 then node ∷ pending else pending

with_zero_below :
    (node d : ℕ) (pending : List ℕ)
    → ((v : ℕ) → mem v pending ≡ true → v < node)
    → (v : ℕ) → mem v (with_zero node d pending) ≡ true
    → v < suc node
with_zero_below node d pending all v h = ground (arith, all v)

read_here : (node d : ℕ) (ds : List ℕ) → get_or_zero (d ∷ ds) (node - node) ≡ d
read_here node d ds = let e : node - node ≡ 0 = omega arith in rw e refl

module _ (node d : ℕ) (ds pending out : List ℕ)
    (z : Zeros (suc node) ds (with_zero node d pending) out) where
  zeros_read :
      (v : ℕ)
      → node ≤ v
      → ((v : ℕ) → mem v pending ≡ true → v < node)
      → mem v out ≡ (ltb v (node + length (d ∷ ds)) && (get_or_zero (d ∷ ds) (v - node) == 0))
  zeros_read v h all = elim (Bool-cases (v == node)) [
    | inl e ↦
        let same : v ≡ node = ground arith in
        rw same (ground (arith, z.kept node (omega arith), all node, read_here node d ds))
    | inr e ↦
        let later : suc node ≤ v = ground arith in
        rw (get_or_zero-later d ds node v later)
          (ground (arith, z.read v later (with_zero_below node d pending all)))
  ]

  Zeros-cons : Zeros node (d ∷ ds) pending out
  Zeros-cons = record {
    kept = λ v h. ground (arith, z.kept v (omega arith));
    read = zeros_read;
    unique = λ u all. z.unique (ground (arith, all node)) (with_zero_below node d pending all);
  }

push_zeros-Zeros :
    (node : ℕ) (ds pending : List ℕ) → Zeros node ds pending (push_zeros node ds pending)
unfolding push_zeros
push_zeros-Zeros node [] pending = record {
  kept = λ v h. refl;
  read = λ v h all. ground (arith, all v);
  unique = λ u all. u;
}
push_zeros-Zeros node (d ∷ ds) pending =
    Zeros-cons node d ds pending _ (push_zeros-Zeros (suc node) ds (with_zero node d pending))

-- The state before the first turn, at the degrees that were counted.
abbrev pub start : List ℕ → Kahn
start degrees = record {
  in_degree = degrees;
  ret = [];
  current_stratum = [];
  safe_pending = push_zeros 0 degrees [];
  unsafe_nodes = [];
}

pub start-Inv :
    (n : ℕ) (graph : StratifiedGraph ℕ) (degrees : List ℕ)
    → length degrees ≡ n
    → ((v : ℕ) → get_or_zero degrees v ≡ waiting graph [] v)
    → Inv n graph (start degrees)
start-Inv n graph degrees size counts =
    let z = push_zeros-Zeros 0 degrees [] in
    let member = λ (v : ℕ). z.read v (omega arith) (λ w h. absurd (cc)) in
    record {
      size = size;
      degree = counts;
      ready = λ v h. (ground (arith, member v), ground (arith, member v), refl, refl);
      clean = λ u v h e. refl;
      settled = λ v h. absurd (cc);
      known = λ v h. absurd (cc);
      unique = z.unique tt (λ w h. absurd (cc));
      held = λ v h. absurd (cc);
      marks = λ u v h e. absurd (cc);
      sorted = tt;
      reached = λ v h d. ground (arith, member v);
      once = tt;
      topological = tt;
      stratified = λ u v j p e h. absurd (cc);
    }
