-- ===== src/Query/Scc/Groups.antt =====
-- The components that `TarjanScc::run` returns (retia-core/src/query/graph.rs) are groups of nodes that cover them all.
use retia.Prelude.{
  ℕ, suc, ◌+◌, ◌<◌, ◌≤◌, ◌==◌, ◌≡◌, refl, ap, true, none, some, List, [], ◌∷◌, ◌++◌, length,
  get_elem?, mem, mem-append, arith, Bool-cases, Option-cases, inl, inr,
}
use retia.Prelude.Order.{nat_ord}
use retia.BTreeMap.{BTreeMap, get, insert}
use retia.Query.Kahn.Edges.{get_cons, get-insert_nat}
use retia.Query.Scc.{push_to, group_low, into_values, run}
use retia.Query.Scc.Shape.{IsRows}
use retia.Query.Scc.Dfs.{dfs_all-classes}

-- Every member of a group is below `n`.
abbrev pub Below : ℕ → List ℕ → Type 0
Below n vs = (v : ℕ) → mem v vs ≡ true → v < n

abbrev pub AllBelow : ℕ → List (List ℕ) → Type 0
AllBelow n [] = Unit
AllBelow n (vs ∷ groups) = Below n vs × AllBelow n groups

AllBelow-insert :
    (n k : ℕ) (vs : List ℕ) (m : BTreeMap ℕ (List ℕ))
    → Below n vs
    → AllBelow n (into_values m)
    → AllBelow n (into_values (insert k vs m))
unfolding insert nat_ord
AllBelow-insert n k vs [] h a = (h, tt)
AllBelow-insert n k vs ((j, ws) ∷ m) h a = ground (arith, AllBelow-insert n k vs m)

AllBelow-get :
    (n k : ℕ) (vs : List ℕ) (m : BTreeMap ℕ (List ℕ))
    → AllBelow n (into_values m)
    → get k m ≡ some vs
    → Below n vs
AllBelow-get n k vs [] a h v e = absurd (unfold get in cc)
AllBelow-get n k vs ((j, ws) ∷ m) a h v e = elim (Bool-cases (k == j)) [
  | inl same ↦ ground (arith, get_cons k j ws m, a.0 v)
  | inr other ↦ AllBelow-get n k vs m a.1 (ground (arith, get_cons k j ws m)) v e
]

length-insert :
    (k : ℕ) (vs : List ℕ) (m : BTreeMap ℕ (List ℕ))
    → length (into_values (insert k vs m)) ≤ suc (length (into_values m))
unfolding insert nat_ord
length-insert k vs [] = omega arith
length-insert k vs ((j, ws) ∷ m) = ground (arith, length-insert k vs m)

-- A node stands in a group of the map.
abbrev Grouped : ℕ → BTreeMap ℕ (List ℕ) → Type 0
Grouped v m = (k : ℕ) × (vs : List ℕ) × (get k m ≡ some vs) × (mem v vs ≡ true)

-- The members of a group once `idx` has joined it.
abbrev pub joined : ℕ → ℕ → BTreeMap ℕ (List ℕ) → List ℕ
joined grp idx m = elim (get grp m) [ none ↦ idx ∷ [] | some vs ↦ vs ++ idx ∷ [] ]

pub push_to-insert :
    (grp idx : ℕ) (m : BTreeMap ℕ (List ℕ)) → push_to grp idx m ≡ insert grp (joined grp idx m) m
push_to-insert grp idx m = ground arith

mem-joined :
    (v grp idx : ℕ) (m : BTreeMap ℕ (List ℕ)) (vs : List ℕ)
    → get grp m ≡ some vs
    → mem v vs ≡ true
    → mem v (joined grp idx m) ≡ true
mem-joined v grp idx m vs e h = ground (arith, mem-append v vs (idx ∷ []))

mem-joined_self : (grp idx : ℕ) (m : BTreeMap ℕ (List ℕ)) → mem idx (joined grp idx m) ≡ true
mem-joined_self grp idx m = elim (Option-cases (get grp m)) [
  | inl e ↦ ground arith
  | inr (vs, e) ↦ ground (arith, mem-append idx vs (idx ∷ []))
]

joined-Below :
    (n grp idx : ℕ) (m : BTreeMap ℕ (List ℕ))
    → idx < n
    → AllBelow n (into_values m)
    → Below n (joined grp idx m)
joined-Below n grp idx m h a v e = elim (Option-cases (get grp m)) [
  | inl none_ ↦ ground arith
  | inr (vs, found) ↦ ground (arith, mem-append v vs (idx ∷ []), AllBelow-get n grp vs m a found v)
]

push_to-Grouped :
    (v grp idx : ℕ) (m : BTreeMap ℕ (List ℕ)) → Grouped v m → Grouped v (push_to grp idx m)
push_to-Grouped v grp idx m (k, vs, e, h) =
    rw (push_to-insert grp idx m) (elim (Bool-cases (k == grp)) [
      | inl same ↦ (
        grp,
        joined grp idx m,
        ground (arith, get-insert_nat grp grp (joined grp idx m) m),
        mem-joined v grp idx m vs (ground arith) h,
      )
      | inr other ↦ (k, vs, ground (arith, get-insert_nat k grp (joined grp idx m) m), h)
    ])

push_to-Grouped_self : (grp idx : ℕ) (m : BTreeMap ℕ (List ℕ)) → Grouped idx (push_to grp idx m)
push_to-Grouped_self grp idx m = rw (push_to-insert grp idx m) (
  grp,
  joined grp idx m,
  ground (arith, get-insert_nat grp grp (joined grp idx m) m),
  mem-joined_self grp idx m,
)

group_low-keeps :
    (idx : ℕ) (low : List ℕ) (m : BTreeMap ℕ (List ℕ)) (v : ℕ)
    → Grouped v m
    → Grouped v (group_low idx low m)
unfolding group_low
group_low-keeps idx [] m v h = h
group_low-keeps idx (grp ∷ low) m v h =
    group_low-keeps (suc idx) low (push_to grp idx m) v (push_to-Grouped v grp idx m h)

group_low-covers :
    (idx : ℕ) (low : List ℕ) (m : BTreeMap ℕ (List ℕ)) (v : ℕ)
    → idx ≤ v
    → v < idx + length low
    → Grouped v (group_low idx low m)
unfolding group_low
group_low-covers idx [] m v h k = absurd (omega arith)
group_low-covers idx (grp ∷ low) m v h k = elim (Bool-cases (v == idx)) [
  | inl e ↦
      let same : v ≡ idx = ground arith in
      rw same
        (group_low-keeps (suc idx) low (push_to grp idx m) idx (push_to-Grouped_self grp idx m))
  | inr e ↦ group_low-covers (suc idx) low (push_to grp idx m) v (ground arith) (omega arith)
]

pub group_low-AllBelow :
    (n idx : ℕ) (low : List ℕ) (m : BTreeMap ℕ (List ℕ))
    → idx + length low ≤ n
    → AllBelow n (into_values m)
    → AllBelow n (into_values (group_low idx low m))
unfolding group_low
group_low-AllBelow n idx [] m h a = a
group_low-AllBelow n idx (grp ∷ low) m h a =
    group_low-AllBelow n (suc idx) low (push_to grp idx m) (omega arith) (
      rw (push_to-insert grp idx m)
        (AllBelow-insert n grp (joined grp idx m) m (joined-Below n grp idx m (omega arith) a) a))

length-group_low :
    (idx : ℕ) (low : List ℕ) (m : BTreeMap ℕ (List ℕ))
    → length (into_values (group_low idx low m)) ≤ length low + length (into_values m)
unfolding group_low
length-group_low idx [] m = omega arith
length-group_low idx (grp ∷ low) m = omega (
  arith,
  length-group_low (suc idx) low (push_to grp idx m),
  length-insert grp (joined grp idx m) m,
  ap (λ x. length (into_values x)) (push_to-insert grp idx m),
)

value_at :
    (k : ℕ) (vs : List ℕ) (m : BTreeMap ℕ (List ℕ))
    → get k m ≡ some vs
    → (j : ℕ) × (get_elem? (into_values m) j ≡ some vs)
unfolding get nat_ord
value_at k vs [] h = absurd (cc)
value_at k vs ((i, ws) ∷ m) h = elim (Bool-cases (k == i)) [
  | inl e ↦ (0, ground arith)
  | inr e ↦ let (j, at) = value_at k vs m (ground arith) in (suc j, at)
]

-- `run` returns groups of nodes, no more than there are nodes, with every node in one.
pub run-covers :
    (n : ℕ) (graph : List (List ℕ))
    → IsRows n graph
    → (groups : List (List ℕ)) × (run graph ≡ some groups)
      × (length groups ≤ n)
      × AllBelow n groups
      × ((v : ℕ)
          → v < n
          → (j : ℕ) × (vs : List ℕ) × (get_elem? groups j ≡ some vs) × (mem v vs ≡ true))
unfolding run
run-covers n graph g =
    let (out, runs, size, _, _) = dfs_all-classes n graph g in
    (
      into_values (group_low 0 out.low []),
      rw runs refl,
      omega (arith, length-group_low 0 out.low [], size),
      group_low-AllBelow n 0 out.low [] (omega (arith, size)) tt,
      λ v h.
          (let (k, vs, e, member) =
              group_low-covers 0 out.low [] v (omega arith) (omega (arith, size)) in
            let (j, at) = value_at k vs (group_low 0 out.low []) e in (j, vs, at, member)),
    )
