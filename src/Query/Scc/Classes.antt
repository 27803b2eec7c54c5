-- ===== src/Query/Scc/Classes.antt =====
-- The groups that `TarjanScc::run` returns (retia-core/src/query/graph.rs) are the classes of nodes that lead to each other.
use retia.Prelude.{
  ℕ, zero, suc, ◌+◌, ◌<◌, ◌==◌, ◌≡◌, refl, sym, ap, ◌∙◌, true, some, List, [], ◌∷◌, length,
  get_elem?, mem, mem-append, get_or_zero, arith, Bool-cases, Option-cases, inl, inr,
}
use retia.Prelude.Order.{nat_ord}
use retia.BTreeMap.{BTreeMap, get, insert, IsSorted, Above}
use retia.BTreeMap.Laws.{insert-IsSorted}
use retia.Query.Kahn.Edges.{get_cons}
use retia.Query.Scc.{push_to, group_low, into_values, run}
use retia.Query.Scc.Shape.{IsRows}
use retia.Query.Scc.State.{Leads}
use retia.Query.Scc.Dfs.{dfs_all-classes}
use retia.Query.Scc.Groups.{joined, push_to-insert, group_low-AllBelow, Below, AllBelow}

-- The members of a group have its key as their low.
abbrev HaveLow : List ℕ → BTreeMap ℕ (List ℕ) → Type 0
HaveLow low [] = Unit
HaveLow low ((k, vs) ∷ m) = ((v : ℕ) → mem v vs ≡ true → get_or_zero low v ≡ k) × HaveLow low m

HaveLow-insert :
    (low : List ℕ) (k : ℕ) (vs : List ℕ) (m : BTreeMap ℕ (List ℕ))
    → ((v : ℕ) → mem v vs ≡ true → get_or_zero low v ≡ k)
    → HaveLow low m
    → HaveLow low (insert k vs m)
unfolding insert nat_ord
HaveLow-insert low k vs [] h a = (h, tt)
HaveLow-insert low k vs ((j, ws) ∷ m) h a = ground (arith, HaveLow-insert low k vs m)

HaveLow-get :
    (low : List ℕ) (k : ℕ) (vs : List ℕ) (m : BTreeMap ℕ (List ℕ))
    → HaveLow low m
    → get k m ≡ some vs
    → (v : ℕ) → mem v vs ≡ true
    → get_or_zero low v ≡ k
HaveLow-get low k vs [] a h v e = absurd (unfold get in cc)
HaveLow-get low k vs ((j, ws) ∷ m) a h v e = elim (Bool-cases (k == j)) [
  | inl same ↦ ground (arith, get_cons k j ws m, a.0 v)
  | inr other ↦ HaveLow-get low k vs m a.1 (ground (arith, get_cons k j ws m)) v e
]

joined-HaveLow :
    (low : List ℕ) (grp idx : ℕ) (m : BTreeMap ℕ (List ℕ))
    → HaveLow low m
    → get_or_zero low idx ≡ grp
    → (v : ℕ) → mem v (joined grp idx m) ≡ true
    → get_or_zero low v ≡ grp
joined-HaveLow low grp idx m a h v e = elim (Bool-cases (v == idx)) [
  | inl f ↦ let i : v ≡ idx = ground arith in ap (get_or_zero low) i ∙ h
  | inr f ↦ elim (Option-cases (get grp m)) [
    | inl g ↦ absurd (ground arith)
    | inr (vs, g) ↦ HaveLow-get low grp vs m a g v (ground (arith, mem-append v vs (idx ∷ [])))
  ]
]

group_low-HaveLow :
    (low : List ℕ) (idx : ℕ) (later : List ℕ) (m : BTreeMap ℕ (List ℕ))
    → ((i : ℕ) → get_or_zero later i ≡ get_or_zero low (idx + i))
    → HaveLow low m
    → IsSorted m
    → HaveLow low (group_low idx later m) × IsSorted (group_low idx later m)
unfolding group_low
group_low-HaveLow low idx [] m same a s = (a, s)
group_low-HaveLow low idx (grp ∷ later) m same a s =
    group_low-HaveLow low (suc idx) later (push_to grp idx m)
      (λ i. same (suc i) ∙ ap (get_or_zero low) (omega arith))
      (rw (push_to-insert grp idx m) (
        HaveLow-insert low grp (joined grp idx m) m
          (joined-HaveLow low grp idx m a (sym (same 0 ∙ ap (get_or_zero low) (omega arith)))) a))
      (rw (push_to-insert grp idx m) (insert-IsSorted grp (joined grp idx m) m s))

value-entry :
    (m : BTreeMap ℕ (List ℕ)) (j : ℕ) (vs : List ℕ)
    → get_elem? (into_values m) j ≡ some vs
    → (k : ℕ) × (get_elem? m j ≡ some (k, vs))
value-entry [] j vs h = absurd (cc)
value-entry ((k, ws) ∷ m) zero vs h = (k, ground arith)
value-entry ((k, ws) ∷ m) (suc j) vs h = value-entry m j vs h

entry-HaveLow :
    (low : List ℕ) (m : BTreeMap ℕ (List ℕ)) (j k : ℕ) (vs : List ℕ)
    → HaveLow low m
    → get_elem? m j ≡ some (k, vs)
    → (v : ℕ) → mem v vs ≡ true
    → get_or_zero low v ≡ k
entry-HaveLow low [] j k vs a h v e = absurd (cc)
entry-HaveLow low ((i, ws) ∷ m) zero k vs a h v e = ground (arith, a.0 v)
entry-HaveLow low ((i, ws) ∷ m) (suc j) k vs a h v e = entry-HaveLow low m j k vs a.1 h v e

entry-Above :
    (m : BTreeMap ℕ (List ℕ)) (j k l : ℕ) (vs : List ℕ)
    → Above l m
    → get_elem? m j ≡ some (k, vs)
    → l < k
unfolding nat_ord
entry-Above [] j k l vs a h = absurd (cc)
entry-Above ((i, ws) ∷ m) zero k l vs a h = ground arith
entry-Above ((i, ws) ∷ m) (suc j) k l vs a h = entry-Above m j k l vs a.1 h

entry_once :
    (m : BTreeMap ℕ (List ℕ)) (i j k : ℕ) (us vs : List ℕ)
    → IsSorted m
    → get_elem? m i ≡ some (k, us)
    → get_elem? m j ≡ some (k, vs)
    → i ≡ j
entry_once [] i j k us vs s h e = absurd (cc)
entry_once ((l, ws) ∷ m) zero zero k us vs s h e = refl
entry_once ((l, ws) ∷ m) zero (suc j) k us vs s h e =
    let f : l ≡ k = ground arith in absurd (omega (arith, entry-Above m j k l vs s.0 e))
entry_once ((l, ws) ∷ m) (suc i) zero k us vs s h e =
    let f : l ≡ k = ground arith in absurd (omega (arith, entry-Above m i k l us s.0 h))
entry_once ((l, ws) ∷ m) (suc i) (suc j) k us vs s h e = ap suc (entry_once m i j k us vs s.1 h e)

-- Nodes of a group lead to each other, and nodes that lead to each other are in the same group.
pub record AreClasses (graph : List (List ℕ)) (groups : List (List ℕ)) : Type 0 where
  pub together :
      (j u v : ℕ) (vs : List ℕ)
      → get_elem? groups j ≡ some vs
      → mem u vs ≡ true
      → mem v vs ≡ true
      → Leads graph u v × Leads graph v u
  pub apart :
      (i j u v : ℕ) (us vs : List ℕ)
      → get_elem? groups i ≡ some us
      → get_elem? groups j ≡ some vs
      → mem u us ≡ true
      → mem v vs ≡ true
      → Leads graph u v
      → Leads graph v u
      → i ≡ j

AllBelow-get_elem? :
    (n : ℕ) (groups : List (List ℕ)) (j : ℕ) (vs : List ℕ)
    → AllBelow n groups
    → get_elem? groups j ≡ some vs
    → Below n vs
AllBelow-get_elem? n [] j vs a h v e = absurd (cc)
AllBelow-get_elem? n (us ∷ groups) zero vs a h v e = ground (arith, a.0 v)
AllBelow-get_elem? n (us ∷ groups) (suc j) vs a h v e = AllBelow-get_elem? n groups j vs a.1 h v e

module _ (n : ℕ) (graph : List (List ℕ)) (low : List ℕ) (size : length low ≡ n)
    (same_low : (u v : ℕ)
      → u < n
      → v < n
      → get_or_zero low u ≡ get_or_zero low v
      → Leads graph u v × Leads graph v u)
    (low_same : (u v : ℕ)
      → u < n
      → v < n
      → Leads graph u v
      → Leads graph v u
      → get_or_zero low u ≡ get_or_zero low v) where
  abbrev grouped : BTreeMap ℕ (List ℕ)
  grouped = group_low 0 low []

  groups_below : AllBelow n (into_values grouped)
  groups_below = group_low-AllBelow n 0 low [] (omega (arith, size)) tt

  group_low-AreClasses : AreClasses graph (into_values grouped)
  group_low-AreClasses =
      let (have, sorted) =
        group_low-HaveLow low 0 low [] (λ i. ap (get_or_zero low) (omega arith)) tt tt in
      record {
        together = λ j u v vs at h e.
            (let (k, entry) = value-entry grouped j vs at in
              let low_of = entry-HaveLow low grouped j k vs have entry in
              let below = AllBelow-get_elem? n (into_values grouped) j vs groups_below at in
              same_low u v (below u h) (below v e) (low_of u h ∙ sym (low_of v e)));
        apart = λ i j u v us vs at at' h e p q.
            (let (k, entry) = value-entry grouped i us at in
              let (k', entry') = value-entry grouped j vs at' in
              let below = AllBelow-get_elem? n (into_values grouped) i us groups_below at in
              let below' = AllBelow-get_elem? n (into_values grouped) j vs groups_below at' in
              let keys : k' ≡ k =
                sym (entry-HaveLow low grouped j k' vs have entry' v e)
                ∙ sym (low_same u v (below u h) (below' v e) p q)
                ∙ entry-HaveLow low grouped i k us have entry u h in
              entry_once grouped i j k us vs sorted entry (entry' ∙ ap (λ x. some (x, vs)) keys));
      }

pub run-AreClasses :
    (n : ℕ) (graph : List (List ℕ)) (groups : List (List ℕ))
    → IsRows n graph
    → run graph ≡ some groups
    → AreClasses graph groups
unfolding run
run-AreClasses n graph groups g h =
    let (out, runs, size, same_low, low_same) = dfs_all-classes n graph g in
    let i : groups ≡ into_values (group_low 0 out.low []) = ground (arith, runs) in
    rw i (group_low-AreClasses n graph out.low size same_low low_same)
