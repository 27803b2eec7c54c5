-- ===== src/Query/Kahn/Strata.antt =====
-- Where a node stands among the strata (retia-core/src/query/graph.rs), and in which order nodes are
-- emitted.
use retia.Prelude.{
  ℕ, suc, ◌<◌, ◌≤◌, ◌≡◌, refl, inl, inr, Option-cases, Bool, true, ◌||◌, Option, none, some,
  is_some, List, [], ◌∷◌, ◌++◌, length, if◌then◌else◌, arith, mem,
}
use retia.Query.Kahn.{StratifiedGraph}
use retia.Query.Kahn.Edges.{edge}

-- The index of the first stratum that has the node.
abbrev pub stratum : ℕ → List (List ℕ) → Option ℕ
stratum v [] = none
stratum v (s ∷ strata) =
    if mem v s then some 0 else elim (stratum v strata) [ none ↦ none | some i ↦ some (suc i) ]

pub stratum-append :
    (v : ℕ) (strata : List (List ℕ)) (s : List ℕ)
    → stratum v (strata ++ s ∷ []) ≡ elim (stratum v strata) [
      | none ↦ if mem v s then some (length strata) else none
      | some i ↦ some i
    ]
stratum-append v [] s = ground arith
stratum-append v (t ∷ strata) s = ground (arith, stratum-append v strata s)

pub stratum-lt :
    (v : ℕ) (strata : List (List ℕ)) (i : ℕ) → stratum v strata ≡ some i → i < length strata
stratum-lt v [] i h = ground arith
stratum-lt v (s ∷ strata) i h = elim (Option-cases (stratum v strata)) [
  | inl none_ ↦ ground arith
  | inr (j, found) ↦ ground (arith, stratum-lt v strata j found)
]

-- The nodes of a stratum in front of those before it, the last one first.
abbrev pub rev_onto : List ℕ → List ℕ → List ℕ
rev_onto [] before = before
rev_onto (v ∷ vs) before = rev_onto vs (v ∷ before)

abbrev pub emission : List (List ℕ) → List ℕ → List ℕ
emission [] before = before
emission (s ∷ strata) before = emission strata (rev_onto s before)

pub mem-rev_onto :
    (v : ℕ) (s before : List ℕ) → mem v (rev_onto s before) ≡ (mem v s || mem v before)
mem-rev_onto v [] before = refl
mem-rev_onto v (x ∷ s) before = ground (arith, mem-rev_onto v s (x ∷ before))

pub mem-emission :
    (v : ℕ) (strata : List (List ℕ)) (before : List ℕ)
    → mem v (emission strata before) ≡ (is_some (stratum v strata) || mem v before)
mem-emission v [] before = refl
mem-emission v (s ∷ strata) before =
    ground (arith, mem-emission v strata (rev_onto s before), mem-rev_onto v s before)

pub rev_onto-append :
    (s before : List ℕ) (r : ℕ) → rev_onto (s ++ r ∷ []) before ≡ r ∷ rev_onto s before
rev_onto-append [] before r = refl
rev_onto-append (x ∷ s) before r = rev_onto-append s (x ∷ before) r

pub emission-append :
    (strata : List (List ℕ)) (s before : List ℕ)
    → emission (strata ++ s ∷ []) before ≡ rev_onto s (emission strata before)
emission-append [] s before = refl
emission-append (t ∷ strata) s before = emission-append strata s (rev_onto t before)

-- Every edge to an emitted node comes from one emitted before it.
abbrev pub IsTopological : StratifiedGraph ℕ → List ℕ → Type 0
IsTopological graph [] = Unit
IsTopological graph (v ∷ before) =
    ((u : ℕ) (p : Bool) → edge graph u v ≡ some p → mem u before ≡ true)
    × IsTopological graph before

-- An edge does not lead to an earlier stratum, and a poisoned one leads to a later one.
abbrev pub IsStratified : StratifiedGraph ℕ → List (List ℕ) → Type 0
IsStratified graph strata =
    (u v j : ℕ) (p : Bool)
    → edge graph u v ≡ some p
    → stratum v strata ≡ some j
    → (i : ℕ) × (stratum u strata ≡ some i) × (i ≤ j) × (p ≡ true → i < j)
