-- ===== src/BTreeSet.antt =====
-- The standard library's `BTreeSet<K>` as the program uses it: the elements in order.
pub mod Laws
use retia.Prelude.{lt, eq, gt, Bool, true, false, not, ◌||◌, List, [], ◌∷◌, if◌then◌else◌}
use retia.Prelude.Order.{Ord, ◌≺◌}

abbrev pub BTreeSet {ℓ} : Type ℓ → Type ℓ
BTreeSet K = List K

module _ {ℓ} {K : Type ℓ} ⦃o : Ord K⦄ where
  unfoldable pub contains : K → BTreeSet K → Bool
  contains k [] = false
  contains k (j ∷ s) = elim (o.cmp k j) [ eq ↦ true | _ ↦ contains k s ]

  unfoldable pub insert : K → BTreeSet K → BTreeSet K
  insert k [] = k ∷ []
  insert k (j ∷ s) = elim (o.cmp k j) [ lt ↦ k ∷ j ∷ s | eq ↦ j ∷ s | gt ↦ j ∷ insert k s ]

  -- `set.extend(items)`
  unfoldable pub extend : BTreeSet K → List K → BTreeSet K
  extend s [] = s
  extend s (k ∷ items) = extend (insert k s) items

  -- `for v in items { inserted |= set.insert(v) }`
  unfoldable pub insert_all : BTreeSet K → Bool → List K → BTreeSet K × Bool
  insert_all s inserted [] = (s, inserted)
  insert_all s inserted (k ∷ items) = insert_all (insert k s) (inserted || not (contains k s)) items

  -- `items.collect::<BTreeSet<_>>()`
  abbrev pub collect : List K → BTreeSet K
  collect items = extend [] items

  unfoldable pub intersection : BTreeSet K → BTreeSet K → BTreeSet K
  intersection [] t = []
  intersection (k ∷ s) t = let rest = intersection s t in if contains k t then k ∷ rest else rest

  -- Every element lies after `k`; the elements stand in order, each once.
  abbrev pub Above : K → BTreeSet K → Type 0
  Above k [] = Unit
  Above k (j ∷ s) = (k ≺ j) × Above k s

  abbrev pub IsSorted : BTreeSet K → Type 0
  IsSorted [] = Unit
  IsSorted (k ∷ s) = Above k s × IsSorted s
