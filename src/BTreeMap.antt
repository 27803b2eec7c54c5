-- ===== src/BTreeMap.antt =====
-- The standard library's `BTreeMap<K, V>` as the program uses it: the entries in key order.
-- A `BTreeSet<K>` is such a map with `Unit` values. The laws stand in the children.
pub mod Laws
pub mod Ext
pub mod Size
use retia.Prelude.{lt, eq, gt, Option, none, some, List, [], ◌∷◌, Bool, false, if◌then◌else◌}
use retia.Prelude.Order.{Ord, ◌≺◌, lt?}

abbrev pub BTreeMap {ℓ κ} : Type ℓ → Type κ → Type (ℓ ⊔ κ)
BTreeMap K V = List (K × V)

-- lower <= k && k < upper
abbrev pub in_range {ℓ} : {K : Type ℓ} ⦃o : Ord K⦄ → K → K → K → Bool
in_range lower upper k = if lt? k lower then false else lt? k upper

module _ {ℓ κ} {K : Type ℓ} {V : Type κ} ⦃o : Ord K⦄ where
  -- `map.get(&k)`
  unfoldable pub get : K → BTreeMap K V → Option V
  get k [] = none
  get k ((j, v) ∷ m) = elim (o.cmp k j) [ eq ↦ some v | _ ↦ get k m ]

  -- `map.insert(k, v)`, an old value replaced
  unfoldable pub insert : K → V → BTreeMap K V → BTreeMap K V
  insert k v [] = (k, v) ∷ []
  insert k v ((j, w) ∷ m) = elim (o.cmp k j) [
    | lt ↦ (k, v) ∷ (j, w) ∷ m
    | eq ↦ (k, v) ∷ m
    | gt ↦ (j, w) ∷ insert k v m
  ]

  -- `map.remove(&k)`
  unfoldable pub remove : K → BTreeMap K V → BTreeMap K V
  remove k [] = []
  remove k ((j, w) ∷ m) = elim (o.cmp k j) [ eq ↦ remove k m | _ ↦ (j, w) ∷ remove k m ]

  -- The entries whose key passes a test.
  unfoldable pub filter_keys : (K → Bool) → BTreeMap K V → BTreeMap K V
  filter_keys test [] = []
  filter_keys test ((j, w) ∷ m) =
      let rest = filter_keys test m in if test j then (j, w) ∷ rest else rest

  -- `map.range(lower..upper)`
  abbrev pub range : K → K → BTreeMap K V → BTreeMap K V
  range lower upper = filter_keys (in_range lower upper)

  -- Every key of the map lies after `k`.
  abbrev pub Above : K → BTreeMap K V → Type 0
  Above k [] = Unit
  Above k ((j, w) ∷ m) = (k ≺ j) × Above k m

  -- The entries stand in the order of their keys, each key once.
  abbrev pub IsSorted : BTreeMap K V → Type 0
  IsSorted [] = Unit
  IsSorted ((k, v) ∷ m) = Above k m × IsSorted m
