-- ===== src/Runtime/TempStore/Merge.antt =====
-- What a merge of tuples leaves (retia-core/src/runtime/temp_store.rs).
use retia.Prelude.{
  eq, ◌+◌, ◌≡◌, refl, Bool, false, Option, none, some, [], ◌∷◌, length, if◌then◌else◌, arith,
}
use retia.Prelude.Order.{Ord, list_ord, eq?}
use retia.BTreeMap
use retia.BTreeMap.{BTreeMap, IsSorted}
use retia.BTreeMap.Laws.{get-insert, insert-IsSorted, get-Above}
use retia.BTreeMap.Size.{length-insert}
use retia.Data.Value.{Externals, DataValue}
use retia.Runtime.TempStore.Regular.{Tuple, RegularTempStore, merge_entries, note_vacant}

abbrev pub or_else {ℓ} : {A : Type ℓ} → Option A → Option A → Option A
or_else (some a) b = some a
or_else none b = b

-- What a tuple of the incoming store is to the delta: new, or known before.
abbrev pub if_new {ℓ κ} : {A : Type ℓ} {B : Type κ} → Option A → Option B → Option B
if_new none b = b
if_new (some a) b = none

pub or_else-none {ℓ} : {A : Type ℓ} (a : Option A) → or_else a none ≡ a
or_else-none none = refl
or_else-none (some b) = refl

pub if_new-none {ℓ κ} : {A : Type ℓ} {B : Type κ} (a : Option A) → if_new {B = B} a none ≡ none
if_new-none none = refl
if_new-none (some b) = refl

module _ {X : Externals} ⦃o : Ord (DataValue X)⦄ where
  eq_of_cmp_tuple : (p k : Tuple X) → list_ord.cmp p k ≡ eq → p ≡ k
  eq_of_cmp_tuple p k h = list_ord.eq_of_cmp p k h

  pub merge_entries-same :
      (total prev incoming : RegularTempStore X) → (merge_entries total prev incoming).same ≡ false
  unfolding merge_entries
  merge_entries-same total prev [] = refl
  merge_entries-same total prev ((k, v) ∷ incoming) =
      merge_entries-same (BTreeMap.insert k v total) (note_vacant k v total prev) incoming

  get-note_vacant :
      (p k : Tuple X) (v : Bool) (total prev : RegularTempStore X)
      → BTreeMap.get p (note_vacant k v total prev) ≡ (
          if eq? p k
          then or_else (if_new (BTreeMap.get k total) (some v)) (BTreeMap.get p prev)
          else BTreeMap.get p prev)
  get-note_vacant p k v total prev = ground (arith, get-insert p k v prev)

  pub get-merge_entries :
      (p : Tuple X) (total prev incoming : RegularTempStore X)
      → IsSorted incoming
      → BTreeMap.get p (merge_entries total prev incoming).total
        ≡ or_else (BTreeMap.get p incoming) (BTreeMap.get p total)
  unfolding merge_entries BTreeMap.get
  get-merge_entries p total prev [] s = refl
  get-merge_entries p total prev ((k, v) ∷ incoming) s = ground (
    arith,
    get-merge_entries p (BTreeMap.insert k v total) (note_vacant k v total prev) incoming s.1,
    get-insert p k v total,
    get-Above k incoming s.0,
    eq_of_cmp_tuple p k,
  )

  pub get-merge_entries-prev :
      (p : Tuple X) (total prev incoming : RegularTempStore X)
      → IsSorted incoming
      → BTreeMap.get p (merge_entries total prev incoming).prev
        ≡ or_else (if_new (BTreeMap.get p total) (BTreeMap.get p incoming)) (BTreeMap.get p prev)
  unfolding merge_entries BTreeMap.get
  get-merge_entries-prev p total prev [] s = ground arith
  get-merge_entries-prev p total prev ((k, v) ∷ incoming) s = ground (
    arith,
    get-merge_entries-prev p (BTreeMap.insert k v total) (note_vacant k v total prev) incoming s.1,
    get-insert p k v total,
    get-note_vacant p k v total prev,
    get-Above k incoming s.0,
    eq_of_cmp_tuple p k,
  )

  note_vacant-IsSorted :
      (k : Tuple X) (v : Bool) (total prev : RegularTempStore X)
      → IsSorted prev
      → IsSorted (note_vacant k v total prev)
  note_vacant-IsSorted k v total prev s = ground (arith, insert-IsSorted k v prev s)

  pub merge_entries-IsSorted :
      (total prev incoming : RegularTempStore X)
      → IsSorted total
      → IsSorted prev
      → IsSorted (merge_entries total prev incoming).total
        × IsSorted (merge_entries total prev incoming).prev
  unfolding merge_entries
  merge_entries-IsSorted total prev [] s t = (s, t)
  merge_entries-IsSorted total prev ((k, v) ∷ incoming) s t =
      merge_entries-IsSorted (BTreeMap.insert k v total) (note_vacant k v total prev) incoming
        (insert-IsSorted k v total s) (note_vacant-IsSorted k v total prev t)

  -- Each entry makes both maps grow, or neither, as long as `prev` has nothing that `total` lacks.
  abbrev IsPart : RegularTempStore X → RegularTempStore X → Type 0
  IsPart prev total = (p : Tuple X) → BTreeMap.get p total ≡ none → BTreeMap.get p prev ≡ none

  note_vacant-IsPart :
      (k : Tuple X) (v : Bool) (total prev : RegularTempStore X)
      → IsPart prev total
      → IsPart (note_vacant k v total prev) (BTreeMap.insert k v total)
  note_vacant-IsPart k v total prev h p e =
      ground (arith, h p, get-insert p k v total, get-note_vacant p k v total prev)

  pub length-merge_entries :
      (total prev incoming : RegularTempStore X)
      → IsSorted total
      → IsSorted prev
      → IsPart prev total
      → length (merge_entries total prev incoming).total + length prev
        ≡ length total + length (merge_entries total prev incoming).prev
  unfolding merge_entries
  length-merge_entries total prev [] s t h = omega arith
  length-merge_entries total prev ((k, v) ∷ incoming) s t h = ground (
    arith,
    length-merge_entries (BTreeMap.insert k v total) (note_vacant k v total prev) incoming
        (insert-IsSorted k v total s) (note_vacant-IsSorted k v total prev t)
        (note_vacant-IsPart k v total prev h),
    length-insert k v total s,
    length-insert k v prev t,
    h k,
  )
