-- ===== src/Runtime/TempStore/Regular.antt =====
-- `RegularTempStore` (retia-core/src/runtime/temp_store.rs): tuples, each with its skip flag.
use retia.Prelude.{Bool, true, false, none, some, List, [], ◌∷◌, is_some}
use retia.Prelude.Order.{Ord, list_ord}
use retia.BTreeMap
use retia.BTreeMap.{BTreeMap}
use retia.Data.Value.{Externals, DataValue}

-- `Vec<DataValue>`
abbrev pub Tuple : Externals → Type 0
Tuple X = List (DataValue X)

abbrev pub RegularTempStore : Externals → Type 0
RegularTempStore X = BTreeMap (Tuple X) Bool

-- What a merge leaves: `self`, `prev`, and the returned flag, which says that `prev` is the same as
-- `self`.
pub record Merged (S : Type 0) : Type 0 where
  pub total : S
  pub prev : S
  pub same : Bool

module _ {X : Externals} ⦃o : Ord (DataValue X)⦄ where
  unfoldable pub exists : Tuple X → RegularTempStore X → Bool
  exists key store = is_some (BTreeMap.get key store)

  unfoldable pub put : Tuple X → RegularTempStore X → RegularTempStore X
  put tuple store = BTreeMap.insert tuple false store

  unfoldable pub put_with_skip : Tuple X → RegularTempStore X → RegularTempStore X
  put_with_skip tuple store = BTreeMap.insert tuple true store

  -- A vacant entry of `self` goes to `prev` too.
  abbrev pub note_vacant :
      Tuple X → Bool → RegularTempStore X → RegularTempStore X → RegularTempStore X
  note_vacant k v total prev = elim (BTreeMap.get k total) [
    | none ↦ BTreeMap.insert k v prev
    | some w ↦ prev
  ]

  -- `for (k, v) in new.inner`
  unfoldable pub merge_entries :
      RegularTempStore X → RegularTempStore X → RegularTempStore X → Merged (RegularTempStore X)
  merge_entries total prev [] = record { total = total; prev = prev; same = false }
  merge_entries total prev ((k, v) ∷ incoming) =
      merge_entries (BTreeMap.insert k v total) (note_vacant k v total prev) incoming

  -- `merge_in`; `prev` is cleared first.
  unfoldable pub merge_in :
      RegularTempStore X → RegularTempStore X → RegularTempStore X → Merged (RegularTempStore X)
  unfolding merge_entries
  merge_in total prev [] = record { total = total; prev = []; same = false }
  merge_in [] prev (e ∷ incoming) = record { total = e ∷ incoming; prev = []; same = true }
  merge_in (t ∷ total) prev (e ∷ incoming) = merge_entries (t ∷ total) [] (e ∷ incoming)
