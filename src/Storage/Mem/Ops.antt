-- ===== src/Storage/Mem/Ops.antt =====
-- `MemStorage` and `MemTx` (retia-core/src/storage/mem.rs): transactions and their operations.
-- A writer holds the exclusive lock on the store, so the store stands inside the transaction, and
-- what the next transaction sees is the store that this one leaves, `store_of`.
use retia.Prelude.{
  ℕ, suc, ◌+◌, Option, none, some, List, [], ◌∷◌, Bool, if◌then◌else◌, length, is_some,
}
use retia.Prelude.Order.{Bytes, bytes_ord, lt?}
use retia.Prelude.Result.{Result, ok, err, panic}
use retia.BTreeMap
use retia.BTreeMap.{range, filter_keys}
use retia.Storage.Mem.Scan.{Store, Delta, CacheIterRaw, collect}

pub data Error : Type 0 where
  write_in_read_transaction : Error
  bad_item : Error

pub data MemTx : Type 0 where
  reader : Store → MemTx
  writer : Store → Delta → MemTx

abbrev pub store_of : MemTx → Store
store_of (reader store) = store
store_of (writer store cache) = store

unfoldable pub transact : Bool → Store → MemTx
transact write store = if write then writer store [] else reader store

-- `batch_put`: each pair of the iterator, up to the first error.
unfoldable pub batch_put :
    List (Result Error (Bytes × Bytes)) → Store → Result Error (Unit {0}) × Store
batch_put [] store = (ok tt, store)
batch_put (ok (k, v) ∷ items) store = batch_put items (BTreeMap.insert k v store)
batch_put (err e ∷ items) store = (err e, store)
batch_put (panic ∷ items) store = (panic, store)

unfoldable pub get : MemTx → Bytes → Option Bytes
get (reader store) key = BTreeMap.get key store
get (writer store cache) key = elim (BTreeMap.get key cache) [
  | some r ↦ r
  | none ↦ BTreeMap.get key store
]

unfoldable pub exists : MemTx → Bytes → Bool
exists (reader store) key = is_some (BTreeMap.get key store)
exists (writer store cache) key = elim (BTreeMap.get key cache) [
  | some r ↦ is_some r
  | none ↦ is_some (BTreeMap.get key store)
]

-- An operation that writes returns the transaction that it leaves.
unfoldable pub put : Bytes → Bytes → MemTx → Result Error MemTx
put key val (reader store) = err write_in_read_transaction
put key val (writer store cache) = ok (writer store (BTreeMap.insert key (some val) cache))

unfoldable pub del : Bytes → MemTx → Result Error MemTx
del key (reader store) = err write_in_read_transaction
del key (writer store cache) = ok (writer store (BTreeMap.insert key none cache))

-- `for k in keys.iter() { wtr.remove(k); }`
unfoldable pub remove_all : List (Bytes × Bytes) → Store → Store
remove_all [] store = store
remove_all ((k, v) ∷ keys) store = remove_all keys (BTreeMap.remove k store)

-- `BTreeMap::range` panics if the range starts after its end.
abbrev pub ranged {ℓ} : {A : Type ℓ} → Bytes → Bytes → A → Result Error A
ranged lower upper a = if lt? upper lower then panic else ok a

unfoldable pub del_range_from_persisted : Bytes → Bytes → MemTx → Result Error MemTx
unfolding remove_all
del_range_from_persisted lower upper (reader store) = err write_in_read_transaction
del_range_from_persisted lower upper (writer store cache) =
    ranged lower upper (writer (remove_all (range lower upper store) store) cache)

-- `for (k, mv) in cache`
unfoldable pub apply_all : Delta → Store → Store
apply_all [] store = store
apply_all ((k, none) ∷ cache) store = apply_all cache (BTreeMap.remove k store)
apply_all ((k, some v) ∷ cache) store = apply_all cache (BTreeMap.insert k v store)

unfoldable pub commit : MemTx → MemTx
unfolding apply_all
commit (reader store) = reader store
commit (writer store cache) = writer (apply_all cache store) []

abbrev pub cache_iter : Delta → Store → CacheIterRaw
cache_iter cache store = record {
  change_iter = cache;
  db_iter = store;
  change_cache = none;
  db_cache = none;
}

-- Rounds, and turns within a round, for every entry that is left to look at.
abbrev pub fuel_of : Delta → Store → ℕ
fuel_of cache store = suc (length cache + length store)

-- All that the iterator yields; `none` if the fuel runs out, which `Refine` excludes.
abbrev pub scan_changes : Delta → Store → Option (List (Bytes × Bytes))
scan_changes cache store =
    collect (fuel_of cache store) (fuel_of cache store) (cache_iter cache store)

unfoldable pub range_scan : Bytes → Bytes → MemTx → Result Error (Option (List (Bytes × Bytes)))
range_scan lower upper (reader store) = ranged lower upper (some (range lower upper store))
range_scan lower upper (writer store cache) =
    ranged lower upper (scan_changes (range lower upper cache) (range lower upper store))

unfoldable pub range_count : Bytes → Bytes → MemTx → Result Error (Option ℕ)
range_count lower upper (reader store) =
    ranged lower upper (some (length (range lower upper store)))
range_count lower upper (writer store cache) =
    ranged lower upper (elim (scan_changes (range lower upper cache) (range lower upper store)) [
      | none ↦ none
      | some entries ↦ some (length entries)
    ])

unfoldable pub total_scan : MemTx → Option (List (Bytes × Bytes))
total_scan (reader store) = some store
total_scan (writer store cache) = scan_changes cache store
