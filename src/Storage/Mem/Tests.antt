-- ===== src/Storage/Mem/Tests.antt =====
-- Runs of retia-core/src/storage/mem.rs on small inputs, and the theorems at them.
use retia.Prelude.{◌≡◌, refl, false, none, some, List, [], ◌∷◌, if◌then◌else◌}
use retia.Prelude.Order.{Bytes, bytes_ord, lt?}
use retia.Prelude.Result.{ok, err}
use retia.BTreeMap
use retia.BTreeMap.{range, in_range}
use retia.Storage.Mem.Scan.{Store, Delta, next_inner, turn, collect}
use retia.Storage.Mem.Ops.{
  write_in_read_transaction, MemTx, reader, writer, store_of, get, put, commit, ranged, range_scan,
  total_scan, del_range_from_persisted,
}
use retia.Storage.Mem.Reads.{overlay}
use retia.Storage.Mem.Refine.{IsValid, range_scan-commit, get-commit, del_range_from_persisted_lem}
use retia.Storage.Mem.Client.{Op, put_op, del_op, replay, Ran, run_refines}

abbrev store : Store
store = (1 ∷ [], 10 ∷ []) ∷ (2 ∷ [], 20 ∷ []) ∷ (2 ∷ 5 ∷ [], 25 ∷ []) ∷ []

-- A changed value, a deletion, and a new key after all stored ones.
abbrev cache : Delta
cache = (1 ∷ [], some (11 ∷ [])) ∷ (2 ∷ [], none) ∷ (3 ∷ [], some (30 ∷ [])) ∷ []

abbrev tx : MemTx
tx = writer store cache

tx-IsValid : IsValid tx
unfolding bytes_ord
tx-IsValid =
    (((refl, (refl, tt)), ((refl, tt), (tt, tt))), ((refl, (refl, tt)), ((refl, tt), (tt, tt))))

abbrev committed : Store
committed = (1 ∷ [], 11 ∷ []) ∷ (2 ∷ 5 ∷ [], 25 ∷ []) ∷ (3 ∷ [], 30 ∷ []) ∷ []

total_scan_runs : (total_scan tx ≡ some committed) × (commit tx ≡ writer committed [])
unfolding total_scan collect next_inner turn bytes_ord commit BTreeMap.insert BTreeMap.remove
total_scan_runs = (refl, refl)

put_in_reader : put [] [] (reader store) ≡ err write_in_read_transaction
unfolding put
put_in_reader = refl

range_scan-commit_example :
    range_scan (1 ∷ []) (3 ∷ []) tx
    ≡ ranged (1 ∷ []) (3 ∷ []) (some (range (1 ∷ []) (3 ∷ []) (store_of (commit tx))))
range_scan-commit_example = range_scan-commit (1 ∷ []) (3 ∷ []) tx tx-IsValid

get-commit_example :
    (BTreeMap.get (2 ∷ []) (store_of (commit tx)) ≡ get tx (2 ∷ []))
    × (get (commit tx) (2 ∷ []) ≡ get tx (2 ∷ []))
get-commit_example = get-commit (2 ∷ []) tx tx-IsValid

range_in_order : lt? {K = Bytes} (3 ∷ []) (1 ∷ []) ≡ false
unfolding bytes_ord
range_in_order = refl

del_range_from_persisted_lem_example :
    (store' : Store) × (del_range_from_persisted (1 ∷ []) (3 ∷ []) tx ≡ ok (writer store' cache))
    × IsValid (writer store' cache)
    × ((p : Bytes)
        → (BTreeMap.get p store'
            ≡ (if in_range (1 ∷ []) (3 ∷ []) p then none else BTreeMap.get p store))
          × (get (writer store' cache) p ≡ overlay cache store' p))
del_range_from_persisted_lem_example =
    del_range_from_persisted_lem (1 ∷ []) (3 ∷ []) store cache tx-IsValid range_in_order

abbrev ops : List Op
ops = put_op (9 ∷ []) (90 ∷ []) ∷ del_op (1 ∷ []) ∷ []

run_refines_example :
    (tx' : MemTx) × Ran ops store cache tx'
    × ((p : Bytes) → BTreeMap.get p (store_of (commit tx')) ≡ replay ops (get tx) p)
run_refines_example = run_refines ops store cache tx-IsValid
