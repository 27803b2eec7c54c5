-- ===== src/Storage/Mem/Refine.antt =====
-- The operations of `MemTx` against the map from keys to values that a client has in mind.
use retia.Prelude.{
  ◌≡◌, refl, sym, ap, ◌∙◌, none, some, [], ◌∷◌, Bool, false, if◌then◌else◌, length, is_some, arith,
}
use retia.Prelude.Order.{Bytes, bytes_ord, lt?}
use retia.Prelude.Result.{ok}
use retia.BTreeMap
use retia.BTreeMap.{range, in_range, filter_keys, IsSorted}
use retia.BTreeMap.Laws.{
  get-insert, get-remove, get-filter_keys, insert-IsSorted, remove-IsSorted, filter_keys-IsSorted,
  get-Above,
}
use retia.BTreeMap.Ext.{ext}
use retia.Storage.Mem.Scan.{Store, Delta}
use retia.Storage.Mem.Merge.{merge, collect_lem}
use retia.Storage.Mem.Reads.{overlay, get-merge, merge-IsSorted}
use retia.Storage.Mem.Ops.{
  MemTx, reader, writer, store_of, get, remove_all, del_range_from_persisted, apply_all, commit,
  ranged, scan_changes, range_scan, range_count, total_scan,
}

-- Both maps of a transaction are in key order.
abbrev pub IsValid : MemTx → Type 0
IsValid (reader store) = IsSorted store
IsValid (writer store cache) = IsSorted store × IsSorted cache

get-apply_all :
    (p : Bytes) (cache : Delta) (store : Store)
    → IsSorted cache
    → BTreeMap.get p (apply_all cache store) ≡ overlay cache store p
unfolding apply_all BTreeMap.get
get-apply_all p [] store s = refl
get-apply_all p ((k, none) ∷ cache) store s = ground (
  arith,
  get-apply_all p cache (BTreeMap.remove k store) s.1,
  get-remove p k store,
  bytes_ord.eq_of_cmp p k,
  get-Above k cache s.0,
)
get-apply_all p ((k, some v) ∷ cache) store s = ground (
  arith,
  get-apply_all p cache (BTreeMap.insert k v store) s.1,
  get-insert p k v store,
  bytes_ord.eq_of_cmp p k,
  get-Above k cache s.0,
)

apply_all-IsSorted :
    (cache : Delta) (store : Store) → IsSorted store → IsSorted (apply_all cache store)
unfolding apply_all
apply_all-IsSorted [] store s = s
apply_all-IsSorted ((k, none) ∷ cache) store s =
    apply_all-IsSorted cache (BTreeMap.remove k store) (remove-IsSorted k store s)
apply_all-IsSorted ((k, some v) ∷ cache) store s =
    apply_all-IsSorted cache (BTreeMap.insert k v store) (insert-IsSorted k v store s)

-- Under a test on the keys, merging is filtering what a commit would leave.
overlay-filter_keys :
    (test : Bytes → Bool) (cache : Delta) (store : Store) (p : Bytes)
    → overlay (filter_keys test cache) (filter_keys test store) p
      ≡ (if test p then overlay cache store p else none)
overlay-filter_keys test cache store p =
    ground (arith, get-filter_keys p test cache, get-filter_keys p test store)

merge-filter_keys :
    (test : Bytes → Bool) (cache : Delta) (store : Store)
    → IsSorted cache
    → IsSorted store
    → merge (filter_keys test cache) (filter_keys test store)
      ≡ filter_keys test (apply_all cache store)
merge-filter_keys test cache store s t =
    let s' = filter_keys-IsSorted test cache s in
    let t' = filter_keys-IsSorted test store t in
    ext (merge (filter_keys test cache) (filter_keys test store))
      (filter_keys test (apply_all cache store))
      (merge-IsSorted (filter_keys test cache) (filter_keys test store) s' t')
      (filter_keys-IsSorted test (apply_all cache store) (apply_all-IsSorted cache store t))
      λ p. simp (
        get-filter_keys,
        get-apply_all,
        s,
        get-merge p (filter_keys test cache) (filter_keys test store) s' t',
        overlay-filter_keys,
      )

merge-apply_all :
    (cache : Delta) (store : Store)
    → IsSorted cache
    → IsSorted store
    → merge cache store ≡ apply_all cache store
merge-apply_all cache store s t =
    ext (merge cache store) (apply_all cache store) (merge-IsSorted cache store s t)
      (apply_all-IsSorted cache store t)
      (λ p. get-merge p cache store s t ∙ sym (get-apply_all p cache store s))

scan_changes_lem :
    (cache : Delta) (store : Store) → scan_changes cache store ≡ some (merge cache store)
scan_changes_lem cache store = collect_lem _ _ _ (omega arith) (omega arith)

-- The scan of a range inside a transaction, its own changes included, ends and yields the entries
-- that the range has in the store once the transaction commits; it panics where the range is one
-- that starts after its end.
pub range_scan-commit :
    (lower upper : Bytes) (tx : MemTx)
    → IsValid tx
    → range_scan lower upper tx
      ≡ ranged lower upper (some (range lower upper (store_of (commit tx))))
unfolding range_scan commit
range_scan-commit lower upper (reader store) v = refl
range_scan-commit lower upper (writer store cache) v =
    ap (λ entries. ranged lower upper entries)
      (scan_changes_lem (range lower upper cache) (range lower upper store)
        ∙ ap some (merge-filter_keys (in_range lower upper) cache store v.1 v.0))

-- The same for a scan of everything.
pub total_scan-commit : (tx : MemTx) → IsValid tx → total_scan tx ≡ some (store_of (commit tx))
unfolding total_scan commit
total_scan-commit (reader store) v = refl
total_scan-commit (writer store cache) v =
    scan_changes_lem cache store ∙ ap some (merge-apply_all cache store v.1 v.0)

-- The count of a range inside a transaction is the number of entries that the range has in the store
-- once the transaction commits.
pub range_count-commit :
    (lower upper : Bytes) (tx : MemTx)
    → IsValid tx
    → range_count lower upper tx
      ≡ ranged lower upper (some (length (range lower upper (store_of (commit tx)))))
unfolding range_count commit
range_count-commit lower upper (reader store) v = refl
range_count-commit lower upper (writer store cache) v = rw (
  scan_changes_lem (range lower upper cache) (range lower upper store),
  merge-filter_keys (in_range lower upper) cache store v.1 v.0,
)

-- A committed transaction reads as before, key by key, and so does the store that it leaves.
pub get-commit :
    (k : Bytes) (tx : MemTx)
    → IsValid tx
    → (BTreeMap.get k (store_of (commit tx)) ≡ get tx k) × (get (commit tx) k ≡ get tx k)
unfolding commit get
get-commit k (reader store) v = (refl, refl)
get-commit k (writer store cache) v =
    let e = get-apply_all k cache store v.1 in (e, unfold BTreeMap.get in e)

pub commit-IsValid : (tx : MemTx) → IsValid tx → IsValid (commit tx)
unfolding commit
commit-IsValid (reader store) v = v
commit-IsValid (writer store cache) v = (apply_all-IsSorted cache store v.0, tt)

get-remove_all :
    (p : Bytes) (keys store : Store)
    → BTreeMap.get p (remove_all keys store)
      ≡ (if is_some (BTreeMap.get p keys) then none else BTreeMap.get p store)
unfolding remove_all BTreeMap.get
get-remove_all p [] store = refl
get-remove_all p ((k, v) ∷ keys) store =
    ground (arith, get-remove_all p keys (BTreeMap.remove k store), get-remove p k store)

remove_all-IsSorted : (keys store : Store) → IsSorted store → IsSorted (remove_all keys store)
unfolding remove_all
remove_all-IsSorted [] store s = s
remove_all-IsSorted ((k, v) ∷ keys) store s =
    remove_all-IsSorted keys (BTreeMap.remove k store) (remove-IsSorted k store s)

get-remove_range :
    (lower upper p : Bytes) (store : Store)
    → BTreeMap.get p (remove_all (range lower upper store) store)
      ≡ (if in_range lower upper p then none else BTreeMap.get p store)
get-remove_range lower upper p store = ground (
  arith,
  get-remove_all p (range lower upper store) store,
  get-filter_keys p (in_range lower upper) store,
)

-- Deleting a range from the persisted store of a writer, the range not ending before it starts,
-- succeeds. The store loses the keys of the range at once, before any commit, and no other key. The
-- changes that the writer has not committed stay, those under keys of the range too.
pub del_range_from_persisted_lem :
    (lower upper : Bytes) (store : Store) (cache : Delta)
    → IsValid (writer store cache)
    → lt? upper lower ≡ false
    → (store' : Store) × (del_range_from_persisted lower upper (writer store cache)
        ≡ ok (writer store' cache))
      × IsValid (writer store' cache)
      × ((p : Bytes)
          → (BTreeMap.get p store'
              ≡ (if in_range lower upper p then none else BTreeMap.get p store))
            × (get (writer store' cache) p ≡ overlay cache store' p))
unfolding del_range_from_persisted get
del_range_from_persisted_lem lower upper store cache v h = (
  remove_all (range lower upper store) store,
  rw h,
  (remove_all-IsSorted (range lower upper store) store v.0, v.1),
  λ p. (get-remove_range lower upper p store, refl),
)
