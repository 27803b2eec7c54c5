-- ===== src/Storage/Mem/Scan.antt =====
-- `CacheIterRaw` (retia-core/src/storage/mem.rs): a scan of the store under the uncommitted changes.
use retia.Prelude.{ℕ, zero, suc, ◌+◌, lt, eq, gt, Option, none, some, List, [], ◌∷◌, length, cons?}
use retia.Prelude.Order.{Bytes, bytes_ord}
use retia.BTreeMap.{BTreeMap}

abbrev pub Store : Type 0
Store = BTreeMap Bytes Bytes

-- A change is a new value, or `none` for a deletion.
abbrev pub Delta : Type 0
Delta = BTreeMap Bytes (Option Bytes)

pub record CacheIterRaw : Type 0 where
  pub change_iter : Delta
  pub db_iter : Store
  pub change_cache : Option (Bytes × Option Bytes)
  pub db_cache : Option (Bytes × Bytes)

-- `if cache.is_none() { if let Some(kv) = iter.next() { cache = Some(kv) } }`
abbrev pub fill : {A : Type 0} → Option A → List A → Option A × List A
fill (some a) xs = (some a, xs)
fill none [] = (none, [])
fill none (x ∷ xs) = (some x, xs)

unfoldable pub fill_cache : CacheIterRaw → CacheIterRaw
fill_cache it =
    let (change_cache, change_iter) = fill it.change_cache it.change_iter in
    let (db_cache, db_iter) = fill it.db_cache it.db_iter in
    record {
      change_iter = change_iter;
      db_iter = db_iter;
      change_cache = change_cache;
      db_cache = db_cache;
    }

-- How one round of the loop of `next_inner` ends: a return, or `continue`.
pub data Turn : Type 0 where
  finish : CacheIterRaw → Turn
  emit : Bytes × Bytes → CacheIterRaw → Turn
  continue : CacheIterRaw → Turn

-- `change_cache.take()`, and the entry is returned unless it is a deletion.
abbrev pub take_change : Bytes → Option Bytes → CacheIterRaw → Turn
take_change k none it = continue (record it { change_cache = none })
take_change k (some v) it = emit (k, v) (record it { change_cache = none })

-- The `match` on the two caches, both filled.
unfoldable pub match_caches :
    Option (Bytes × Option Bytes) → Option (Bytes × Bytes) → CacheIterRaw → Turn
match_caches none none it = finish it
match_caches (some (k, cv)) none it = take_change k cv it
match_caches none (some (k, v)) it = emit (k, v) (record it { db_cache = none })
match_caches (some (ck, cv)) (some (dk, v)) it = elim (bytes_ord.cmp ck dk) [
  | lt ↦ take_change ck cv it
  | gt ↦ emit (dk, v) (record it { db_cache = none })
  | eq ↦ continue (record it { db_cache = none })
]

unfoldable pub turn : CacheIterRaw → Turn
unfolding fill_cache match_caches
turn it = let full = fill_cache it in match_caches full.change_cache full.db_cache full

-- The loop; the outer `none` is exhausted fuel.
unfoldable pub next_inner : ℕ → CacheIterRaw → Option (Option (Bytes × Bytes) × CacheIterRaw)
next_inner zero it = none
next_inner (suc fuel) it = elim (turn it) [
  | finish it' ↦ some (none, it')
  | emit kv it' ↦ some (some kv, it')
  | continue it' ↦ next_inner fuel it'
]

-- Everything that the iterator yields: `rounds` calls of `next` at most.
unfoldable pub collect : ℕ → ℕ → CacheIterRaw → Option (List (Bytes × Bytes))
collect zero fuel it = none
collect (suc rounds) fuel it = elim (next_inner fuel it) [
  | none ↦ none
  | some (none, it') ↦ some []
  | some (some kv, it') ↦ elim (collect rounds fuel it') [
    | none ↦ none
    | some kvs ↦ some (kv ∷ kvs)
  ]
]

-- What is still to be looked at, the caches included: each round takes one entry away.
abbrev pub changes : CacheIterRaw → Delta
changes it = cons? it.change_cache it.change_iter

abbrev pub stored : CacheIterRaw → Store
stored it = cons? it.db_cache it.db_iter

abbrev pub remaining : CacheIterRaw → ℕ
remaining it = length (changes it) + length (stored it)
