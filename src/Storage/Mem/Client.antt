-- ===== src/Storage/Mem/Client.antt =====
-- What a client of a write transaction observes over any sequence of calls.
use retia.Prelude.{◌≡◌, refl, ◌∙◌, Option, none, some, List, [], ◌∷◌, if◌then◌else◌, is_some, arith}
use retia.Prelude.Order.{Bytes, bytes_ord, eq?}
use retia.Prelude.Result.{Result, ok, ◌>>=◌}
use retia.BTreeMap
use retia.BTreeMap.{IsSorted}
use retia.BTreeMap.Laws.{get-insert, insert-IsSorted}
use retia.Storage.Mem.Scan.{Store, Delta}
use retia.Storage.Mem.Ops.{Error, MemTx, reader, writer, store_of, get, exists, put, del, commit}
use retia.Storage.Mem.Refine.{IsValid, get-commit}

pub data Op : Type 0 where
  put_op : Bytes → Bytes → Op
  del_op : Bytes → Op

-- The calls, one after another, up to the first error.
unfoldable pub run : List Op → MemTx → Result Error MemTx
run [] tx = ok tx
run (put_op k v ∷ ops) tx = put k v tx >>= run ops
run (del_op k ∷ ops) tx = del k tx >>= run ops

-- A map from keys to values, changed at one key.
abbrev pub update : (Bytes → Option Bytes) → Bytes → Option Bytes → Bytes → Option Bytes
update f k mv p = if eq? p k then mv else f p

-- The calls on such a map.
unfoldable pub replay : List Op → (Bytes → Option Bytes) → Bytes → Option Bytes
replay [] f = f
replay (put_op k v ∷ ops) f = replay ops (update f k (some v))
replay (del_op k ∷ ops) f = replay ops (update f k none)

replay_ext :
    (ops : List Op) (f g : Bytes → Option Bytes)
    → ((p : Bytes) → f p ≡ g p)
    → (p : Bytes) → replay ops f p ≡ replay ops g p
unfolding replay
replay_ext [] f g h = h
replay_ext (put_op k v ∷ ops) f g h =
    replay_ext ops (update f k (some v)) (update g k (some v)) (λ p. rw (h p))
replay_ext (del_op k ∷ ops) f g h =
    replay_ext ops (update f k none) (update g k none) (λ p. rw (h p))

get-change :
    (store : Store) (cache : Delta) (k : Bytes) (mv : Option Bytes) (p : Bytes)
    → get (writer store (BTreeMap.insert k mv cache)) p ≡ update (get (writer store cache)) k mv p
unfolding get
get-change store cache k mv p = ground (arith, get-insert p k mv cache)

-- What a run of calls from a writer ends in.
pub record Ran (ops : List Op) (store : Store) (cache : Delta) (tx : MemTx) : Type 0 where
  pub returns : run ops (writer store cache) ≡ ok tx
  pub valid : IsValid tx
  pub untouched : store_of tx ≡ store
  pub reads : (p : Bytes) → get tx p ≡ replay ops (get (writer store cache)) p

run_step :
    (op : Op) (ops : List Op) (store : Store) (cache : Delta) (k : Bytes) (mv : Option Bytes)
    (tx : MemTx)
    → run (op ∷ ops) (writer store cache) ≡ run ops (writer store (BTreeMap.insert k mv cache))
    → ((f : Bytes → Option Bytes) → replay (op ∷ ops) f ≡ replay ops (update f k mv))
    → Ran ops store (BTreeMap.insert k mv cache) tx
    → Ran (op ∷ ops) store cache tx
run_step op ops store cache k mv tx runs replays r = record {
  returns = runs ∙ r.returns;
  valid = r.valid;
  untouched = r.untouched;
  reads = λ p. rw (replays (get (writer store cache))) (
      r.reads p
      ∙ replay_ext ops (get (writer store (BTreeMap.insert k mv cache)))
          (update (get (writer store cache)) k mv) (get-change store cache k mv) p);
}

run_ends :
    (ops : List Op) (store : Store) (cache : Delta)
    → IsValid (writer store cache)
    → (tx : MemTx) × Ran ops store cache tx
unfolding run replay put del
run_ends [] store cache v =
    (writer store cache, record { returns = refl; valid = v; untouched = refl; reads = λ p. refl })
run_ends (put_op k w ∷ ops) store cache v =
    let (tx, r) =
      run_ends ops store (BTreeMap.insert k (some w) cache)
        (v.0, insert-IsSorted k (some w) cache v.1) in
    (tx, run_step (put_op k w) ops store cache k (some w) tx refl (λ f. refl) r)
run_ends (del_op k ∷ ops) store cache v =
    let (tx, r) =
      run_ends ops store (BTreeMap.insert k none cache) (v.0, insert-IsSorted k none cache v.1) in
    (tx, run_step (del_op k) ops store cache k none tx refl (λ f. refl) r)

-- From a valid writer every sequence of puts and deletes succeeds and leaves a valid transaction that
-- reads as the sequence replayed on a map. The store is as it was until the commit, and reads as
-- the replayed map after it.
pub run_refines :
    (ops : List Op) (store : Store) (cache : Delta)
    → IsValid (writer store cache)
    → (tx : MemTx) × Ran ops store cache tx
      × ((p : Bytes)
          → BTreeMap.get p (store_of (commit tx)) ≡ replay ops (get (writer store cache)) p)
run_refines ops store cache v =
    let (tx, r) = run_ends ops store cache v in
    (tx, r, λ p. (get-commit p tx r.valid).0 ∙ r.reads p)

-- `exists` answers whether `get` finds a value.
pub exists-get : (tx : MemTx) (k : Bytes) → exists tx k ≡ is_some (get tx k)
unfolding exists get
exists-get (reader store) k = refl
exists-get (writer store cache) k = ground arith
