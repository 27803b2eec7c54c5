-- ===== src/Runtime/TempStore/MeetRound.antt =====
-- One round of a merge of groups (retia-core/src/runtime/temp_store.rs).
use retia.Prelude.{◌≡◌, refl, Bool, true, false, Option, none, some, List, if◌then◌else◌, arith}
use retia.Prelude.Order.{Ord, list_ord, eq?}
use retia.Prelude.Result.{Result, ok, err, panic, ◌>>=◌}
use retia.BTreeMap
use retia.BTreeMap.{BTreeMap, IsSorted}
use retia.BTreeMap.Laws.{get-insert}
use retia.Data.Value.{Externals, DataValue}
use retia.Data.Aggr.Base.{Error, MeetAggr}
use retia.Data.Aggr.Init.{returns}
use retia.Runtime.TempStore.Regular.{Tuple}
use retia.Runtime.TempStore.Meet.{Groups, update_all, merge_group}
use retia.Runtime.TempStore.Merge.{or_else}

module _ {X : Externals} where
  -- What one group is after a merge, and what it is in the delta: a group of either side alone is kept,
  -- one of both is updated, and it is in the delta if it is new or an update has reported a change.
  abbrev pub meet_point :
      List (MeetAggr X)
      → Option (Tuple X)
      → Option (Tuple X)
      → Result Error (Option (Tuple X) × Option (Tuple X))
  meet_point ops a none = ok (a, none)
  meet_point ops none (some v) = ok (some v, some v)
  meet_point ops (some t) (some v) =
      update_all ops t v >>= λ r. ok (some r.0, if r.1 then some r.0 else none)

  -- A group of the delta in front of one that was there.
  abbrev pub before :
      Option (Tuple X)
      → Result Error (Option (Tuple X) × Option (Tuple X))
      → Result Error (Option (Tuple X) × Option (Tuple X))
  before old (ok (a, b)) = ok (a, or_else b old)
  before old (err e) = err e
  before old panic = panic

pub returns_bind :
    {A B : Type 0} (u : Result Error A) (f : A → B)
    → returns (u >>= λ a. ok (f a)) ≡ true
    → returns u ≡ true
returns_bind (ok a) f h = refl
returns_bind (err e) f h = h
returns_bind panic f h = h

module _ {X : Externals} ⦃o : Ord (DataValue X)⦄ (ops : List (MeetAggr X)) where
  -- A round of the loop changes one group.
  pub record Stepped (k v : Tuple X) (total prev : Groups X) (next : Groups X × Groups X)
      : Type 0 where
    pub now : Option (Tuple X)
    pub news : Option (Tuple X)
    pub point : meet_point ops (BTreeMap.get k total) (some v) ≡ ok (now, news)
    pub total_gets :
        (p : Tuple X) → BTreeMap.get p next.0 ≡ (if eq? p k then now else BTreeMap.get p total)
    pub prev_gets :
        (p : Tuple X)
        → BTreeMap.get p next.1
          ≡ (if eq? p k then or_else news (BTreeMap.get p prev) else BTreeMap.get p prev)

  step_updated :
      (k v t : Tuple X) (total prev : Groups X) (u : Result Error (Tuple X × Bool))
      → BTreeMap.get k total ≡ some t
      → update_all ops t v ≡ u
      → returns u ≡ true
      → (next : Groups X × Groups X) × (merge_group ops k v total prev ≡ ok next)
        × Stepped k v total prev next
  unfolding merge_group
  step_updated k v t total prev (ok (t', true)) e f h = (
    (BTreeMap.insert k t' total, BTreeMap.insert k t' prev),
    rw (merge_group, e, f),
    record {
      now = some t';
      news = some t';
      point = rw (e, f);
      total_gets = λ p. get-insert p k t' total;
      prev_gets = λ p. get-insert p k t' prev;
    },
  )
  step_updated k v t total prev (ok (t', false)) e f h = (
    (BTreeMap.insert k t' total, prev),
    rw (merge_group, e, f),
    record {
      now = some t';
      news = none;
      point = rw (e, f);
      total_gets = λ p. get-insert p k t' total;
      prev_gets = λ p. ground arith;
    },
  )
  step_updated k v t total prev (err e') e f h = absurd (cc)
  step_updated k v t total prev panic e f h = absurd (cc)

  pub step_from :
      (k v : Tuple X) (total prev : Groups X) (a : Option (Tuple X))
      → BTreeMap.get k total ≡ a
      → returns (meet_point ops a (some v)) ≡ true
      → (next : Groups X × Groups X) × (merge_group ops k v total prev ≡ ok next)
        × Stepped k v total prev next
  unfolding merge_group
  step_from k v total prev none e h = (
    (BTreeMap.insert k v total, BTreeMap.insert k v prev),
    rw (merge_group, e),
    record {
      now = some v;
      news = some v;
      point = rw e;
      total_gets = λ p. get-insert p k v total;
      prev_gets = λ p. get-insert p k v prev;
    },
  )
  step_from k v total prev (some t) e h =
      step_updated k v t total prev (update_all ops t v) e refl
        (returns_bind (update_all ops t v) _ h)
