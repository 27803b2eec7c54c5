-- ===== src/Runtime/TempStore/Iter.antt =====
-- The ranges of the temporary stores (retia-core/src/runtime/temp_store.rs).
use retia.Prelude.{
  ℕ, lt, eq, gt, Bool, true, false, List, [], ◌∷◌, ◌++◌, map, length, take, ltb, if◌then◌else◌,
}
use retia.Prelude.Order.{Ord, cmp_list, list_ord, lt?}
use retia.Prelude.Result.{Result, ok, panic}
use retia.BTreeMap.{filter_keys}
use retia.Data.Value.{Externals, DataValue, bot}
use retia.Data.Aggr.Base.{Error}
use retia.Runtime.TempStore.Regular.{Tuple, RegularTempStore}
use retia.Runtime.TempStore.Meet.{MeetAggrStore, Groups}

-- `TupleInIter`: a key, the values behind it and the skip flag.
pub record TupleInIter (X : Externals) : Type 0 where
  pub key : Tuple X
  pub value : Tuple X
  pub should_skip : Bool

abbrev pub into_tuple : {X : Externals} → TupleInIter X → Tuple X
into_tuple t = t.key ++ t.value

abbrev pub regular_item : {X : Externals} → Tuple X × Bool → TupleInIter X
regular_item e = record { key = e.0; value = []; should_skip = e.1 }

module _ {X : Externals} ⦃o : Ord (DataValue X)⦄ where
  -- Whether a tuple lies in a range that has its upper bound or not.
  abbrev pub within : Tuple X → Tuple X → Bool → Tuple X → Bool
  within lower upper upper_inclusive t =
      if lt? t lower
      then false
      else elim (cmp_list t upper) [ lt ↦ true | eq ↦ upper_inclusive | gt ↦ false ]

  -- `BTreeMap::range` panics if the range starts after its end.
  unfoldable pub regular_range :
      Tuple X → Tuple X → Bool → RegularTempStore X → Result Error (List (TupleInIter X))
  regular_range lower upper upper_inclusive store =
      if lt? upper lower
      then panic
      else ok (map regular_item (filter_keys (within lower upper upper_inclusive) store))

  abbrev truncate : ℕ → Tuple X → Tuple X
  truncate n t = if ltb n (length t) then take n t else t

  -- The entries of the groups whose key and values pass a test.
  unfoldable pub filter_groups : (Tuple X → Bool) → Groups X → List (TupleInIter X)
  filter_groups test [] = []
  filter_groups test ((k, v) ∷ groups) =
      let rest = filter_groups test groups in
      if test (k ++ v) then record { key = k; value = v; should_skip = false } ∷ rest else rest

  unfoldable pub meet_range :
      Tuple X → Tuple X → Bool → MeetAggrStore X → Result Error (List (TupleInIter X))
  unfolding filter_groups
  meet_range lower upper upper_inclusive store =
      let lower_key = truncate store.grouping_len lower in
      let upper_key = truncate store.grouping_len upper in
      if lt? upper_key lower_key
      then panic
      else ok (
          filter_groups (within lower upper upper_inclusive)
            (filter_keys (within lower_key upper_key true) store.inner))

  -- The upper bound of `prefix_iter`.
  abbrev pub prefix_end : Tuple X → Tuple X
  prefix_end prefix = prefix ++ bot ∷ []
