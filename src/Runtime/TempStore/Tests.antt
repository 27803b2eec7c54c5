-- ===== src/Runtime/TempStore/Tests.antt =====
-- The temporary stores at small tuples.
use retia.Prelude.{◌≡◌, ◌≢◌, ◌↔◌, refl, Bool, true, false, [], ◌∷◌, is_some, map, All, arith}
use retia.Prelude.Order.{list_ord, cmp_list, nat_ord}
use retia.Prelude.OrderInstances.{ord_along}
use retia.Prelude.Result.{ok}
use retia.BTreeMap
use retia.BTreeMap.{BTreeMap, IsSorted, filter_keys}
use retia.Data.Value.{DataValue, bool}
use retia.Data.Value.Order.{cmp_value}
use retia.Data.Value.Order.Lawful.{value_ord}
use retia.Data.Value.Sample.{sample, sample_ord}
use retia.Data.Aggr.Logic.{meet_aggr_and, meet_aggr_or, meet_and_update}
use retia.Data.Aggr.Init.{returns}
use retia.Runtime.TempStore.Regular.{Tuple, RegularTempStore, Merged}
use retia.Runtime.TempStore.Meet
use retia.Runtime.TempStore.Meet.{MeetAggrStore, update_all}
use retia.Runtime.TempStore.Iter.{regular_item}
use retia.Runtime.TempStore.Epoch
use retia.Runtime.TempStore.Epoch.{EpochStore, normal, is_nil, prefix_iter, new_normal}
use retia.Runtime.TempStore.Advance.{epoch, Advances, merge_in-Advances}
use retia.Runtime.TempStore.MeetMerge.{delta_groups, merge_in-meet_point}
use retia.Runtime.TempStore.MeetRound.{meet_point}
use retia.Runtime.TempStore.Flags.{one_group, and_or_delta_inverted}
use retia.Runtime.TempStore.Prefix.{starts_with, Below, prefix_iter-starts_with}
use retia.Runtime.TempStore.Rounds.{merge_rounds, derived, merge_rounds-derived}

abbrev Value : Type 0
Value = DataValue sample

abbrev no : Tuple sample
no = bool false ∷ []

abbrev yes : Tuple sample
yes = bool true ∷ []

abbrev total : RegularTempStore sample
total = (no, false) ∷ []

abbrev incoming : RegularTempStore sample
incoming = (no, false) ∷ (yes, false) ∷ []

total-IsSorted : IsSorted ⦃o = list_ord ⦃o = sample_ord⦄⦄ total
total-IsSorted = (tt, tt)

incoming-IsSorted : IsSorted ⦃o = list_ord ⦃o = sample_ord⦄⦄ incoming
unfolding value_ord ord_along cmp_value list_ord cmp_list
incoming-IsSorted = ((refl, tt), (tt, tt))

merge_in-Advances_example :
    (store : EpochStore sample) × (Epoch.merge_in ⦃o = sample_ord⦄
        (epoch total [] true 1)
        (normal incoming)
      ≡ ok store)
    × Advances ⦃o = sample_ord⦄ total incoming 1 store
merge_in-Advances_example =
    merge_in-Advances ⦃o = sample_ord⦄ total [] incoming true 1 total-IsSorted incoming-IsSorted

merge_rounds-derived_example :
    (total' prev' : RegularTempStore sample) × (use_total' : Bool) × (merge_rounds ⦃o = sample_ord⦄
        (total ∷ incoming ∷ [])
        (new_normal sample 1)
      ≡ ok (epoch total' prev' use_total' 1))
    × IsSorted ⦃o = list_ord ⦃o = sample_ord⦄⦄ total'
    × ((p : Tuple sample)
        → is_some (BTreeMap.get ⦃o = list_ord ⦃o = sample_ord⦄⦄ p total')
          ≡ derived ⦃o = sample_ord⦄ p (total ∷ incoming ∷ []))
merge_rounds-derived_example =
    merge_rounds-derived ⦃o = sample_ord⦄ (total ∷ incoming ∷ []) 1
      (total-IsSorted, (incoming-IsSorted, tt))

incoming-Below : All (λ e. All (Below ⦃o = sample_ord⦄) e.0) incoming
unfolding value_ord ord_along cmp_value
incoming-Below = ((refl, tt), ((refl, tt), tt))

prefix_iter-starts_with_example :
    prefix_iter ⦃o = sample_ord⦄ yes (epoch incoming [] true 1)
    ≡ ok (
        map regular_item
          (filter_keys ⦃o = list_ord ⦃o = sample_ord⦄⦄ (starts_with ⦃o = sample_ord⦄ yes) incoming))
prefix_iter-starts_with_example =
    prefix_iter-starts_with ⦃o = sample_ord⦄ yes incoming [] true 1 incoming-Below

abbrev ones : MeetAggrStore sample
ones = one_group meet_aggr_and yes (bool true)

abbrev zeros : MeetAggrStore sample
zeros = one_group meet_aggr_and yes (bool false)

zeros-IsSorted : IsSorted ⦃o = list_ord ⦃o = sample_ord⦄⦄ zeros.inner
zeros-IsSorted = (tt, tt)

updates_return :
    (p : Tuple sample)
    → returns (
        meet_point ones.aggregations
          (BTreeMap.get ⦃o = list_ord ⦃o = sample_ord⦄⦄ p ones.inner)
          (BTreeMap.get ⦃o = list_ord ⦃o = sample_ord⦄⦄ p zeros.inner))
      ≡ true
unfolding BTreeMap.get update_all meet_and_update
updates_return p = ground arith

merge_in-meet_point_example :
    (m : Merged (MeetAggrStore sample)) × (Meet.merge_in ⦃o = sample_ord⦄ ones ones zeros ≡ ok m)
    × ((p : Tuple sample)
        → meet_point ones.aggregations
            (BTreeMap.get ⦃o = list_ord ⦃o = sample_ord⦄⦄ p ones.inner)
            (BTreeMap.get ⦃o = list_ord ⦃o = sample_ord⦄⦄ p zeros.inner)
          ≡ ok (
            BTreeMap.get ⦃o = list_ord ⦃o = sample_ord⦄⦄ p m.total.inner,
            BTreeMap.get ⦃o = list_ord ⦃o = sample_ord⦄⦄ p (delta_groups ⦃o = sample_ord⦄ m),
          ))
merge_in-meet_point_example =
    merge_in-meet_point ⦃o = sample_ord⦄ ones ones zeros zeros-IsSorted updates_return

and_or_delta_inverted_example :
    (m n : Merged (MeetAggrStore sample)) × (Meet.merge_in ⦃o = sample_ord⦄ ones ones zeros ≡ ok m)
    × (Meet.merge_in ⦃o = sample_ord⦄
          (one_group meet_aggr_or yes (bool true))
          ones
          (one_group meet_aggr_or yes (bool false))
        ≡ ok n)
    × (m.total.inner ≡ (yes, bool false ∷ []) ∷ [])
    × (n.total.inner ≡ (yes, bool true ∷ []) ∷ [])
    × ((is_nil (delta_groups ⦃o = sample_ord⦄ m) ≡ true) ↔ (false ≢ true))
    × ((is_nil (delta_groups ⦃o = sample_ord⦄ n) ≡ true) ↔ (true ≢ true))
and_or_delta_inverted_example = and_or_delta_inverted ⦃o = sample_ord⦄ yes true false ones
