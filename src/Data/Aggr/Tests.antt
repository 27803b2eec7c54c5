-- ===== src/Data/Aggr/Tests.antt =====
-- The aggregations at small groups of values.
use retia.Prelude.{
  ℕ, ◌<◌, ◌^◌, ◌≡◌, refl, true, false, ◌&&◌, ◌||◌, List, [], ◌∷◌, map, All, length, arith,
}
use retia.Prelude.Order.{nat_ord}
use retia.Prelude.Result.{ok}
use retia.BTreeMap
use retia.BTreeMap.{BTreeMap}
use retia.BTreeSet
use retia.Data.Value.{Num, ℤ, pos, DataValue, num, int, bool, list, set, null, of_list}
use retia.Prelude.OrderInstances.{ord_along}
use retia.Data.Value.Order.{cmp_value}
use retia.Data.Value.Order.Lawful.{value_ord}
use retia.Data.Value.Sample.{sample, floats, sample_ord}
use retia.Data.Aggr.Logic.{aggr_and, aggr_or, meet_aggr_and, meet_aggr_or}
use retia.Data.Aggr.Count.{aggr_count, aggr_choice, meet_aggr_choice}
use retia.Data.Aggr.Sets.{
  aggr_unique, aggr_count_unique, aggr_group_count, group_count_get, meet_union_update,
  meet_intersection_update,
}
use retia.Data.Aggr.Extreme.{aggr_min, aggr_max, meet_aggr_min, meet_aggr_max}
use retia.Data.Aggr.Cost.{aggr_latest_by}
use retia.Data.Aggr.Run.{normal_result, meet_result}
use retia.Data.Aggr.FlagTests.{floats-IsIrreflexive}
use retia.Data.Aggr.Agree.{and_or_agree, min_max_choice_agree}
use retia.Data.Aggr.Counting.{count-length, unique-count_unique}
use retia.Data.Aggr.Grouping.{group_count-occurrences, occurrences, entry_of}
use retia.Data.Aggr.SetLaws.{Leaves, union_intersection_leave}
use retia.Data.Aggr.Least.{IsTransitive, Occurs, is_less, min_max_least, FirstBest}
use retia.Data.Aggr.Best.{pair_of, is_later, latest_by-FirstBest}

abbrev Value : Type 0
Value = DataValue sample

abbrev number : ℕ → Value
number n = num (int (pos n))

abbrev group : List Value
group = number 3 ∷ number 1 ∷ number 3 ∷ []

abbrev flags : List Value
flags = bool true ∷ bool false ∷ []

and_or_agree_example :
    (meet_result {X = sample} meet_aggr_and flags ≡ normal_result aggr_and flags)
    × (meet_result {X = sample} meet_aggr_or flags ≡ normal_result aggr_or flags)
and_or_agree_example = and_or_agree {X = sample} flags (tt, (tt, tt))

min_max_choice_agree_example :
    (meet_result {X = sample} (meet_aggr_min floats) group ≡ normal_result (aggr_min floats) group)
    × (meet_result {X = sample} (meet_aggr_max floats) group
        ≡ normal_result (aggr_max floats) group)
    × (meet_result {X = sample} meet_aggr_choice group ≡ normal_result aggr_choice group)
min_max_choice_agree_example = min_max_choice_agree {X = sample} floats group

few : length group < 2 ^ 63
few = omega arith

count-length_example :
    normal_result {X = sample} aggr_count group ≡ ok (num (int (pos (length group))))
count-length_example = count-length {X = sample} group few

unique-count_unique_example :
    (items : List Value) × (normal_result (aggr_unique ⦃o = sample_ord⦄) group
      ≡ ok (list (of_list items)))
    × (normal_result (aggr_count_unique ⦃o = sample_ord⦄) group
        ≡ ok (num (int (pos (length items)))))
    × BTreeSet.IsSorted ⦃o = sample_ord⦄ items
    × ((p : Value)
        → BTreeSet.contains ⦃o = sample_ord⦄ p items ≡ BTreeSet.contains ⦃o = sample_ord⦄ p group)
unique-count_unique_example = unique-count_unique {X = sample} ⦃o = sample_ord⦄ group few

group_count-occurrences_example :
    (accum : BTreeMap Value ℤ) × (normal_result (aggr_group_count ⦃o = sample_ord⦄) group
      ≡ group_count_get ⦃o = sample_ord⦄ accum)
    × BTreeMap.IsSorted ⦃o = sample_ord⦄ accum
    × ((p : Value)
        → BTreeMap.get ⦃o = sample_ord⦄ p accum ≡ entry_of (occurrences ⦃o = sample_ord⦄ p group))
group_count-occurrences_example = group_count-occurrences {X = sample} ⦃o = sample_ord⦄ group few

abbrev items : List Value
items = bool false ∷ bool true ∷ []

items-IsSorted : BTreeSet.IsSorted ⦃o = sample_ord⦄ items
unfolding value_ord ord_along cmp_value
items-IsSorted = ((refl, tt), (tt, tt))

union_intersection_leave_example :
    Leaves ⦃o = sample_ord⦄ items
      (λ p.
        BTreeSet.contains ⦃o = sample_ord⦄ p items || BTreeSet.contains ⦃o = sample_ord⦄ p group)
      (meet_union_update ⦃o = sample_ord⦄ (set (of_list items)) (list (of_list group)))
    × Leaves ⦃o = sample_ord⦄ items
        (λ p.
          BTreeSet.contains ⦃o = sample_ord⦄ p items && BTreeSet.contains ⦃o = sample_ord⦄ p group)
        (meet_intersection_update ⦃o = sample_ord⦄ (set (of_list items)) (list (of_list group)))
union_intersection_leave_example =
    union_intersection_leave {X = sample} ⦃o = sample_ord⦄ items group items-IsSorted

floats-IsTransitive : IsTransitive floats
floats-IsTransitive x y z h k = ground arith

min_max_least_example :
    (least greatest : Num sample) × (normal_result (aggr_min {X = sample} floats) group
      ≡ ok (num least))
    × (normal_result (aggr_max {X = sample} floats) group ≡ ok (num greatest))
    × Occurs least (int (pos 3) ∷ int (pos 1) ∷ int (pos 3) ∷ [])
    × Occurs greatest (int (pos 3) ∷ int (pos 1) ∷ int (pos 3) ∷ [])
    × All
        (λ k. is_less {X = sample} floats k least ≡ false)
        (int (pos 3) ∷ int (pos 1) ∷ int (pos 3) ∷ [])
    × All
        (λ k. is_less {X = sample} floats greatest k ≡ false)
        (int (pos 3) ∷ int (pos 1) ∷ int (pos 3) ∷ [])
min_max_least_example =
    min_max_least {X = sample} floats (int (pos 3)) (int (pos 1) ∷ int (pos 3) ∷ [])
      floats-IsIrreflexive floats-IsTransitive

abbrev pairs : List (Value × Value)
pairs = (bool true, number 1) ∷ (bool false, number 3) ∷ []

latest_by-FirstBest_example :
    (best : Value × Value) × (normal_result (aggr_latest_by ⦃o = sample_ord⦄) (map pair_of pairs)
      ≡ ok best.0)
    × FirstBest (is_later ⦃o = sample_ord⦄) (null, null) pairs best
latest_by-FirstBest_example = latest_by-FirstBest ⦃o = sample_ord⦄ pairs

abbrev prices : List (Value × Num sample)
prices = (bool true, int (pos 4)) ∷ (bool false, int (pos 3)) ∷ []
