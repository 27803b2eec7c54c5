-- ===== src/Data/Aggr/Sets.antt =====
-- `unique`, `group_count`, `count_unique`, `union` and `intersection` (retia-core/src/data/aggr.rs).
use retia.Prelude.{
  ◌==◌, Bool, true, false, not, ◌&&◌, Option, none, some, [], ◌∷◌, map, length, if◌then◌else◌,
}
use retia.Prelude.Order.{Ord}
use retia.Prelude.Result.{Result, ok, err}
use retia.BTreeMap
use retia.BTreeMap.{BTreeMap}
use retia.BTreeSet
use retia.BTreeSet.{BTreeSet}
use retia.Data.Value.{
  Externals, DataValue, null, num, int, list, set, Values, nil, of_list, to_list, is_null, ℤ, pos,
}
use retia.Data.Aggr.Base.{Error, wrong_type, NormalAggr, MeetAggr}
use retia.Data.Aggr.Count.{i64_succ}

-- `AggrCountUnique`
pub record CountUnique (X : Externals) : Type 0 where
  pub count : ℤ
  pub accum : BTreeSet (DataValue X)

module _ {X : Externals} ⦃o : Ord (DataValue X)⦄ where
  unfoldable pub unique_set :
      BTreeSet (DataValue X) → DataValue X → Result Error (BTreeSet (DataValue X))
  unique_set accum v = ok (BTreeSet.insert v accum)

  abbrev pub aggr_unique : NormalAggr X (BTreeSet (DataValue X))
  aggr_unique = record {
    start = [];
    set_value = unique_set;
    get_value = λ accum. ok (list (of_list accum));
  }

  -- `entry(value).or_default()`, plus one
  unfoldable pub group_count_set :
      BTreeMap (DataValue X) ℤ → DataValue X → Result Error (BTreeMap (DataValue X) ℤ)
  group_count_set accum v =
      let old : ℤ = elim (BTreeMap.get v accum) [ none ↦ pos 0 | some n ↦ n ] in
      ok (BTreeMap.insert v (i64_succ old) accum)

  unfoldable pub group_count_get : BTreeMap (DataValue X) ℤ → Result Error (DataValue X)
  group_count_get accum =
      ok (list (of_list (map (λ e. list (of_list (e.0 ∷ num (int e.1) ∷ []))) accum)))

  abbrev pub aggr_group_count : NormalAggr X (BTreeMap (DataValue X) ℤ)
  aggr_group_count = record { start = []; set_value = group_count_set; get_value = group_count_get }

  unfoldable pub count_unique_set : CountUnique X → DataValue X → Result Error (CountUnique X)
  count_unique_set s v =
      if BTreeSet.contains v s.accum
      then ok s
      else ok (record { count = i64_succ s.count; accum = BTreeSet.insert v s.accum })

  abbrev pub aggr_count_unique : NormalAggr X (CountUnique X)
  aggr_count_unique = record {
    start = record { count = pos 0; accum = [] };
    set_value = count_unique_set;
    get_value = λ s. ok (num (int s.count));
  }

  unfoldable pub union_set :
      BTreeSet (DataValue X) → DataValue X → Result Error (BTreeSet (DataValue X))
  union_set accum (list vs) = ok (BTreeSet.extend accum (to_list vs))
  union_set accum _ = err wrong_type

  abbrev pub aggr_union : NormalAggr X (BTreeSet (DataValue X))
  aggr_union = record {
    start = [];
    set_value = union_set;
    get_value = λ accum. ok (list (of_list accum));
  }

  -- The left list of the first round becomes a set; other values are what they are.
  abbrev pub list_to_set : DataValue X → DataValue X
  list_to_set (list vs) = set (of_list (BTreeSet.collect (to_list vs)))
  list_to_set v = v

  abbrev pub union_into : Values X → Values X → Result Error (DataValue X × Bool)
  union_into l s =
      let (l', inserted) = BTreeSet.insert_all (to_list l) false (to_list s) in
      ok (set (of_list l'), inserted)

  abbrev pub union_match : DataValue X → DataValue X → Result Error (DataValue X × Bool)
  union_match (set l) (set s) = union_into l s
  union_match (set l) (list s) = union_into l s
  union_match _ _ = err wrong_type

  unfoldable pub meet_union_update : DataValue X → DataValue X → Result Error (DataValue X × Bool)
  meet_union_update l r = union_match (list_to_set l) r

  abbrev pub meet_aggr_union : MeetAggr X
  meet_aggr_union = record { init_val = set nil; update = meet_union_update }

  unfoldable pub intersection_set :
      Option (BTreeSet (DataValue X)) → DataValue X → Result Error (Option (BTreeSet (DataValue X)))
  intersection_set none (list vs) = ok (some (BTreeSet.collect (to_list vs)))
  intersection_set (some accum) (list vs) =
      ok (some (BTreeSet.intersection accum (BTreeSet.collect (to_list vs))))
  intersection_set accum _ = err wrong_type

  unfoldable pub intersection_get : Option (BTreeSet (DataValue X)) → Result Error (DataValue X)
  intersection_get none = ok (list nil)
  intersection_get (some l) = ok (list (of_list l))

  abbrev pub aggr_intersection : NormalAggr X (Option (BTreeSet (DataValue X)))
  aggr_intersection = record {
    start = none;
    set_value = intersection_set;
    get_value = intersection_get;
  }

  -- `if old_len == new_set.len() { false } else { *l = new_set; true }`
  abbrev pub intersect_into : Values X → BTreeSet (DataValue X) → Result Error (DataValue X × Bool)
  intersect_into l s =
      let new_set = BTreeSet.intersection (to_list l) s in
      if length (to_list l) == length new_set
      then ok (set l, false)
      else ok (set (of_list new_set), true)

  abbrev pub intersection_match : DataValue X → DataValue X → Result Error (DataValue X × Bool)
  intersection_match (set l) (set s) = intersect_into l (to_list s)
  intersection_match (set l) (list s) = intersect_into l (BTreeSet.collect (to_list s))
  intersection_match _ _ = err wrong_type

  unfoldable pub meet_intersection_update :
      DataValue X → DataValue X → Result Error (DataValue X × Bool)
  meet_intersection_update l r =
      if is_null l && not (is_null r)
      then ok (r, true)
      else if is_null r
      then ok (l, false)
      else intersection_match (list_to_set l) r

  abbrev pub meet_aggr_intersection : MeetAggr X
  meet_aggr_intersection = record { init_val = null; update = meet_intersection_update }
