-- ===== src/Data/Aggr/Cost.antt =====
-- `latest_by`, `smallest_by`, `min_cost` and `shortest` (retia-core/src/data/aggr.rs).
use retia.Prelude.{
  ltb, Bool, true, false, not, ◌&&◌, ◌||◌, Option, none, some, length, if◌then◌else◌,
}
use retia.Prelude.Order.{Ord, lt?}
use retia.Prelude.Result.{Result, ok, err}
use retia.Data.Value.{
  Externals, DataValue, null, num, float, list, Values, nil, cons, to_list, is_null, get_float,
  FloatOps,
}
use retia.Data.Aggr.Base.{Error, wrong_type, wrong_length, non_numerical, NormalAggr, MeetAggr}

-- The fields of `AggrLatestBy` and of `AggrSmallestBy`.
pub record Best (X : Externals) : Type 0 where
  pub found : DataValue X
  pub cost : DataValue X

module _ {X : Externals} ⦃o : Ord (DataValue X)⦄ where
  unfoldable pub latest_by_set : Best X → DataValue X → Result Error (Best X)
  latest_by_set s (list (cons v (cons c nil))) =
      if lt? s.cost c then ok (record { found = v; cost = c }) else ok s
  latest_by_set s (list _) = err wrong_length
  latest_by_set s _ = err wrong_type

  abbrev pub aggr_latest_by : NormalAggr X (Best X)
  aggr_latest_by = record {
    start = record { found = null; cost = null };
    set_value = latest_by_set;
    get_value = λ s. ok s.found;
  }

  unfoldable pub smallest_by_set : Best X → DataValue X → Result Error (Best X)
  smallest_by_set s (list (cons v (cons c nil))) =
      if is_null s.cost || lt? c s.cost then ok (record { found = v; cost = c }) else ok s
  smallest_by_set s (list _) = err wrong_length
  smallest_by_set s _ = err wrong_type

  abbrev pub aggr_smallest_by : NormalAggr X (Best X)
  aggr_smallest_by = record {
    start = record { found = null; cost = null };
    set_value = smallest_by_set;
    get_value = λ s. ok s.found;
  }

-- `AggrMinCost`
pub record MinCost (X : Externals) : Type 0 where
  pub found : DataValue X
  pub cost : X.F64

module _ {X : Externals} (f : FloatOps X.F64) where
  unfoldable pub min_cost_set : MinCost X → DataValue X → Result Error (MinCost X)
  min_cost_set s (list (cons v (cons c nil))) = elim (get_float f c) [
    | none ↦ err non_numerical
    | some cost ↦ if f.lt_float cost s.cost then ok (record { found = v; cost = cost }) else ok s
  ]
  min_cost_set s (list _) = err wrong_length
  min_cost_set s _ = err wrong_type

  abbrev pub aggr_min_cost : NormalAggr X (MinCost X)
  aggr_min_cost = record {
    start = record { found = null; cost = f.infinity };
    set_value = min_cost_set;
    get_value = λ s. ok (list (cons s.found (cons (num (float s.cost)) nil)));
  }

  -- The second items of two lists of two.
  abbrev pub costs_of : Values X → Values X → Option (DataValue X × DataValue X)
  costs_of (cons a (cons prev nil)) (cons b (cons cur nil)) = some (prev, cur)
  costs_of _ _ = none

  abbrev pub compare_costs :
      DataValue X → DataValue X → (Bool → DataValue X × Bool) → Result Error (DataValue X × Bool)
  compare_costs prev cur act = elim (get_float f cur) [
    | none ↦ err non_numerical
    | some cur_cost ↦ elim (get_float f prev) [
      | none ↦ err non_numerical
      | some prev_cost ↦ ok (act (f.le_float prev_cost cur_cost))
    ]
  ]

  unfoldable pub meet_min_cost_update :
      DataValue X → DataValue X → Result Error (DataValue X × Bool)
  meet_min_cost_update (list prev) (list l) = elim (costs_of prev l) [
    | none ↦ err wrong_length
    | some (prev_cost, cur_cost) ↦
        compare_costs prev_cost cur_cost
          (λ keep. if keep then (list prev, false) else (list l, true))
  ]
  meet_min_cost_update _ _ = err wrong_type

  abbrev pub meet_aggr_min_cost : MeetAggr X
  meet_aggr_min_cost = record {
    init_val = list (cons null (cons (num (float f.infinity)) nil));
    update = meet_min_cost_update;
  }

module _ {X : Externals} where
  -- `l.len() < found.len()`
  abbrev pub shorter : Values X → Values X → Bool
  shorter l found = ltb (length (to_list l)) (length (to_list found))

  unfoldable pub shortest_set : Option (Values X) → DataValue X → Result Error (Option (Values X))
  shortest_set none (list l) = ok (some l)
  shortest_set (some found) (list l) = if shorter l found then ok (some l) else ok (some found)
  shortest_set found _ = err wrong_type

  unfoldable pub shortest_get : Option (Values X) → Result Error (DataValue X)
  shortest_get none = ok null
  shortest_get (some l) = ok (list l)

  abbrev pub aggr_shortest : NormalAggr X (Option (Values X))
  aggr_shortest = record { start = none; set_value = shortest_set; get_value = shortest_get }

  abbrev pub shortest_match : DataValue X → DataValue X → Result Error (DataValue X × Bool)
  shortest_match (list l) (list r) = if shorter r l then ok (list r, true) else ok (list l, false)
  shortest_match _ _ = err wrong_type

  unfoldable pub meet_shortest_update :
      DataValue X → DataValue X → Result Error (DataValue X × Bool)
  meet_shortest_update l r =
      if is_null l && not (is_null r)
      then ok (r, true)
      else if is_null r
      then ok (l, false)
      else shortest_match l r

  abbrev pub meet_aggr_shortest : MeetAggr X
  meet_aggr_shortest = record { init_val = null; update = meet_shortest_update }
