-- ===== src/Data/Aggr/Extreme.antt =====
-- `min` and `max` (retia-core/src/data/aggr.rs).
use retia.Prelude.{Bool, true, false, none, some, if◌then◌else◌}
use retia.Prelude.Result.{Result, ok, err}
use retia.Data.Value.{Externals, DataValue, null, is_null, get_float, FloatOps}
use retia.Data.Aggr.Base.{Error, non_numerical, NormalAggr, MeetAggr}

module _ {X : Externals} (f : FloatOps X.F64) where
  -- The two costs, or the error of the first that is no number; `use_costs` goes on with them.
  abbrev pub with_floats {ℓ} :
      {A : Type ℓ} → DataValue X → DataValue X → (X.F64 → X.F64 → A) → Result Error A
  with_floats a b use_costs = elim (get_float f a) [
    | none ↦ err non_numerical
    | some x ↦ elim (get_float f b) [ none ↦ err non_numerical | some y ↦ ok (use_costs x y) ]
  ]

  unfoldable pub min_set : DataValue X → DataValue X → Result Error (DataValue X)
  min_set found v =
      if is_null v
      then ok found
      else if is_null found
      then ok v
      else with_floats found v (λ f1 f2. if f.lt_float f2 f1 then v else found)

  abbrev pub aggr_min : NormalAggr X (DataValue X)
  aggr_min = record { start = null; set_value = min_set; get_value = λ found. ok found }

  unfoldable pub meet_min_update : DataValue X → DataValue X → Result Error (DataValue X × Bool)
  meet_min_update l r =
      if is_null r
      then ok (l, false)
      else if is_null l
      then ok (r, true)
      else with_floats l r (λ f1 f2. if f.lt_float f2 f1 then (r, true) else (l, false))

  abbrev pub meet_aggr_min : MeetAggr X
  meet_aggr_min = record { init_val = null; update = meet_min_update }

  unfoldable pub max_set : DataValue X → DataValue X → Result Error (DataValue X)
  max_set found v =
      if is_null v
      then ok found
      else if is_null found
      then ok v
      else with_floats found v (λ f1 f2. if f.lt_float f1 f2 then v else found)

  abbrev pub aggr_max : NormalAggr X (DataValue X)
  aggr_max = record { start = null; set_value = max_set; get_value = λ found. ok found }

  unfoldable pub meet_max_update : DataValue X → DataValue X → Result Error (DataValue X × Bool)
  meet_max_update l r =
      if is_null r
      then ok (l, false)
      else if is_null l
      then ok (r, true)
      else with_floats l r (λ f1 f2. if f.lt_float f1 f2 then (r, true) else (l, false))

  abbrev pub meet_aggr_max : MeetAggr X
  meet_aggr_max = record { init_val = null; update = meet_max_update }
