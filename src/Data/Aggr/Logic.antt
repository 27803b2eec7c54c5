-- ===== src/Data/Aggr/Logic.antt =====
-- `and` and `or` (retia-core/src/data/aggr.rs).
use retia.Prelude.{Bool, true, false, not, ◌&&◌, ◌||◌}
use retia.Prelude.Result.{Result, ok, err}
use retia.Data.Value.{Externals, DataValue, bool}
use retia.Data.Aggr.Base.{Error, wrong_type, NormalAggr, MeetAggr}

-- `old == *l`
abbrev same_bool : Bool → Bool → Bool
same_bool true b = b
same_bool false b = not b

module _ {X : Externals} where
  unfoldable pub and_set : Bool → DataValue X → Result Error Bool
  and_set accum (bool v) = ok (accum && v)
  and_set accum _ = err wrong_type

  abbrev pub aggr_and : NormalAggr X Bool
  aggr_and = record { start = true; set_value = and_set; get_value = λ accum. ok (bool accum) }

  unfoldable pub meet_and_update : DataValue X → DataValue X → Result Error (DataValue X × Bool)
  meet_and_update (bool l) (bool r) = ok (bool (l && r), same_bool l (l && r))
  meet_and_update _ _ = err wrong_type

  abbrev pub meet_aggr_and : MeetAggr X
  meet_aggr_and = record { init_val = bool true; update = meet_and_update }

  unfoldable pub or_set : Bool → DataValue X → Result Error Bool
  or_set accum (bool v) = ok (accum || v)
  or_set accum _ = err wrong_type

  abbrev pub aggr_or : NormalAggr X Bool
  aggr_or = record { start = false; set_value = or_set; get_value = λ accum. ok (bool accum) }

  unfoldable pub meet_or_update : DataValue X → DataValue X → Result Error (DataValue X × Bool)
  meet_or_update (bool l) (bool r) = ok (bool (l || r), same_bool l (l || r))
  meet_or_update _ _ = err wrong_type

  abbrev pub meet_aggr_or : MeetAggr X
  meet_aggr_or = record { init_val = bool false; update = meet_or_update }
