-- ===== src/Data/Aggr/Base.antt =====
-- What the aggregations share (retia-core/src/data/aggr.rs): errors and the traits `NormalAggrObj` and `MeetAggrObj`.
use retia.Prelude.{Bool}
use retia.Prelude.Result.{Result}
use retia.Data.Value.{Externals, DataValue}

-- The messages of `bail!`, `ensure!` and `miette!`, by their kind.
pub data Error : Type 0 where
  wrong_type wrong_length non_numerical bad_argument : Error

-- An object of the trait `NormalAggrObj` in the state that a new one has. `set` returns the new state.
pub record NormalAggr (X : Externals) (S : Type 0) : Type 0 where
  pub start : S
  pub set_value : S → DataValue X → Result Error S
  pub get_value : S → Result Error (DataValue X)

-- An object of the trait `MeetAggrObj`; `update` returns the new left value and the flag.
pub record MeetAggr (X : Externals) : Type 0 where
  pub init_val : DataValue X
  pub update : DataValue X → DataValue X → Result Error (DataValue X × Bool)
