-- ===== src/Data/Aggr/Parse.antt =====
-- `parse_aggr`, `meet_init` and `normal_init` (retia-core/src/data/aggr.rs): from the name of an
-- aggregation to its objects.
use Prim.Native.String.{String}
use text.Mathlib.Text.{◌==◌ as str_eq}
use retia.Prelude.{ℕ, suc, Bool, true, false, Option, none, some, List, [], ◌∷◌, if◌then◌else◌}
use retia.Prelude.Order.{Ord}
use retia.Prelude.Result.{Result, ok, err, panic}
use retia.Data.Value.{Externals, DataValue, FloatOps, pos, get_int}
use retia.Data.Aggr.Base.{Error, bad_argument, NormalAggr, MeetAggr}
use retia.Data.Aggr.Logic.{aggr_and, aggr_or, meet_aggr_and, meet_aggr_or}
use retia.Data.Aggr.Count.{
  aggr_count, aggr_collect, aggr_choice, aggr_choice_rand, meet_aggr_choice,
}
use retia.Data.Aggr.Sets.{
  aggr_unique, aggr_group_count, aggr_count_unique, aggr_union, aggr_intersection, meet_aggr_union,
  meet_aggr_intersection,
}
use retia.Data.Aggr.Float.{aggr_variance, aggr_std_dev, aggr_mean, aggr_sum, aggr_product}
use retia.Data.Aggr.Extreme.{aggr_min, aggr_max, meet_aggr_min, meet_aggr_max}
use retia.Data.Aggr.Cost.{
  aggr_latest_by, aggr_smallest_by, aggr_min_cost, aggr_shortest, meet_aggr_min_cost,
  meet_aggr_shortest,
}
use retia.Data.Aggr.Bits.{
  aggr_bit_and, aggr_bit_or, aggr_bit_xor, meet_aggr_bit_and, meet_aggr_bit_or,
}

-- The constants `AGGR_AND` and so on; `define_aggr!` gives each its name and `is_meet`.
pub data AggrName : Type 0 where
  and_aggr or_aggr unique_aggr group_count_aggr union_aggr intersection_aggr : AggrName
  count_aggr count_unique_aggr variance_aggr std_dev_aggr sum_aggr product_aggr : AggrName
  min_aggr max_aggr mean_aggr choice_aggr collect_aggr shortest_aggr min_cost_aggr : AggrName
  bit_and_aggr bit_or_aggr bit_xor_aggr latest_by_aggr smallest_by_aggr choice_rand_aggr : AggrName

abbrev pub is_meet : AggrName → Bool
is_meet and_aggr = true
is_meet or_aggr = true
is_meet union_aggr = true
is_meet intersection_aggr = true
is_meet min_aggr = true
is_meet max_aggr = true
is_meet min_cost_aggr = true
is_meet shortest_aggr = true
is_meet choice_aggr = true
is_meet bit_and_aggr = true
is_meet bit_or_aggr = true
is_meet _ = false

-- The arms of the `match` in `parse_aggr`.
abbrev pub arms : List (String × AggrName)
arms =
    ("and", and_aggr)
    ∷ ("or", or_aggr)
    ∷ ("unique", unique_aggr)
    ∷ ("group_count", group_count_aggr)
    ∷ ("union", union_aggr)
    ∷ ("intersection", intersection_aggr)
    ∷ ("count", count_aggr)
    ∷ ("count_unique", count_unique_aggr)
    ∷ ("variance", variance_aggr)
    ∷ ("std_dev", std_dev_aggr)
    ∷ ("sum", sum_aggr)
    ∷ ("product", product_aggr)
    ∷ ("min", min_aggr)
    ∷ ("max", max_aggr)
    ∷ ("mean", mean_aggr)
    ∷ ("choice", choice_aggr)
    ∷ ("collect", collect_aggr)
    ∷ ("shortest", shortest_aggr)
    ∷ ("min_cost", min_cost_aggr)
    ∷ ("bit_and", bit_and_aggr)
    ∷ ("bit_or", bit_or_aggr)
    ∷ ("bit_xor", bit_xor_aggr)
    ∷ ("latest_by", latest_by_aggr)
    ∷ ("smallest_by", smallest_by_aggr)
    ∷ ("choice_rand", choice_rand_aggr)
    ∷ []

unfoldable pub first_arm : List (String × AggrName) → String → Option AggrName
first_arm [] name = none
first_arm ((arm, aggr) ∷ rest) name = if str_eq arm name then some aggr else first_arm rest name

unfoldable pub parse_aggr : String → Option AggrName
unfolding first_arm
parse_aggr name = first_arm arms name

-- `Box<dyn NormalAggrObj>`
pub record NormalObj (X : Externals) : Type 1 where
  pub State : Type 0
  pub aggr : NormalAggr X State

abbrev pub normal : {X : Externals} {S : Type 0} → NormalAggr X S → NormalObj X
normal {S = S} a = record { State = S; aggr = a }

module _ {X : Externals} (f : FloatOps X.F64) where
  -- The limit of `collect`: `args[0].get_int()`, which has to be positive.
  abbrev pub collect_limit : List (DataValue X) → Result Error (Option ℕ)
  collect_limit [] = ok none
  collect_limit (arg ∷ args) = elim (get_int f arg) [
    | none ↦ err bad_argument
    | some (pos (suc n)) ↦ ok (some (suc n))
    | some _ ↦ err bad_argument
  ]

module _ {X : Externals} (f : FloatOps X.F64) ⦃o : Ord (DataValue X)⦄ where
  -- `panic` is `unreachable!`.
  unfoldable pub meet_init : AggrName → Result Error (MeetAggr X)
  meet_init and_aggr = ok meet_aggr_and
  meet_init or_aggr = ok meet_aggr_or
  meet_init min_aggr = ok (meet_aggr_min f)
  meet_init max_aggr = ok (meet_aggr_max f)
  meet_init choice_aggr = ok meet_aggr_choice
  meet_init bit_and_aggr = ok meet_aggr_bit_and
  meet_init bit_or_aggr = ok meet_aggr_bit_or
  meet_init union_aggr = ok meet_aggr_union
  meet_init intersection_aggr = ok meet_aggr_intersection
  meet_init shortest_aggr = ok meet_aggr_shortest
  meet_init min_cost_aggr = ok (meet_aggr_min_cost f)
  meet_init _ = panic

  unfoldable pub normal_init :
      (ℕ → X.F64) → List (DataValue X) → AggrName → Result Error (NormalObj X)
  unfolding get_int
  normal_init draws args and_aggr = ok (normal aggr_and)
  normal_init draws args or_aggr = ok (normal aggr_or)
  normal_init draws args count_aggr = ok (normal aggr_count)
  normal_init draws args group_count_aggr = ok (normal aggr_group_count)
  normal_init draws args count_unique_aggr = ok (normal aggr_count_unique)
  normal_init draws args sum_aggr = ok (normal (aggr_sum f))
  normal_init draws args product_aggr = ok (normal (aggr_product f))
  normal_init draws args min_aggr = ok (normal (aggr_min f))
  normal_init draws args max_aggr = ok (normal (aggr_max f))
  normal_init draws args mean_aggr = ok (normal (aggr_mean f))
  normal_init draws args variance_aggr = ok (normal (aggr_variance f))
  normal_init draws args std_dev_aggr = ok (normal (aggr_std_dev f))
  normal_init draws args choice_aggr = ok (normal aggr_choice)
  normal_init draws args bit_and_aggr = ok (normal aggr_bit_and)
  normal_init draws args bit_or_aggr = ok (normal aggr_bit_or)
  normal_init draws args bit_xor_aggr = ok (normal aggr_bit_xor)
  normal_init draws args unique_aggr = ok (normal aggr_unique)
  normal_init draws args union_aggr = ok (normal aggr_union)
  normal_init draws args intersection_aggr = ok (normal aggr_intersection)
  normal_init draws args shortest_aggr = ok (normal aggr_shortest)
  normal_init draws args min_cost_aggr = ok (normal (aggr_min_cost f))
  normal_init draws args latest_by_aggr = ok (normal aggr_latest_by)
  normal_init draws args smallest_by_aggr = ok (normal aggr_smallest_by)
  normal_init draws args choice_rand_aggr = ok (normal (aggr_choice_rand f draws))
  normal_init draws args collect_aggr = elim (collect_limit f args) [
    | ok limit ↦ ok (normal (aggr_collect limit))
    | err e ↦ err e
    | panic ↦ panic
  ]
