-- ===== src/Data/Aggr/Agree.antt =====
-- The two objects of one aggregation (retia-core/src/data/aggr.rs) give one result.
use retia.Prelude.{◌≡◌, refl, Bool, true, false, List, [], ◌∷◌, All, arith}
use retia.Prelude.Result.{ok, ◌>>=◌}
use retia.Data.Value.{Externals, DataValue, bool, null, FloatOps}
use retia.Data.Aggr.Logic.{
  and_set, or_set, meet_and_update, meet_or_update, aggr_and, aggr_or, meet_aggr_and, meet_aggr_or,
}
use retia.Data.Aggr.Count.{choice_set, meet_choice_update, aggr_choice, meet_aggr_choice}
use retia.Data.Aggr.Extreme.{
  min_set, max_set, meet_min_update, meet_max_update, aggr_min, aggr_max, meet_aggr_min,
  meet_aggr_max,
}
use retia.Data.Aggr.Run.{Simulates, results_agree, meet_result, normal_result}

module _ {X : Externals} where
  abbrev pub IsBool : DataValue X → Type 0
  IsBool (bool b) = Unit
  IsBool _ = ⊥

  -- Any value will do.
  abbrev Anything : DataValue X → Type 0
  Anything v = Unit

  and_steps :
      (s : Bool) (v : DataValue X)
      → (meet_and_update (bool s) v >>= λ r. ok r.0) ≡ (and_set s v >>= λ s'. ok (bool s'))
  unfolding meet_and_update and_set
  and_steps s (bool v) = refl
  and_steps s v = refl

  or_steps :
      (s : Bool) (v : DataValue X)
      → (meet_or_update (bool s) v >>= λ r. ok r.0) ≡ (or_set s v >>= λ s'. ok (bool s'))
  unfolding meet_or_update or_set
  or_steps s (bool v) = refl
  or_steps s v = refl

  and_first : (v : DataValue X) → IsBool v → (s : Bool) × (and_set true v ≡ ok s) × (bool s ≡ v)
  unfolding and_set
  and_first (bool v) g = (v, refl, refl)
  and_first v g = absurd g

  or_first : (v : DataValue X) → IsBool v → (s : Bool) × (or_set false v ≡ ok s) × (bool s ≡ v)
  unfolding or_set
  or_first (bool v) g = (v, refl, refl)
  or_first v g = absurd g

  and_simulates : Simulates (meet_aggr_and {X = X}) aggr_and bool IsBool
  and_simulates = record { starts = refl; reads = λ s. refl; steps = and_steps; first = and_first }

  or_simulates : Simulates (meet_aggr_or {X = X}) aggr_or bool IsBool
  or_simulates = record { starts = refl; reads = λ s. refl; steps = or_steps; first = or_first }

  -- Over booleans, none included, the meets of `and` and `or` give the results of the normal
  -- aggregations.
  pub and_or_agree :
      (vs : List (DataValue X))
      → All IsBool vs
      → (meet_result meet_aggr_and vs ≡ normal_result aggr_and vs)
        × (meet_result meet_aggr_or vs ≡ normal_result aggr_or vs)
  and_or_agree vs g = (
    results_agree meet_aggr_and aggr_and bool IsBool and_simulates vs g,
    results_agree meet_aggr_or aggr_or bool IsBool or_simulates vs g,
  )

  choice_steps :
      (s v : DataValue X)
      → (meet_choice_update s v >>= λ r. ok r.0) ≡ (choice_set s v >>= λ s'. ok s')
  unfolding meet_choice_update choice_set
  choice_steps s v = ground arith

  choice_simulates : Simulates (meet_aggr_choice {X = X}) aggr_choice (λ s. s) Anything
  unfolding choice_set
  choice_simulates = record {
    starts = refl;
    reads = λ s. refl;
    steps = choice_steps;
    first = λ v g. (v, refl, refl);
  }

module _ {X : Externals} (f : FloatOps X.F64) where
  min_steps :
      (s v : DataValue X)
      → (meet_min_update f s v >>= λ r. ok r.0) ≡ (min_set f s v >>= λ s'. ok s')
  unfolding meet_min_update min_set
  min_steps s v = ground arith

  max_steps :
      (s v : DataValue X)
      → (meet_max_update f s v >>= λ r. ok r.0) ≡ (max_set f s v >>= λ s'. ok s')
  unfolding meet_max_update max_set
  max_steps s v = ground arith

  min_first :
      (v : DataValue X) → Anything v → (s : DataValue X) × (min_set f null v ≡ ok s) × (s ≡ v)
  unfolding min_set
  min_first v g = (v, ground arith, refl)

  max_first :
      (v : DataValue X) → Anything v → (s : DataValue X) × (max_set f null v ≡ ok s) × (s ≡ v)
  unfolding max_set
  max_first v g = (v, ground arith, refl)

  min_simulates : Simulates (meet_aggr_min {X = X} f) (aggr_min f) (λ s. s) Anything
  min_simulates = record { starts = refl; reads = λ s. refl; steps = min_steps; first = min_first }

  max_simulates : Simulates (meet_aggr_max {X = X} f) (aggr_max f) (λ s. s) Anything
  max_simulates = record { starts = refl; reads = λ s. refl; steps = max_steps; first = max_first }

  All-Anything : (vs : List (DataValue X)) → All Anything vs
  All-Anything [] = tt
  All-Anything (v ∷ vs) = (tt, All-Anything vs)

  -- Over any values, none included, the meets of `min`, `max` and `choice` give the results of the
  -- normal aggregations, errors too.
  pub min_max_choice_agree :
      (vs : List (DataValue X))
      → (meet_result (meet_aggr_min f) vs ≡ normal_result (aggr_min f) vs)
        × (meet_result (meet_aggr_max f) vs ≡ normal_result (aggr_max f) vs)
        × (meet_result meet_aggr_choice vs ≡ normal_result aggr_choice vs)
  min_max_choice_agree vs =
      let any = All-Anything vs in
      (
        results_agree (meet_aggr_min f) (aggr_min f) (λ s. s) Anything min_simulates vs any,
        results_agree (meet_aggr_max f) (aggr_max f) (λ s. s) Anything max_simulates vs any,
        results_agree meet_aggr_choice aggr_choice (λ s. s) Anything choice_simulates vs any,
      )
