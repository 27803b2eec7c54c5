-- ===== src/Data/Aggr/FlagTests.antt =====
-- The flags of the meets on small values.
use retia.Prelude.{ℕ, ◌≡◌, ◌↔◌, refl, Bool, true, false, not, arith}
use retia.Prelude.Order.{nat_ord}
use retia.Prelude.Result.{ok}
use retia.Data.Value.{pos, DataValue, num, int, bool, list, null, cons, nil, num_get_float}
use retia.Data.Value.Sample.{sample, floats}
use retia.Data.Aggr.Logic.{meet_and_update, meet_or_update}
use retia.Data.Aggr.Count.{meet_choice_update}
use retia.Data.Aggr.Extreme.{meet_min_update, meet_max_update}
use retia.Data.Aggr.Cost.{meet_shortest_update, meet_min_cost_update}
use retia.Data.Aggr.Flags.{
  Picks, IsIrreflexive, and_or_flags_inverted, meet_self, meet_update-Picks,
}

abbrev Value : Type 0
Value = DataValue sample

abbrev number : ℕ → Value
number n = num (int (pos n))

pub floats-IsIrreflexive : IsIrreflexive floats
floats-IsIrreflexive x = ground arith

and_or_flags_inverted_example :
    (flag_and flag_or : Bool) × (meet_and_update {X = sample} (bool true) (bool false)
      ≡ ok (bool false, flag_and))
    × (meet_or_update {X = sample} (bool true) (bool false) ≡ ok (bool true, flag_or))
    × ((flag_and ≡ true) ↔ (false ≡ true))
    × ((flag_or ≡ true) ↔ (true ≡ true))
and_or_flags_inverted_example = and_or_flags_inverted {X = sample} true false

choice_runs : meet_choice_update {X = sample} null (number 3) ≡ ok (number 3, true)
unfolding meet_choice_update
choice_runs = refl

abbrev short : Value
short = list (cons (number 1) nil)

abbrev long : Value
long = list (cons (number 1) (cons (number 2) nil))

shortest_runs : meet_shortest_update {X = sample} long short ≡ ok (short, true)
unfolding meet_shortest_update
shortest_runs = refl

min_runs : meet_min_update {X = sample} floats (number 3) (number 1) ≡ ok (number 1, true)
unfolding meet_min_update
min_runs = refl

max_runs : meet_max_update {X = sample} floats (number 3) (number 1) ≡ ok (number 3, false)
unfolding meet_max_update
max_runs = refl

abbrev a_pair : Value
a_pair = list (cons (bool true) (cons (number 5) nil))

meet_self_example :
    (meet_min_update {X = sample} floats (number 5) (number 5) ≡ ok (number 5, false))
    × (meet_max_update {X = sample} floats (number 5) (number 5) ≡ ok (number 5, false))
    × (meet_choice_update {X = sample} (bool true) (bool true) ≡ ok (bool true, false))
    × (meet_shortest_update {X = sample} short short ≡ ok (short, false))
    × (meet_min_cost_update {X = sample} floats a_pair a_pair
        ≡ ok (
          a_pair,
          not (floats.le_float (num_get_float {X = sample} floats (int (pos 5))) (pos 5)),
        ))
meet_self_example =
    meet_self {X = sample} floats floats-IsIrreflexive (bool true) (int (pos 5))
      (cons (number 1) nil)

meet_update-Picks_example :
    Picks {X = sample} (number 3) (number 1) (meet_choice_update (number 3) (number 1))
    × Picks (number 3) (number 1) (meet_shortest_update (number 3) (number 1))
    × Picks (number 3) (number 1) (meet_min_update floats (number 3) (number 1))
    × Picks (number 3) (number 1) (meet_max_update floats (number 3) (number 1))
    × Picks (number 3) (number 1) (meet_min_cost_update floats (number 3) (number 1))
meet_update-Picks_example = meet_update-Picks {X = sample} floats (number 3) (number 1)
