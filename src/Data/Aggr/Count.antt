-- ===== src/Data/Aggr/Count.antt =====
-- `count`, `collect`, `choice` and `choice_rand` (retia-core/src/data/aggr.rs).
use retia.Prelude.{
  ℕ, zero, suc, ◌+◌, ◌%◌, ◌^◌, leb, ◌==◌, Bool, true, false, not, ◌&&◌, Option, none, some, List,
  [], ◌∷◌, ◌++◌, length, if◌then◌else◌,
}
use retia.Prelude.Result.{Result, ok}
use retia.Data.Value.{
  Externals, DataValue, null, num, int, list, of_list, is_null, FloatOps, ℤ, pos, negsuc,
}
use retia.Data.Aggr.Base.{Error, NormalAggr, MeetAggr}

-- `i += 1` on an i64, which wraps.
abbrev pub i64_succ : ℤ → ℤ
i64_succ (pos n) = if suc n == 2 ^ 63 then negsuc n else pos (suc n)
i64_succ (negsuc zero) = pos 0
i64_succ (negsuc (suc n)) = negsuc n

-- `AggrCollect`
pub record Collect (X : Externals) : Type 0 where
  pub limit : Option ℕ
  pub accum : List (DataValue X)

-- `AggrChoiceRand`; the count is a usize.
pub record ChoiceRand (X : Externals) : Type 0 where
  pub count : ℕ
  pub value : DataValue X

module _ {X : Externals} where
  unfoldable pub count_set : ℤ → DataValue X → Result Error ℤ
  count_set count v = ok (i64_succ count)

  abbrev pub aggr_count : NormalAggr X ℤ
  aggr_count = record {
    start = pos 0;
    set_value = count_set;
    get_value = λ count. ok (num (int count));
  }

  -- `accum.len() >= limit`, where there is a limit
  abbrev pub is_full : Collect X → Bool
  is_full s = elim s.limit [ none ↦ false | some limit ↦ leb limit (length s.accum) ]

  unfoldable pub collect_set : Collect X → DataValue X → Result Error (Collect X)
  collect_set s v = if is_full s then ok s else ok (record s { accum = s.accum ++ v ∷ [] })

  abbrev pub aggr_collect : Option ℕ → NormalAggr X (Collect X)
  aggr_collect limit = record {
    start = record { limit = limit; accum = [] };
    set_value = collect_set;
    get_value = λ s. ok (list (of_list s.accum));
  }

  unfoldable pub choice_set : DataValue X → DataValue X → Result Error (DataValue X)
  choice_set found v = if is_null found then ok v else ok found

  abbrev pub aggr_choice : NormalAggr X (DataValue X)
  aggr_choice = record { start = null; set_value = choice_set; get_value = λ found. ok found }

  unfoldable pub meet_choice_update : DataValue X → DataValue X → Result Error (DataValue X × Bool)
  meet_choice_update l r = if is_null l && not (is_null r) then ok (r, true) else ok (l, false)

  abbrev pub meet_aggr_choice : MeetAggr X
  meet_aggr_choice = record { init_val = null; update = meet_choice_update }

-- `draw` is what the random generator returns for the call, a float of the unit interval.
module _ {X : Externals} (f : FloatOps X.F64) where
  unfoldable pub choice_rand_set : X.F64 → ChoiceRand X → DataValue X → Result Error (ChoiceRand X)
  choice_rand_set draw s v =
      let count = (s.count + 1) % 2 ^ 64 in
      let prob = f.div (f.of_int (pos 1)) (f.of_int (pos count)) in
      if f.lt_float draw prob
      then ok (record { count = count; value = v })
      else ok (record { count = count; value = s.value })

  -- `draws` has the number that is drawn when so many values have been set.
  abbrev pub aggr_choice_rand : (ℕ → X.F64) → NormalAggr X (ChoiceRand X)
  aggr_choice_rand draws = record {
    start = record { count = 0; value = null };
    set_value = λ s. choice_rand_set (draws s.count) s;
    get_value = λ s. ok s.value;
  }
