-- ===== src/Query/Eval/Tests.antt =====
-- The evaluation of rules at small programs.
use retia.Prelude.{
  ℕ, ◌==◌, ◌≡◌, refl, true, false, none, some, List, [], ◌∷◌, map, replicate, arith,
}
use retia.Prelude.Order.{list_ord, nat_ord, cmp_list}
use retia.Prelude.OrderInstances.{ord_along}
use retia.Data.Value.Order.{cmp_value}
use retia.Data.Value.Order.Lawful.{value_ord}
use retia.Prelude.Result.{ok}
use retia.Data.Value.{pos}
use retia.Data.Value.Sample.{sample, sample_ord, floats}
use retia.BTreeMap
use retia.BTreeMap.{BTreeMap}
use retia.Runtime.TempStore.Regular
use retia.Runtime.TempStore.Regular.{Tuple}
use retia.Runtime.TempStore.Epoch
use retia.Runtime.TempStore.Advance.{epoch}
use retia.Query.Eval.Rules.{Stores, Engine, CompiledRuleSet, rules, one}
use retia.Query.Eval.Epochs.{semi_naive_magic_evaluate}
use retia.Query.Eval.View.{IsFixpoint}
use retia.Query.Eval.Fixpoint.{semi_naive_magic_evaluate-IsFixpoint}
use retia.Query.Eval.Recounts.{incremental_items-recounts}
use retia.Query.Eval.SampleStrata.{two_strata, lifetimes, two_strata-IsLayered}
use retia.Runtime.TempStore.Epoch.{EpochStore}
use retia.Query.Eval.Strata.{stratified_magic_evaluate}
use retia.Query.Eval.Layers.{Evaluated}
use retia.Query.Eval.Stratified.{stratified_magic_evaluate-Evaluated}
use retia.Query.Eval.Sample.{
  no, yes, engine, program, start, program_rows, start-Starts, program-IsPlain, in_two,
}
use retia.Query.Eval.Plain.{Run, initial_items, incremental_items}
use retia.Query.Eval.Distinct.{distinct}
use retia.Query.Eval.Later.{new_items, takes, incremental_items-takes}
use retia.Query.Eval.Limits.{limiter_at, Limits, initial_items-Limits}

abbrev items : List (Tuple sample)
items = yes ∷ yes ∷ no ∷ yes ∷ []

initial_items-Limits_example :
    (run : Run sample) × (initial_items ⦃o = sample_ord⦄ true
        (map ok items)
        (limiter_at 2 (some 1) 0)
        []
      ≡ ok run)
    × Limits ⦃o = sample_ord⦄ 2 (some 1) (distinct ⦃o = sample_ord⦄ items) run
initial_items-Limits_example = initial_items-Limits ⦃o = sample_ord⦄ 2 (some 1) items

-- One tuple has been counted and the limit is 3: of three new items, one tuple twice, two are taken.
incremental_items-takes_example :
    incremental_items ⦃o = sample_ord⦄ true
      (epoch ((yes, false) ∷ []) [] true 1)
      (map ok (no ∷ yes ∷ no ∷ no ∷ []))
      (limiter_at 3 none 1)
      []
    ≡ ok (
        takes ⦃o = sample_ord⦄ 3 none 1 2
          (new_items ⦃o = sample_ord⦄ ((yes, false) ∷ []) (no ∷ yes ∷ no ∷ no ∷ []))
          [])
incremental_items-takes_example =
    incremental_items-takes ⦃o = sample_ord⦄ (epoch ((yes, false) ∷ []) [] true 1)
      ((yes, false) ∷ []) refl 3 none 1 (no ∷ yes ∷ no ∷ no ∷ []) []

incremental_items-recounts_example :
    incremental_items ⦃o = sample_ord⦄ true
      (epoch [] [] true 1)
      (map ok (replicate 2 no))
      (limiter_at 2 none 0)
      []
    ≡ ok (record { limiter = limiter_at 2 none 2; out = (no, false) ∷ []; stopped = true })
unfolding Epoch.exists_in Regular.exists BTreeMap.get
incremental_items-recounts_example =
    incremental_items-recounts ⦃o = sample_ord⦄ 1 (epoch [] [] true 1) no refl

semi_naive_magic_evaluate-IsFixpoint_example :
    (fin : Stores sample ℕ) × (semi_naive_magic_evaluate floats ⦃o = sample_ord⦄
        (λ n. pos n)
        {e = engine ⦃o = sample_ord⦄}
        3
        (program ⦃o = sample_ord⦄)
        (start ⦃o = sample_ord⦄)
        none
        none
      ≡ some (ok (fin, false)))
    × IsFixpoint ⦃o = sample_ord⦄
        (program_rows ⦃o = sample_ord⦄)
        (program ⦃o = sample_ord⦄)
        (start ⦃o = sample_ord⦄)
        fin
semi_naive_magic_evaluate-IsFixpoint_example =
    semi_naive_magic_evaluate-IsFixpoint ⦃o = sample_ord⦄ (program ⦃o = sample_ord⦄)
      (start ⦃o = sample_ord⦄) (start-Starts ⦃o = sample_ord⦄) (program_rows ⦃o = sample_ord⦄)
      floats (λ n. pos n) (program-IsPlain ⦃o = sample_ord⦄) (no ∷ yes ∷ [])
      (in_two ⦃o = sample_ord⦄ (start ⦃o = sample_ord⦄)) none 3 (omega arith)

stratified_magic_evaluate-Evaluated_example :
    (fin : Stores sample ℕ) × (ret_area : EpochStore sample) × (stratified_magic_evaluate floats
        ⦃o = sample_ord⦄
        (λ n. pos n)
        {e = engine ⦃o = sample_ord⦄}
        3
        1
        (two_strata ⦃o = sample_ord⦄)
        lifetimes
        none
        none
      ≡ some (ok (ret_area, false)))
    × (BTreeMap.get 1 fin ≡ some ret_area)
    × Evaluated ⦃o = sample_ord⦄
        (program_rows ⦃o = sample_ord⦄)
        (no ∷ yes ∷ [])
        lifetimes
        0
        (two_strata ⦃o = sample_ord⦄)
        []
        fin
stratified_magic_evaluate-Evaluated_example =
    stratified_magic_evaluate-Evaluated ⦃o = sample_ord⦄ (program_rows ⦃o = sample_ord⦄) floats
      (λ n. pos n) (no ∷ yes ∷ []) lifetimes 3 1 none (two_strata ⦃o = sample_ord⦄)
      (two_strata-IsLayered ⦃o = sample_ord⦄)

-- The name 0 as the entry of a query.
abbrev entry_engine : Engine sample ℕ
entry_engine = record (engine ⦃o = sample_ord⦄) { is_prog_entry = λ k. k == 0 }

abbrev entry_program : BTreeMap ℕ (CompiledRuleSet entry_engine)
entry_program =
    (
      0,
      rules (
          record { aggr = none ∷ []; relation = false; contained_rules = [] }
          ∷ record { aggr = none ∷ []; relation = true; contained_rules = (0, one) ∷ [] }
          ∷ []),
    )
    ∷ []

-- A limit of one tuple, and two tuples at the end.
limit_one_gives_two :
    semi_naive_magic_evaluate floats ⦃o = sample_ord⦄
      (λ n. pos n)
      {e = entry_engine}
      9
      entry_program
      (start ⦃o = sample_ord⦄)
      (some 1)
      none
    ≡ some (ok ((0, epoch ((no, false) ∷ (yes, false) ∷ []) [] false 1) ∷ [], true))
unfolding semi_naive_magic_evaluate BTreeMap.get BTreeMap.insert nat_ord Epoch.new_normal
    Regular.merge_in list_ord cmp_list value_ord ord_along cmp_value
limit_one_gives_two = refl
