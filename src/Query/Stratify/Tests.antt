-- ===== src/Query/Stratify/Tests.antt =====
-- Runs of `into_stratified_program` (retia-core/src/query/stratify.rs) on small programs.
use retia.Prelude.{ℕ, ◌≡◌, refl, arith, false, none, some, List, [], ◌∷◌, ◌⊎◌, ◌↔◌}
use retia.Prelude.Order.{nat_ord}
use retia.Prelude.Result.{ok, err}
use retia.BTreeMap
use retia.BTreeMap.{BTreeMap, IsSorted}
use retia.BTreeSet
use retia.Data.Aggr.Parse.{count_aggr}
use retia.Query.Program.{
  Parts, NormalFormAtom, rule, negated_rule, NormalFormInlineRule, NormalFormRulesOrFixed, rules,
  NormalFormProgram,
}
use retia.Query.Graph.{reachable_components}
use retia.Query.Kahn.{generalized_kahn}
use retia.Query.Scc.{strongly_connected_components}
use retia.Query.Stratify.Reduce.{unstratifiable}
use retia.Query.Stratify.Place.{into_stratified_program}
use retia.Query.Stratify.Convert.{convert_normal_form_program_to_graph}
use retia.Query.Stratify.Cycles.{PoisonedCycle, into_stratified_program-PoisonedCycle}
use retia.Query.Stratify.Correct.{IsStratified, into_stratified_program-IsStratified}

abbrev numbers : Parts
numbers = record {
  RelationApply = ℕ;
  Expr = ℕ;
  Unification = ℕ;
  HnswSearch = ℕ;
  FtsSearch = ℕ;
  LshSearch = ℕ;
  Value = ℕ;
  StoredArgs = ℕ;
  FixedImpl = ℕ;
}

abbrev plain : List (NormalFormAtom numbers ℕ) → NormalFormInlineRule numbers ℕ
plain atoms = record { head = []; aggr = none ∷ []; body = atoms }

abbrev counted : List (NormalFormAtom numbers ℕ) → NormalFormInlineRule numbers ℕ
counted atoms = record { head = []; aggr = some (count_aggr, []) ∷ []; body = atoms }

-- The entry 0 uses 1 and negates 2; 1 counts over 3; 2 and 3 use each other, and nothing uses 4.
abbrev rules_of : BTreeMap ℕ (NormalFormRulesOrFixed numbers ℕ)
rules_of =
    (0, rules (plain (rule 1 [] ∷ negated_rule 2 [] ∷ []) ∷ []))
    ∷ (1, rules (counted (rule 3 [] ∷ []) ∷ []))
    ∷ (2, rules (plain (rule 3 [] ∷ []) ∷ []))
    ∷ (3, rules (plain (rule 2 [] ∷ []) ∷ plain [] ∷ []))
    ∷ (4, rules (plain (rule 0 [] ∷ []) ∷ []))
    ∷ []

abbrev part : BTreeMap ℕ (NormalFormRulesOrFixed numbers ℕ) → NormalFormProgram numbers ℕ
part prog = record { prog = prog; disable_magic_rewrite = false }

-- The component of 2 and 3 is alone in the last stratum, which is evaluated first, and 4 is pruned.
into_stratified_program_runs :
    into_stratified_program 0 (part rules_of)
    ≡ ok (
      part (
            (0, rules (plain (rule 1 [] ∷ negated_rule 2 [] ∷ []) ∷ []))
            ∷ (1, rules (counted (rule 3 [] ∷ []) ∷ []))
            ∷ [])
          ∷ part (
              (2, rules (plain (rule 3 [] ∷ []) ∷ []))
              ∷ (3, rules (plain (rule 2 [] ∷ []) ∷ plain [] ∷ []))
              ∷ [])
          ∷ [],
      (1, 1) ∷ (2, 1) ∷ (3, 1) ∷ [],
    )
unfolding into_stratified_program reachable_components strongly_connected_components
    generalized_kahn BTreeMap.get BTreeMap.insert BTreeMap.filter_keys BTreeSet.contains
    BTreeSet.insert BTreeSet.extend nat_ord
into_stratified_program_runs = refl

-- Two rules, of which the second negates the first, which uses it.
abbrev cycle_of : BTreeMap ℕ (NormalFormRulesOrFixed numbers ℕ)
cycle_of =
    (0, rules (plain (rule 1 [] ∷ []) ∷ [])) ∷ (1, rules (plain (negated_rule 0 [] ∷ []) ∷ [])) ∷ []

-- A rule that negates itself through another cannot be stratified.
into_stratified_program_refuses : into_stratified_program 0 (part cycle_of) ≡ err unstratifiable
unfolding into_stratified_program reachable_components strongly_connected_components
    generalized_kahn BTreeMap.get BTreeMap.insert BTreeMap.filter_keys BTreeSet.contains
    BTreeSet.insert BTreeSet.extend nat_ord
into_stratified_program_refuses = refl

rules_of-IsSorted : IsSorted rules_of
unfolding nat_ord
rules_of-IsSorted = ground arith

into_stratified_program-IsStratified_example :
    (into_stratified_program 0 (part rules_of) ≡ err unstratifiable)
    ⊎ ((strata : List (NormalFormProgram numbers ℕ)) × (lifetimes : BTreeMap ℕ ℕ)
        × (into_stratified_program 0 (part rules_of) ≡ ok (strata, lifetimes))
        × IsStratified 0 (part rules_of) strata lifetimes)
into_stratified_program-IsStratified_example =
    into_stratified_program-IsStratified 0 (part rules_of) rules_of-IsSorted

cycle_of-IsSorted : IsSorted cycle_of
unfolding nat_ord
cycle_of-IsSorted = ground arith

into_stratified_program-PoisonedCycle_example :
    (into_stratified_program 0 (part cycle_of) ≡ err unstratifiable)
    ↔ PoisonedCycle (convert_normal_form_program_to_graph (part cycle_of)) 0
into_stratified_program-PoisonedCycle_example =
    into_stratified_program-PoisonedCycle 0 (part cycle_of) cycle_of-IsSorted
