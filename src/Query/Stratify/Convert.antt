-- ===== src/Query/Stratify/Convert.antt =====
-- `convert_normal_form_program_to_graph` (retia-core/src/query/stratify.rs).
use retia.Prelude.{
  Bool, true, false, not, ◌&&◌, ◌||◌, Option, none, some, is_some, List, [], ◌∷◌, if◌then◌else◌,
}
use retia.Prelude.Order.{Ord, eq?, nat_ord}
use retia.BTreeMap
use retia.BTreeMap.{BTreeMap}
use retia.BTreeSet
use retia.BTreeSet.{BTreeSet}
use retia.Data.Aggr.Parse.{AggrName, is_meet}
use retia.Query.Kahn.{StratifiedGraph}
use retia.Query.Program.{
  Parts, NormalFormAtom, rule, relation, negated_rule, negated_relation, predicate, unification,
  hnsw_search, fts_search, lsh_search, NormalFormInlineRule, FixedRuleArg, in_mem, stored,
  named_stored, NormalFormRulesOrFixed, rules, fixed, NormalFormProgram,
}

abbrev pub any {ℓ} : {A : Type ℓ} → (A → Bool) → List A → Bool
any test [] = false
any test (x ∷ xs) = test x || any test xs

abbrev pub all {ℓ} : {A : Type ℓ} → (A → Bool) → List A → Bool
all test [] = true
all test (x ∷ xs) = test x && all test xs

-- `None => true, Some((v, _)) => v.is_meet`
abbrev pub meet_or_none : {V : Type 0} → Option (AggrName × V) → Bool
meet_or_none none = true
meet_or_none (some (aggr, args)) = is_meet aggr

module _ {P : Parts} {S : Type 0} where
  -- `ruleset.iter().any(|rule| rule.aggr.iter().any(|a| a.is_some()))`
  abbrev pub has_aggr : List (NormalFormInlineRule P S) → Bool
  has_aggr = any λ r. any is_some r.aggr

  abbrev pub is_meet_rule_set : List (NormalFormInlineRule P S) → Bool
  is_meet_rule_set rule_set = has_aggr rule_set && all (λ r. all meet_or_none r.aggr) rule_set

  abbrev pub is_meet_rule : NormalFormRulesOrFixed P S → Bool
  is_meet_rule (rules rule_set) = is_meet_rule_set rule_set
  is_meet_rule (fixed apply) = false

  abbrev pub is_fixed_rule : NormalFormRulesOrFixed P S → Bool
  is_fixed_rule (rules rule_set) = false
  is_fixed_rule (fixed apply) = true

  -- `NormalFormAtom::contained_rules`
  abbrev pub contained_rules : NormalFormAtom P S → BTreeMap S Bool
  contained_rules (rule name args) = (name, false) ∷ []
  contained_rules (negated_rule name args) = (name, true) ∷ []
  contained_rules (relation r) = []
  contained_rules (negated_relation r) = []
  contained_rules (predicate e) = []
  contained_rules (unification u) = []
  contained_rules (hnsw_search q) = []
  contained_rules (fts_search q) = []
  contained_rules (lsh_search q) = []

-- What an entry has after `found_key`, negated or not, is met in a body of the rules `k`.
abbrev pub add_dependency :
    {S : Type 0} ⦃o : Ord S⦄ → Bool → Bool → S → S → Bool → Bool → Bool → Option Bool → Bool
add_dependency aggr meet k found_key found_meet found_fixed negated none =
    if aggr
    then (if meet && eq? k found_key then found_fixed || negated else true)
    else found_fixed || found_meet || negated
add_dependency aggr meet k found_key found_meet found_fixed negated (some old) =
    old
    || (if aggr
        then (if meet && eq? k found_key then found_fixed || found_meet || negated else true)
        else found_fixed || found_meet || negated)

module _ {S : Type 0} ⦃o : Ord S⦄ (meet_rules fixed_rules : BTreeSet S) (k : S) where
  -- `for (found_key, is_negated) in contained`
  unfoldable pub note_rules : Bool → Bool → BTreeMap S Bool → BTreeMap S Bool → BTreeMap S Bool
  note_rules aggr meet [] ret = ret
  note_rules aggr meet ((found_key, negated) ∷ contained) ret =
      let found_meet = BTreeSet.contains found_key meet_rules && not (eq? found_key k) in
      let found_fixed = BTreeSet.contains found_key fixed_rules in
      let poisoned =
        add_dependency aggr meet k found_key found_meet found_fixed negated
          (BTreeMap.get found_key ret) in
      note_rules aggr meet contained (BTreeMap.insert found_key poisoned ret)

module _ {P : Parts} {S : Type 0} ⦃o : Ord S⦄ where
  -- `meet_rules` and `fixed_rules`: the names whose rules pass a test.
  unfoldable pub names_where :
      (NormalFormRulesOrFixed P S → Bool) → BTreeMap S (NormalFormRulesOrFixed P S) → BTreeSet S
  names_where test [] = []
  names_where test ((k, rule_set) ∷ prog) =
      let rest = names_where test prog in if test rule_set then BTreeSet.insert k rest else rest

  -- `for rel in &fixed.rule_args`
  unfoldable pub note_args : List (FixedRuleArg P S) → BTreeMap S Bool → BTreeMap S Bool
  note_args [] ret = ret
  note_args (in_mem name bindings ∷ args) ret = note_args args (BTreeMap.insert name true ret)
  note_args (stored name valid_at ∷ args) ret = note_args args ret
  note_args (named_stored name valid_at ∷ args) ret = note_args args ret

  module _ (meet_rules fixed_rules : BTreeSet S) (k : S) where
    -- `for atom in &rule.body`
    unfoldable pub note_atoms :
        Bool → Bool → List (NormalFormAtom P S) → BTreeMap S Bool → BTreeMap S Bool
    unfolding note_rules
    note_atoms aggr meet [] ret = ret
    note_atoms aggr meet (atom ∷ body) ret =
        note_atoms aggr meet body
          (note_rules meet_rules fixed_rules k aggr meet (contained_rules atom) ret)

    -- `for rule in rule_set`
    unfoldable pub note_rule_set :
        Bool → Bool → List (NormalFormInlineRule P S) → BTreeMap S Bool → BTreeMap S Bool
    unfolding note_atoms
    note_rule_set aggr meet [] ret = ret
    note_rule_set aggr meet (r ∷ rule_set) ret =
        note_rule_set aggr meet rule_set (note_atoms aggr meet r.body ret)

    -- The edges of one name.
    unfoldable pub dependencies : NormalFormRulesOrFixed P S → BTreeMap S Bool
    unfolding note_rule_set note_args
    dependencies (rules rule_set) =
        note_rule_set (has_aggr rule_set) (is_meet_rule_set rule_set) rule_set []
    dependencies (fixed apply) = note_args apply.rule_args []

  unfoldable pub convert_all :
      BTreeSet S → BTreeSet S → BTreeMap S (NormalFormRulesOrFixed P S) → StratifiedGraph S
  unfolding dependencies
  convert_all meet_rules fixed_rules [] = []
  convert_all meet_rules fixed_rules ((k, rule_set) ∷ prog) =
      (k, dependencies meet_rules fixed_rules k rule_set) ∷ convert_all meet_rules fixed_rules prog

  unfoldable pub convert_normal_form_program_to_graph : NormalFormProgram P S → StratifiedGraph S
  unfolding names_where convert_all
  convert_normal_form_program_to_graph nf_prog =
      convert_all (names_where is_meet_rule nf_prog.prog) (names_where is_fixed_rule nf_prog.prog)
        nf_prog.prog
