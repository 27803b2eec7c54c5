-- ===== src/Query/Stratify/Rows.antt =====
-- The rows of the graph of a program (retia-core/src/query/stratify.rs) are maps.
use retia.Prelude.{◌≡◌, Bool, true, some, List, [], ◌∷◌, arith, Option-cases, inl, inr}
use retia.Prelude.Order.{Ord}
use retia.BTreeMap.{BTreeMap, get, IsSorted}
use retia.BTreeMap.Laws.{insert-IsSorted}
use retia.BTreeSet.{BTreeSet}
use retia.Query.Program.{
  Parts, NormalFormAtom, NormalFormInlineRule, FixedRuleArg, in_mem, stored, named_stored,
  NormalFormRulesOrFixed, rules, fixed, NormalFormProgram,
}
use retia.Query.Stratify.Convert.{
  note_rules, note_atoms, note_rule_set, note_args, dependencies, contained_rules, has_aggr,
  is_meet_rule_set, names_where, is_meet_rule, is_fixed_rule, convert_normal_form_program_to_graph,
}
use retia.Query.Stratify.Edges.{get-convert_all}

module _ {S : Type 0} ⦃o : Ord S⦄ (meet_rules fixed_rules : BTreeSet S) (k : S)
    (aggr meet : Bool) where
  note_rules-IsSorted :
      (contained ret : BTreeMap S Bool)
      → IsSorted ret
      → IsSorted (note_rules meet_rules fixed_rules k aggr meet contained ret)
  unfolding note_rules
  note_rules-IsSorted [] ret s = s
  note_rules-IsSorted ((v, n) ∷ contained) ret s =
      note_rules-IsSorted contained _ (insert-IsSorted v _ ret s)

module _ {P : Parts} {S : Type 0} ⦃o : Ord S⦄ (meet_rules fixed_rules : BTreeSet S) (k : S)
    (aggr meet : Bool) where
  note_atoms-IsSorted :
      (body : List (NormalFormAtom P S)) (ret : BTreeMap S Bool)
      → IsSorted ret
      → IsSorted (note_atoms meet_rules fixed_rules k aggr meet body ret)
  unfolding note_atoms
  note_atoms-IsSorted [] ret s = s
  note_atoms-IsSorted (atom ∷ body) ret s =
      note_atoms-IsSorted body _
        (note_rules-IsSorted meet_rules fixed_rules k aggr meet (contained_rules atom) ret s)

  note_rule_set-IsSorted :
      (rs : List (NormalFormInlineRule P S)) (ret : BTreeMap S Bool)
      → IsSorted ret
      → IsSorted (note_rule_set meet_rules fixed_rules k aggr meet rs ret)
  unfolding note_rule_set
  note_rule_set-IsSorted [] ret s = s
  note_rule_set-IsSorted (r ∷ rs) ret s =
      note_rule_set-IsSorted rs _ (note_atoms-IsSorted r.body ret s)

module _ {P : Parts} {S : Type 0} ⦃o : Ord S⦄ where
  note_args-IsSorted :
      (args : List (FixedRuleArg P S)) (ret : BTreeMap S Bool)
      → IsSorted ret
      → IsSorted (note_args args ret)
  unfolding note_args
  note_args-IsSorted [] ret s = s
  note_args-IsSorted (in_mem name bindings ∷ args) ret s =
      note_args-IsSorted args _ (insert-IsSorted name true ret s)
  note_args-IsSorted (stored name at ∷ args) ret s = note_args-IsSorted args ret s
  note_args-IsSorted (named_stored name at ∷ args) ret s = note_args-IsSorted args ret s

  dependencies-IsSorted :
      (meet_rules fixed_rules : BTreeSet S) (k : S) (rs : NormalFormRulesOrFixed P S)
      → IsSorted (dependencies meet_rules fixed_rules k rs)
  unfolding dependencies
  dependencies-IsSorted meet_rules fixed_rules k (rules rs) =
      note_rule_set-IsSorted meet_rules fixed_rules k (has_aggr rs) (is_meet_rule_set rs) rs [] tt
  dependencies-IsSorted meet_rules fixed_rules k (fixed apply) =
      note_args-IsSorted apply.rule_args [] tt

  pub whole-IsSorted_rows :
      (self : NormalFormProgram P S) (k : S) (vs : BTreeMap S Bool)
      → get k (convert_normal_form_program_to_graph self) ≡ some vs
      → IsSorted vs
  unfolding convert_normal_form_program_to_graph
  whole-IsSorted_rows self k vs h =
      let meets = names_where is_meet_rule self.prog in
      let fixes = names_where is_fixed_rule self.prog in
      let e = get-convert_all meets fixes self.prog k in
      elim (Option-cases (get k self.prog)) [
        | inl f ↦ absurd (ground arith)
        | inr (rs, f) ↦
            let i : dependencies meets fixes k rs ≡ vs = ground arith in
            rw (← i) (dependencies-IsSorted meets fixes k rs)
      ]
