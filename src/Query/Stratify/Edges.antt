-- ===== src/Query/Stratify/Edges.antt =====
-- The graph of a program (retia-core/src/query/stratify.rs) has an edge for each use of a name.
use retia.Prelude.{
  ℕ, zero, suc, ◌≡◌, refl, ap, ◌∙◌, Bool, true, not, ◌&&◌, ◌||◌, none, some, List, [], ◌∷◌,
  if◌then◌else◌, arith, Bool-cases, Option-cases, inl, inr, get_elem?, is_some,
}
use retia.Prelude.Order.{Ord, eq?}
use retia.BTreeMap.{BTreeMap, get, insert, IsSorted, Above}
use retia.BTreeMap.Laws.{get-insert}
use retia.BTreeSet.{BTreeSet, contains}
use retia.Query.Program.{
  Parts, NormalFormAtom, NormalFormInlineRule, FixedRuleArg, in_mem, stored, named_stored,
  NormalFormRulesOrFixed, rules, fixed, NormalFormProgram,
}
use retia.Query.Stratify.Convert.{
  has_aggr, is_meet_rule_set, is_meet_rule, is_fixed_rule, contained_rules, names_where, note_atoms,
  note_rule_set, note_args, dependencies, convert_all, convert_normal_form_program_to_graph,
}
use retia.Query.Stratify.Verified.{get-cons}
use retia.Query.Stratify.Reduced.{carries}
use retia.Query.Stratify.Uses.{
  Uses, contained_rules-Applies, contains_names, note_rules_keeps, note_rules_adds,
}

some_inj : {A : Type 0} (a b : A) → some a ≡ some b → a ≡ b
some_inj a b h = cc

-- Whether a use of `v` by `k` is poisoned, by the sets of names.
abbrev waits :
    {S : Type 0} ⦃o : Ord S⦄ → BTreeSet S → BTreeSet S → S → Bool → Bool → S → Bool → Bool
waits meet_rules fixed_rules k aggr meet v n =
    n
    || (contains v fixed_rules
        || (if aggr then not (meet && eq? k v) else contains v meet_rules && not (eq? v k)))

module _ {P : Parts} {S : Type 0} ⦃o : Ord S⦄ (meet_rules fixed_rules : BTreeSet S) (k : S)
    (aggr meet : Bool) where
  note_atoms_keeps :
      (body : List (NormalFormAtom P S)) (ret : BTreeMap S Bool) (t : S) (q : Bool)
      → carries q (get t ret) ≡ true
      → carries q (get t (note_atoms meet_rules fixed_rules k aggr meet body ret)) ≡ true
  unfolding note_atoms
  note_atoms_keeps [] ret t q h = h
  note_atoms_keeps (atom ∷ body) ret t q h =
      note_atoms_keeps body _ t q
        (note_rules_keeps meet_rules fixed_rules k aggr meet (contained_rules atom) ret t q h)

  note_atoms_adds :
      (body : List (NormalFormAtom P S)) (ret : BTreeMap S Bool) (m : ℕ) (atom : NormalFormAtom P S)
      (v : S) (n : Bool)
      → get_elem? body m ≡ some atom
      → contained_rules atom ≡ (v, n) ∷ []
      → carries
          (waits meet_rules fixed_rules k aggr meet v n)
          (get v (note_atoms meet_rules fixed_rules k aggr meet body ret))
        ≡ true
  unfolding note_atoms
  note_atoms_adds [] ret m atom v n h e = absurd (cc)
  note_atoms_adds (a ∷ body) ret zero atom v n h e =
      let same : contained_rules a ≡ (v, n) ∷ [] = ap contained_rules (some_inj a atom h) ∙ e in
      note_atoms_keeps body _ v (waits meet_rules fixed_rules k aggr meet v n)
        (rw same (note_rules_adds meet_rules fixed_rules k aggr meet ret v n))
  note_atoms_adds (a ∷ body) ret (suc m) atom v n h e = note_atoms_adds body _ m atom v n h e

  note_rule_set_keeps :
      (rs : List (NormalFormInlineRule P S)) (ret : BTreeMap S Bool) (t : S) (q : Bool)
      → carries q (get t ret) ≡ true
      → carries q (get t (note_rule_set meet_rules fixed_rules k aggr meet rs ret)) ≡ true
  unfolding note_rule_set
  note_rule_set_keeps [] ret t q h = h
  note_rule_set_keeps (r ∷ rs) ret t q h =
      note_rule_set_keeps rs _ t q (note_atoms_keeps r.body ret t q h)

  note_rule_set_adds :
      (rs : List (NormalFormInlineRule P S)) (ret : BTreeMap S Bool) (n : ℕ)
      (r : NormalFormInlineRule P S) (m : ℕ) (atom : NormalFormAtom P S) (v : S) (negated : Bool)
      → get_elem? rs n ≡ some r
      → get_elem? r.body m ≡ some atom
      → contained_rules atom ≡ (v, negated) ∷ []
      → carries
          (waits meet_rules fixed_rules k aggr meet v negated)
          (get v (note_rule_set meet_rules fixed_rules k aggr meet rs ret))
        ≡ true
  unfolding note_rule_set
  note_rule_set_adds [] ret n r m atom v negated h e f = absurd (cc)
  note_rule_set_adds (q ∷ rs) ret zero r m atom v negated h e f =
      let same = some_inj q r h in
      note_rule_set_keeps rs _ v (waits meet_rules fixed_rules k aggr meet v negated)
        (note_atoms_adds q.body ret m atom v negated (ap (λ x. get_elem? x.body m) same ∙ e) f)
  note_rule_set_adds (q ∷ rs) ret (suc n) r m atom v negated h e f =
      note_rule_set_adds rs _ n r m atom v negated h e f

module _ {P : Parts} {S : Type 0} ⦃o : Ord S⦄ where
  note_args_keeps :
      (args : List (FixedRuleArg P S)) (ret : BTreeMap S Bool) (t : S)
      → carries true (get t ret) ≡ true
      → carries true (get t (note_args args ret)) ≡ true
  unfolding note_args
  note_args_keeps [] ret t h = h
  note_args_keeps (in_mem name bindings ∷ args) ret t h =
      note_args_keeps args (insert name true ret) t (ground (arith, get-insert t name true ret))
  note_args_keeps (stored name at ∷ args) ret t h = note_args_keeps args ret t h
  note_args_keeps (named_stored name at ∷ args) ret t h = note_args_keeps args ret t h

  note_args_adds :
      (args : List (FixedRuleArg P S)) (ret : BTreeMap S Bool) (n : ℕ) (v : S) (bindings : List S)
      → get_elem? args n ≡ some (in_mem v bindings)
      → carries true (get v (note_args args ret)) ≡ true
  unfolding note_args
  note_args_adds [] ret n v bindings h = absurd (cc)
  note_args_adds (in_mem name bs ∷ args) ret zero v bindings h =
      let same : name ≡ v = cc in
      note_args_keeps args (insert name true ret) v
        (ground (arith, get-insert v name true ret, o.cmp_self v))
  note_args_adds (stored name at ∷ args) ret zero v bindings h = absurd (cc)
  note_args_adds (named_stored name at ∷ args) ret zero v bindings h = absurd (cc)
  note_args_adds (in_mem name bs ∷ args) ret (suc n) v bindings h =
      note_args_adds args (insert name true ret) n v bindings h
  note_args_adds (stored name at ∷ args) ret (suc n) v bindings h =
      note_args_adds args ret n v bindings h
  note_args_adds (named_stored name at ∷ args) ret (suc n) v bindings h =
      note_args_adds args ret n v bindings h

  pub get-convert_all :
      (meet_rules fixed_rules : BTreeSet S) (prog : BTreeMap S (NormalFormRulesOrFixed P S)) (k : S)
      → get k (convert_all meet_rules fixed_rules prog) ≡ elim (get k prog) [
        | none ↦ none
        | some rs ↦ some (dependencies meet_rules fixed_rules k rs)
      ]
  unfolding convert_all
  get-convert_all meet_rules fixed_rules [] k = unfold get in refl
  get-convert_all meet_rules fixed_rules ((j, rs) ∷ prog) k = elim (Bool-cases (eq? k j)) [
    | inl same ↦
        let i = o.eq_of_cmp k j (ground arith) in
        let f = ap (λ x. dependencies meet_rules fixed_rules x rs) i in
        ground (
          arith,
          get-cons k j rs prog,
          get-cons k j (dependencies meet_rules fixed_rules j rs)
              (convert_all meet_rules fixed_rules prog),
        )
    | inr other ↦ ground (
      arith,
      get-cons k j rs prog,
      get-convert_all meet_rules fixed_rules prog k,
      get-cons k j (dependencies meet_rules fixed_rules j rs)
          (convert_all meet_rules fixed_rules prog),
    )
  ]

  convert_all-Above :
      (meet_rules fixed_rules : BTreeSet S) (j : S) (prog : BTreeMap S (NormalFormRulesOrFixed P S))
      → Above j prog
      → Above j (convert_all meet_rules fixed_rules prog)
  unfolding convert_all
  convert_all-Above meet_rules fixed_rules j [] a = tt
  convert_all-Above meet_rules fixed_rules j ((k, rs) ∷ prog) a =
      (a.0, convert_all-Above meet_rules fixed_rules j prog a.1)

  convert_all-IsSorted :
      (meet_rules fixed_rules : BTreeSet S) (prog : BTreeMap S (NormalFormRulesOrFixed P S))
      → IsSorted prog
      → IsSorted (convert_all meet_rules fixed_rules prog)
  unfolding convert_all
  convert_all-IsSorted meet_rules fixed_rules [] s = tt
  convert_all-IsSorted meet_rules fixed_rules ((k, rs) ∷ prog) s = (
    convert_all-Above meet_rules fixed_rules k prog s.0,
    convert_all-IsSorted meet_rules fixed_rules prog s.1,
  )

  pub convert-IsSorted :
      (self : NormalFormProgram P S)
      → IsSorted self.prog
      → IsSorted (convert_normal_form_program_to_graph self)
  unfolding convert_normal_form_program_to_graph
  convert-IsSorted self s = convert_all-IsSorted _ _ self.prog s

  -- A name has a row if it has rules.
  pub is_some-convert :
      (self : NormalFormProgram P S) (k : S)
      → is_some (get k (convert_normal_form_program_to_graph self)) ≡ is_some (get k self.prog)
  unfolding convert_normal_form_program_to_graph
  is_some-convert self k =
      let e =
        get-convert_all (names_where is_meet_rule self.prog) (names_where is_fixed_rule self.prog)
          self.prog k in
      elim (Option-cases (get k self.prog)) [ inl f ↦ ground arith | inr (rs, f) ↦ ground arith ]

  dependencies_adds :
      (prog : BTreeMap S (NormalFormRulesOrFixed P S)) (k v : S) (rs : NormalFormRulesOrFixed P S)
      (p : Bool)
      → IsSorted prog
      → Uses prog k rs v p
      → carries p (
          get v
            (dependencies (names_where is_meet_rule prog) (names_where is_fixed_rule prog) k rs))
        ≡ true
  unfolding dependencies
  dependencies_adds prog k v (rules rs) p s (n, r, m, atom, negated, h, e, f, g) =
      let found =
        note_rule_set_adds (names_where is_meet_rule prog) (names_where is_fixed_rule prog) k
          (has_aggr rs) (is_meet_rule_set rs) rs [] n r m atom v negated h e
          (contained_rules-Applies atom v negated f) in
      let a = contains_names is_meet_rule prog v s in
      let b = contains_names is_fixed_rule prog v s in rw g (rw (a, b) at found)
  dependencies_adds prog k v (fixed apply) p s (n, bindings, h, g) =
      rw g (note_args_adds apply.rule_args [] n v bindings h)

  -- A use of a name is an edge of the graph, poisoned if the use has to wait.
  pub Uses-edge :
      (self : NormalFormProgram P S) (k v : S) (rs : NormalFormRulesOrFixed P S) (p : Bool)
      → IsSorted self.prog
      → get k self.prog ≡ some rs
      → Uses self.prog k rs v p
      → (vs : BTreeMap S Bool) × (get k (convert_normal_form_program_to_graph self) ≡ some vs)
        × (carries p (get v vs) ≡ true)
  unfolding convert_normal_form_program_to_graph
  Uses-edge self k v rs p s h u =
      let meets = names_where is_meet_rule self.prog in
      let fixes = names_where is_fixed_rule self.prog in
      (
        dependencies meets fixes k rs,
        ground (arith, get-convert_all meets fixes self.prog k),
        dependencies_adds self.prog k v rs p s u,
      )
