-- ===== src/Query/Stratify/Place.antt =====
-- `NormalFormProgram::into_stratified_program` (retia-core/src/query/stratify.rs).
use retia.Prelude.{
  ℕ, suc, ◌-◌, ltb, Option, none, some, List, [], ◌∷◌, length, replicate, get_elem?, set,
  if◌then◌else◌, map,
}
use retia.Prelude.Order.{Ord, nat_ord}
use retia.Prelude.Result.{Result, ok, panic, ◌>>=◌, ◌>>◌}
use retia.BTreeMap
use retia.BTreeMap.{BTreeMap}
use retia.BTreeSet
use retia.BTreeSet.{BTreeSet}
use retia.Query.Graph.{reachable_components}
use retia.Query.Kahn.{StratifiedGraph, generalized_kahn}
use retia.Query.Scc.{keys, strongly_connected_components}
use retia.Query.Program.{Parts, NormalFormRulesOrFixed, NormalFormProgram}
use retia.Query.Stratify.Convert.{convert_normal_form_program_to_graph}
use retia.Query.Stratify.Reduce.{
  Error, or_panic, reduce_to_graph, verify_no_cycle, make_scc_reduced_graph,
}

-- `indices.into_iter().map(move |idx| (idx, stratum))`
unfoldable pub index_stratum : ℕ → List ℕ → BTreeMap ℕ ℕ → BTreeMap ℕ ℕ
index_stratum stratum [] acc = acc
index_stratum stratum (idx ∷ indices) acc =
    index_stratum stratum indices (BTreeMap.insert idx stratum acc)

-- `invert_sort_result`, from `stratum` on
unfoldable pub invert_sort : ℕ → List (List ℕ) → BTreeMap ℕ ℕ → BTreeMap ℕ ℕ
unfolding index_stratum
invert_sort stratum [] acc = acc
invert_sort stratum (indices ∷ strata) acc =
    invert_sort (suc stratum) strata (index_stratum stratum indices acc)

-- The stratum of a name, none if it has no component or its component none.
abbrev pub stratum_of : {S : Type 0} ⦃o : Ord S⦄ → BTreeMap S ℕ → BTreeMap ℕ ℕ → S → Option ℕ
stratum_of indices inverse k = elim (BTreeMap.get k indices) [
  | none ↦ none
  | some idx ↦ BTreeMap.get idx inverse
]

module _ {S : Type 0} ⦃o : Ord S⦄ where
  -- `match store_lifetimes.entry(magic_to)`; the keys are all `MagicSymbol::Muggle`.
  abbrev pub extend_lifetime : ℕ → S → BTreeMap S ℕ → BTreeMap S ℕ
  extend_lifetime used_in to lifetimes = elim (BTreeMap.get to lifetimes) [
    | none ↦ BTreeMap.insert to used_in lifetimes
    | some existing ↦
        if ltb existing used_in then BTreeMap.insert to used_in lifetimes else lifetimes
  ]

  -- `for to in tos.keys()`
  unfoldable pub extend_lifetimes : ℕ → List S → BTreeMap S ℕ → BTreeMap S ℕ
  extend_lifetimes used_in [] lifetimes = lifetimes
  extend_lifetimes used_in (to ∷ tos) lifetimes =
      extend_lifetimes used_in tos (extend_lifetime used_in to lifetimes)

  -- `for (fr, tos) in &stratified_graph`, where `n_strata - 1 - *fr_stratum` panics below 0
  unfoldable pub lifetimes_of :
      (S → Option ℕ) → ℕ → StratifiedGraph S → BTreeMap S ℕ → Result Error (BTreeMap S ℕ)
  unfolding extend_lifetimes
  lifetimes_of stratum n_strata [] lifetimes = ok lifetimes
  lifetimes_of stratum n_strata ((fr, tos) ∷ graph) lifetimes = do
    lifetimes' ← elim (stratum fr) [
      | none ↦ ok lifetimes
      | some fr_stratum ↦
          if ltb fr_stratum n_strata
          then ok (extend_lifetimes (n_strata - 1 - fr_stratum) (keys tos) lifetimes)
          else panic
    ]
    lifetimes_of stratum n_strata graph lifetimes'

module _ {P : Parts} {S : Type 0} ⦃o : Ord S⦄ where
  -- `target.prog.insert(name, ruleset)`
  abbrev pub add_rule :
      S → NormalFormRulesOrFixed P S → NormalFormProgram P S → NormalFormProgram P S
  add_rule name rule_set target = record target { prog = BTreeMap.insert name rule_set target.prog }

  -- `for (name, ruleset) in self.prog`
  unfoldable pub place_rules :
      (S → Option ℕ)
      → BTreeMap S (NormalFormRulesOrFixed P S)
      → List (NormalFormProgram P S)
      → Result Error (List (NormalFormProgram P S))
  place_rules stratum [] ret = ok ret
  place_rules stratum ((name, rule_set) ∷ prog) ret = do
    ret' ← elim (stratum name) [
      | none ↦ ok ret
      | some idx ↦ (do
        target ← or_panic (get_elem? ret idx)
        ok (set ret idx (add_rule name rule_set target)))
    ]
    place_rules stratum prog ret'

  -- What `into_stratified_program` does from the components on: steps 4 to 7.
  unfoldable pub stratify_by :
      NormalFormProgram P S
      → StratifiedGraph S
      → List (BTreeSet S)
      → Result Error (List (NormalFormProgram P S) × BTreeMap S ℕ)
  unfolding verify_no_cycle make_scc_reduced_graph invert_sort lifetimes_of place_rules
  stratify_by self stratified_graph sccs = do
    verify_no_cycle stratified_graph sccs
    reduced ← make_scc_reduced_graph sccs stratified_graph
    sort_result ← or_panic (generalized_kahn reduced.1 (length stratified_graph))
    let stratum = stratum_of reduced.0 (invert_sort 0 sort_result [])
    let blank : NormalFormProgram P S = record {
      prog = [];
      disable_magic_rewrite = self.disable_magic_rewrite;
    }
    lifetimes ← lifetimes_of stratum (length sort_result) stratified_graph []
    ret ← place_rules stratum self.prog (replicate (length sort_result) blank)
    ok (ret, lifetimes)

  -- `reachable` is computed by reference, and the graphs are pruned to it. `prog_entry` is the symbol `?`.
  unfoldable pub into_stratified_program :
      S → NormalFormProgram P S → Result Error (List (NormalFormProgram P S) × BTreeMap S ℕ)
  unfolding convert_normal_form_program_to_graph reduce_to_graph stratify_by
  into_stratified_program prog_entry self = do
    let whole = convert_normal_form_program_to_graph self
    reachable ← or_panic (reachable_components (reduce_to_graph whole) prog_entry)
    let kept = λ (k : S). BTreeSet.contains k reachable
    let stratified_graph = BTreeMap.filter_keys kept whole
    let graph = BTreeMap.filter_keys kept (reduce_to_graph whole)
    sccs ← or_panic (strongly_connected_components graph)
    stratify_by self stratified_graph (map BTreeSet.collect sccs)
