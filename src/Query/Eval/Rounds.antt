-- ===== src/Query/Eval/Rounds.antt =====
-- The first epoch of the evaluation of plain rules, and a later one (retia-core/src/query/eval.rs).
use retia.Prelude.{
  ℕ, ◌≡◌, refl, ap, ◌∙◌, sym, subst, Bool, true, false, Option, none, some, is_some, List, [],
  Option-cases, inl, inr,
}
use retia.Prelude.Order.{Ord, list_ord}
use retia.Prelude.Result.{ok}
use retia.BTreeMap.{BTreeMap, get}
use retia.Data.Value.{Externals, DataValue, FloatOps}
use retia.Runtime.TempStore.Regular.{Tuple}
use retia.Runtime.TempStore.Epoch.{TempStore}
use retia.Query.Eval.Rules.{Stores, Engine, CompiledRule, CompiledRuleSet, rules, aggr_kind}
use retia.Query.Eval.Epochs.{run_epoch}
use retia.Query.Eval.View.{in_total, Rows, IsState, Grows, IsPlain, derived}
use retia.Query.Eval.Merges.{Mergeable, merge_all-Merges}
use retia.Query.Eval.Outs.{unlimited, Executes, Out, run_entries-unlimited, run_others-Outs}
use retia.Query.Eval.Executions.{Says, initial-Executes, incremental-Executes}
use retia.Query.Eval.Round.{epoch_end, SaysAll, Round, merges-Round}

module _ {X : Externals} {S : Type 0} ⦃o : Ord (DataValue X)⦄ ⦃s : Ord S⦄ {e : Engine X S}
    (r : Rows e) (f : FloatOps X.F64) (draws : ℕ → X.F64) (prog : BTreeMap S (CompiledRuleSet e))
    (start stores : Stores X S) (plain : IsPlain r prog start) (state : IsState prog start stores)
    (skip : Option ℕ) where
  says_all :
      (first : Bool) (k : S) (rule_set : List (CompiledRule e))
      → get k prog ≡ some (rules rule_set)
      → Executes f draws first stores skip (Says r rule_set stores) k (rules rule_set)
      → Executes f draws first stores skip (SaysAll r prog start stores) k (rules rule_set)
  says_all first k rule_set h x = record {
    out = x.out;
    runs = x.runs;
    sorted = x.sorted;
    says = λ rule_set' h'.
        let i : rule_set ≡ rule_set' = cc in subst (λ y. Says r y stores k x.out) i x.says;
  }

  ready :
      (m : BTreeMap S (TempStore X))
      → ((k : S) (set : CompiledRuleSet e)
          → get k prog ≡ some set
          → Out (SaysAll r prog start stores) m k)
      → ((k : S) → get k prog ≡ none → get k m ≡ none)
      → (k : S) (new : TempStore X) → get k m ≡ some new
      → Mergeable stores k new
  ready m outs others k new h = elim (Option-cases (get k prog)) [
    | inl i ↦ absurd (cc (others k i))
    | inr (set, i) ↦
        let a = outs k set i in
        let (store, is, regular) = state.regular k (ap is_some i) in
        record {
          store = store;
          out = a.out;
          stored = is;
          is_normal = cc a.is;
          regular = regular;
          sorted = a.sorted;
        }
  ]

  run_epoch-Round :
      (first : Bool)
      → ((k : S) (set : CompiledRuleSet e)
          → get k prog ≡ some set
          → Executes f draws first stores skip (SaysAll r prog start stores) k set)
      → (stores' : Stores X S) × (changed : Bool) × (run_epoch f draws first prog stores
            (unlimited skip)
            false
          ≡ ok (epoch_end skip stores' changed))
        × Round r prog start stores stores' changed
  unfolding run_epoch get
  run_epoch-Round first all =
      let (m, runs, x) =
        run_others-Outs f draws first stores skip (SaysAll r prog start stores) prog [] plain.sorted
          tt all in
      let (stores', changed, runs', merges) =
        merge_all-Merges m stores false x.sorted (ready m x.outs x.others) in
      (
        stores',
        changed,
        rw (run_entries-unlimited f draws first stores skip prog []) (rw runs (rw runs' refl)),
        merges-Round r prog start stores m x.outs x.others state stores' changed merges,
      )

  pub first_Round :
      (stores' : Stores X S) × (changed : Bool) × (run_epoch f draws true prog stores
          (unlimited skip)
          false
        ≡ ok (epoch_end skip stores' changed))
      × Round r prog start stores stores' changed
  first_Round = run_epoch-Round true λ k set h.
      let (rule_set, i, kind) = plain.plain k set h in
      let h' : get k prog ≡ some (rules rule_set) = h ∙ ap some i in
      subst (λ y. Executes f draws true stores skip (SaysAll r prog start stores) k y) (sym i)
        (says_all true k rule_set h' (
          initial-Executes r f draws stores skip k rule_set (ap aggr_kind (sym i) ∙ kind) prog start
            state (plain.reads k rule_set h')))

  pub next_Round :
      (before : Stores X S)
      → IsState prog start before
      → Grows prog before stores
      → ((k : S) (rule_set : List (CompiledRule e)) (t : Tuple X)
          → get k prog ≡ some (rules rule_set)
          → derived r rule_set before t ≡ true
          → in_total (get k stores) t ≡ true)
      → (stores' : Stores X S) × (changed : Bool) × (run_epoch f draws false prog stores
            (unlimited skip)
            false
          ≡ ok (epoch_end skip stores' changed))
        × Round r prog start stores stores' changed
  next_Round before was grows caught = run_epoch-Round false λ k set h.
      let (rule_set, i, kind) = plain.plain k set h in
      let h' : get k prog ≡ some (rules rule_set) = h ∙ ap some i in
      let (store, is, regular) = state.regular k (ap is_some h) in
      subst (λ y. Executes f draws false stores skip (SaysAll r prog start stores) k y) (sym i)
        (says_all false k rule_set h' (
          incremental-Executes r f draws stores skip k rule_set (ap aggr_kind (sym i) ∙ kind) store
            is regular prog start before grows was state (λ t. caught k rule_set t h')
            (plain.reads k rule_set h') (state.stored k rule_set h')))
