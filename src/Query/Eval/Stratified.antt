-- ===== src/Query/Eval/Stratified.antt =====
-- The evaluation of strata of plain rules (retia-core/src/query/eval.rs).
use retia.Prelude.{
  ℕ, suc, ◌≡◌, refl, ap, ◌∙◌, Bool, true, false, Option, none, some, is_some, List, [], ◌∷◌,
  Option-cases, inl, inr,
}
use retia.Prelude.Order.{Ord, list_ord}
use retia.Prelude.Result.{ok}
use retia.BTreeMap.{BTreeMap, get}
use retia.Data.Value.{Externals, DataValue, FloatOps}
use retia.Runtime.TempStore.Regular.{Tuple}
use retia.Runtime.TempStore.Epoch.{EpochStore}
use retia.Query.Eval.Rules.{Stores, Engine, CompiledRuleSet}
use retia.Query.Eval.Epochs.{semi_naive_magic_evaluate}
use retia.Query.Eval.Strata.{
  retain, take_entry, insert_stores, run_strata, stratified_magic_evaluate,
}
use retia.Query.Eval.View.{Rows}
use retia.Query.Eval.Layers.{stores_of, IsLayered, Evaluated, done, next}
use retia.Query.Eval.Inserts.{insert_stores-Begins}
use retia.Query.Eval.Between.{Left, none-Left, start-Fits, fin-Left}
use retia.Query.Eval.Fixpoint.{semi_naive_magic_evaluate-IsFixpoint}

module _ {X : Externals} {S : Type 0} ⦃o : Ord (DataValue X)⦄ ⦃s : Ord S⦄ {e : Engine X S}
    (r : Rows e) (f : FloatOps X.F64) (draws : ℕ → X.F64) (us : List (Tuple X))
    (lifetimes : BTreeMap S ℕ) (fuel : ℕ) (entry : S) (skip : Option ℕ) where
  run_strata-next :
      (n : ℕ) (prog : BTreeMap S (CompiledRuleSet e))
      (strata : List (BTreeMap S (CompiledRuleSet e))) (stores start mid : Stores X S)
      → insert_stores f draws prog (retain lifetimes n stores) ≡ ok start
      → semi_naive_magic_evaluate f draws fuel prog start none skip ≡ some (ok (mid, false))
      → run_strata f draws fuel lifetimes none skip n (prog ∷ strata) stores false
        ≡ run_strata f draws fuel lifetimes none skip (suc n) strata mid false
  unfolding run_strata
  run_strata-next n prog strata stores start mid runs runs' =
      rw (runs, run_strata) (rw (runs', run_strata) refl)

  run_strata-Evaluated :
      (n : ℕ) (strata : List (BTreeMap S (CompiledRuleSet e))) (has : S → Bool)
      (stores : Stores X S)
      → IsLayered r us lifetimes fuel entry n strata has
      → Left us has stores
      → (fin : Stores X S) × (run_strata f draws fuel lifetimes none skip n strata stores false
          ≡ some (ok (fin, false)))
        × Evaluated r us lifetimes n strata stores fin
        × (is_some (get entry fin) ≡ true)
  unfolding run_strata
  run_strata-Evaluated n [] has stores layered left =
      (stores, refl, done, left.present entry layered)
  run_strata-Evaluated n (prog ∷ strata) has stores (layer, enough, layered) left =
      let (start, runs, begins) =
        insert_stores-Begins f draws lifetimes n prog stores layer.sorted layer.plain in
      let fits = start-Fits r us lifetimes n has prog layer stores start left begins in
      let (mid, runs', fix) =
        semi_naive_magic_evaluate-IsFixpoint prog start fits.starts r f draws
          (record { sorted = layer.sorted; plain = layer.plain; reads = layer.reads start fits }) us
          (layer.bounded start fits) skip fuel enough in
      let (fin, runs'', ev, there) =
        run_strata-Evaluated (suc n) strata (stores_of lifetimes n prog has) mid layered
          (fin-Left r us lifetimes n has prog layer start mid fits fix) in
      (
        fin,
        run_strata-next n prog strata stores start mid runs runs' ∙ runs'',
        next start mid begins fix ev,
        there,
      )

  -- Strata of rules without aggregations are evaluated without a limit. If the rules of a stratum contain
  -- only names that have a store there, by the lifetimes of the stores, if their relations are as `Reads`
  -- says, if they find nothing outside of a finite set of tuples in stores with such tuples, if there is
  -- fuel for each of these tuples in each store of a stratum and one more, and if the entry has a store at
  -- the end, then the evaluation returns the store of the entry without an error and without an early
  -- return. It stands among the stores that come about by passing through the strata in order: a stratum
  -- starts with new stores for its names and with those of before that live on, and ends with the least
  -- stores that its rules keep.
  pub stratified_magic_evaluate-Evaluated :
      (strata : List (BTreeMap S (CompiledRuleSet e)))
      → IsLayered r us lifetimes fuel entry 0 strata (λ k. false)
      → (fin : Stores X S) × (ret_area : EpochStore X) × (stratified_magic_evaluate f draws fuel
            entry strata lifetimes none skip
          ≡ some (ok (ret_area, false)))
        × (get entry fin ≡ some ret_area)
        × Evaluated r us lifetimes 0 strata [] fin
  unfolding stratified_magic_evaluate
  stratified_magic_evaluate-Evaluated strata layered =
      let (fin, runs, ev, there) =
        run_strata-Evaluated 0 strata (λ k. false) [] layered (none-Left us) in
      elim (Option-cases (get entry fin)) [
        | inl i ↦ absurd (cc (ap is_some i))
        | inr (ret_area, i) ↦
            let taken : take_entry {X = X} entry (fin, false) ≡ ok (ret_area, false) =
              rw (i, take_entry) refl in
            (fin, ret_area, rw (runs, stratified_magic_evaluate) (ap some taken), i, ev)
      ]
