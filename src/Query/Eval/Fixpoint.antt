-- ===== src/Query/Eval/Fixpoint.antt =====
-- The evaluation of a program of plain rules reaches its fixpoint (retia-core/src/query/eval.rs).
use retia.Prelude.{
  ℕ, zero, suc, ◌*◌, ◌<◌, ◌≡◌, refl, ap, ◌∙◌, sym, Bool, true, false, Option, none, some, is_some,
  List, [], length, arith, Bool-cases, Option-cases, inl, inr,
}
use retia.Prelude.Order.{Ord, list_ord}
use retia.Prelude.Result.{ok}
use retia.BTreeMap.{BTreeMap, get}
use retia.BTreeSet.{contains}
use retia.Data.Value.{Externals, DataValue, FloatOps}
use retia.Runtime.TempStore.Regular.{Tuple}
use retia.Runtime.TempStore.Epoch.{new_normal}
use retia.Query.Eval.Rules.{Stores, Engine, CompiledRuleSet}
use retia.Query.Eval.Epochs.{run_epoch, run_epochs, semi_naive_magic_evaluate}
use retia.Query.Eval.View.{
  in_total, in_delta, has_news, Rows, DeltasHeld, Keeps, IsPlain, Starts, IsFixpoint, IsState,
}
use retia.Query.Eval.Takes.{no_delta}
use retia.Query.Eval.Outs.{unlimited}
use retia.Query.Eval.Round.{epoch_end}
use retia.Query.Eval.Rounds.{first_Round, next_Round}
use retia.Query.Eval.Missing.{all_missing, all_missing-le}
use retia.Query.Eval.Steps.{Below, Ready, Round-Ready, Round-IsFixpoint, fewer}

module _ {X : Externals} {S : Type 0} ⦃o : Ord (DataValue X)⦄ ⦃s : Ord S⦄ {e : Engine X S}
    (prog : BTreeMap S (CompiledRuleSet e)) (start : Stores X S) (starts : Starts prog start) where
  new_empty :
      (k : S) → is_some (get k prog) ≡ true → (t : Tuple X) → in_total (get k start) t ≡ false
  unfolding new_normal get
  new_empty k h t = let (n, i) = starts.new k h in ap (λ x. in_total x t) i

  new_held : DeltasHeld start
  unfolding new_normal get
  new_held k t h = elim (Option-cases (get k prog)) [
    | inl i ↦ elim (Option-cases (get k start)) [
      | inl j ↦ absurd (cc (ap (λ x. in_delta x t) j))
      | inr (store, j) ↦
          let quiet : in_delta (get k start) t ≡ false =
            ap (λ x. in_delta x t) j
            ∙ no_delta store (ap has_news (sym j) ∙ starts.settled k i) t in
          absurd (cc)
    ]
    | inr (set, i) ↦
        let (n, j) = starts.new k (ap is_some i) in
        let quiet : in_delta (get k start) t ≡ false = ap (λ x. in_delta x t) j in absurd (cc)
  ]

  start-IsState : IsState prog start start
  unfolding new_normal
  start-IsState = record {
    regular = λ k h.
        let (n, i) = starts.new k h in
        (new_normal X n, i, record { tuples = []; prev = []; is_epoch = refl; sorted = tt });
    settled = starts.settled;
    held = new_held;
    stored = starts.stored;
    agrees = λ k h. refl;
  }

  module _ (r : Rows e) (f : FloatOps X.F64) (draws : ℕ → X.F64) (plain : IsPlain r prog start)
      (us : List (Tuple X)) (bounded : Keeps r prog start (λ k t. contains t us ≡ true))
      (skip : Option ℕ) where
    start-Below : Below r prog start start
    start-Below holds keeps k t i h = absurd (cc (new_empty k i t))

    run_epochs-epoch :
        (fuel : ℕ) (first : Bool) (stores stores' : Stores X S) (changed : Bool)
        → run_epoch f draws first prog stores (unlimited skip) false
          ≡ ok (epoch_end skip stores' changed)
        → run_epochs f draws (suc fuel) first prog stores (unlimited skip) false ≡ (elim changed [
          | true ↦ run_epochs f draws fuel false prog stores' (unlimited skip) false
          | false ↦ some (ok (stores', false))
        ])
    unfolding run_epochs
    run_epochs-epoch fuel first stores stores' true runs = rw (runs, run_epochs) refl
    run_epochs-epoch fuel first stores stores' false runs = rw (runs, run_epochs) refl

    run_epochs-IsFixpoint :
        (fuel : ℕ) (before stores : Stores X S)
        → Ready r prog start before stores
        → all_missing prog (λ k. in_total (get k stores)) us < fuel
        → (fin : Stores X S) × (run_epochs f draws fuel false prog stores (unlimited skip) false
            ≡ some (ok (fin, false)))
          × IsFixpoint r prog start fin
    run_epochs-IsFixpoint zero before stores ready h = elim h [ ]
    run_epochs-IsFixpoint (suc fuel) before stores ready h =
        let (stores', changed, runs, round) =
          next_Round r f draws prog start stores plain ready.state skip before ready.was ready.grows
            ready.caught in
        elim (Bool-cases changed) [
          | inl c ↦
              let ready' =
                Round-Ready r prog start stores plain ready.state ready.below stores' changed
                  round in
              let less =
                fewer r prog start stores plain ready.state ready.below stores' changed round us
                  bounded c in
              let (fin, runs', fix) =
                run_epochs-IsFixpoint fuel stores stores' ready' (omega arith) in
              (fin, run_epochs-epoch fuel false stores stores' changed runs ∙ rw c runs', fix)
          | inr c ↦ (
            stores',
            run_epochs-epoch fuel false stores stores' changed runs ∙ rw c refl,
            Round-IsFixpoint r prog start stores plain ready.state ready.below stores' changed round
                c,
          )
        ]

    -- A program of rules without aggregations, whose relations are as `Reads` says, is evaluated without
    -- a limit, from new stores for its names and settled ones for others. If what its rules find in such
    -- tuples is always in a finite set of tuples, and there is fuel for each of these tuples in each store
    -- and one more, then the evaluation returns, without an error and without an early return. The stores
    -- that it leaves have all that the rules find in them, and their tuples are in every family that is
    -- closed under the rules. The stores of other names are as before, and no store has a delta.
    pub semi_naive_magic_evaluate-IsFixpoint :
        (fuel : ℕ)
        → length prog * length us < fuel
        → (fin : Stores X S) × (semi_naive_magic_evaluate f draws fuel prog start none skip
            ≡ some (ok (fin, false)))
          × IsFixpoint r prog start fin
    unfolding semi_naive_magic_evaluate
    semi_naive_magic_evaluate-IsFixpoint zero h = elim h [ ]
    semi_naive_magic_evaluate-IsFixpoint (suc fuel) h =
        let (stores', changed, runs, round) =
          first_Round r f draws prog start start plain start-IsState skip in
        let most = all_missing-le prog (λ k. in_total (get k start)) us in
        elim (Bool-cases changed) [
          | inl c ↦
              let ready =
                Round-Ready r prog start start plain start-IsState start-Below stores' changed
                  round in
              let less =
                fewer r prog start start plain start-IsState start-Below stores' changed round us
                  bounded c in
              let (fin, runs', fix) =
                run_epochs-IsFixpoint fuel start stores' ready (omega arith) in
              (fin, run_epochs-epoch fuel true start stores' changed runs ∙ rw c runs', fix)
          | inr c ↦ (
            stores',
            run_epochs-epoch fuel true start stores' changed runs ∙ rw c refl,
            Round-IsFixpoint r prog start start plain start-IsState start-Below stores' changed
                round c,
          )
        ]
