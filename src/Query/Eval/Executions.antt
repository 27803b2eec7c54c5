-- ===== src/Query/Eval/Executions.antt =====
-- The execution of a plain rule set without a limit (retia-core/src/query/eval.rs).
use retia.Prelude.{
  ℕ, ◌≡◌, refl, ap, ◌∙◌, true, false, ◌||◌, Option, some, is_some, List, [], All, arith,
}
use retia.Prelude.Order.{Ord, list_ord}
use retia.Prelude.Result.{ok, ◌>>=◌}
use retia.BTreeMap.{BTreeMap, get}
use retia.Data.Value.{Externals, DataValue, FloatOps}
use retia.Runtime.TempStore.Regular
use retia.Runtime.TempStore.Regular.{Tuple, RegularTempStore}
use retia.Runtime.TempStore.Epoch
use retia.Runtime.TempStore.Epoch.{EpochStore, normal}
use retia.Query.Eval.Rules.{
  Stores, Engine, CompiledRule, CompiledRuleSet, rules, none_kind, aggr_kind,
}
use retia.Query.Eval.Epochs.{execution, execute_rules, execute_again}
use retia.Query.Eval.View.{in_temp, in_total, Rows, Grows, IsState, Reads, Stored, derived}
use retia.Query.Eval.Derives.{initial_rules-Puts, incremental_rules-Derives}
use retia.Query.Eval.View.{IsRegular}
use retia.Query.Eval.Outs.{unlimited, Executes}

module _ {X : Externals} {S : Type 0} ⦃o : Ord (DataValue X)⦄ ⦃s : Ord S⦄ {e : Engine X S}
    (r : Rows e) where
  -- What has been put out are rows, and each row has been put out or is in the store.
  pub record Says (rule_set : List (CompiledRule e)) (stores : Stores X S) (k : S)
      (out : RegularTempStore X) : Type 0 where
    pub sound : (t : Tuple X) → is_some (get t out) ≡ true → derived r rule_set stores t ≡ true
    pub complete :
        (t : Tuple X)
        → derived r rule_set stores t ≡ true
        → (in_total (get k stores) t || is_some (get t out)) ≡ true

  module _ (f : FloatOps X.F64) (draws : ℕ → X.F64) (stores : Stores X S) (skip : Option ℕ) (k : S)
      (rule_set : List (CompiledRule e)) (kind : aggr_kind (rules rule_set) ≡ ok none_kind) where
    pub initial-Executes :
        (prog : BTreeMap S (CompiledRuleSet e)) (start : Stores X S)
        → IsState prog start stores
        → All (Reads r prog start) rule_set
        → Executes f draws true stores skip (Says rule_set stores) k (rules rule_set)
    unfolding execution execute_rules
    initial-Executes prog start state reads =
        let (out, runs, p) =
          initial_rules-Puts r k (unlimited skip) prog start stores state rule_set [] reads tt in
        record {
          out = out;
          runs =
              ap
                (λ x. x >>= λ kind.
                  execute_rules f draws kind k (rules rule_set) stores (unlimited skip))
                kind
              ∙ rw runs refl;
          sorted = p.sorted;
          says = record {
            sound = λ t h. unfold get in ground (arith, p.puts t);
            complete = λ t h. unfold get in ground (arith, p.puts t);
          };
        }

    module _ (store : EpochStore X) (is : get k stores ≡ some store) (regular : IsRegular store)
        (prog : BTreeMap S (CompiledRuleSet e)) (start before : Stores X S)
        (grows : Grows prog before stores) (was : IsState prog start before)
        (state : IsState prog start stores)
        (caught : (t : Tuple X)
          → derived r rule_set before t ≡ true
          → in_total (get k stores) t ≡ true) where
      olds : (t : Tuple X) → Epoch.exists t store ≡ ok (in_total (get k stores) t)
      unfolding Epoch.exists_in Regular.exists
      olds t =
          let i : store.total ≡ normal regular.tuples = ap (λ x. x.total) regular.is_epoch in
          let j : in_total (get k stores) t ≡ in_temp store.total t = ap (λ x. in_total x t) is in
          rw j (rw i refl)

      pub incremental-Executes :
          All (Reads r prog start) rule_set
          → All (Stored stores) rule_set
          → Executes f draws false stores skip (Says rule_set stores) k (rules rule_set)
      unfolding execution execute_again
      incremental-Executes reads stored =
          let (out, runs, p) =
            incremental_rules-Derives r k (unlimited skip) store (in_total (get k stores)) olds
              stores prog start before grows was state rule_set reads stored [] tt in
          record {
            out = out;
            runs =
                ap
                  (λ x. x >>= λ kind.
                    execute_again f draws kind k (rules rule_set) stores (unlimited skip))
                  kind
                ∙ rw is (rw runs refl);
            sorted = p.sorted;
            says = record {
              sound = λ t h. unfold get in ground (arith, p.sound t);
              complete = λ t h. ground (arith, p.complete t, caught t);
            };
          }
