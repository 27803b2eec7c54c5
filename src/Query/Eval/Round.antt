-- ===== src/Query/Eval/Round.antt =====
-- One epoch of the evaluation of plain rules (retia-core/src/query/eval.rs).
use retia.Prelude.{
  ℕ, ◌≡◌, ap, ◌∙◌, sym, Bool, true, false, not, ◌&&◌, ◌||◌, Option, none, some, is_some, List,
  All-imp, subst, arith, Option-cases, inl, inr,
}
use retia.Prelude.Order.{Ord, list_ord}
use retia.BTreeMap.{BTreeMap, get}
use retia.Data.Value.{Externals, DataValue}
use retia.Runtime.TempStore.Regular.{Tuple, RegularTempStore}
use retia.Runtime.TempStore.Epoch.{EpochStore, TempStore, normal}
use retia.Query.Eval.Rules.{Stores, Engine, CompiledRule, CompiledRuleSet, rules}
use retia.Query.Eval.Epochs.{EpochEnd}
use retia.Query.Eval.View.{
  in_temp, in_total, in_delta, has_news, Rows, IsState, Grows, DeltasHeld, derived,
}
use retia.Query.Eval.Takes.{Takes}
use retia.Query.Eval.Merges.{Merges}
use retia.Query.Eval.Outs.{unlimited, Out}
use retia.Query.Eval.Executions.{Says}

abbrev pub epoch_end : {X : Externals} {S : Type 0} → Option ℕ → Stores X S → Bool → EpochEnd X S
epoch_end skip stores changed = record {
  stores = stores;
  limiter = unlimited skip;
  used = false;
  changed = changed;
}

module _ {X : Externals} {S : Type 0} ⦃o : Ord (DataValue X)⦄ ⦃s : Ord S⦄ {e : Engine X S}
    (r : Rows e) (prog : BTreeMap S (CompiledRuleSet e)) (start stores : Stores X S) where
  abbrev pub SaysAll : S → RegularTempStore X → Type 0
  SaysAll k out =
      (rule_set : List (CompiledRule e))
      → get k prog ≡ some (rules rule_set)
      → Says r rule_set stores k out

  -- What an epoch makes of the stores.
  pub record Round (stores' : Stores X S) (changed : Bool) : Type 0 where
    pub state : IsState prog start stores'
    pub grows : Grows prog stores stores'
    pub reached :
        (k : S) (rule_set : List (CompiledRule e)) (t : Tuple X)
        → get k prog ≡ some (rules rule_set)
        → derived r rule_set stores t ≡ true
        → in_total (get k stores') t ≡ true
    pub sound :
        (k : S) (rule_set : List (CompiledRule e)) (t : Tuple X)
        → get k prog ≡ some (rules rule_set)
        → in_total (get k stores') t ≡ true
        → (in_total (get k stores) t || derived r rule_set stores t) ≡ true
    pub quiet : changed ≡ false → (k : S) → has_news (get k stores') ≡ false
    pub changes :
        changed ≡ true
        → (k : S) × (t : Tuple X) × (is_some (get k prog) ≡ true)
          × (in_total (get k stores) t ≡ false)
          × (in_total (get k stores') t ≡ true)

  -- What an epoch makes of the store of one name.
  record At (stores' : Stores X S) (k : S) : Type 0 where
    store : EpochStore X
    out : RegularTempStore X
    store' : EpochStore X
    was : get k stores ≡ some store
    is : get k stores' ≡ some store'
    takes : Takes store out store'
    says : SaysAll k out

  module _ (stores' : Stores X S) (k : S) (a : At stores' k) where
    totals_at :
        (t : Tuple X)
        → in_total (get k stores') t ≡ (is_some (get t a.out) || in_total (get k stores) t)
    totals_at t =
        let i : in_total (get k stores') t ≡ in_temp a.store'.total t =
          ap (λ x. in_total x t) a.is in
        let j : in_total (get k stores) t ≡ in_temp a.store.total t =
          ap (λ x. in_total x t) a.was in
        i ∙ a.takes.totals t ∙ ap (λ x. is_some (get t a.out) || x) (sym j)

    deltas_at :
        (t : Tuple X)
        → in_delta (get k stores') t ≡ (is_some (get t a.out) && not (in_total (get k stores) t))
    deltas_at t =
        let j : in_total (get k stores) t ≡ in_temp a.store.total t =
          ap (λ x. in_total x t) a.was in
        ap (λ x. in_delta x t) a.is
        ∙ a.takes.deltas t
        ∙ ap (λ x. is_some (get t a.out) && not x) (sym j)

  module _ (m : BTreeMap S (TempStore X))
      (outs : (k : S) (set : CompiledRuleSet e) → get k prog ≡ some set → Out SaysAll m k)
      (others : (k : S) → get k prog ≡ none → get k m ≡ none) (state : IsState prog start stores)
      (stores' : Stores X S) (changed : Bool) (merges : Merges m stores false stores' changed) where
    at : (k : S) → is_some (get k prog) ≡ true → At stores' k
    at k h = elim (Option-cases (get k prog)) [
      | inl i ↦ absurd (cc (ap is_some i))
      | inr (set, i) ↦
          let a = outs k set i in
          let b = merges.merged k (normal a.out) a.is in
          let same : b.out ≡ a.out = cc b.is_normal in
          record {
            store = b.store;
            out = a.out;
            store' = b.store';
            was = b.was;
            is = b.is;
            takes = subst (λ x. Takes b.store x b.store') same b.takes;
            says = a.says;
          }
    ]

    stays : (k : S) → get k prog ≡ none → get k stores' ≡ get k stores
    stays k h = merges.others k (others k h)

    keeps_stored : (j : S) → is_some (get j stores) ≡ true → is_some (get j stores') ≡ true
    keeps_stored j h = elim (Option-cases (get j prog)) [
      | inl i ↦ ap is_some (stays j i) ∙ h
      | inr (set, i) ↦ let a = at j (ap is_some i) in ap is_some a.is
    ]

    held' : DeltasHeld stores'
    held' k t h = elim (Option-cases (get k prog)) [
      | inl i ↦
          ap (λ x. in_total x t) (stays k i)
          ∙ state.held k t (ap (λ x. in_delta x t) (sym (stays k i)) ∙ h)
      | inr (set, i) ↦
          let a = at k (ap is_some i) in
          ground (arith, totals_at stores' k a t, deltas_at stores' k a t)
    ]

    state' : IsState prog start stores'
    state' = record {
      regular = λ k h. let a = at k h in (a.store', a.is, a.takes.regular);
      settled = λ k h. ap has_news (stays k h) ∙ state.settled k h;
      held = held';
      stored = λ k rule_set h.
          All-imp (λ rule i j l. keeps_stored j (i j l)) rule_set (state.stored k rule_set h);
      agrees = λ k h. stays k h ∙ state.agrees k h;
    }

    quiet' : changed ≡ false → (k : S) → has_news (get k stores') ≡ false
    quiet' c k = elim (Option-cases (get k prog)) [
      | inl i ↦ ap has_news (stays k i) ∙ state.settled k i
      | inr (set, i) ↦ (merges.settled c).1 k (ap is_some (outs k set i).is)
    ]

    changes' :
        changed ≡ true
        → (k : S) × (t : Tuple X) × (is_some (get k prog) ≡ true)
          × (in_total (get k stores) t ≡ false)
          × (in_total (get k stores') t ≡ true)
    changes' c = elim (merges.changes c) [
      | inl x ↦ absurd (cc x)
      | inr (k, inside, news) ↦ elim (Option-cases (get k prog)) [
        | inl i ↦ absurd (cc (ap is_some (others k i)))
        | inr (set, i) ↦
            let a = at k (ap is_some i) in
            let (t, d) = a.takes.news (ap has_news (sym a.is) ∙ news) in
            let d' : in_delta (get k stores') t ≡ true = ap (λ x. in_delta x t) a.is ∙ d in
            (
              k,
              t,
              ap is_some i,
              ground (arith, deltas_at stores' k a t),
              ground (arith, totals_at stores' k a t, deltas_at stores' k a t),
            )
      ]
    ]

    pub merges-Round : Round stores' changed
    merges-Round = record {
      state = state';
      grows = record {
        agrees = stays;
        adds = λ k t h.
            let a = at k h in ground (arith, totals_at stores' k a t, deltas_at stores' k a t);
      };
      reached = λ k rule_set t h d.
          let a = at k (ap is_some h) in
          ground (arith, totals_at stores' k a t, (a.says rule_set h).complete t d);
      sound = λ k rule_set t h d.
          let a = at k (ap is_some h) in
          ground (arith, totals_at stores' k a t, (a.says rule_set h).sound t);
      quiet = quiet';
      changes = changes';
    }
