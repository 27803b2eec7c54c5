-- ===== src/Query/Eval/Steps.antt =====
-- What an epoch of plain rules does towards their fixpoint (retia-core/src/query/eval.rs).
use retia.Prelude.{
  ◌<◌, ◌≡◌, ap, ◌∙◌, Bool, true, false, none, some, is_some, List, [], ◌∷◌, All, arith, Bool-cases,
  Option-cases, inl, inr,
}
use retia.Prelude.Order.{Ord, list_ord}
use retia.BTreeMap.{BTreeMap, get}
use retia.BTreeSet.{contains}
use retia.Data.Value.{Externals, DataValue}
use retia.Runtime.TempStore.Regular.{Tuple}
use retia.Query.Eval.Rules.{Stores, Engine, CompiledRule, CompiledRuleSet, rules}
use retia.Query.Eval.View.{
  in_total, has_news, Rows, IsState, Grows, Reads, Keeps, IsPlain, IsFixpoint, derived,
}
use retia.Query.Eval.Round.{Round}
use retia.Query.Eval.Missing.{all_missing, all_missing-lt-all_missing}

module _ {X : Externals} {S : Type 0} ⦃o : Ord (DataValue X)⦄ ⦃s : Ord S⦄ {e : Engine X S}
    (r : Rows e) (prog : BTreeMap S (CompiledRuleSet e)) where
  -- Where nothing is new, rules have no rows that they did not have before.
  derived-settled :
      (start stores stores' : Stores X S)
      → IsState prog start stores
      → IsState prog start stores'
      → Grows prog stores stores'
      → ((k : S) → has_news (get k stores') ≡ false)
      → (rule_set : List (CompiledRule e)) (t : Tuple X) → All (Reads r prog start) rule_set
      → derived r rule_set stores' t ≡ true
      → derived r rule_set stores t ≡ true
  unfolding derived
  derived-settled start stores stores' was state grows quiet [] t reads h = absurd (cc)
  derived-settled start stores stores' was state grows quiet (rule ∷ rule_set) t reads h =
      elim (Bool-cases (contains t (r.rows rule.relation none stores'))) [
        | inl here ↦ elim (reads.0.split stores stores' t was state grows (λ k i. quiet k) here) [
          | inl early ↦ ground arith
          | inr (k, inside, news, found) ↦ absurd (cc (quiet k))
        ]
        | inr there ↦
            ground
              (arith, derived-settled start stores stores' was state grows quiet rule_set t reads.1)
      ]

  abbrev pub Below : Stores X S → Stores X S → Type 1
  Below start stores =
      (holds : S → Tuple X → Type 0)
      → Keeps r prog start holds
      → (k : S) (t : Tuple X) → is_some (get k prog) ≡ true
      → in_total (get k stores) t ≡ true
      → holds k t

  -- The stores before an epoch that is not the first one.
  pub record Ready (start before stores : Stores X S) : Type 1 where
    pub state : IsState prog start stores
    pub was : IsState prog start before
    pub grows : Grows prog before stores
    pub caught :
        (k : S) (rule_set : List (CompiledRule e)) (t : Tuple X)
        → get k prog ≡ some (rules rule_set)
        → derived r rule_set before t ≡ true
        → in_total (get k stores) t ≡ true
    pub below : Below start stores

  module _ (start stores : Stores X S) (plain : IsPlain r prog start)
      (state : IsState prog start stores) (below : Below start stores) (stores' : Stores X S)
      (changed : Bool) (round : Round r prog start stores stores' changed) where
    below' : Below start stores'
    below' holds keeps k t i h = elim (Option-cases (get k prog)) [
      | inl j ↦ absurd (cc (ap is_some j))
      | inr (set, j) ↦
          let (rule_set, same, kind) = plain.plain k set j in
          let j' : get k prog ≡ some (rules rule_set) = j ∙ ap some same in
          elim (Bool-cases (in_total (get k stores) t)) [
            | inl old ↦ below holds keeps k t i old
            | inr new ↦
                keeps stores state (below holds keeps) k rule_set t j'
                  (ground (arith, round.sound k rule_set t j' h))
          ]
    ]

    pub Round-Ready : Ready start stores stores'
    Round-Ready = record {
      state = round.state;
      was = state;
      grows = round.grows;
      caught = round.reached;
      below = below';
    }

    pub Round-IsFixpoint : changed ≡ false → IsFixpoint r prog start stores'
    Round-IsFixpoint c = record {
      closed = λ k rule_set t h d. round.reached k rule_set t h (
          derived-settled start stores stores' state round.state round.grows (round.quiet c)
            rule_set t (plain.reads k rule_set h) d);
      least = below';
      regular = round.state.regular;
      settled = round.quiet c;
      agrees = round.state.agrees;
    }

    grown :
        (k : S) (t : Tuple X) → in_total (get k stores) t ≡ true → in_total (get k stores') t ≡ true
    grown k t h = elim (Option-cases (get k prog)) [
      | inl i ↦ ap (λ x. in_total x t) (round.grows.agrees k i) ∙ h
      | inr (set, i) ↦ ground (arith, round.grows.adds k t (ap is_some i))
    ]

    pub fewer :
        (us : List (Tuple X))
        → Keeps r prog start (λ k t. contains t us ≡ true)
        → changed ≡ true
        → all_missing prog (λ k. in_total (get k stores')) us
          < all_missing prog (λ k. in_total (get k stores)) us
    fewer us bounded c =
        let (k, t, i, out, in') = round.changes c in
        all_missing-lt-all_missing (λ k. in_total (get k stores)) (λ k. in_total (get k stores'))
          grown us k t out in' (below' (λ k t. contains t us ≡ true) bounded k t i in') prog i
