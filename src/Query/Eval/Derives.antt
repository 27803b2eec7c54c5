-- ===== src/Query/Eval/Derives.antt =====
-- What the plain rules of a name derive in an epoch (retia-core/src/query/eval.rs).
use retia.Prelude.{
  ◌≡◌, refl, Bool, true, false, ◌||◌, none, is_some, List, [], ◌∷◌, All, arith, Bool-cases, inl,
  inr,
}
use retia.Prelude.Order.{Ord, list_ord}
use retia.Prelude.Result.{ok}
use retia.BTreeMap.{BTreeMap, IsSorted, get}
use retia.BTreeSet.{contains}
use retia.Data.Value.{Externals, DataValue}
use retia.Runtime.TempStore.Regular.{Tuple, RegularTempStore}
use retia.Runtime.TempStore.Epoch
use retia.Runtime.TempStore.Epoch.{EpochStore}
use retia.Query.Scc.{keys}
use retia.Query.Eval.Rules.{Stores, Engine, CompiledRule, CompiledRuleSet}
use retia.Query.Eval.Limiter.{QueryLimiter}
use retia.Query.Eval.Plain.{initial_rule_non_aggr_eval, incremental_rule, incremental_rules}
use retia.Query.Eval.Items.{passed, Puts, initial_items-Puts, incremental_items-Puts}
use retia.Query.Eval.View.{Rows, Grows, IsState, Reads, Stored, derived}
use retia.Query.Eval.ByDeltas.{by_deltas_sound, by_deltas_complete, delta_runs-Puts}
use retia.Query.Eval.Deltas.{look_at_deltas-Looks}

-- What a name's rules have done to `out`: `now` are their rows, `earlier` those in the stores before,
-- and `old` are the tuples that the name has.
pub record Derives {X : Externals} ⦃o : Ord (DataValue X)⦄ (old now earlier : Tuple X → Bool)
    (out out' : RegularTempStore X) : Type 0 where
  pub sorted : IsSorted out'
  pub kept : (t : Tuple X) → is_some (get t out) ≡ true → is_some (get t out') ≡ true
  pub sound : (t : Tuple X) → is_some (get t out') ≡ true → (is_some (get t out) || now t) ≡ true
  pub complete : (t : Tuple X) → now t ≡ true → (old t || earlier t || is_some (get t out')) ≡ true

module _ {X : Externals} {S : Type 0} ⦃o : Ord (DataValue X)⦄ ⦃s : Ord S⦄ {e : Engine X S}
    (r : Rows e) (k : S) (limiter : QueryLimiter) where
  open r use {rows, checks}

  pub initial_rules-Puts :
      (prog : BTreeMap S (CompiledRuleSet e)) (start stores : Stores X S)
      → IsState prog start stores
      → (rule_set : List (CompiledRule e)) (out : RegularTempStore X)
      → All (Reads r prog start) rule_set
      → IsSorted out
      → (out' : RegularTempStore X) × (initial_rule_non_aggr_eval k false rule_set stores
            (passed limiter out)
          ≡ ok (passed limiter out'))
        × Puts out (derived r rule_set stores) out'
  unfolding initial_rule_non_aggr_eval derived
  initial_rules-Puts prog start stores state [] out reads q =
      (out, refl, record { sorted = q; puts = λ t. ground arith })
  initial_rules-Puts prog start stores state (rule ∷ rule_set) out reads q =
      let (mid, runs, p) = initial_items-Puts limiter (rows rule.relation none stores) out q in
      let (out', runs', p') =
        initial_rules-Puts prog start stores state rule_set mid reads.1 p.sorted in
      (
        out',
        ground (arith, reads.0.finds stores state, checks k),
        record { sorted = p'.sorted; puts = λ t. ground (arith, p.puts t, p'.puts t) },
      )

  module _ (rule : CompiledRule e) (prev : EpochStore X) (old : Tuple X → Bool)
      (olds : (t : Tuple X) → Epoch.exists t prev ≡ ok (old t)) (stores : Stores X S) where
    module _ (prog : BTreeMap S (CompiledRuleSet e)) (start before : Stores X S)
        (grows : Grows prog before stores) (was : IsState prog start before)
        (state : IsState prog start stores) where
      incremental_rule-Derives :
          Reads r prog start rule
          → Stored stores rule
          → (out : RegularTempStore X) → IsSorted out
          → (out' : RegularTempStore X) × (incremental_rule k false rule prev stores
                (passed limiter out)
              ≡ ok (passed limiter out'))
            × Derives old
                (λ t. contains t (rows rule.relation none stores))
                (λ t. contains t (rows rule.relation none before))
                out
                out'
      unfolding incremental_rule
      incremental_rule-Derives reads stored out q =
          let (changed, complete, looks, l, b) =
            look_at_deltas-Looks rule.contained_rules stores false stored in
          elim (Bool-cases changed) [
            | inl c ↦ elim (Bool-cases complete) [
              | inl d ↦
                  let (out', runs, p) =
                    incremental_items-Puts limiter prev old olds (rows rule.relation none stores)
                      out q in
                  (
                    out',
                    ground (arith, reads.finds stores state, checks k),
                    record {
                      sorted = p.sorted;
                      kept = λ t h. ground (arith, p.puts t);
                      sound = λ t h. ground (arith, p.puts t);
                      complete = λ t h. ground (arith, p.puts t);
                    },
                  )
              | inr d ↦
                  let (out', runs, p) =
                    delta_runs-Puts r rule stores k limiter prev old olds
                      (λ j c. reads.finds_by_delta stores j state c) (keys stores) out q in
                  (
                    out',
                    ground arith,
                    record {
                      sorted = p.sorted;
                      kept = λ t h. ground (arith, p.puts t);
                      sound = λ t h. ground (
                        arith,
                        p.puts t,
                        by_deltas_sound r rule stores prog start reads state (keys stores) t,
                      );
                      complete = λ t h.
                          elim (reads.split before stores t was state grows (l.once d) h) [
                            | inl early ↦ ground arith
                            | inr (j, inside, news, found) ↦ ground (
                              arith,
                              p.puts t,
                              by_deltas_complete r rule stores j t stores inside news found,
                            )
                          ];
                    },
                  )
            ]
            | inr c ↦ (
              out,
              ground arith,
              record {
                sorted = q;
                kept = λ t h. h;
                sound = λ t h. ground arith;
                complete = λ t h.
                    elim (reads.split before stores t was state grows
                      (λ j h. l.quiet c j (rw h refl)) h) [
                        | inl early ↦ ground arith
                        | inr (j, inside, news, found) ↦ absurd (cc (l.quiet c j inside))
                      ];
              },
            )
          ]

  module _ (prev : EpochStore X) (old : Tuple X → Bool)
      (olds : (t : Tuple X) → Epoch.exists t prev ≡ ok (old t)) (stores : Stores X S)
      (prog : BTreeMap S (CompiledRuleSet e)) (start before : Stores X S)
      (grows : Grows prog before stores) (was : IsState prog start before)
      (state : IsState prog start stores) where
    pub incremental_rules-Derives :
        (rule_set : List (CompiledRule e))
        → All (Reads r prog start) rule_set
        → All (Stored stores) rule_set
        → (out : RegularTempStore X) → IsSorted out
        → (out' : RegularTempStore X) × (incremental_rules k false rule_set prev stores
              (passed limiter out)
            ≡ ok (passed limiter out'))
          × Derives old (derived r rule_set stores) (derived r rule_set before) out out'
    unfolding incremental_rules derived
    incremental_rules-Derives [] reads stored out q = (
      out,
      refl,
      record {
        sorted = q;
        kept = λ t h. h;
        sound = λ t h. ground arith;
        complete = λ t (h : false ≡ true). absurd (cc);
      },
    )
    incremental_rules-Derives (rule ∷ rule_set) reads stored out q =
        let (mid, runs, p) =
          incremental_rule-Derives rule prev old olds stores prog start before grows was state
            reads.0 stored.0 out q in
        let (out', runs', p') = incremental_rules-Derives rule_set reads.1 stored.1 mid p.sorted in
        (
          out',
          rw runs runs',
          record {
            sorted = p'.sorted;
            kept = λ t h. p'.kept t (p.kept t h);
            sound = λ t h. ground (arith, p.sound t, p'.sound t);
            complete = λ t h. ground (arith, p.complete t, p'.complete t, p'.kept t);
          },
        )
