-- ===== src/Query/Eval/ByDeltas.antt =====
-- The rows of a plain rule by the deltas of the names that it contains (retia-core/src/query/eval.rs).
use retia.Prelude.{
  ◌≡◌, refl, ap, ◌∙◌, sym, Bool, true, false, not, ◌&&◌, ◌||◌, none, some, is_some, List, [], ◌∷◌,
  map, arith, Bool-cases, inl, inr,
}
use retia.Prelude.Order.{Ord, list_ord, eq?}
use retia.Prelude.Result.{ok}
use retia.BTreeMap.{BTreeMap, IsSorted, get}
use retia.BTreeSet.{contains}
use retia.Data.Value.{Externals, DataValue}
use retia.Runtime.TempStore.Regular.{Tuple, RegularTempStore}
use retia.Runtime.TempStore.Epoch
use retia.Runtime.TempStore.Epoch.{EpochStore}
use retia.Query.Scc.{keys}
use retia.Query.Eval.Rules.{Stores, Engine, CompiledRule, CompiledRuleSet}
use retia.Query.Eval.Limiter.{QueryLimiter}
use retia.Query.Eval.Plain.{delta_runs}
use retia.Query.Eval.Items.{passed, Puts, incremental_items-Puts}
use retia.Query.Eval.View.{has_news, Rows, IsState, Reads}

module _ {X : Externals} {S : Type 0} ⦃o : Ord (DataValue X)⦄ ⦃s : Ord S⦄ {e : Engine X S}
    (r : Rows e) (rule : CompiledRule e) (stores : Stores X S) where
  open r use {rows, checks}

  -- The rows that the deltas of some names give.
  pub by_deltas : List S → Tuple X → Bool
  by_deltas [] t = false
  by_deltas (j ∷ js) t =
      (is_some (get j rule.contained_rules) && contains t (rows rule.relation (some j) stores))
      || by_deltas js t

  pub by_deltas_sound :
      (prog : BTreeMap S (CompiledRuleSet e)) (start : Stores X S)
      → Reads r prog start rule
      → IsState prog start stores
      → (js : List S) (t : Tuple X) → by_deltas js t ≡ true
      → contains t (rows rule.relation none stores) ≡ true
  unfolding by_deltas
  by_deltas_sound prog start reads state [] t h = absurd (cc)
  by_deltas_sound prog start reads state (j ∷ js) t h =
      ground (arith, reads.sound stores j t state, by_deltas_sound prog start reads state js t)

  pub by_deltas_complete :
      (j : S) (t : Tuple X) (some_stores : Stores X S)
      → is_some (get j rule.contained_rules) ≡ true
      → has_news (get j some_stores) ≡ true
      → contains t (rows rule.relation (some j) stores) ≡ true
      → by_deltas (keys some_stores) t ≡ true
  unfolding by_deltas get
  by_deltas_complete j t [] c n h = absurd (cc)
  by_deltas_complete j t ((i, store) ∷ some_stores) c n h = elim (Bool-cases (eq? j i)) [
    | inl same ↦
        let q : j ≡ i = s.eq_of_cmp j i (ground arith) in
        let c' : is_some (get i rule.contained_rules) ≡ true =
          ap (λ x. is_some (get x rule.contained_rules)) (sym q) ∙ c in
        let h' : contains t (rows rule.relation (some i) stores) ≡ true =
          ap (λ x. contains t (rows rule.relation (some x) stores)) (sym q) ∙ h in
        ground arith
    | inr differ ↦
        let rest : has_news (get j some_stores) ≡ true = ground arith in
        let ih = by_deltas_complete j t some_stores c rest h in ground arith
  ]

  module _ (k : S) (limiter : QueryLimiter) (prev : EpochStore X) (old : Tuple X → Bool)
      (olds : (t : Tuple X) → Epoch.exists t prev ≡ ok (old t)) where
    pub delta_runs-Puts :
        ((j : S)
          → is_some (get j rule.contained_rules) ≡ true
          → e.iter rule.relation (some j) stores ≡ ok (map ok (rows rule.relation (some j) stores)))
        → (js : List S) (out : RegularTempStore X) → IsSorted out
        → (out' : RegularTempStore X) × (delta_runs k false rule prev stores js (passed limiter out)
            ≡ ok (passed limiter out'))
          × Puts out (λ t. by_deltas js t && not (old t)) out'
    unfolding delta_runs by_deltas
    delta_runs-Puts found [] out q = (out, refl, record { sorted = q; puts = λ t. ground arith })
    delta_runs-Puts found (j ∷ js) out q =
        elim (Bool-cases (is_some (get j rule.contained_rules))) [
          | inl c ↦
              let (mid, runs, p) =
                incremental_items-Puts limiter prev old olds (rows rule.relation (some j) stores)
                  out q in
              let (out', runs', p') = delta_runs-Puts found js mid p.sorted in
              (
                out',
                ground (arith, found j c, checks k),
                record { sorted = p'.sorted; puts = λ t. ground (arith, p.puts t, p'.puts t) },
              )
          | inr c ↦
              let (out', runs', p') = delta_runs-Puts found js out q in
              (
                out',
                ground arith,
                record { sorted = p'.sorted; puts = λ t. ground (arith, p'.puts t) },
              )
        ]
