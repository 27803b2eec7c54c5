-- ===== src/Query/Eval/Inserts.antt =====
-- The stores that a stratum starts with (retia-core/src/query/eval.rs).
use retia.Prelude.{
  ℕ, zero, suc, ◌≡◌, refl, ap, ◌∙◌, sym, true, none, some, is_some, List, [], ◌∷◌, length,
  if◌then◌else◌, arith, inl, inr,
}
use retia.Prelude.Order.{Ord, list_ord}
use retia.Prelude.Result.{ok, ◌>>=◌}
use retia.BTreeMap
use retia.BTreeMap.{BTreeMap, IsSorted, get}
use retia.BTreeMap.Laws.{get-insert, get-Above, get-filter_keys, key_cases}
use retia.Data.Value.{Externals, DataValue, FloatOps}
use retia.Runtime.TempStore.Epoch.{new_normal}
use retia.Query.Eval.Rules.{
  Stores, Engine, CompiledRule, CompiledRuleSet, rules, none_kind, aggr_kind,
}
use retia.Query.Eval.Strata.{retain, new_store, insert_stores}
use retia.Query.Eval.Layers.{outlives, Begins}

module _ {X : Externals} {S : Type 0} ⦃s : Ord S⦄ where
  get-retain :
      (lifetimes : BTreeMap S ℕ) (n : ℕ) (stores : Stores X S) (k : S)
      → get k (retain lifetimes n stores) ≡ (if outlives lifetimes n k then get k stores else none)
  get-retain lifetimes zero stores k = refl
  get-retain lifetimes (suc n) stores k = get-filter_keys k (outlives lifetimes (suc n)) stores

module _ {X : Externals} (f : FloatOps X.F64) ⦃o : Ord (DataValue X)⦄ (draws : ℕ → X.F64)
    {S : Type 0} ⦃s : Ord S⦄ {e : Engine X S} where
  new_store-none :
      (rule_set : List (CompiledRule e))
      → aggr_kind (rules rule_set) ≡ ok none_kind
      → (m : ℕ) × (new_store f draws (rules rule_set) ≡ ok (new_normal X m))
  new_store-none [] h = absurd (cc)
  new_store-none (rule ∷ rule_set) h = (length rule.aggr, ground arith)

  record Inserted (prog : BTreeMap S (CompiledRuleSet e)) (stores start : Stores X S) : Type 0 where
    new : (k : S) → is_some (get k prog) ≡ true → (m : ℕ) × (get k start ≡ some (new_normal X m))
    others : (k : S) → get k prog ≡ none → get k start ≡ get k stores

  insert_stores-Inserted :
      (prog : BTreeMap S (CompiledRuleSet e)) (stores : Stores X S)
      → IsSorted prog
      → ((k : S) (set : CompiledRuleSet e)
          → get k prog ≡ some set
          → (rule_set : List (CompiledRule e)) × (set ≡ rules rule_set)
            × (aggr_kind set ≡ ok none_kind))
      → (start : Stores X S) × (insert_stores f draws prog stores ≡ ok start)
        × Inserted prog stores start
  unfolding insert_stores
  insert_stores-Inserted [] stores q plain =
      (stores, refl, record { new = λ k h. absurd (unfold get in cc); others = λ k h. refl })
  insert_stores-Inserted ((j, set) ∷ prog) stores q plain =
      let here : get j ((j, set) ∷ prog) ≡ some set = unfold get in ground (arith, s.cmp_self j) in
      let apart : get j prog ≡ none = get-Above j prog q.0 in
      let (rule_set, same, kind) = plain j set here in
      let (m, makes) = new_store-none rule_set (ap aggr_kind (sym same) ∙ kind) in
      let (start, runs, i) =
        insert_stores-Inserted prog (BTreeMap.insert j (new_normal X m) stores) q.1 (λ k set' h.
          elim (key_cases k j set prog) [
            | inl (at_j, g) ↦ absurd (cc (ap (λ y. get y prog) at_j))
            | inr (d, g) ↦ plain k set' (g ∙ h)
          ]) in
      (
        start,
        ap
              (λ x. new_store f draws x >>= λ store.
                insert_stores f draws prog (BTreeMap.insert j store stores))
              same
            ∙ rw makes runs,
        record {
          new = λ k h. elim (key_cases k j set prog) [
            | inl (at_j, g) ↦ (
              m,
              ap (λ y. get y start) at_j
                  ∙ i.others j apart
                  ∙ ground (arith, get-insert j j (new_normal X m) stores, s.cmp_self j),
            )
            | inr (d, g) ↦ i.new k (ap is_some (sym g) ∙ h)
          ];
          others = λ k h. elim (key_cases k j set prog) [
            | inl (at_j, g) ↦ absurd (cc)
            | inr (d, g) ↦
                i.others k (sym g ∙ h) ∙ ground (arith, get-insert k j (new_normal X m) stores)
          ];
        },
      )

  pub insert_stores-Begins :
      (lifetimes : BTreeMap S ℕ) (n : ℕ) (prog : BTreeMap S (CompiledRuleSet e))
      (stores : Stores X S)
      → IsSorted prog
      → ((k : S) (set : CompiledRuleSet e)
          → get k prog ≡ some set
          → (rule_set : List (CompiledRule e)) × (set ≡ rules rule_set)
            × (aggr_kind set ≡ ok none_kind))
      → (start : Stores X S) × (insert_stores f draws prog (retain lifetimes n stores) ≡ ok start)
        × Begins lifetimes n prog stores start
  insert_stores-Begins lifetimes n prog stores q plain =
      let (start, runs, i) = insert_stores-Inserted prog (retain lifetimes n stores) q plain in
      (
        start,
        runs,
        record { new = i.new; kept = λ k h. i.others k h ∙ get-retain lifetimes n stores k },
      )
