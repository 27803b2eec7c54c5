-- ===== src/Query/Eval/Outs.antt =====
-- The executions of an epoch without a limit (retia-core/src/query/eval.rs).
use retia.Prelude.{
  ℕ, ◌≡◌, refl, ap, ◌∙◌, sym, Bool, false, Option, none, some, List, [], ◌∷◌, arith, inl, inr,
}
use retia.Prelude.Order.{Ord, list_ord}
use retia.Prelude.Result.{ok}
use retia.BTreeMap
use retia.BTreeMap.{BTreeMap, IsSorted, get}
use retia.BTreeMap.Laws.{get-insert, insert-IsSorted, get-Above, key_cases}
use retia.Data.Value.{Externals, DataValue, FloatOps}
use retia.Runtime.TempStore.Regular.{RegularTempStore}
use retia.Runtime.TempStore.Epoch.{TempStore, normal}
use retia.Query.Eval.Rules.{Stores, Engine, CompiledRuleSet}
use retia.Query.Eval.Limiter.{QueryLimiter}
use retia.Query.Eval.Epochs.{Executed, Merging, execution, run_entries, run_others}

abbrev pub unlimited : Option ℕ → QueryLimiter
unlimited skip = record { total = none; skip = skip; counter = 0 }

abbrev pub gathered :
    {X : Externals} {S : Type 0} → Option ℕ → BTreeMap S (TempStore X) → Merging X S
gathered skip to_merge = record { limiter = unlimited skip; used = false; to_merge = to_merge }

abbrev pub executed : {X : Externals} → Option ℕ → RegularTempStore X → Executed X
executed skip out = record { limiter = unlimited skip; used = false; new_store = normal out }

-- What a name has put out: `P` tells what it is.
pub record Out {X : Externals} {S : Type 0} ⦃o : Ord (DataValue X)⦄ ⦃s : Ord S⦄
    (P : S → RegularTempStore X → Type 0) (m : BTreeMap S (TempStore X)) (k : S) : Type 0 where
  pub out : RegularTempStore X
  pub is : get k m ≡ some (normal out)
  pub sorted : IsSorted out
  pub says : P k out

module _ {X : Externals} (f : FloatOps X.F64) ⦃o : Ord (DataValue X)⦄ (draws : ℕ → X.F64)
    {S : Type 0} ⦃s : Ord S⦄ {e : Engine X S} (first : Bool) (stores : Stores X S)
    (skip : Option ℕ) where
  pub run_entries-unlimited :
      (prog : List (S × CompiledRuleSet e)) (m : BTreeMap S (TempStore X))
      → run_entries f draws first stores prog (gathered skip m) ≡ ok (gathered skip m)
  unfolding run_entries
  run_entries-unlimited [] m = refl
  run_entries-unlimited ((k, set) ∷ prog) m = run_entries-unlimited prog m

  module _ (P : S → RegularTempStore X → Type 0) where
    pub record Executes (k : S) (set : CompiledRuleSet e) : Type 0 where
      pub out : RegularTempStore X
      pub runs : execution f draws first stores k set (unlimited skip) ≡ ok (executed skip out)
      pub sorted : IsSorted out
      pub says : P k out

    pub record Outs (prog : BTreeMap S (CompiledRuleSet e)) (m m' : BTreeMap S (TempStore X))
        : Type 0 where
      pub sorted : IsSorted m'
      pub outs : (k : S) (set : CompiledRuleSet e) → get k prog ≡ some set → Out P m' k
      pub others : (k : S) → get k prog ≡ none → get k m' ≡ get k m

    -- The first name, and then the others.
    module _ (j : S) (set : CompiledRuleSet e) (prog : BTreeMap S (CompiledRuleSet e))
        (apart : get j prog ≡ none) (x : Executes j set) (m : BTreeMap S (TempStore X)) where
      Outs-cons :
          (m' : BTreeMap S (TempStore X))
          → Outs prog (BTreeMap.insert j (normal x.out) m) m'
          → Outs ((j, set) ∷ prog) m m'
      Outs-cons m' r = record {
        sorted = r.sorted;
        outs = λ k v h. elim (key_cases k j set prog) [
          | inl (i, g) ↦ record {
            out = x.out;
            is =
                ap (λ y. get y m') i
                ∙ r.others j apart
                ∙ ground (arith, get-insert j j (normal x.out) m, s.cmp_self j);
            sorted = x.sorted;
            says = rw i x.says;
          }
          | inr (d, g) ↦ r.outs k v (sym g ∙ h)
        ];
        others = λ k h. elim (key_cases k j set prog) [
          | inl (i, g) ↦ absurd (cc)
          | inr (d, g) ↦ r.others k (sym g ∙ h) ∙ ground (arith, get-insert k j (normal x.out) m)
        ];
      }

    pub run_others-Outs :
        (prog : BTreeMap S (CompiledRuleSet e)) (m : BTreeMap S (TempStore X))
        → IsSorted prog
        → IsSorted m
        → ((k : S) (set : CompiledRuleSet e) → get k prog ≡ some set → Executes k set)
        → (m' : BTreeMap S (TempStore X)) × (run_others f draws first stores prog (gathered skip m)
            ≡ ok (gathered skip m'))
          × Outs prog m m'
    unfolding run_others
    run_others-Outs [] m q n all = (
      m,
      refl,
      record { sorted = n; outs = λ k v h. absurd (unfold get in cc); others = λ k h. refl },
    )
    run_others-Outs ((j, set) ∷ prog) m q n all =
        let apart : get j prog ≡ none = get-Above j prog q.0 in
        let here : get j ((j, set) ∷ prog) ≡ some set =
          unfold get in ground (arith, s.cmp_self j) in
        let x = all j set here in
        let rest : (k : S) (v : CompiledRuleSet e) → get k prog ≡ some v → Executes k v = λ k v h.
          elim (key_cases k j set prog) [
            | inl (i, g) ↦ absurd (cc (ap (λ y. get y prog) i))
            | inr (d, g) ↦ all k v (g ∙ h)
          ] in
        let (m', runs, r) =
          run_others-Outs prog (BTreeMap.insert j (normal x.out) m) q.1
            (insert-IsSorted j (normal x.out) m n) rest in
        (m', rw x.runs runs, Outs-cons j set prog apart x m m' r)
