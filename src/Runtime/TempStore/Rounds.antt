-- ===== src/Runtime/TempStore/Rounds.antt =====
-- The rounds of an evaluation on one store of tuples (retia-core/src/query/eval.rs calls `merge_in` of
-- retia-core/src/runtime/temp_store.rs once a round).
use retia.Prelude.{
  ℕ, ◌≡◌, refl, ap, ◌∙◌, Bool, true, false, ◌||◌, List, [], ◌∷◌, is_some, arith, All,
}
use retia.Prelude.Order.{Ord, list_ord}
use retia.Prelude.Result.{Result, ok, ◌>>=◌}
use retia.BTreeMap
use retia.BTreeMap.{BTreeMap, IsSorted}
use retia.Data.Value.{Externals, DataValue}
use retia.Data.Aggr.Base.{Error}
use retia.Runtime.TempStore.Regular.{Tuple, RegularTempStore}
use retia.Runtime.TempStore.Epoch
use retia.Runtime.TempStore.Epoch.{EpochStore, normal, delta_of, new_normal}
use retia.Runtime.TempStore.Advance.{epoch, merge_in-Advances}

module _ {X : Externals} ⦃o : Ord (DataValue X)⦄ where
  -- `old_store.merge_in(new_store)?` of each round.
  unfoldable pub merge_rounds :
      List (RegularTempStore X) → EpochStore X → Result Error (EpochStore X)
  merge_rounds [] store = ok store
  merge_rounds (incoming ∷ rounds) store =
      Epoch.merge_in store (normal incoming) >>= merge_rounds rounds

  -- Whether a tuple has come in any of the rounds.
  abbrev pub derived : Tuple X → List (RegularTempStore X) → Bool
  derived p [] = false
  derived p (incoming ∷ rounds) = is_some (BTreeMap.get p incoming) || derived p rounds

  rounds_from :
      (rounds : List (RegularTempStore X)) (total prev : RegularTempStore X) (use_total : Bool)
      (arity : ℕ)
      → All IsSorted rounds
      → IsSorted total
      → (total' prev' : RegularTempStore X) × (use_total' : Bool) × (merge_rounds rounds
            (epoch total prev use_total arity)
          ≡ ok (epoch total' prev' use_total' arity))
        × IsSorted total'
        × ((p : Tuple X)
            → is_some (BTreeMap.get p total')
              ≡ (is_some (BTreeMap.get p total) || derived p rounds))
  unfolding merge_rounds
  rounds_from [] total prev use_total arity s t =
      (total, prev, use_total, refl, t, λ p. ground arith)
  rounds_from (incoming ∷ rounds) total prev use_total arity s t =
      let (store, runs, step) = merge_in-Advances total prev incoming use_total arity t s.0 in
      let (total', prev', use_total', goes_on, sorted, holds) =
        rounds_from rounds step.total' step.prev' store.use_total_for_delta arity s.1
          step.sorted.0 in
      (
        total',
        prev',
        use_total',
        rw (runs) (ap (merge_rounds rounds) step.is_epoch ∙ goes_on),
        sorted,
        λ p. ground (arith, holds p, step.holds p),
      )

  -- Any rounds of merges of tuples in order into a new store succeed, and the store then holds
  -- the tuples that have come in a round and no others, in order.
  pub merge_rounds-derived :
      (rounds : List (RegularTempStore X)) (arity : ℕ)
      → All IsSorted rounds
      → (total' prev' : RegularTempStore X) × (use_total' : Bool) × (merge_rounds rounds
            (new_normal X arity)
          ≡ ok (epoch total' prev' use_total' arity))
        × IsSorted total'
        × ((p : Tuple X) → is_some (BTreeMap.get p total') ≡ derived p rounds)
  unfolding new_normal BTreeMap.get
  merge_rounds-derived rounds arity s = rounds_from rounds [] [] true arity s tt
