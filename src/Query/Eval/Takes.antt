-- ===== src/Query/Eval/Takes.antt =====
-- The merge of one store, of a name without aggregations (retia-core/src/query/eval.rs).
use retia.Prelude.{
  ◌≡◌, refl, ap, ◌∙◌, sym, true, false, not, ◌&&◌, ◌||◌, is_some, [], ◌∷◌, arith, Bool-cases, inl,
  inr,
}
use retia.Prelude.Order.{Ord, list_ord}
use retia.Prelude.Result.{ok}
use retia.BTreeMap.{IsSorted, get}
use retia.Data.Value.{Externals, DataValue}
use retia.Runtime.TempStore.Regular.{Tuple, RegularTempStore}
use retia.Runtime.TempStore.Epoch
use retia.Runtime.TempStore.Epoch.{EpochStore, TempStore, normal, meet, delta_of, has_delta, is_nil}
use retia.Runtime.TempStore.Advance.{epoch, merge_in-Advances}
use retia.Query.Eval.View.{IsRegular, in_temp}

module _ {X : Externals} ⦃o : Ord (DataValue X)⦄ where
  -- `store'` is `store` with the tuples of `out`.
  pub record Takes (store : EpochStore X) (out : RegularTempStore X) (store' : EpochStore X)
      : Type 0 where
    pub regular : IsRegular store'
    pub totals :
        (t : Tuple X) → in_temp store'.total t ≡ (is_some (get t out) || in_temp store.total t)
    pub deltas :
        (t : Tuple X)
        → in_temp (delta_of store') t ≡ (is_some (get t out) && not (in_temp store.total t))
    pub news : has_delta store' ≡ true → (t : Tuple X) × (in_temp (delta_of store') t ≡ true)

  first_key :
      (m : RegularTempStore X) → not (is_nil m) ≡ true → (t : Tuple X) × (is_some (get t m) ≡ true)
  unfolding get
  first_key [] h = absurd (cc)
  first_key ((t, flag) ∷ m) h = (t, ground (arith, (list_ord {K = DataValue X}).cmp_self t))

  nothing : (m : TempStore X) (t : Tuple X) → Epoch.is_empty m ≡ true → in_temp m t ≡ false
  unfolding get
  nothing (normal []) t h = refl
  nothing (normal (e ∷ m)) t h = absurd (cc)
  nothing (meet m) t h = refl

  pub no_delta :
      (store : EpochStore X)
      → has_delta store ≡ false
      → (t : Tuple X) → in_temp (delta_of store) t ≡ false
  unfolding has_delta get
  no_delta store h t = elim (Bool-cases store.use_total_for_delta) [
    | inl e ↦ rw e (nothing store.total t (ground arith))
    | inr e ↦ rw e (nothing store.delta t (ground arith))
  ]

  pub merge_in-Takes :
      (store : EpochStore X) (out : RegularTempStore X)
      → IsRegular store
      → IsSorted out
      → (store' : EpochStore X) × (Epoch.merge_in store (normal out) ≡ ok store')
        × Takes store out store'
  merge_in-Takes store out g q =
      let (store', runs, a) =
        merge_in-Advances g.tuples g.prev out store.use_total_for_delta store.arity g.sorted q in
      let total : store'.total ≡ normal a.total' = ap (λ x. x.total) a.is_epoch in
      let old : store.total ≡ normal g.tuples = ap (λ x. x.total) g.is_epoch in
      let arity : store'.arity ≡ store.arity = ap (λ x. x.arity) a.is_epoch in
      let same_arity =
        a.is_epoch ∙ ap (λ n. epoch a.total' a.prev' store'.use_total_for_delta n) (sym arity) in
      (
        store',
        ap (λ x. Epoch.merge_in x (normal out)) g.is_epoch ∙ runs,
        record {
          regular = record {
            tuples = a.total';
            prev = a.prev';
            is_epoch = same_arity;
            sorted = a.sorted.0;
          };
          totals = λ t.
              ap (λ x. in_temp x t) total ∙ ground (arith, a.holds t, ap (λ x. in_temp x t) old);
          deltas = λ t.
              ap (λ x. in_temp x t) a.is_delta
              ∙ ground (arith, a.news t, ap (λ x. in_temp x t) old);
          news = λ h.
              let (t, i) = first_key a.delta' (sym a.flagged ∙ h) in
              (t, ap (λ x. in_temp x t) a.is_delta ∙ i);
        },
      )
