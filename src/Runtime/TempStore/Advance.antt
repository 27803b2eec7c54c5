-- ===== src/Runtime/TempStore/Advance.antt =====
-- A round of the evaluation on a store of tuples (retia-core/src/runtime/temp_store.rs).
use retia.Prelude.{ℕ, ◌+◌, ◌≡◌, refl, ap, ◌∙◌, sym, Bool, false, not, [], ◌∷◌, length, arith}
use retia.Prelude.Order.{Ord, list_ord}
use retia.Prelude.Result.{ok}
use retia.BTreeMap
use retia.BTreeMap.{BTreeMap, IsSorted}
use retia.Data.Value.{Externals, DataValue}
use retia.Runtime.TempStore.Regular
use retia.Runtime.TempStore.Regular.{Tuple, RegularTempStore, Merged, merge_entries}
use retia.Runtime.TempStore.Epoch
use retia.Runtime.TempStore.Epoch.{
  EpochStore, TempStore, normal, delta_of, has_delta, is_nil, merge_stores,
}
use retia.Runtime.TempStore.Merge.{
  or_else, if_new, or_else-none, if_new-none, merge_entries-same, get-merge_entries,
  get-merge_entries-prev, merge_entries-IsSorted, length-merge_entries,
}

abbrev pub epoch :
    {X : Externals} → RegularTempStore X → RegularTempStore X → Bool → ℕ → EpochStore X
epoch total delta use_total arity = record {
  total = normal total;
  delta = normal delta;
  use_total_for_delta = use_total;
  arity = arity;
}

module _ {X : Externals} ⦃o : Ord (DataValue X)⦄ where
  -- What a store is after `incoming` has been merged into one with the tuples `total`.
  pub record Advances (total incoming : RegularTempStore X) (arity : ℕ) (store : EpochStore X)
      : Type 0 where
    pub total' : RegularTempStore X
    pub prev' : RegularTempStore X
    pub delta' : RegularTempStore X
    pub is_epoch : store ≡ epoch total' prev' store.use_total_for_delta arity
    pub is_delta : delta_of store ≡ normal delta'
    pub sorted : IsSorted total' × IsSorted delta'
    pub holds :
        (p : Tuple X)
        → BTreeMap.get p total' ≡ or_else (BTreeMap.get p incoming) (BTreeMap.get p total)
    pub news :
        (p : Tuple X)
        → BTreeMap.get p delta' ≡ if_new (BTreeMap.get p total) (BTreeMap.get p incoming)
    pub grows : length total' ≡ length total + length delta'
    pub flagged : has_delta store ≡ not (is_nil delta')

  -- A merge of tuples into a store, both in order, succeeds. The store then holds each incoming tuple
  -- with its flag and every other one as before, its delta exactly the incoming tuples that were not
  -- there, it has grown by as many, and `has_delta` tells whether there are any.
  pub merge_in-Advances :
      (total prev incoming : RegularTempStore X) (use_total : Bool) (arity : ℕ)
      → IsSorted total
      → IsSorted incoming
      → (store : EpochStore X) × (Epoch.merge_in
            (epoch total prev use_total arity)
            (normal incoming)
          ≡ ok store)
        × Advances total incoming arity store
  unfolding Epoch.merge_in Regular.merge_in has_delta BTreeMap.get
  merge_in-Advances total prev [] use_total arity s t = (
    _,
    refl,
    record {
      total' = total;
      prev' = [];
      delta' = [];
      is_epoch = refl;
      is_delta = refl;
      sorted = (s, tt);
      holds = λ p. refl;
      news = λ p. sym (if_new-none (BTreeMap.get p total));
      grows = omega arith;
      flagged = refl;
    },
  )
  merge_in-Advances [] prev (e ∷ incoming) use_total arity s t = (
    _,
    refl,
    record {
      total' = e ∷ incoming;
      prev' = [];
      delta' = e ∷ incoming;
      is_epoch = refl;
      is_delta = refl;
      sorted = (t, t);
      holds = λ p. sym (or_else-none (BTreeMap.get p (e ∷ incoming)));
      news = λ p. refl;
      grows = omega arith;
      flagged = refl;
    },
  )
  merge_in-Advances (w ∷ total) prev (e ∷ incoming) use_total arity s t =
      let m = merge_entries (w ∷ total) [] (e ∷ incoming) in
      let kept = merge_entries-same (w ∷ total) [] (e ∷ incoming) in
      (
        epoch m.total m.prev false arity,
        ap (λ same. ok (epoch m.total m.prev same arity)) kept,
        record {
          total' = m.total;
          prev' = m.prev;
          delta' = m.prev;
          is_epoch = refl;
          is_delta = refl;
          sorted = merge_entries-IsSorted (w ∷ total) [] (e ∷ incoming) s tt;
          holds = λ p. get-merge_entries p (w ∷ total) [] (e ∷ incoming) t;
          news = λ p. get-merge_entries-prev p (w ∷ total) [] (e ∷ incoming) t ∙ or_else-none _;
          grows =
              omega (arith, length-merge_entries (w ∷ total) [] (e ∷ incoming) s tt (λ p h. refl));
          flagged = refl;
        },
      )
