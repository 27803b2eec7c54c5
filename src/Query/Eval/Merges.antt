-- ===== src/Query/Eval/Merges.antt =====
-- The merge at the end of an epoch (retia-core/src/query/eval.rs).
use retia.Prelude.{
  ◌≡◌, ◌⊎◌, refl, ap, ◌∙◌, sym, Bool, true, false, ◌||◌, none, some, is_some, [], ◌∷◌, arith,
  Bool-cases, inl, inr,
}
use retia.Prelude.Order.{Ord, list_ord, eq?}
use retia.Prelude.Result.{ok}
use retia.BTreeMap
use retia.BTreeMap.{BTreeMap, IsSorted, get}
use retia.BTreeMap.Laws.{get-insert, get-Above, key_cases}
use retia.Data.Value.{Externals, DataValue}
use retia.Runtime.TempStore.Regular.{RegularTempStore}
use retia.Runtime.TempStore.Epoch
use retia.Runtime.TempStore.Epoch.{EpochStore, TempStore, normal, meet, delta_of, has_delta, is_nil}
use retia.Query.Eval.Rules.{Stores}
use retia.Query.Eval.Epochs.{merge_all}
use retia.Query.Eval.View.{IsRegular, has_news}
use retia.Query.Eval.Takes.{Takes, merge_in-Takes}

module _ {X : Externals} {S : Type 0} ⦃o : Ord (DataValue X)⦄ ⦃s : Ord S⦄ where
  -- What an entry of `to_merge` needs, and what it makes of the store of its name.
  pub record Mergeable (stores : Stores X S) (k : S) (new : TempStore X) : Type 0 where
    pub store : EpochStore X
    pub out : RegularTempStore X
    pub stored : get k stores ≡ some store
    pub is_normal : new ≡ normal out
    pub regular : IsRegular store
    pub sorted : IsSorted out

  pub record IsMerged (stores stores' : Stores X S) (k : S) (new : TempStore X) : Type 0 where
    pub store : EpochStore X
    pub out : RegularTempStore X
    pub store' : EpochStore X
    pub was : get k stores ≡ some store
    pub is_normal : new ≡ normal out
    pub is : get k stores' ≡ some store'
    pub takes : Takes store out store'

  pub record Merges (to_merge : BTreeMap S (TempStore X)) (stores : Stores X S) (before : Bool)
      (stores' : Stores X S) (changed : Bool) : Type 0 where
    pub others : (k : S) → get k to_merge ≡ none → get k stores' ≡ get k stores
    pub merged :
        (k : S) (new : TempStore X) → get k to_merge ≡ some new → IsMerged stores stores' k new
    pub settled :
        changed ≡ false
        → (before ≡ false)
          × ((k : S) → is_some (get k to_merge) ≡ true → has_news (get k stores') ≡ false)
    pub changes :
        changed ≡ true
        → (before ≡ true)
          ⊎ ((k : S) × (is_some (get k to_merge) ≡ true) × (has_news (get k stores') ≡ true))

  -- One entry: the others are merged into the stores that it leaves.
  module _ (j : S) (new : TempStore X) (to_merge : BTreeMap S (TempStore X)) (stores : Stores X S)
      (apart : get j to_merge ≡ none) (store : EpochStore X) (out : RegularTempStore X)
      (store' : EpochStore X) (was : get j stores ≡ some store) (is_normal : new ≡ normal out)
      (takes : Takes store out store') where
    abbrev next : Stores X S
    next = BTreeMap.insert j store' stores

    get-next : (k : S) → eq? k j ≡ false → get k next ≡ get k stores
    get-next k e = ground (arith, get-insert k j store' stores)

    get-next_self : get j next ≡ some store'
    get-next_self = ground (arith, get-insert j j store' stores, s.cmp_self j)

    Mergeable-next :
        ((k : S) (v : TempStore X) → get k ((j, new) ∷ to_merge) ≡ some v → Mergeable stores k v)
        → (k : S) (v : TempStore X) → get k to_merge ≡ some v
        → Mergeable next k v
    Mergeable-next ready k v h = elim (key_cases k j new to_merge) [
      | inl (i, g) ↦ absurd (cc (ap (λ x. get x to_merge) i))
      | inr (e, g) ↦
          let r = ready k v (g ∙ h) in
          record {
            store = r.store;
            out = r.out;
            stored = get-next k e ∙ r.stored;
            is_normal = r.is_normal;
            regular = r.regular;
            sorted = r.sorted;
          }
    ]

    module _ (before : Bool) (stores' : Stores X S) (changed : Bool)
        (m : Merges to_merge next (before || has_delta store') stores' changed) where
      get-end : get j stores' ≡ some store'
      get-end = m.others j apart ∙ get-next_self

      Merges-cons : Merges ((j, new) ∷ to_merge) stores before stores' changed
      Merges-cons = record {
        others = λ k h. elim (key_cases k j new to_merge) [
          | inl (i, g) ↦ absurd (cc)
          | inr (e, g) ↦ m.others k (sym g ∙ h) ∙ get-next k e
        ];
        merged = λ k v h. elim (key_cases k j new to_merge) [
          | inl (i, g) ↦ record {
            store = store;
            out = out;
            store' = store';
            was = ap (λ x. get x stores) i ∙ was;
            is_normal = cc;
            is = ap (λ x. get x stores') i ∙ get-end;
            takes = takes;
          }
          | inr (e, g) ↦
              let r = m.merged k v (sym g ∙ h) in
              record {
                store = r.store;
                out = r.out;
                store' = r.store';
                was = sym (get-next k e) ∙ r.was;
                is_normal = r.is_normal;
                is = r.is;
                takes = r.takes;
              }
        ];
        settled = λ h.
            let (b, rest) = m.settled h in
            (
              ground arith,
              λ k i. elim (key_cases k j new to_merge) [
                | inl (i, g) ↦
                    ap (λ x. has_news (get x stores')) i ∙ ap has_news get-end ∙ ground arith
                | inr (e, g) ↦ rest k (ap is_some (sym g) ∙ i)
              ],
            );
        changes = λ h.
            let first : is_some (get j ((j, new) ∷ to_merge)) ≡ true =
              unfold get in ground (arith, s.cmp_self j) in
            elim (m.changes h) [
              | inl b ↦ elim (Bool-cases before) [
                | inl c ↦ inl c
                | inr c ↦ inr (j, first, ap has_news get-end ∙ ground arith)
              ]
              | inr (k, inside, news) ↦ elim (key_cases k j new to_merge) [
                | inl (i, g) ↦ inr (k, ap is_some g, news)
                | inr (e, g) ↦ inr (k, ap is_some g ∙ inside, news)
              ]
            ];
      }

  merges :
      (j : S) (new : TempStore X) (to_merge : BTreeMap S (TempStore X)) (stores : Stores X S)
      (before : Bool) (store : EpochStore X) (out : RegularTempStore X) (store' : EpochStore X)
      → get j stores ≡ some store
      → new ≡ normal out
      → Epoch.merge_in store (normal out) ≡ ok store'
      → merge_all ((j, new) ∷ to_merge) stores before
        ≡ merge_all to_merge (BTreeMap.insert j store' stores) (before || has_delta store')
  unfolding merge_all
  merges j new to_merge stores before store out store' was is_normal runs =
      rw (was, is_normal) (rw runs refl)

  pub merge_all-Merges :
      (to_merge : BTreeMap S (TempStore X)) (stores : Stores X S) (before : Bool)
      → IsSorted to_merge
      → ((k : S) (new : TempStore X) → get k to_merge ≡ some new → Mergeable stores k new)
      → (stores' : Stores X S) × (changed : Bool) × (merge_all to_merge stores before
          ≡ ok (stores', changed))
        × Merges to_merge stores before stores' changed
  unfolding merge_all get
  merge_all-Merges [] stores before q ready = (
    stores,
    before,
    refl,
    record {
      others = λ k h. refl;
      merged = λ k new (h : none ≡ some new). absurd (cc);
      settled = λ h. (h, λ k (i : false ≡ true). absurd (cc));
      changes = λ h. inl h;
    },
  )
  merge_all-Merges ((j, new) ∷ to_merge) stores before q ready =
      let a = ready j new (ground (arith, s.cmp_self j)) in
      let (store', runs, takes) = merge_in-Takes a.store a.out a.regular a.sorted in
      let apart : get j to_merge ≡ none = get-Above j to_merge q.0 in
      let (stores', changed, runs', m) =
        merge_all-Merges to_merge (BTreeMap.insert j store' stores) (before || has_delta store') q.1
          (Mergeable-next j new to_merge stores apart a.store a.out store' a.stored a.is_normal
            takes ready) in
      (
        stores',
        changed,
        merges j new to_merge stores before a.store a.out store' a.stored a.is_normal runs ∙ runs',
        Merges-cons j new to_merge stores apart a.store a.out store' a.stored a.is_normal takes
            before stores' changed m,
      )
