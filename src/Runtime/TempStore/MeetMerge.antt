-- ===== src/Runtime/TempStore/MeetMerge.antt =====
-- What a merge of groups leaves (retia-core/src/runtime/temp_store.rs).
use retia.Prelude.{
  eq, ◌≡◌, refl, ap, ◌∙◌, sym, true, false, Option, none, some, ◌⊎◌, List, [], ◌∷◌, if◌then◌else◌,
  arith, Bool-cases, inl, inr,
}
use retia.Prelude.Order.{Ord, list_ord, eq?}
use retia.Prelude.Result.{Result, ok, err, panic}
use retia.BTreeMap
use retia.BTreeMap.{BTreeMap, IsSorted}
use retia.BTreeMap.Laws.{get-Above}
use retia.Data.Value.{Externals, DataValue}
use retia.Data.Aggr.Base.{Error, MeetAggr}
use retia.Data.Aggr.Init.{returns}
use retia.Runtime.TempStore.Regular.{Tuple, Merged}
use retia.Runtime.TempStore.Meet
use retia.Runtime.TempStore.Meet.{
  MeetAggrStore, Groups, update_all, merge_group, merge_groups, merge_maps, put_back,
}
use retia.Runtime.TempStore.Merge.{or_else, or_else-none}
use retia.Runtime.TempStore.MeetRound.{meet_point, before, Stepped, step_from}

module _ {X : Externals} ⦃o : Ord (DataValue X)⦄ (ops : List (MeetAggr X)) where
  -- What the loop leaves at every group.
  abbrev Left : Groups X → Groups X → Groups X → Merged (Groups X) → Type 0
  Left total prev incoming m =
      (p : Tuple X)
      → before (BTreeMap.get p prev)
          (meet_point ops (BTreeMap.get p total) (BTreeMap.get p incoming))
        ≡ ok (BTreeMap.get p m.total, BTreeMap.get p m.prev)

  eq_of_cmp_tuple : (p k : Tuple X) → list_ord.cmp p k ≡ eq → p ≡ k
  eq_of_cmp_tuple p k h = list_ord.eq_of_cmp p k h

  get-cons :
      (p k v : Tuple X) (incoming : Groups X)
      → BTreeMap.get p ((k, v) ∷ incoming) ≡ (if eq? p k then some v else BTreeMap.get p incoming)
  unfolding BTreeMap.get
  get-cons p k v incoming = ground arith

  same_or_other : (p k : Tuple X) → (p ≡ k) ⊎ (eq? p k ≡ false)
  same_or_other p k = elim (Bool-cases (eq? p k)) [
    | inl e ↦ inl (ground (arith, eq_of_cmp_tuple p k))
    | inr e ↦ inr e
  ]

  eq_self : (k : Tuple X) → eq? k k ≡ true
  eq_self k = let e : list_ord.cmp k k ≡ eq = list_ord.cmp_self k in rw (eq?, e)

  -- At the group of the round, the rest of the loop finds nothing.
  here :
      (a now news old x y i n m : Option (Tuple X)) (v : Tuple X)
      → meet_point ops a (some v) ≡ ok (now, news)
      → i ≡ none
      → n ≡ now
      → m ≡ or_else news old
      → before m (meet_point ops n i) ≡ ok (x, y)
      → before old (meet_point ops a (some v)) ≡ ok (x, y)
  here a now news old x y i n m v point e f g h = rw point (cc)

  module _ (k v : Tuple X) (total prev incoming : Groups X) (next : Groups X × Groups X)
      (step : Stepped ops k v total prev next) (s : IsSorted ((k, v) ∷ incoming)) where
    rest_returns :
        (p : Tuple X)
        → returns (meet_point ops (BTreeMap.get p total) (BTreeMap.get p ((k, v) ∷ incoming)))
          ≡ true
        → returns (meet_point ops (BTreeMap.get p next.0) (BTreeMap.get p incoming)) ≡ true
    rest_returns p h = elim (same_or_other p k) [
      | inl e ↦ rw (e, get-Above k incoming s.0)
      | inr e ↦ rw (step.total_gets p, e) (rw (get-cons p k v incoming, e) at h)
    ]

    rest_leaves :
        (m : Merged (Groups X))
        → Left next.0 next.1 incoming m
        → Left total prev ((k, v) ∷ incoming) m
    rest_leaves m left p = elim (same_or_other p k) [
      | inl e ↦
          let self = eq_self k in
          let total_get = step.total_gets k in
          let prev_get = step.prev_gets k in
          rw (e, get-cons k k v incoming, self)
            (here _ step.now step.news _ _ _ _ _ _ v step.point (get-Above k incoming s.0)
              (rw (total_get, self)) (rw (prev_get, self)) (left k))
      | inr e ↦
          let total_get = step.total_gets p in
          let prev_get = step.prev_gets p in
          let before_it = left p in
          rw (get-cons p k v incoming, e) (rw (total_get, prev_get, e) at before_it)
    ]

  loop_leaves :
      (total prev incoming : Groups X)
      → IsSorted incoming
      → ((p : Tuple X)
          → returns (meet_point ops (BTreeMap.get p total) (BTreeMap.get p incoming)) ≡ true)
      → (m : Merged (Groups X)) × (merge_groups ops total prev incoming ≡ ok m)
        × (m.same ≡ false)
        × Left total prev incoming m
  unfolding merge_groups
  loop_leaves total prev [] s h = (_, refl, refl, unfold BTreeMap.get in λ p. refl)
  loop_leaves total prev ((k, v) ∷ incoming) s h =
      let head = h k in
      let (next, runs, step) =
        step_from ops k v total prev (BTreeMap.get k total) refl
          (rw (get-cons k k v incoming, eq_self k) at head) in
      let (m, goes_on, same, left) =
        loop_leaves next.0 next.1 incoming s.1
          (λ p. rest_returns k v total prev incoming next step s p (h p)) in
      (m, rw (runs, goes_on), same, rest_leaves k v total prev incoming next step s m left)

module _ {X : Externals} ⦃o : Ord (DataValue X)⦄ where
  -- What the delta of a store is after the merge that left `m`.
  abbrev pub delta_groups : Merged (MeetAggrStore X) → Groups X
  delta_groups m = if m.same then m.total.inner else m.prev.inner

  before-none : (u : Result Error (Option (Tuple X) × Option (Tuple X))) → before none u ≡ u
  before-none (ok (a, b)) = ap (λ c. ok (a, c)) (or_else-none b)
  before-none (err e) = refl
  before-none panic = refl

  meet_point-none :
      (ops : List (MeetAggr X)) (b : Option (Tuple X)) → meet_point ops none b ≡ ok (b, b)
  meet_point-none ops none = refl
  meet_point-none ops (some v) = refl

  maps_leave :
      (ops : List (MeetAggr X)) (total incoming : Groups X)
      → IsSorted incoming
      → ((p : Tuple X)
          → returns (meet_point ops (BTreeMap.get p total) (BTreeMap.get p incoming)) ≡ true)
      → (m : Merged (Groups X)) × (merge_maps ops total incoming ≡ ok m)
        × (m.same ≡ true → m.total ≡ incoming)
        × ((p : Tuple X)
            → meet_point ops (BTreeMap.get p total) (BTreeMap.get p incoming)
              ≡ ok (BTreeMap.get p m.total, BTreeMap.get p (if m.same then m.total else m.prev)))
  unfolding merge_maps
  maps_leave ops total [] s h = (_, refl, λ e. absurd (cc), unfold BTreeMap.get in λ p. refl)
  maps_leave ops [] (e ∷ incoming) s h = (
    _,
    refl,
    λ e. refl,
    unfold BTreeMap.get in λ p. meet_point-none ops (BTreeMap.get p (e ∷ incoming)),
  )
  maps_leave ops (t ∷ total) (e ∷ incoming) s h =
      let (m, runs, same, left) = loop_leaves ops (t ∷ total) [] (e ∷ incoming) s h in
      (
        m,
        runs,
        λ e. absurd (cc),
        λ p. rw same (sym (before-none _) ∙ unfold BTreeMap.get in left p),
      )

  inner_of :
      (self incoming : MeetAggrStore X) (m : Merged (Groups X))
      → (m.same ≡ true → m.total ≡ incoming.inner)
      → (if m.same then incoming else record self { inner = m.total }).inner ≡ m.total
  inner_of self incoming m h = elim (Bool-cases m.same) [ inl e ↦ rw (e, h e) | inr e ↦ rw e ]

  -- A merge of groups into a store, the incoming ones in order, succeeds where the updates of the
  -- groups of both sides do. Each group is then as `meet_point` says: one of either side alone as it
  -- was, one of both updated; and the delta has the new groups, and of the updated ones those whose
  -- update has reported a change.
  pub merge_in-meet_point :
      (self prev incoming : MeetAggrStore X)
      → IsSorted incoming.inner
      → ((p : Tuple X)
          → returns (
              meet_point self.aggregations
                (BTreeMap.get p self.inner)
                (BTreeMap.get p incoming.inner))
            ≡ true)
      → (m : Merged (MeetAggrStore X)) × (Meet.merge_in self prev incoming ≡ ok m)
        × ((p : Tuple X)
            → meet_point self.aggregations
                (BTreeMap.get p self.inner)
                (BTreeMap.get p incoming.inner)
              ≡ ok (BTreeMap.get p m.total.inner, BTreeMap.get p (delta_groups m)))
  unfolding Meet.merge_in
  merge_in-meet_point self prev incoming s h =
      let (m, runs, swapped, left) = maps_leave self.aggregations self.inner incoming.inner s h in
      let inner = inner_of self incoming m swapped in
      (put_back self prev incoming m, rw runs refl, λ p. rw inner (left p))
