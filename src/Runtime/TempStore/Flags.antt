-- ===== src/Runtime/TempStore/Flags.antt =====
-- What the flags of `and` and `or` (retia-core/src/data/aggr.rs) make of the delta
-- (retia-core/src/runtime/temp_store.rs).
use retia.Prelude.{
  eq, ◌≡◌, ◌≢◌, ◌↔◌, refl, Bool, true, false, not, ◌&&◌, ◌||◌, some, [], ◌∷◌, if◌then◌else◌,
}
use retia.Prelude.Order.{Ord, list_ord}
use retia.Prelude.Result.{ok}
use retia.BTreeMap
use retia.Data.Value.{Externals, DataValue, bool}
use retia.Data.Aggr.Base.{MeetAggr}
use retia.Data.Aggr.Logic.{meet_aggr_and, meet_aggr_or}
use retia.Data.Aggr.Flags.{and_or_flags_inverted}
use retia.Runtime.TempStore.Regular.{Tuple, Merged}
use retia.Runtime.TempStore.Meet
use retia.Runtime.TempStore.Meet.{
  MeetAggrStore, Groups, merge_groups, merge_group, update_all, put_back,
}
use retia.Runtime.TempStore.MeetMerge.{delta_groups}
use retia.Runtime.TempStore.Epoch.{is_nil}

-- A store with one group, which has one aggregation.
abbrev pub one_group : {X : Externals} → MeetAggr X → Tuple X → DataValue X → MeetAggrStore X
one_group op k a = record { inner = (k, a ∷ []) ∷ []; aggregations = op ∷ []; grouping_len = 1 }

nil_flag {ℓ} : {A : Type ℓ} (x : A) (flag : Bool) → is_nil (if flag then x ∷ [] else []) ≡ not flag
nil_flag x true = refl
nil_flag x false = refl

-- An empty delta against a flag that says the opposite of what it should.
inverted : {P : Type 0} (d flag : Bool) → d ≡ not flag → (flag ≡ true) ↔ P → (d ≡ true) ↔ (P → ⊥)
inverted d true e means = (λ f p. absurd (cc), λ np. absurd (np (means.0 refl)))
inverted d false e means = (λ f p. let g = means.1 p in absurd (cc), λ np. e)

module _ {X : Externals} ⦃o : Ord (DataValue X)⦄ where
  abbrev left_group : Tuple X → DataValue X → Groups X → Merged (Groups X)
  left_group k c prev = record { total = (k, c ∷ []) ∷ []; prev = prev; same = false }

  get_one : (k v : Tuple X) → BTreeMap.get k ((k, v) ∷ []) ≡ some v
  unfolding BTreeMap.get
  get_one k v = let self : list_ord.cmp k k ≡ eq = list_ord.cmp_self k in rw (BTreeMap.get, self)

  insert_one :
      (k v w : Tuple X)
      → (BTreeMap.insert k v [] ≡ (k, v) ∷ []) × (BTreeMap.insert k v ((k, w) ∷ []) ≡ (k, v) ∷ [])
  unfolding BTreeMap.insert
  insert_one k v w =
      let self : list_ord.cmp k k ≡ eq = list_ord.cmp_self k in (refl, rw (BTreeMap.insert, self))

  update_one :
      (op : MeetAggr X) (a b c : DataValue X) (flag : Bool)
      → op.update a b ≡ ok (c, flag)
      → update_all (op ∷ []) (a ∷ []) (b ∷ []) ≡ ok (c ∷ [], flag)
  unfolding update_all
  update_one op a b c true h = rw h
  update_one op a b c false h = rw h

  group_one :
      (op : MeetAggr X) (k : Tuple X) (a b c : DataValue X) (flag : Bool)
      → op.update a b ≡ ok (c, flag)
      → merge_group (op ∷ []) k (b ∷ []) ((k, a ∷ []) ∷ []) []
        ≡ ok ((k, c ∷ []) ∷ [], if flag then (k, c ∷ []) ∷ [] else [])
  unfolding merge_group
  group_one op k a b c flag h =
      let old = get_one k (a ∷ []) in
      let updates = update_one op a b c flag h in
      let (fresh, over) = insert_one k (c ∷ []) (a ∷ []) in
      rw (merge_group, old, updates, fresh, over)

  merged_group :
      (op : MeetAggr X) (k : Tuple X) (a b c : DataValue X) (flag : Bool) (prev : MeetAggrStore X)
      → op.update a b ≡ ok (c, flag)
      → (m : Merged (MeetAggrStore X)) × (Meet.merge_in (one_group op k a) prev (one_group op k b)
          ≡ ok m)
        × (m.total.inner ≡ (k, c ∷ []) ∷ [])
        × (is_nil (delta_groups m) ≡ not flag)
  unfolding Meet.merge_in merge_groups
  merged_group op k a b c flag prev h =
      let runs = group_one op k a b c flag h in
      (
        put_back (one_group op k a) prev (one_group op k b)
            (left_group k c (if flag then (k, c ∷ []) ∷ [] else [])),
        rw runs,
        refl,
        nil_flag ((k, c ∷ [])) flag,
      )

  -- In a store with one group of one `and`, or of one `or`, a merge of another value of the group
  -- leaves the conjunction or the disjunction of the two, and the group is missing from the delta
  -- exactly where its value has changed.
  pub and_or_delta_inverted :
      (k : Tuple X) (a b : Bool) (prev : MeetAggrStore X)
      → (m n : Merged (MeetAggrStore X)) × (Meet.merge_in
            (one_group meet_aggr_and k (bool a))
            prev
            (one_group meet_aggr_and k (bool b))
          ≡ ok m)
        × (Meet.merge_in
              (one_group meet_aggr_or k (bool a))
              prev
              (one_group meet_aggr_or k (bool b))
            ≡ ok n)
        × (m.total.inner ≡ (k, bool (a && b) ∷ []) ∷ [])
        × (n.total.inner ≡ (k, bool (a || b) ∷ []) ∷ [])
        × ((is_nil (delta_groups m) ≡ true) ↔ ((a && b) ≢ a))
        × ((is_nil (delta_groups n) ≡ true) ↔ ((a || b) ≢ a))
  and_or_delta_inverted k a b prev =
      let (flag, flag', runs, runs', means, means') = and_or_flags_inverted {X = X} a b in
      let (m, merges, total, delta) =
        merged_group meet_aggr_and k (bool a) (bool b) (bool (a && b)) flag prev runs in
      let (n, merges', total', delta') =
        merged_group meet_aggr_or k (bool a) (bool b) (bool (a || b)) flag' prev runs' in
      (
        m,
        n,
        merges,
        merges',
        total,
        total',
        inverted _ flag delta means,
        inverted _ flag' delta' means',
      )
