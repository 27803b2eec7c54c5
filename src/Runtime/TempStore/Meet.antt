-- ===== src/Runtime/TempStore/Meet.antt =====
-- `MeetAggrStore` (retia-core/src/runtime/temp_store.rs): for each group the values of its meets.
use retia.Prelude.{
  ℕ, ◌-◌, ltb, Bool, true, false, ◌||◌, Option, none, some, List, [], ◌∷◌, is_some, length, take,
  drop, if◌then◌else◌,
}
use retia.Prelude.Order.{Ord, list_ord}
use retia.Prelude.Result.{Result, ok, panic, ◌>>=◌}
use retia.BTreeMap
use retia.BTreeMap.{BTreeMap}
use retia.Data.Value.{Externals, DataValue, FloatOps}
use retia.Data.Aggr.Base.{Error, MeetAggr}
use retia.Data.Aggr.Parse.{AggrName, meet_init}
use retia.Runtime.TempStore.Regular.{Tuple, Merged}

-- The values of the meets by the values that a group shares.
abbrev pub Groups : Externals → Type 0
Groups X = BTreeMap (Tuple X) (Tuple X)

-- `aggregations` holds the `meet_op` of each.
pub record MeetAggrStore (X : Externals) : Type 0 where
  pub inner : Groups X
  pub aggregations : List (MeetAggr X)
  pub grouping_len : ℕ

-- `aggrs.into_iter().flatten()`, each with `meet_init`.
unfoldable pub init_all :
    {X : Externals} (f : FloatOps X.F64) ⦃o : Ord (DataValue X)⦄
    → List (Option AggrName)
    → Result Error (List (MeetAggr X))
init_all f [] = ok []
init_all f (none ∷ aggrs) = init_all f aggrs
init_all {X} f (some aggr ∷ aggrs) =
    meet_init {X = X} f aggr >>= λ op. init_all f aggrs >>= λ ops. ok (op ∷ ops)

unfoldable pub new :
    {X : Externals} (f : FloatOps X.F64) ⦃o : Ord (DataValue X)⦄
    → List (Option AggrName)
    → Result Error (MeetAggrStore X)
unfolding init_all
new f aggrs = init_all f aggrs >>= λ ops.
    ok (record { inner = []; aggregations = ops; grouping_len = length aggrs - length ops })

module _ {X : Externals} where
  -- `changed |= op.update(&mut target[i], &v[i])?` for each of the aggregations.
  unfoldable pub update_all : List (MeetAggr X) → Tuple X → Tuple X → Result Error (Tuple X × Bool)
  update_all [] target v = ok (target, false)
  update_all (op ∷ ops) (a ∷ target) (b ∷ v) =
      op.update a b >>= λ r. update_all ops target v >>= λ rest. ok (r.0 ∷ rest.0, r.1 || rest.1)
  update_all (op ∷ ops) target v = panic

module _ {X : Externals} ⦃o : Ord (DataValue X)⦄ where
  -- A slice past the end of the tuple panics.
  abbrev pub split_at {ℓ} :
      {A : Type ℓ} → ℕ → Tuple X → (Tuple X → Tuple X → Result Error A) → Result Error A
  split_at n tuple k = if ltb (length tuple) n then panic else k (take n tuple) (drop n tuple)

  unfoldable pub exists : Tuple X → MeetAggrStore X → Result Error Bool
  exists key store =
      split_at store.grouping_len key
        (λ truncated _. ok (is_some (BTreeMap.get truncated store.inner)))

  unfoldable pub meet_put : Tuple X → MeetAggrStore X → Result Error (MeetAggrStore X × Bool)
  meet_put tuple store = split_at store.grouping_len tuple λ key_part val_part.
      elim (BTreeMap.get key_part store.inner) [
        | some prev_aggr ↦ update_all store.aggregations prev_aggr val_part >>= λ r.
            ok (record store { inner = BTreeMap.insert key_part r.0 store.inner }, r.1)
        | none ↦ ok (record store { inner = BTreeMap.insert key_part val_part store.inner }, true)
      ]

  -- One round of `for (k, v) in new.inner`, on the maps of `self` and `prev`.
  unfoldable pub merge_group :
      List (MeetAggr X)
      → Tuple X
      → Tuple X
      → Groups X
      → Groups X
      → Result Error (Groups X × Groups X)
  merge_group ops k v total prev = elim (BTreeMap.get k total) [
    | none ↦ ok (BTreeMap.insert k v total, BTreeMap.insert k v prev)
    | some target ↦ update_all ops target v >>= λ r.
        ok (BTreeMap.insert k r.0 total, if r.1 then BTreeMap.insert k r.0 prev else prev)
  ]

  unfoldable pub merge_groups :
      List (MeetAggr X) → Groups X → Groups X → Groups X → Result Error (Merged (Groups X))
  unfolding merge_group
  merge_groups ops total prev [] = ok (record { total = total; prev = prev; same = false })
  merge_groups ops total prev ((k, v) ∷ incoming) =
      merge_group ops k v total prev >>= λ next. merge_groups ops next.0 next.1 incoming

  unfoldable pub merge_maps :
      List (MeetAggr X) → Groups X → Groups X → Result Error (Merged (Groups X))
  unfolding merge_groups
  merge_maps ops total [] = ok (record { total = total; prev = []; same = false })
  merge_maps ops [] (e ∷ incoming) = ok (record { total = e ∷ incoming; prev = []; same = true })
  merge_maps ops (t ∷ total) (e ∷ incoming) = merge_groups ops (t ∷ total) [] (e ∷ incoming)

  -- The merged maps in their stores. Where the flag is set, `mem::swap` has put the whole of `new` in
  -- the place of `self`.
  abbrev pub put_back :
      MeetAggrStore X
      → MeetAggrStore X
      → MeetAggrStore X
      → Merged (Groups X)
      → Merged (MeetAggrStore X)
  put_back self prev incoming m = record {
    total = if m.same then incoming else record self { inner = m.total };
    prev = record prev { inner = m.prev };
    same = m.same;
  }

  unfoldable pub merge_in :
      MeetAggrStore X → MeetAggrStore X → MeetAggrStore X → Result Error (Merged (MeetAggrStore X))
  unfolding merge_maps
  merge_in self prev incoming = merge_maps self.aggregations self.inner incoming.inner >>= λ m.
      ok (put_back self prev incoming m)
