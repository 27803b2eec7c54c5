-- ===== src/Runtime/TempStore/Epoch.antt =====
-- `TempStore` and `EpochStore` (retia-core/src/runtime/temp_store.rs): what a rule has derived, and what
-- of it the last round has added.
use retia.Prelude.{ℕ, Bool, true, false, not, List, [], ◌∷◌, Option, length, if◌then◌else◌}
use retia.Prelude.Order.{Ord}
use retia.Prelude.Result.{Result, ok, panic, ◌>>=◌}
use retia.Data.Value.{Externals, DataValue, FloatOps}
use retia.Data.Aggr.Base.{Error}
use retia.Data.Aggr.Parse.{AggrName}
use retia.Runtime.TempStore.Regular
use retia.Runtime.TempStore.Regular.{Tuple, RegularTempStore, Merged}
use retia.Runtime.TempStore.Meet
use retia.Runtime.TempStore.Meet.{MeetAggrStore}
use retia.Runtime.TempStore.Iter.{TupleInIter, regular_range, meet_range, prefix_end}

pub data TempStore (X : Externals) : Type 0 where
  normal : RegularTempStore X → TempStore X
  meet : MeetAggrStore X → TempStore X

pub record EpochStore (X : Externals) : Type 0 where
  pub total : TempStore X
  pub delta : TempStore X
  pub use_total_for_delta : Bool
  pub arity : ℕ

abbrev pub is_nil {ℓ} : {A : Type ℓ} → List A → Bool
is_nil [] = true
is_nil _ = false

abbrev pub is_empty : {X : Externals} → TempStore X → Bool
is_empty (normal n) = is_nil n
is_empty (meet m) = is_nil m.inner

unfoldable pub new_normal : (X : Externals) → ℕ → EpochStore X
new_normal X arity = record {
  total = normal [];
  delta = normal [];
  use_total_for_delta = true;
  arity = arity;
}

module _ {X : Externals} (f : FloatOps X.F64) ⦃o : Ord (DataValue X)⦄ where
  unfoldable pub new_meet : List (Option AggrName) → Result Error (EpochStore X)
  new_meet aggrs = Meet.new f aggrs >>= λ total. Meet.new f aggrs >>= λ delta. ok (record {
    total = meet total;
    delta = meet delta;
    use_total_for_delta = true;
    arity = length aggrs;
  })

module _ {X : Externals} ⦃o : Ord (DataValue X)⦄ where
  unfoldable pub exists_in : Tuple X → TempStore X → Result Error Bool
  exists_in key (normal n) = ok (Regular.exists key n)
  exists_in key (meet m) = Meet.exists key m

  abbrev pub exists : Tuple X → EpochStore X → Result Error Bool
  exists key store = exists_in key store.total

  unfoldable pub range_iter :
      Tuple X → Tuple X → Bool → TempStore X → Result Error (List (TupleInIter X))
  range_iter lower upper upper_inclusive (normal n) = regular_range lower upper upper_inclusive n
  range_iter lower upper upper_inclusive (meet m) = meet_range lower upper upper_inclusive m

  -- Stores of different kinds are unreachable code.
  unfoldable pub merge_stores :
      TempStore X → TempStore X → TempStore X → Result Error (Merged (TempStore X))
  merge_stores (normal total) (normal prev) (normal incoming) =
      let m = Regular.merge_in total prev incoming in
      ok (record { total = normal m.total; prev = normal m.prev; same = m.same })
  merge_stores (meet total) (meet prev) (meet incoming) = Meet.merge_in total prev incoming >>= λ m.
      ok (record { total = meet m.total; prev = meet m.prev; same = m.same })
  merge_stores _ _ _ = panic

  unfoldable pub merge_in : EpochStore X → TempStore X → Result Error (EpochStore X)
  unfolding merge_stores
  merge_in store incoming = merge_stores store.total store.delta incoming >>= λ m. ok (record {
    total = m.total;
    delta = m.prev;
    use_total_for_delta = m.same;
    arity = store.arity;
  })

  -- What `delta_range_iter` and `has_delta` look at.
  abbrev pub delta_of : EpochStore X → TempStore X
  delta_of store = if store.use_total_for_delta then store.total else store.delta

  unfoldable pub has_delta : EpochStore X → Bool
  has_delta store =
      if store.use_total_for_delta then not (is_empty store.total) else not (is_empty store.delta)

  abbrev pub delta_range_iter :
      Tuple X → Tuple X → Bool → EpochStore X → Result Error (List (TupleInIter X))
  delta_range_iter lower upper upper_inclusive store =
      if store.use_total_for_delta
      then range_iter lower upper upper_inclusive store.total
      else range_iter lower upper upper_inclusive store.delta

  unfoldable pub prefix_iter : Tuple X → EpochStore X → Result Error (List (TupleInIter X))
  prefix_iter prefix store = range_iter prefix (prefix_end prefix) true store.total

  unfoldable pub delta_prefix_iter : Tuple X → EpochStore X → Result Error (List (TupleInIter X))
  delta_prefix_iter prefix store = delta_range_iter prefix (prefix_end prefix) true store

  abbrev pub all_iter : EpochStore X → Result Error (List (TupleInIter X))
  all_iter store = prefix_iter [] store

  abbrev not_skipped : List (TupleInIter X) → List (TupleInIter X)
  not_skipped [] = []
  not_skipped (t ∷ ts) = let rest = not_skipped ts in if t.should_skip then rest else t ∷ rest

  unfoldable pub early_returned_iter : EpochStore X → Result Error (List (TupleInIter X))
  early_returned_iter store = all_iter store >>= λ ts. ok (not_skipped ts)
