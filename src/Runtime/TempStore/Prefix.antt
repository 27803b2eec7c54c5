-- ===== src/Runtime/TempStore/Prefix.antt =====
-- What a scan by a prefix yields (retia-core/src/runtime/temp_store.rs).
use retia.Prelude.{ℕ, ◌≡◌, refl, Bool, true, false, [], ◌∷◌, map, if◌then◌else◌, arith, All}
use retia.Prelude.Order.{Ord, list_ord, cmp_list, lt?, eq?, ◌≺◌}
use retia.Prelude.Result.{ok}
use retia.BTreeMap.{filter_keys}
use retia.Data.Value.{Externals, DataValue, bot}
use retia.Runtime.TempStore.Regular.{Tuple, RegularTempStore}
use retia.Runtime.TempStore.Iter.{within, regular_item, regular_range, prefix_end}
use retia.Runtime.TempStore.Epoch.{range_iter, prefix_iter}
use retia.Runtime.TempStore.Advance.{epoch}

module _ {X : Externals} ⦃o : Ord (DataValue X)⦄ where
  abbrev pub starts_with : Tuple X → Tuple X → Bool
  starts_with [] t = true
  starts_with (x ∷ prefix) [] = false
  starts_with (x ∷ prefix) (y ∷ t) = if eq? x y then starts_with prefix t else false

  -- `Bot` is in no tuple of a store, and is behind every value of one.
  abbrev pub Below : DataValue X → Type 0
  Below v = v ≺ bot

  within-prefix :
      (prefix t : Tuple X)
      → All Below t
      → within prefix (prefix_end prefix) true t ≡ starts_with prefix t
  unfolding list_ord cmp_list
  within-prefix [] [] b = refl
  within-prefix [] (y ∷ t) b = ground arith
  within-prefix (x ∷ prefix) [] b = ground arith
  within-prefix (x ∷ prefix) (y ∷ t) b = ground (
    arith,
    within-prefix prefix t,
    o.eq_of_cmp x y,
    o.eq_of_cmp y x,
    o.cmp_self x,
    o.lt_of_gt x y,
    o.gt_of_lt x y,
    o.lt_of_gt y x,
    o.gt_of_lt y x,
  )

  prefix_in_order : (prefix : Tuple X) → lt? (prefix_end prefix) prefix ≡ false
  unfolding list_ord cmp_list
  prefix_in_order [] = refl
  prefix_in_order (x ∷ prefix) = ground (arith, prefix_in_order prefix, o.cmp_self x)

  filter_cong :
      (test test' : Tuple X → Bool) (store : RegularTempStore X)
      → All (λ e. test e.0 ≡ test' e.0) store
      → filter_keys test store ≡ filter_keys test' store
  unfolding filter_keys
  filter_cong test test' [] h = refl
  filter_cong test test' ((k, v) ∷ store) h = rw (h.0, filter_cong test test' store h.1)

  within-All :
      (prefix : Tuple X) (store : RegularTempStore X)
      → All (λ e. All Below e.0) store
      → All (λ e. within prefix (prefix_end prefix) true e.0 ≡ starts_with prefix e.0) store
  within-All prefix [] b = tt
  within-All prefix ((k, v) ∷ store) b = (within-prefix prefix k b.0, within-All prefix store b.1)

  -- A scan by a prefix never panics and yields the tuples that start with the prefix, in order and
  -- with their flags, as long as every value of a tuple of the store comes before `Bot`.
  pub prefix_iter-starts_with :
      (prefix : Tuple X) (total delta : RegularTempStore X) (use_total : Bool) (arity : ℕ)
      → All (λ e. All Below e.0) total
      → prefix_iter prefix (epoch total delta use_total arity)
        ≡ ok (map regular_item (filter_keys (starts_with prefix) total))
  unfolding prefix_iter range_iter regular_range
  prefix_iter-starts_with prefix total delta use_total arity b = rw (
    prefix_in_order prefix,
    filter_cong (within prefix (prefix_end prefix) true) (starts_with prefix) total
        (within-All prefix total b),
  )
