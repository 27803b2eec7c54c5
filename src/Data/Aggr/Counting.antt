-- ===== src/Data/Aggr/Counting.antt =====
-- What the counting and the collecting aggregations return (retia-core/src/data/aggr.rs).
use mathlib.Core.List.{append-nil, append_assoc}
use retia.Prelude.{
  ℕ, zero, suc, ◌+◌, ◌-◌, ◌≤◌, ◌<◌, ◌^◌, ◌==◌, ◌≡◌, refl, ap, ◌∙◌, sym, false, Option, none, some,
  List, [], ◌∷◌, ◌++◌, length, take, arith, leb, length-append, Bool-cases, inl, inr,
}
use retia.Prelude.Order.{Ord}
use retia.Prelude.Result.{ok}
use retia.BTreeSet
use retia.BTreeSet.{BTreeSet, contains, IsSorted}
use retia.BTreeSet.Laws.{
  contains-extend, extend-IsSorted, insert-IsSorted, insert-of_contains, length-insert,
}
use retia.Data.Value.{Externals, DataValue, num, int, list, of_list, pos}
use retia.Data.Aggr.Count.{count_set, aggr_count, Collect, collect_set, aggr_collect}
use retia.Data.Aggr.Sets.{unique_set, aggr_unique, count_unique_set, aggr_count_unique}
use retia.Data.Aggr.Run.{fold_set, normal_result}

take-nil {ℓ} : {A : Type ℓ} (n : ℕ) → take {A = A} n [] ≡ []
take-nil zero = refl
take-nil (suc n) = refl

module _ {X : Externals} where
  count_run :
      (n : ℕ) (vs : List (DataValue X))
      → n + length vs < 2 ^ 63
      → fold_set aggr_count (pos n) vs ≡ ok (pos (n + length vs))
  unfolding fold_set count_set
  count_run n [] h = ap (λ (k : ℕ). ok (pos k)) (omega arith)
  count_run n (v ∷ vs) h =
      let more : (suc n == 2 ^ 63) ≡ false = ground arith in
      rw (more, count_run (suc n) vs (omega arith)) (ap (λ (k : ℕ). ok (pos k)) (omega arith))

  -- `count` returns the number of values, while it is below the bound of an i64.
  pub count-length :
      (vs : List (DataValue X))
      → length vs < 2 ^ 63
      → normal_result aggr_count vs ≡ ok (num (int (pos (length vs))))
  unfolding normal_result
  count-length vs h =
      let run = count_run 0 vs (omega arith) in
      let e : 0 + length vs ≡ length vs = omega arith in rw (run, e)

  collect_cong :
      (limit : Option ℕ) {a b : List (DataValue X)}
      → a ≡ b
      → ◌≡◌ {A = Collect X}
          (record { limit = limit; accum = a })
          (record { limit = limit; accum = b })
  collect_cong limit e = cc

  take_nil :
      (limit : ℕ) (accum : List (DataValue X)) → accum ++ take (limit - length accum) [] ≡ accum
  take_nil limit accum = rw take-nil (append-nil accum)

  collect_all :
      (accum vs : List (DataValue X))
      → fold_set (aggr_collect none) (record { limit = none; accum = accum }) vs
        ≡ ok (record { limit = none; accum = accum ++ vs })
  unfolding fold_set collect_set
  collect_all accum [] = ap ok (collect_cong none (sym (append-nil accum)))
  collect_all accum (v ∷ vs) =
      collect_all (accum ++ v ∷ []) vs ∙ ap ok (collect_cong none (append_assoc accum (v ∷ []) vs))

  collect_run :
      (limit : ℕ) (accum vs : List (DataValue X))
      → length accum ≤ limit
      → fold_set (aggr_collect (some limit)) (record { limit = some limit; accum = accum }) vs
        ≡ ok (record { limit = some limit; accum = accum ++ take (limit - length accum) vs })
  unfolding fold_set collect_set
  collect_run limit accum [] h = ap ok (collect_cong (some limit) (sym (take_nil limit accum)))
  collect_run limit accum (v ∷ vs) h = elim (Bool-cases (leb limit (length accum))) [
    | inl full ↦
        let e : limit - length accum ≡ 0 = ground arith in
        rw full (collect_run limit accum vs h ∙ rw e)
    | inr room ↦
        let l = length-append accum (v ∷ []) in
        let e : limit - length accum ≡ suc (limit - length (accum ++ v ∷ [])) = ground (arith, l) in
        rw (room, collect_run limit (accum ++ v ∷ []) vs (ground (arith, l)), e)
          (ap ok (collect_cong (some limit) (append_assoc accum (v ∷ []) _)))
  ]

  -- `collect` returns the first values up to its limit, and all of them without one.
  pub collect-take :
      (limit : ℕ) (vs : List (DataValue X))
      → (normal_result (aggr_collect (some limit)) vs ≡ ok (list (of_list (take limit vs))))
        × (normal_result (aggr_collect none) vs ≡ ok (list (of_list vs)))
  unfolding normal_result
  collect-take limit vs =
      let e : limit - 0 ≡ limit = omega arith in
      (rw (collect_run limit [] vs (omega arith), e), rw (collect_all [] vs))

module _ {X : Externals} ⦃o : Ord (DataValue X)⦄ where
  unique_run :
      (accum : BTreeSet (DataValue X)) (vs : List (DataValue X))
      → fold_set aggr_unique accum vs ≡ ok (BTreeSet.extend accum vs)
  unfolding fold_set unique_set BTreeSet.extend
  unique_run accum [] = refl
  unique_run accum (v ∷ vs) = unique_run (BTreeSet.insert v accum) vs

  count_unique_run :
      (accum : BTreeSet (DataValue X)) (vs : List (DataValue X))
      → IsSorted accum
      → length accum + length vs < 2 ^ 63
      → fold_set aggr_count_unique (record { count = pos (length accum); accum = accum }) vs
        ≡ ok (record {
          count = pos (length (BTreeSet.extend accum vs));
          accum = BTreeSet.extend accum vs;
        })
  unfolding fold_set count_unique_set BTreeSet.extend
  count_unique_run accum [] s h = refl
  count_unique_run accum (v ∷ vs) s h = elim (Bool-cases (contains v accum)) [
    | inl old ↦
        rw (old, insert-of_contains v accum s old) (count_unique_run accum vs s (omega arith))
    | inr new ↦
        let l = length-insert v accum new in
        let more : (suc (length accum) == 2 ^ 63) ≡ false = ground arith in
        rw (new, more, ← l)
          (count_unique_run (BTreeSet.insert v accum) vs (insert-IsSorted v accum s)
            (omega (arith, l)))
  ]

  -- `unique` returns a list in order, each value once, that holds exactly the values of the group, and
  -- `count_unique` the length of that list, while the values are fewer than the bound of an i64.
  pub unique-count_unique :
      (vs : List (DataValue X))
      → length vs < 2 ^ 63
      → (items : List (DataValue X)) × (normal_result aggr_unique vs ≡ ok (list (of_list items)))
        × (normal_result aggr_count_unique vs ≡ ok (num (int (pos (length items)))))
        × IsSorted items
        × ((p : DataValue X) → contains p items ≡ contains p vs)
  unfolding normal_result
  unique-count_unique vs h = (
    BTreeSet.extend [] vs,
    rw (unique_run [] vs),
    rw (count_unique_run [] vs tt (omega arith)),
    extend-IsSorted [] vs tt,
    λ p. unfold contains in contains-extend p [] vs,
  )
