-- ===== src/Data/Aggr/Grouping.antt =====
-- What `group_count` counts (retia-core/src/data/aggr.rs).
use retia.Prelude.{
  ℕ, zero, suc, ◌+◌, ◌<◌, ◌^◌, ◌≡◌, refl, ap, ◌∙◌, Option, none, some, List, [], ◌∷◌, length, arith,
  if◌then◌else◌, Bool-cases, inl, inr,
}
use retia.Prelude.Order.{Ord, eq?}
use retia.Prelude.Result.{ok}
use retia.BTreeMap
use retia.BTreeMap.{BTreeMap, IsSorted}
use retia.BTreeMap.Laws.{get-insert, insert-IsSorted}
use retia.Data.Value.{Externals, DataValue, ℤ, pos}
use retia.Data.Aggr.Count.{i64_succ}
use retia.Data.Aggr.Sets.{group_count_set, aggr_group_count, group_count_get}
use retia.Data.Aggr.Run.{fold_set, normal_result}

-- The entry of a value that was counted so often: none without any.
abbrev pub entry_of : ℕ → Option ℤ
entry_of zero = none
entry_of (suc n) = some (pos (suc n))

-- `or_default`
abbrev or_default : Option ℤ → ℤ
or_default o = elim o [ none ↦ pos 0 | some n ↦ n ]

succ_of_entry : (n : ℕ) → suc n < 2 ^ 63 → i64_succ (or_default (entry_of n)) ≡ pos (suc n)
succ_of_entry zero h = refl
succ_of_entry (suc n) h = ground arith

module _ {X : Externals} ⦃o : Ord (DataValue X)⦄ where
  -- The number of values that equal `p`.
  abbrev pub occurrences : DataValue X → List (DataValue X) → ℕ
  occurrences p [] = 0
  occurrences p (v ∷ vs) = (if eq? p v then 1 else 0) + occurrences p vs

  -- The map has the counts `c`.
  abbrev Counts : BTreeMap (DataValue X) ℤ → (DataValue X → ℕ) → Type 0
  Counts accum c = (p : DataValue X) → BTreeMap.get p accum ≡ entry_of (c p)

  abbrev bump : DataValue X → (DataValue X → ℕ) → DataValue X → ℕ
  bump v c p = if eq? p v then suc (c v) else c p

  group_step :
      (accum : BTreeMap (DataValue X) ℤ) (c : DataValue X → ℕ) (v : DataValue X)
      → Counts accum c
      → suc (c v) < 2 ^ 63
      → Counts (BTreeMap.insert v (i64_succ (or_default (BTreeMap.get v accum))) accum) (bump v c)
  group_step accum c v h b p =
      let value : i64_succ (or_default (BTreeMap.get v accum)) ≡ pos (suc (c v)) =
        rw (h v) (succ_of_entry (c v) b) in
      get-insert p v (i64_succ (or_default (BTreeMap.get v accum))) accum
      ∙ rw (value, h p) (elim (Bool-cases (eq? p v)) [ inl same ↦ rw same | inr other ↦ rw other ])

  group_run :
      (accum : BTreeMap (DataValue X) ℤ) (c : DataValue X → ℕ) (vs : List (DataValue X))
      → Counts accum c
      → IsSorted accum
      → ((p : DataValue X) → c p + length vs < 2 ^ 63)
      → (accum' : BTreeMap (DataValue X) ℤ) × (fold_set aggr_group_count accum vs ≡ ok accum')
        × IsSorted accum'
        × Counts accum' (λ p. c p + occurrences p vs)
  unfolding fold_set group_count_set
  group_run accum c [] h s b = (accum, refl, s, λ p. rw (h p) (ap entry_of (omega arith)))
  group_run accum c (v ∷ vs) h s b =
      let next = BTreeMap.insert v (i64_succ (or_default (BTreeMap.get v accum))) accum in
      let (accum', runs, sorted, counts) =
        group_run next (bump v c) vs (group_step accum c v h (omega (arith, b v)))
          (insert-IsSorted v _ accum s) (λ p. ground (arith, b p, b v)) in
      (accum', runs, sorted, λ p. counts p ∙ ap entry_of (ground (arith, o.eq_of_cmp p v)))

  -- `group_count` ends, while the values are fewer than the bound of an i64, in a map in order that has
  -- for each value that occurs the number of its occurrences and no entry for any other.
  pub group_count-occurrences :
      (vs : List (DataValue X))
      → length vs < 2 ^ 63
      → (accum : BTreeMap (DataValue X) ℤ) × (normal_result aggr_group_count vs
          ≡ group_count_get accum)
        × IsSorted accum
        × ((p : DataValue X) → BTreeMap.get p accum ≡ entry_of (occurrences p vs))
  unfolding normal_result
  group_count-occurrences vs h =
      let (accum, runs, sorted, counts) =
        group_run [] (λ p. 0) vs (λ p. unfold BTreeMap.get in refl) tt (λ p. omega arith) in
      (accum, rw runs, sorted, λ p. counts p ∙ ap entry_of (omega arith))
