-- ===== src/Query/Eval/Distinct.antt =====
-- The order in which the limit of a query (retia-core/src/query/eval.rs) takes tuples: each where it
-- comes first.
use retia.Prelude.{
  ℕ, suc, ◌≤◌, ◌<◌, ◌≡◌, refl, ◌∙◌, Bool, Option, none, some, List, [], ◌∷◌, ◌++◌, length, ltb,
  if◌then◌else◌, arith, Option-cases, inl, inr, length-append,
}
use Prim.Native.Nat.{max}
use retia.Prelude.Order.{Ord, list_ord, eq?}
use retia.Data.Value.{Externals, DataValue}
use retia.Runtime.TempStore.Regular.{Tuple}

abbrev pub to_skip : Option ℕ → ℕ
to_skip none = 0
to_skip (some n) = n

-- The flag of the tuple that is new in place `i`, if it is put: the limit is asked for after a tuple
-- has been put, so that a limit of 0 is one of 1.
abbrev pub placed : ℕ → Option ℕ → Option ℕ → Option Bool
placed limit skip none = none
placed limit skip (some i) = if ltb i (max 1 limit) then some (ltb i (to_skip skip)) else none

module _ {X : Externals} ⦃o : Ord (DataValue X)⦄ where
  -- The first place of a tuple in a list, from 0.
  unfoldable pub index_of : Tuple X → List (Tuple X) → Option ℕ
  index_of t [] = none
  index_of t (u ∷ us) =
      if eq? t u then some 0 else elim (index_of t us) [ none ↦ none | some i ↦ some (suc i) ]

  -- The tuples of `seen`, then those of `ts` that are new, in the order in which each comes first.
  unfoldable pub distinct_onto : List (Tuple X) → List (Tuple X) → List (Tuple X)
  unfolding index_of
  distinct_onto seen [] = seen
  distinct_onto seen (t ∷ ts) =
      distinct_onto (elim (index_of t seen) [ none ↦ seen ++ t ∷ [] | some i ↦ seen ]) ts

  abbrev pub distinct : List (Tuple X) → List (Tuple X)
  distinct ts = distinct_onto [] ts

  pub index_of-lt :
      (t : Tuple X) (us : List (Tuple X)) (i : ℕ) → index_of t us ≡ some i → i < length us
  unfolding index_of
  index_of-lt t [] i h = ground arith
  index_of-lt t (u ∷ us) i h = elim (Option-cases (index_of t us)) [
    | inl e ↦ ground arith
    | inr (j, e) ↦ ground (arith, index_of-lt t us j e)
  ]

  pub index_of-snoc :
      (t u : Tuple X) (us : List (Tuple X))
      → index_of t (us ++ u ∷ []) ≡ elim (index_of t us) [
        | some i ↦ some i
        | none ↦ if eq? t u then some (length us) else none
      ]
  unfolding index_of
  index_of-snoc t u [] = ground arith
  index_of-snoc t u (v ∷ us) = ground (arith, index_of-snoc t u us)

  pub distinct_onto-length :
      (seen ts : List (Tuple X)) → length seen ≤ length (distinct_onto seen ts)
  unfolding distinct_onto
  distinct_onto-length seen [] = omega arith
  distinct_onto-length seen (t ∷ ts) = elim (Option-cases (index_of t seen)) [
    | inl e ↦
        rw e (omega (arith, distinct_onto-length (seen ++ t ∷ []) ts, length-append seen (t ∷ [])))
    | inr (i, e) ↦ rw e (distinct_onto-length seen ts)
  ]

  -- Tuples that come after the limit make no difference.
  pub late :
      (limit : ℕ) (skip : Option ℕ) (t : Tuple X) (ts seen : List (Tuple X))
      → max 1 limit ≤ length seen
      → placed limit skip (index_of t (distinct_onto seen ts)) ≡ placed limit skip (index_of t seen)
  unfolding distinct_onto
  late limit skip t [] seen h = refl
  late limit skip t (u ∷ ts) seen h = elim (Option-cases (index_of u seen)) [
    | inr (i, e) ↦ rw e (late limit skip t ts seen h)
    | inl e ↦
        let longer = length-append seen (u ∷ []) in
        rw e (
          late limit skip t ts (seen ++ u ∷ []) (omega (arith, longer))
          ∙ (elim (Option-cases (index_of t seen)) [
            | inl f ↦ ground (arith, index_of-snoc t u seen)
            | inr (i, f) ↦ ground (arith, index_of-snoc t u seen)
          ]))
  ]
