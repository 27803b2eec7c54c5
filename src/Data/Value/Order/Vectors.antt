-- ===== src/Data/Value/Order/Vectors.antt =====
-- The order of vectors (retia-core/src/data/value.rs) is that of their canonical elements.
use retia.Prelude.{
  length-map, ℕ, compare, Ordering, ◌≡◌, refl, arith, List, [], ◌∷◌, map, length, ◌⊎◌, inl, inr,
}
use retia.Prelude.Order.{Ord, cmp_list, list_ord, nat_ord, then}
use retia.Prelude.OrderInstances.{sum_ord, pair_ord, ord_along}
use retia.Data.Value.{Externals, Vector, f32, f64}
use retia.Data.Value.Order.{OrderedFloat, cmp_elements}

module _ {F : Type 0} (e : OrderedFloat F) where
  abbrev pub by_length : List F → List F → Ordering
  by_length l r = then (compare (length l) (length r)) (cmp_list ⦃o = e.total⦄ l r)

  cmp_elements-map :
      (l r : List F)
      → length l ≡ length r
      → cmp_elements e l r ≡ cmp_list ⦃o = e.total⦄ (map e.canonical l) (map e.canonical r)
  unfolding cmp_elements cmp_list
  cmp_elements-map [] [] h = refl
  cmp_elements-map [] (y ∷ r) h = absurd (omega arith)
  cmp_elements-map (x ∷ l) [] h = absurd (omega arith)
  cmp_elements-map (x ∷ l) (y ∷ r) h =
      rw (e.cmp_canonical x y, cmp_elements-map l r (omega arith)) refl

  -- Vectors compare as those of the canonical elements do.
  pub cmp_elements-canonical :
      (l r : List F)
      → then (compare (length l) (length r)) (cmp_elements e l r)
        ≡ by_length (map e.canonical l) (map e.canonical r)
  cmp_elements-canonical l r =
      ground (arith, cmp_elements-map l r, length-map e.canonical l, length-map e.canonical r)

unfoldable pub parts_ord : {A B : Type 0} → Ord A → Ord B → Ord ((ℕ × List A) ⊎ (ℕ × List B))
parts_ord a b = sum_ord ⦃a = pair_ord ⦃b = list_ord ⦃o = a⦄⦄⦄ ⦃b = pair_ord ⦃b = list_ord ⦃o = b⦄⦄⦄

module _ {X : Externals} where
  -- A vector by its kind, its length and its elements.
  abbrev pub parts : Vector X → (ℕ × List X.F32) ⊎ (ℕ × List X.F64)
  parts (f32 l) = inl (length l, l)
  parts (f64 l) = inr (length l, l)

  pub parts_injective : (v w : Vector X) → parts v ≡ parts w → v ≡ w
  parts_injective (f32 l) (f32 r) h = ground arith
  parts_injective (f32 l) (f64 r) h = cc
  parts_injective (f64 l) (f32 r) h = cc
  parts_injective (f64 l) (f64 r) h = ground arith

  unfoldable pub vector_ord : Ord X.F32 → Ord X.F64 → Ord (Vector X)
  unfolding parts_ord
  vector_ord o32 o64 =
      ord_along ⦃b = parts_ord o32 o64⦄ parts (λ v w. (parts_ord o32 o64).cmp (parts v) (parts w))
        (λ v w. refl) parts_injective
