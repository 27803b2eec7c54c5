-- ===== src/BTreeSet/Laws.antt =====
-- Membership after each operation on a set, and the order of its elements.
use retia.Prelude.{
  ◌≡◌, refl, Bool, true, false, not, ◌&&◌, ◌||◌, List, [], ◌∷◌, arith, ◌≤◌, suc, length,
}
use retia.Prelude.Order.{Ord, ◌≺◌, eq?}
use retia.BTreeSet.{BTreeSet, contains, insert, extend, insert_all, intersection, Above, IsSorted}

module _ {ℓ} {K : Type ℓ} ⦃o : Ord K⦄ where
  pub contains-insert :
      (p k : K) (s : BTreeSet K) → contains p (insert k s) ≡ (eq? p k || contains p s)
  unfolding contains insert
  contains-insert p k [] = ground arith
  contains-insert p k (j ∷ s) =
      ground (arith, contains-insert p k s, o.eq_of_cmp p k, o.eq_of_cmp p j, o.eq_of_cmp k j)

  pub contains-extend :
      (p : K) (s : BTreeSet K) (items : List K)
      → contains p (extend s items) ≡ (contains p s || contains p items)
  unfolding contains extend
  contains-extend p s [] = ground arith
  contains-extend p s (k ∷ items) =
      ground (arith, contains-extend p (insert k s) items, contains-insert p k s)

  pub contains-intersection :
      (p : K) (s t : BTreeSet K) → contains p (intersection s t) ≡ (contains p s && contains p t)
  unfolding contains intersection
  contains-intersection p [] t = refl
  contains-intersection p (k ∷ s) t = ground (arith, contains-intersection p s t, o.eq_of_cmp p k)

  Above-trans : (i j : K) (s : BTreeSet K) → i ≺ j → Above j s → Above i s
  Above-trans i j [] h a = tt
  Above-trans i j (k ∷ s) h a = (o.lt_trans i j k h a.0, Above-trans i j s h a.1)

  Above-insert : (i k : K) (s : BTreeSet K) → i ≺ k → Above i s → Above i (insert k s)
  unfolding insert
  Above-insert i k [] h a = (h, tt)
  Above-insert i k (j ∷ s) h a = ground (arith, Above-insert i k s)

  pub insert-IsSorted : (k : K) (s : BTreeSet K) → IsSorted s → IsSorted (insert k s)
  unfolding insert
  insert-IsSorted k [] s = (tt, tt)
  insert-IsSorted k (j ∷ s) h =
      ground (arith, insert-IsSorted k s, Above-insert j k s, Above-trans k j s, o.lt_of_gt k j)

  pub extend-IsSorted : (s : BTreeSet K) (items : List K) → IsSorted s → IsSorted (extend s items)
  unfolding extend
  extend-IsSorted s [] h = h
  extend-IsSorted s (k ∷ items) h = extend-IsSorted (insert k s) items (insert-IsSorted k s h)

  Above-intersection : (i : K) (s t : BTreeSet K) → Above i s → Above i (intersection s t)
  unfolding intersection
  Above-intersection i [] t a = tt
  Above-intersection i (k ∷ s) t a = ground (arith, Above-intersection i s t)

  pub intersection-IsSorted : (s t : BTreeSet K) → IsSorted s → IsSorted (intersection s t)
  unfolding intersection
  intersection-IsSorted [] t h = tt
  intersection-IsSorted (k ∷ s) t h =
      ground (arith, intersection-IsSorted s t, Above-intersection k s t)

  not-contains-Above : (k : K) (s : BTreeSet K) → Above k s → contains k s ≡ false
  unfolding contains
  not-contains-Above k [] a = refl
  not-contains-Above k (j ∷ s) a = ground (arith, not-contains-Above k s)

  -- Inserting what is there changes nothing.
  pub insert-of_contains :
      (k : K) (s : BTreeSet K) → IsSorted s → contains k s ≡ true → insert k s ≡ s
  unfolding contains insert
  insert-of_contains k [] h c = ground arith
  insert-of_contains k (j ∷ s) h c =
      ground (arith, insert-of_contains k s, not-contains-Above k s, Above-trans k j s)

  -- The flag of `insert_all` is whether an element was new; without one the set stays.
  pub insert_all-extend :
      (s : BTreeSet K) (inserted : Bool) (items : List K)
      → (insert_all s inserted items).0 ≡ extend s items
  unfolding insert_all extend
  insert_all-extend s inserted [] = refl
  insert_all-extend s inserted (k ∷ items) =
      insert_all-extend (insert k s) (inserted || not (contains k s)) items

  -- An intersection that drops no element is the whole set.
  length-intersection : (s t : BTreeSet K) → length (intersection s t) ≤ length s
  unfolding intersection
  length-intersection [] t = omega arith
  length-intersection (k ∷ s) t = ground (arith, length-intersection s t)

  pub intersection-of_length :
      (s t : BTreeSet K) → length (intersection s t) ≡ length s → intersection s t ≡ s
  unfolding intersection
  intersection-of_length [] t h = refl
  intersection-of_length (k ∷ s) t h =
      ground (arith, intersection-of_length s t, length-intersection s t)

pub ruleset set_laws = (contains-insert, contains-extend, contains-intersection)

module _ {ℓ} {K : Type ℓ} ⦃o : Ord K⦄ where
  pub length-insert :
      (k : K) (s : BTreeSet K) → contains k s ≡ false → length (insert k s) ≡ suc (length s)
  unfolding contains insert
  length-insert k [] h = refl
  length-insert k (j ∷ s) h = ground (arith, length-insert k s)
