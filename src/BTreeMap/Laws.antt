-- ===== src/BTreeMap/Laws.antt =====
-- How a map reads after each operation, and that each keeps the key order.
use retia.Prelude.{
  ◌≡◌, ◌⊎◌, refl, Bool, false, Bool-cases, inl, inr, none, some, [], ◌∷◌, if◌then◌else◌, arith,
}
use retia.Prelude.Order.{Ord, ◌≺◌, eq?}
use retia.BTreeMap.{BTreeMap, get, insert, remove, filter_keys, Above, IsSorted}

module _ {ℓ κ} {K : Type ℓ} {V : Type κ} ⦃o : Ord K⦄ where
  pub get-insert :
      (p k : K) (v : V) (m : BTreeMap K V)
      → get p (insert k v m) ≡ (if eq? p k then some v else get p m)
  unfolding get insert
  get-insert p k v [] = ground arith
  get-insert p k v ((j, w) ∷ m) =
      ground (arith, get-insert p k v m, o.eq_of_cmp p k, o.eq_of_cmp p j, o.eq_of_cmp k j)

  pub get-remove :
      (p k : K) (m : BTreeMap K V) → get p (remove k m) ≡ (if eq? p k then none else get p m)
  unfolding get remove
  get-remove p k [] = ground arith
  get-remove p k ((j, w) ∷ m) = ground (
    arith,
    get-remove p k m,
    o.eq_of_cmp p k,
    o.eq_of_cmp p j,
    o.eq_of_cmp k j,
    o.cmp_self k,
    o.cmp_self p,
  )

  pub get-filter_keys :
      (p : K) (test : K → Bool) (m : BTreeMap K V)
      → get p (filter_keys test m) ≡ (if test p then get p m else none)
  unfolding get filter_keys
  get-filter_keys p test [] = ground arith
  get-filter_keys p test ((j, w) ∷ m) = ground (arith, get-filter_keys p test m, o.eq_of_cmp p j)

  pub Above-trans : (i j : K) (m : BTreeMap K V) → i ≺ j → Above j m → Above i m
  Above-trans i j [] h a = tt
  Above-trans i j ((k, v) ∷ m) h a = (o.lt_trans i j k h a.0, Above-trans i j m h a.1)

  pub get-Above : (k : K) (m : BTreeMap K V) → Above k m → get k m ≡ none
  unfolding get
  get-Above k [] a = refl
  get-Above k ((j, v) ∷ m) a = ground (arith, get-Above k m)

  Above-insert : (i k : K) (v : V) (m : BTreeMap K V) → i ≺ k → Above i m → Above i (insert k v m)
  unfolding insert
  Above-insert i k v [] h a = (h, tt)
  Above-insert i k v ((j, w) ∷ m) h a = ground (arith, Above-insert i k v m)

  pub insert-IsSorted : (k : K) (v : V) (m : BTreeMap K V) → IsSorted m → IsSorted (insert k v m)
  unfolding insert
  insert-IsSorted k v [] s = (tt, tt)
  insert-IsSorted k v ((j, w) ∷ m) s = ground (
    arith,
    insert-IsSorted k v m,
    Above-insert j k v m,
    Above-trans k j m,
    o.lt_of_gt k j,
    o.eq_of_cmp k j,
  )

  Above-remove : (i k : K) (m : BTreeMap K V) → Above i m → Above i (remove k m)
  unfolding remove
  Above-remove i k [] a = tt
  Above-remove i k ((j, w) ∷ m) a = ground (arith, Above-remove i k m)

  pub remove-IsSorted : (k : K) (m : BTreeMap K V) → IsSorted m → IsSorted (remove k m)
  unfolding remove
  remove-IsSorted k [] s = tt
  remove-IsSorted k ((j, w) ∷ m) s = ground (arith, remove-IsSorted k m, Above-remove j k m)

  Above-filter_keys :
      (i : K) (test : K → Bool) (m : BTreeMap K V) → Above i m → Above i (filter_keys test m)
  unfolding filter_keys
  Above-filter_keys i test [] a = tt
  Above-filter_keys i test ((j, w) ∷ m) a = ground (arith, Above-filter_keys i test m)

  pub filter_keys-IsSorted :
      (test : K → Bool) (m : BTreeMap K V) → IsSorted m → IsSorted (filter_keys test m)
  unfolding filter_keys
  filter_keys-IsSorted test [] s = tt
  filter_keys-IsSorted test ((j, w) ∷ m) s =
      ground (arith, filter_keys-IsSorted test m, Above-filter_keys j test m)

  -- A key is the first one, or it is looked up behind it.
  pub key_cases :
      (k j : K) (v : V) (m : BTreeMap K V)
      → ((k ≡ j) × (get k ((j, v) ∷ m) ≡ some v))
        ⊎ ((eq? k j ≡ false) × (get k ((j, v) ∷ m) ≡ get k m))
  unfolding get
  key_cases k j v m = elim (Bool-cases (eq? k j)) [
    | inl e ↦ inl (o.eq_of_cmp k j (ground arith), ground arith)
    | inr e ↦ inr (e, ground arith)
  ]
