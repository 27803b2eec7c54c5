-- ===== src/Prelude/Order.antt =====
-- Rust's `Ord` as an interface: `cmp` with the laws that the trait asks for, its `==` read as `≡`.
-- `BTreeMap` and `BTreeSet` take it as an instance.
use retia.Prelude.{
  ℕ, compare, Ordering, lt, eq, gt, ◌≡◌, refl, List, [], ◌∷◌, arith, Bool, true, false, ◌⊎◌, inl,
  inr,
}

pub record Ord {ℓ} (K : Type ℓ) : Type ℓ where
  pub cmp : K → K → Ordering
  pub cmp_self : (x : K) → cmp x x ≡ eq
  pub lt_trans : (x y z : K) → cmp x y ≡ lt → cmp y z ≡ lt → cmp x z ≡ lt
  pub gt_of_lt : (x y : K) → cmp x y ≡ lt → cmp y x ≡ gt
  pub lt_of_gt : (x y : K) → cmp x y ≡ gt → cmp y x ≡ lt
  pub eq_of_cmp : (x y : K) → cmp x y ≡ eq → x ≡ y

-- `Ordering::then`
abbrev pub then : Ordering → Ordering → Ordering
then eq o = o
then lt o = lt
then gt o = gt

module _ {ℓ} {K : Type ℓ} ⦃o : Ord K⦄ where
  infix 50 ◌≺◌
  abbrev pub ◌≺◌ : K → K → Type 0
  a ≺ b = o.cmp a b ≡ lt

  -- `a < b` and `a == b`, as tests.
  abbrev pub lt? : K → K → Bool
  lt? a b = elim (o.cmp a b) [ lt ↦ true | _ ↦ false ]

  abbrev pub eq? : K → K → Bool
  eq? a b = elim (o.cmp a b) [ eq ↦ true | _ ↦ false ]

  -- Slices and vectors compare lexicographically, a prefix first.
  unfoldable pub cmp_list : List K → List K → Ordering
  cmp_list [] [] = eq
  cmp_list [] (y ∷ ys) = lt
  cmp_list (x ∷ xs) [] = gt
  cmp_list (x ∷ xs) (y ∷ ys) = then (o.cmp x y) (cmp_list xs ys)

  pub cmp_list_self : (xs : List K) → cmp_list xs xs ≡ eq
  unfolding cmp_list
  cmp_list_self [] = refl
  cmp_list_self (x ∷ xs) = ground (arith, o.cmp_self x, cmp_list_self xs)

  pub eq_of_cmp_list : (xs ys : List K) → cmp_list xs ys ≡ eq → xs ≡ ys
  unfolding cmp_list
  eq_of_cmp_list [] [] h = refl
  eq_of_cmp_list [] (y ∷ ys) h = ground arith
  eq_of_cmp_list (x ∷ xs) [] h = ground arith
  eq_of_cmp_list (x ∷ xs) (y ∷ ys) h = ground (arith, o.eq_of_cmp x y, eq_of_cmp_list xs ys)

  pub lt_of_gt_list : (xs ys : List K) → cmp_list xs ys ≡ gt → cmp_list ys xs ≡ lt
  unfolding cmp_list
  lt_of_gt_list [] [] h = ground arith
  lt_of_gt_list [] (y ∷ ys) h = ground arith
  lt_of_gt_list (x ∷ xs) [] h = refl
  lt_of_gt_list (x ∷ xs) (y ∷ ys) h =
      ground (arith, o.eq_of_cmp x y, o.lt_of_gt x y, o.cmp_self x, lt_of_gt_list xs ys)

  pub gt_of_lt_list : (xs ys : List K) → cmp_list xs ys ≡ lt → cmp_list ys xs ≡ gt
  unfolding cmp_list
  gt_of_lt_list [] [] h = ground arith
  gt_of_lt_list [] (y ∷ ys) h = refl
  gt_of_lt_list (x ∷ xs) [] h = ground arith
  gt_of_lt_list (x ∷ xs) (y ∷ ys) h =
      ground (arith, o.eq_of_cmp x y, o.gt_of_lt x y, o.cmp_self x, gt_of_lt_list xs ys)

  pub lt_trans_list :
      (xs ys zs : List K) → cmp_list xs ys ≡ lt → cmp_list ys zs ≡ lt → cmp_list xs zs ≡ lt
  unfolding cmp_list
  lt_trans_list [] [] zs h k = ground arith
  lt_trans_list [] (y ∷ ys) [] h k = ground arith
  lt_trans_list [] (y ∷ ys) (z ∷ zs) h k = refl
  lt_trans_list (x ∷ xs) [] zs h k = ground arith
  lt_trans_list (x ∷ xs) (y ∷ ys) [] h k = ground arith
  lt_trans_list (x ∷ xs) (y ∷ ys) (z ∷ zs) h k = ground (
    arith,
    o.eq_of_cmp x y,
    o.eq_of_cmp y z,
    o.lt_trans x y z,
    o.cmp_self x,
    lt_trans_list xs ys zs,
  )

  instance unfoldable pub list_ord : Ord (List K)
  list_ord = record {
    cmp = cmp_list;
    cmp_self = cmp_list_self;
    eq_of_cmp = eq_of_cmp_list;
    lt_of_gt = lt_of_gt_list;
    gt_of_lt = gt_of_lt_list;
    lt_trans = lt_trans_list;
  }

pub compare_self : (a : ℕ) → compare a a ≡ eq
compare_self a = ground arith

pub eq_of_compare : (a b : ℕ) → compare a b ≡ eq → a ≡ b
eq_of_compare a b h = ground arith

pub lt_of_gt_nat : (a b : ℕ) → compare a b ≡ gt → compare b a ≡ lt
lt_of_gt_nat a b h = ground arith

pub gt_of_lt_nat : (a b : ℕ) → compare a b ≡ lt → compare b a ≡ gt
gt_of_lt_nat a b h = ground arith

pub compare_trans : (a b c : ℕ) → compare a b ≡ lt → compare b c ≡ lt → compare a c ≡ lt
compare_trans a b c h k = ground arith

-- Bytes, and the other unsigned integers, compare as numbers.
instance unfoldable pub nat_ord : Ord ℕ
nat_ord = record {
  cmp = compare;
  cmp_self = compare_self;
  eq_of_cmp = eq_of_compare;
  lt_of_gt = lt_of_gt_nat;
  gt_of_lt = gt_of_lt_nat;
  lt_trans = compare_trans;
}

pub Ordering-cases : (c : Ordering) → (c ≡ lt) ⊎ ((c ≡ eq) ⊎ (c ≡ gt))
Ordering-cases lt = inl refl
Ordering-cases eq = inr (inl refl)
Ordering-cases gt = inr (inr refl)

-- `Vec<u8>`
abbrev pub Bytes : Type 0
Bytes = List ℕ

instance unfoldable pub bytes_ord : Ord Bytes
unfolding list_ord nat_ord cmp_list
bytes_ord = list_ord
