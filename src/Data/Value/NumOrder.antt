-- ===== src/Data/Value/NumOrder.antt =====
-- The order of integers and of `Num` (retia-core/src/data/value.rs).
use retia.Prelude.{compare, Ordering, lt, eq, gt, ◌≡◌, ◌≢◌, arith, ap}
use retia.Prelude.Order.{Ord}
use retia.Data.Value.{ℤ, pos, negsuc, Externals, FloatOps, Num, int, float}

abbrev pub cmp_int : ℤ → ℤ → Ordering
cmp_int (pos m) (pos n) = compare m n
cmp_int (pos m) (negsuc n) = gt
cmp_int (negsuc m) (pos n) = lt
cmp_int (negsuc m) (negsuc n) = compare n m

pub cmp_int_self : (a : ℤ) → cmp_int a a ≡ eq
cmp_int_self a = ground arith

pub eq_of_cmp_int : (a b : ℤ) → cmp_int a b ≡ eq → a ≡ b
eq_of_cmp_int a b h = ground arith

pub lt_of_gt_int : (a b : ℤ) → cmp_int a b ≡ gt → cmp_int b a ≡ lt
lt_of_gt_int a b h = ground arith

pub gt_of_lt_int : (a b : ℤ) → cmp_int a b ≡ lt → cmp_int b a ≡ gt
gt_of_lt_int a b h = ground arith

pub lt_trans_int : (a b c : ℤ) → cmp_int a b ≡ lt → cmp_int b c ≡ lt → cmp_int a c ≡ lt
lt_trans_int a b c h k = ground arith

unfoldable pub int_ord : Ord ℤ
int_ord = record {
  cmp = cmp_int;
  cmp_self = cmp_int_self;
  eq_of_cmp = eq_of_cmp_int;
  lt_of_gt = lt_of_gt_int;
  gt_of_lt = gt_of_lt_int;
  lt_trans = lt_trans_int;
}

-- An integer comes before the float that it converts to.
abbrev pub int_first : Ordering → Ordering
int_first gt = gt
int_first _ = lt

abbrev pub int_last : Ordering → Ordering
int_last lt = lt
int_last _ = gt

-- The instance on floats is `f64::total_cmp`.
module _ {X : Externals} (f : FloatOps X.F64) ⦃o : Ord X.F64⦄ where
  unfoldable pub cmp_num : Num X → Num X → Ordering
  cmp_num (int i) (float r) = int_first (o.cmp (f.of_int i) r)
  cmp_num (float l) (int i) = int_last (o.cmp l (f.of_int i))
  cmp_num (int l) (int r) = cmp_int l r
  cmp_num (float l) (float r) = o.cmp l r

-- The conversion of integers to floats keeps their order, not strictly.
abbrev pub IsMonotone : {F : Type 0} → FloatOps F → ⦃o : Ord F⦄ → Type 0
IsMonotone f ⦃o⦄ = (i j : ℤ) → cmp_int i j ≡ lt → o.cmp (f.of_int i) (f.of_int j) ≢ gt

module _ {X : Externals} (f : FloatOps X.F64) ⦃o : Ord X.F64⦄ (mono : IsMonotone f) where
  pub cmp_num_self : (a : Num X) → cmp_num f a a ≡ eq
  unfolding cmp_num
  cmp_num_self (int i) = cmp_int_self i
  cmp_num_self (float x) = o.cmp_self x

  pub eq_of_cmp_num : (a b : Num X) → cmp_num f a b ≡ eq → a ≡ b
  unfolding cmp_num
  eq_of_cmp_num (int i) (int j) h = ap int (eq_of_cmp_int i j h)
  eq_of_cmp_num (int i) (float y) h = ground arith
  eq_of_cmp_num (float x) (int j) h = ground arith
  eq_of_cmp_num (float x) (float y) h = ap float (o.eq_of_cmp x y h)

  pub lt_of_gt_num : (a b : Num X) → cmp_num f a b ≡ gt → cmp_num f b a ≡ lt
  unfolding cmp_num
  lt_of_gt_num (int i) (int j) h = lt_of_gt_int i j h
  lt_of_gt_num (int i) (float y) h = ground (arith, o.lt_of_gt (f.of_int i) y)
  lt_of_gt_num (float x) (int j) h =
      ground (arith, o.lt_of_gt x (f.of_int j), o.eq_of_cmp x (f.of_int j), o.cmp_self x)
  lt_of_gt_num (float x) (float y) h = o.lt_of_gt x y h

  pub gt_of_lt_num : (a b : Num X) → cmp_num f a b ≡ lt → cmp_num f b a ≡ gt
  unfolding cmp_num
  gt_of_lt_num (int i) (int j) h = gt_of_lt_int i j h
  gt_of_lt_num (int i) (float y) h =
      ground (arith, o.gt_of_lt (f.of_int i) y, o.eq_of_cmp (f.of_int i) y, o.cmp_self y)
  gt_of_lt_num (float x) (int j) h = ground (arith, o.gt_of_lt x (f.of_int j))
  gt_of_lt_num (float x) (float y) h = o.gt_of_lt x y h

  pub lt_trans_num : (a b c : Num X) → cmp_num f a b ≡ lt → cmp_num f b c ≡ lt → cmp_num f a c ≡ lt
  unfolding cmp_num
  lt_trans_num (int i) (int j) (int k) p q = lt_trans_int i j k p q
  lt_trans_num (int i) (int j) (float z) p q =
      let x = f.of_int i in
      let y = f.of_int j in
      ground (arith, mono i j, o.eq_of_cmp x y, o.eq_of_cmp y z, o.lt_trans x y z, o.cmp_self z)
  lt_trans_num (int i) (float y) (int k) p q =
      let x = f.of_int i in
      let z = f.of_int k in
      ground (
        arith,
        mono k i,
        lt_of_gt_int i k,
        eq_of_cmp_int i k,
        o.eq_of_cmp x y,
        o.lt_trans x y z,
        o.gt_of_lt x z,
        o.cmp_self x,
      )
  lt_trans_num (int i) (float y) (float z) p q =
      let x = f.of_int i in ground (arith, o.eq_of_cmp x y, o.lt_trans x y z)
  lt_trans_num (float x) (int j) (int k) p q =
      let y = f.of_int j in
      let z = f.of_int k in ground (arith, mono j k, o.eq_of_cmp y z, o.lt_trans x y z)
  lt_trans_num (float x) (int j) (float z) p q =
      let y = f.of_int j in ground (arith, o.eq_of_cmp y z, o.lt_trans x y z)
  lt_trans_num (float x) (float y) (int k) p q = ground (arith, o.lt_trans x y (f.of_int k))
  lt_trans_num (float x) (float y) (float z) p q = o.lt_trans x y z p q

  -- `Num` is in a total order, and equal in it only to itself.
  unfoldable pub num_ord : Ord (Num X)
  num_ord = record {
    cmp = cmp_num f;
    cmp_self = cmp_num_self;
    eq_of_cmp = eq_of_cmp_num;
    lt_of_gt = lt_of_gt_num;
    gt_of_lt = gt_of_lt_num;
    lt_trans = lt_trans_num;
  }
