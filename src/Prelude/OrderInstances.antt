-- ===== src/Prelude/OrderInstances.antt =====
-- Lawful orders on booleans, integers, sums and pairs, and along an injection.
use retia.Prelude.{
  Ordering, lt, eq, gt, ◌≡◌, refl, ap, ◌∙◌, arith, Bool, true, false, ◌⊎◌, inl, inr, sym,
}
use retia.Prelude.Order.{Ord, then}

abbrev pub cmp_bool : Bool → Bool → Ordering
cmp_bool false true = lt
cmp_bool true false = gt
cmp_bool _ _ = eq

pub cmp_bool_self : (a : Bool) → cmp_bool a a ≡ eq
cmp_bool_self a = ground arith

pub eq_of_cmp_bool : (a b : Bool) → cmp_bool a b ≡ eq → a ≡ b
eq_of_cmp_bool a b h = ground arith

pub lt_of_gt_bool : (a b : Bool) → cmp_bool a b ≡ gt → cmp_bool b a ≡ lt
lt_of_gt_bool a b h = ground arith

pub gt_of_lt_bool : (a b : Bool) → cmp_bool a b ≡ lt → cmp_bool b a ≡ gt
gt_of_lt_bool a b h = ground arith

pub lt_trans_bool : (a b c : Bool) → cmp_bool a b ≡ lt → cmp_bool b c ≡ lt → cmp_bool a c ≡ lt
lt_trans_bool a b c h k = ground arith

instance unfoldable pub bool_ord : Ord Bool
bool_ord = record {
  cmp = cmp_bool;
  cmp_self = cmp_bool_self;
  eq_of_cmp = eq_of_cmp_bool;
  lt_of_gt = lt_of_gt_bool;
  gt_of_lt = gt_of_lt_bool;
  lt_trans = lt_trans_bool;
}

module _ {A B : Type 0} ⦃a : Ord A⦄ ⦃b : Ord B⦄ where
  abbrev pub cmp_sum : A ⊎ B → A ⊎ B → Ordering
  cmp_sum (inl x) (inl y) = a.cmp x y
  cmp_sum (inl x) (inr y) = lt
  cmp_sum (inr x) (inl y) = gt
  cmp_sum (inr x) (inr y) = b.cmp x y

  pub cmp_sum_self : (x : A ⊎ B) → cmp_sum x x ≡ eq
  cmp_sum_self (inl x) = a.cmp_self x
  cmp_sum_self (inr x) = b.cmp_self x

  pub eq_of_cmp_sum : (x y : A ⊎ B) → cmp_sum x y ≡ eq → x ≡ y
  eq_of_cmp_sum (inl x) (inl y) h = ap inl (a.eq_of_cmp x y h)
  eq_of_cmp_sum (inl x) (inr y) h = cc
  eq_of_cmp_sum (inr x) (inl y) h = cc
  eq_of_cmp_sum (inr x) (inr y) h = ap inr (b.eq_of_cmp x y h)

  pub lt_of_gt_sum : (x y : A ⊎ B) → cmp_sum x y ≡ gt → cmp_sum y x ≡ lt
  lt_of_gt_sum (inl x) (inl y) h = a.lt_of_gt x y h
  lt_of_gt_sum (inl x) (inr y) h = cc
  lt_of_gt_sum (inr x) (inl y) h = refl
  lt_of_gt_sum (inr x) (inr y) h = b.lt_of_gt x y h

  pub gt_of_lt_sum : (x y : A ⊎ B) → cmp_sum x y ≡ lt → cmp_sum y x ≡ gt
  gt_of_lt_sum (inl x) (inl y) h = a.gt_of_lt x y h
  gt_of_lt_sum (inl x) (inr y) h = refl
  gt_of_lt_sum (inr x) (inl y) h = cc
  gt_of_lt_sum (inr x) (inr y) h = b.gt_of_lt x y h

  pub lt_trans_sum : (x y z : A ⊎ B) → cmp_sum x y ≡ lt → cmp_sum y z ≡ lt → cmp_sum x z ≡ lt
  lt_trans_sum (inl x) (inl y) (inl z) h k = a.lt_trans x y z h k
  lt_trans_sum (inl x) (inl y) (inr z) h k = refl
  lt_trans_sum (inl x) (inr y) (inl z) h k = cc
  lt_trans_sum (inl x) (inr y) (inr z) h k = refl
  lt_trans_sum (inr x) (inl y) z h k = cc
  lt_trans_sum (inr x) (inr y) (inl z) h k = cc
  lt_trans_sum (inr x) (inr y) (inr z) h k = b.lt_trans x y z h k

  unfoldable pub sum_ord : Ord (A ⊎ B)
  sum_ord = record {
    cmp = cmp_sum;
    cmp_self = cmp_sum_self;
    eq_of_cmp = eq_of_cmp_sum;
    lt_of_gt = lt_of_gt_sum;
    gt_of_lt = gt_of_lt_sum;
    lt_trans = lt_trans_sum;
  }

  -- `#[derive(Ord)]` on two fields
  abbrev pub cmp_pair : A × B → A × B → Ordering
  cmp_pair x y = then (a.cmp x.0 y.0) (b.cmp x.1 y.1)

  pub cmp_pair_self : (x : A × B) → cmp_pair x x ≡ eq
  cmp_pair_self x = ground (arith, a.cmp_self x.0, b.cmp_self x.1)

  pub eq_of_cmp_pair : (x y : A × B) → cmp_pair x y ≡ eq → x ≡ y
  eq_of_cmp_pair x y h = ground (arith, a.eq_of_cmp x.0 y.0, b.eq_of_cmp x.1 y.1)

  pub lt_of_gt_pair : (x y : A × B) → cmp_pair x y ≡ gt → cmp_pair y x ≡ lt
  lt_of_gt_pair x y h =
      ground (arith, a.eq_of_cmp x.0 y.0, a.lt_of_gt x.0 y.0, a.cmp_self x.0, b.lt_of_gt x.1 y.1)

  pub gt_of_lt_pair : (x y : A × B) → cmp_pair x y ≡ lt → cmp_pair y x ≡ gt
  gt_of_lt_pair x y h =
      ground (arith, a.eq_of_cmp x.0 y.0, a.gt_of_lt x.0 y.0, a.cmp_self x.0, b.gt_of_lt x.1 y.1)

  pub lt_trans_pair : (x y z : A × B) → cmp_pair x y ≡ lt → cmp_pair y z ≡ lt → cmp_pair x z ≡ lt
  lt_trans_pair x y z h k = ground (
    arith,
    a.eq_of_cmp x.0 y.0,
    a.eq_of_cmp y.0 z.0,
    a.cmp_self x.0,
    a.lt_trans x.0 y.0 z.0,
    b.lt_trans x.1 y.1 z.1,
  )

  unfoldable pub pair_ord : Ord (A × B)
  pair_ord = record {
    cmp = cmp_pair;
    cmp_self = cmp_pair_self;
    eq_of_cmp = eq_of_cmp_pair;
    lt_of_gt = lt_of_gt_pair;
    gt_of_lt = gt_of_lt_pair;
    lt_trans = lt_trans_pair;
  }

-- The order that a comparison has from another along an injection that it factors through.
unfoldable pub ord_along :
    {A B : Type 0} ⦃b : Ord B⦄ (f : A → B) (cmp : A → A → Ordering)
    → ((x y : A) → cmp x y ≡ b.cmp (f x) (f y))
    → ((x y : A) → f x ≡ f y → x ≡ y)
    → Ord A
ord_along ⦃b⦄ f cmp e inj = record {
  cmp = cmp;
  cmp_self = λ x. e x x ∙ b.cmp_self (f x);
  eq_of_cmp = λ x y h. inj x y (b.eq_of_cmp (f x) (f y) (sym (e x y) ∙ h));
  lt_of_gt = λ x y h. e y x ∙ b.lt_of_gt (f x) (f y) (sym (e x y) ∙ h);
  gt_of_lt = λ x y h. e y x ∙ b.gt_of_lt (f x) (f y) (sym (e x y) ∙ h);
  lt_trans = λ x y z h k. e x z ∙ b.lt_trans (f x) (f y) (f z) (sym (e x y) ∙ h) (sym (e y z) ∙ k);
}

-- `Reverse`
unfoldable pub reverse_ord : {A : Type 0} → Ord A → Ord A
reverse_ord a = record {
  cmp = λ x y. a.cmp y x;
  cmp_self = a.cmp_self;
  eq_of_cmp = λ x y h. sym (a.eq_of_cmp y x h);
  lt_of_gt = λ x y h. a.lt_of_gt y x h;
  gt_of_lt = λ x y h. a.gt_of_lt y x h;
  lt_trans = λ x y z h k. a.lt_trans z y x k h;
}
