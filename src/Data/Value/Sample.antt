-- ===== src/Data/Value/Sample.antt =====
-- The environment of the tests: floats are integers and JSON is its text here, with infinity as the number after an i64.
use retia.Prelude.{
  ℕ, ◌+◌, ◌*◌, ◌^◌, Ordering, lt, eq, gt, Bool, true, false, not, arith, zero, refl,
}
use retia.Prelude.Order.{Ord, Bytes}
use retia.Data.Value.{ℤ, pos, negsuc, Externals, FloatOps, DataValue}
use retia.Data.Value.NumOrder.{cmp_int, int_ord, IsMonotone}
use retia.Data.Value.Order.{OrderedFloat, OrderOps}
use retia.Data.Value.Order.Canonical.{canonical_injective}
use retia.Data.Value.Order.Lawful.{value_ord}

abbrev pub sample : Externals
sample = record { F64 = ℤ; F32 = ℤ; Json = Bytes }

-- Sums and products of what is not negative; the tests need no other.
abbrev pub on_naturals : (ℕ → ℕ → ℕ) → ℤ → ℤ → ℤ
on_naturals f (pos m) (pos n) = pos (f m n)
on_naturals f a b = a

abbrev pub is_less : Ordering → Bool
is_less lt = true
is_less _ = false

abbrev pub is_greater : Ordering → Bool
is_greater gt = true
is_greater _ = false

abbrev pub is_equal : Ordering → Bool
is_equal eq = true
is_equal _ = false

abbrev pub floats : FloatOps ℤ
floats = record {
  of_int = λ i. i;
  to_int = λ x. x;
  round = λ x. x;
  add = on_naturals (λ m n. m + n);
  sub = λ x y. x;
  mul = on_naturals (λ m n. m * n);
  div = λ x y. x;
  sqrt = λ x. x;
  infinity = pos (2 ^ 63);
  lt_float = λ x y. is_less (cmp_int x y);
  le_float = λ x y. not (is_greater (cmp_int x y));
  eq_float = λ x y. is_equal (cmp_int x y);
}

pub floats-IsMonotone : IsMonotone floats ⦃o = int_ord⦄
unfolding int_ord
floats-IsMonotone i j h = ground arith

-- Floats that are equal are one.
abbrev pub exact : OrderedFloat ℤ
exact = record {
  cmp = λ x y. int_ord.cmp x y;
  canonical = λ x. x;
  total = int_ord;
  cmp_canonical = λ x y. refl;
}

abbrev pub exact_ops : OrderOps sample
exact_ops = record { ordered32 = exact; ordered64 = exact; to_string = λ j. j }

abbrev pub sample_ord : Ord (DataValue sample)
sample_ord =
    value_ord {X = sample} floats ⦃fo = int_ord⦄ exact_ops floats-IsMonotone
      (canonical_injective exact_ops (λ x y h. h) (λ x y h. h) (λ x y h. h))

-- -1 stands for -0.0: it is equal to 0 as an `OrderedFloat`, and before it in the total order.
abbrev pub one_zero : ℤ → ℤ
one_zero (negsuc zero) = pos 0
one_zero x = x

abbrev pub with_zeros : OrderedFloat ℤ
with_zeros = record {
  cmp = λ x y. int_ord.cmp (one_zero x) (one_zero y);
  canonical = one_zero;
  total = int_ord;
  cmp_canonical = λ x y. refl;
}

abbrev pub zeros_ops : OrderOps sample
zeros_ops = record { ordered32 = with_zeros; ordered64 = with_zeros; to_string = λ j. j }
