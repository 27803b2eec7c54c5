-- ===== src/Data/Value/Order.antt =====
-- The derived order of `DataValue` (retia-core/src/data/value.rs): by variant, then by its fields, with
-- `Ord` of `Vector` and of `JsonData`.
pub mod Tree
pub mod Vectors
pub mod Canonical
pub mod Lawful
use retia.Prelude.{ℕ, compare, Ordering, lt, eq, gt, ◌≡◌, Bool, true, false, List, [], ◌∷◌, length}
use retia.Prelude.Order.{Ord, Bytes, bytes_ord, then}
use retia.Prelude.OrderInstances.{cmp_bool}
use retia.Data.Value.{
  Externals, FloatOps, DataValue, Values, Validity, null, bool, num, str, bytes, uuid, regex, list,
  set, vec, json, validity, bot, nil, cons, Vector, f32, f64,
}
use retia.Data.Value.NumOrder.{cmp_int, cmp_num}

-- The position of the variant.
abbrev pub rank : {X : Externals} → DataValue X → ℕ
rank null = 0
rank (bool b) = 1
rank (num n) = 2
rank (str s) = 3
rank (bytes b) = 4
rank (uuid u) = 5
rank (regex r) = 6
rank (list vs) = 7
rank (set vs) = 8
rank (vec v) = 9
rank (json j) = 10
rank (validity v) = 11
rank bot = 12

-- Both fields of `Validity` stand in a `Reverse`.
abbrev pub cmp_validity : Validity → Validity → Ordering
cmp_validity a b = then (cmp_int b.timestamp a.timestamp) (cmp_bool b.is_assert a.is_assert)

-- `OrderedFloat::cmp` of the crate ordered_float. Both zeros are equal in it, and so are all NaNs:
-- `canonical` chooses one of the floats that are equal, and `total` is a total order of those.
pub record OrderedFloat (F : Type 0) : Type 0 where
  pub cmp : F → F → Ordering
  pub canonical : F → F
  pub total : Ord F
  pub cmp_canonical : (x y : F) → cmp x y ≡ total.cmp (canonical x) (canonical y)

-- What the orders of vectors and of JSON use: `to_string` is of the crate serde_json.
pub record OrderOps (X : Externals) : Type 0 where
  pub ordered32 : OrderedFloat X.F32
  pub ordered64 : OrderedFloat X.F64
  pub to_string : X.Json → Bytes

-- `for (le, re) in l.iter().zip(r)`
unfoldable pub cmp_elements : {F : Type 0} → OrderedFloat F → List F → List F → Ordering
cmp_elements e (x ∷ xs) (y ∷ ys) = then (e.cmp x y) (cmp_elements e xs ys)
cmp_elements e _ _ = eq

-- `Vector::cmp`
unfoldable pub cmp_vector : {X : Externals} → OrderOps X → Vector X → Vector X → Ordering
unfolding cmp_elements
cmp_vector e (f32 l) (f32 r) = then (compare (length l) (length r)) (cmp_elements e.ordered32 l r)
cmp_vector e (f32 l) (f64 r) = lt
cmp_vector e (f64 l) (f64 r) = then (compare (length l) (length r)) (cmp_elements e.ordered64 l r)
cmp_vector e (f64 l) (f32 r) = gt

-- `JsonData::cmp`
unfoldable pub cmp_json : {X : Externals} → OrderOps X → X.Json → X.Json → Ordering
cmp_json e a b = bytes_ord.cmp (e.to_string a) (e.to_string b)

module _ {X : Externals} (f : FloatOps X.F64) ⦃fo : Ord X.F64⦄ (e : OrderOps X) where
  unfoldable mutual
    pub cmp_value : DataValue X → DataValue X → Ordering
    cmp_value (bool a) (bool b) = cmp_bool a b
    cmp_value (num a) (num b) = cmp_num f a b
    cmp_value (str a) (str b) = bytes_ord.cmp a b
    cmp_value (bytes a) (bytes b) = bytes_ord.cmp a b
    cmp_value (uuid a) (uuid b) = bytes_ord.cmp a b
    cmp_value (regex a) (regex b) = bytes_ord.cmp a b
    cmp_value (list a) (list b) = cmp_values a b
    cmp_value (set a) (set b) = cmp_values a b
    cmp_value (vec a) (vec b) = cmp_vector e a b
    cmp_value (json a) (json b) = cmp_json e a b
    cmp_value (validity a) (validity b) = cmp_validity a b
    cmp_value a b = compare (rank a) (rank b)

    pub cmp_values : Values X → Values X → Ordering
    cmp_values nil nil = eq
    cmp_values nil (cons b bs) = lt
    cmp_values (cons a as_) nil = gt
    cmp_values (cons a as_) (cons b bs) = then (cmp_value a b) (cmp_values as_ bs)
