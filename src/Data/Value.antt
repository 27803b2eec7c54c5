-- ===== src/Data/Value.antt =====
-- `DataValue`, `Num` and `Vector` (retia-core/src/data/value.rs). Floats and JSON are types of the
-- environment, `Externals`, with the operations on floats in `FloatOps`.
pub mod NumOrder
pub mod Order
pub mod Sample
mod Tests
use retia.Prelude.{
  ℕ, Bool, true, false, Option, none, some, List, [], ◌∷◌, Ordering, if◌then◌else◌, ◌≡◌, refl, ap,
}
use retia.Prelude.Order.{Bytes}

-- An i64; `negsuc n` is -(n + 1).
pub data ℤ : Type 0 where
  pos : ℕ → ℤ
  negsuc : ℕ → ℤ

pub record Externals : Type 1 where
  pub F64 : Type 0
  pub F32 : Type 0
  -- `serde_json::Value`
  pub Json : Type 0

-- The operations of f64 that the program uses, IEEE comparisons as tests.
pub record FloatOps (F : Type 0) : Type 0 where
  pub of_int : ℤ → F
  pub to_int : F → ℤ
  pub round : F → F
  pub add : F → F → F
  pub sub : F → F → F
  pub mul : F → F → F
  pub div : F → F → F
  pub sqrt : F → F
  pub infinity : F
  pub lt_float : F → F → Bool
  pub le_float : F → F → Bool
  pub eq_float : F → F → Bool

pub data Num (X : Externals) : Type 0 where
  int : ℤ → Num X
  float : X.F64 → Num X

pub data Vector (X : Externals) : Type 0 where
  f32 : List X.F32 → Vector X
  f64 : List X.F64 → Vector X

-- `Validity`: the timestamp and `is_assert`, both compared in reverse.
pub record Validity : Type 0 where
  pub timestamp : ℤ
  pub is_assert : Bool

-- The elements of a list or a set are declared with the values.
mutual
  pub data DataValue (X : Externals) : Type 0 where
    null : DataValue X
    bool : Bool → DataValue X
    num : Num X → DataValue X
    str : Bytes → DataValue X
    bytes : Bytes → DataValue X
    uuid : Bytes → DataValue X
    regex : Bytes → DataValue X
    list : Values X → DataValue X
    set : Values X → DataValue X
    vec : Vector X → DataValue X
    json : X.Json → DataValue X
    validity : Validity → DataValue X
    bot : DataValue X

  pub data Values (X : Externals) : Type 0 where
    nil : Values X
    cons : DataValue X → Values X → Values X

module _ {X : Externals} where
  abbrev pub to_list : Values X → List (DataValue X)
  to_list nil = []
  to_list (cons v vs) = v ∷ to_list vs

  abbrev pub of_list : List (DataValue X) → Values X
  of_list [] = nil
  of_list (v ∷ vs) = cons v (of_list vs)

  pub to_list-of_list : (vs : List (DataValue X)) → to_list (of_list vs) ≡ vs
  to_list-of_list [] = refl
  to_list-of_list (v ∷ vs) = ap (λ l. v ∷ l) (to_list-of_list vs)

  -- `value == DataValue::Null`
  abbrev pub is_null : DataValue X → Bool
  is_null null = true
  is_null _ = false

module _ {X : Externals} (f : FloatOps X.F64) where
  -- `Num::get_int`
  unfoldable pub num_get_int : Num X → Option ℤ
  num_get_int (int i) = some i
  num_get_int (float x) = if f.eq_float (f.round x) x then some (f.to_int x) else none

  -- `Num::get_float`
  abbrev pub num_get_float : Num X → X.F64
  num_get_float (int i) = f.of_int i
  num_get_float (float x) = x

  unfoldable pub get_int : DataValue X → Option ℤ
  unfolding num_get_int
  get_int (num n) = num_get_int n
  get_int _ = none

  abbrev pub get_float : DataValue X → Option X.F64
  get_float (num n) = some (num_get_float n)
  get_float _ = none
