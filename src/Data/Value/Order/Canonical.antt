-- ===== src/Data/Value/Order/Canonical.antt =====
-- Values up to what their order (retia-core/src/data/value.rs) tells apart.
use retia.Prelude.{◌≡◌, refl, ap, arith, List, [], ◌∷◌, map}
use retia.Prelude.Order.{Bytes}
use retia.Data.Value.{
  Externals, Num, int, float, Vector, f32, f64, DataValue, Values, null, bool, num, str, bytes,
  uuid, regex, list, set, vec, json, validity, bot, nil, cons,
}
use retia.Data.Value.Order.{OrderOps}

-- JSON as its text.
abbrev pub Printed : Externals → Externals
Printed X = record { F64 = X.F64; F32 = X.F32; Json = Bytes }

module _ {X : Externals} where
  abbrev pub same_num : Num X → Num (Printed X)
  same_num (int i) = int i
  same_num (float x) = float x

  module _ (e : OrderOps X) where
    abbrev pub canonical_vector : Vector X → Vector (Printed X)
    canonical_vector (f32 l) = f32 (map e.ordered32.canonical l)
    canonical_vector (f64 l) = f64 (map e.ordered64.canonical l)

    -- A value with the canonical floats in its vectors, and the text of its JSON.
    unfoldable mutual
      pub canonical : DataValue X → DataValue (Printed X)
      canonical null = null
      canonical (bool b) = bool b
      canonical (num n) = num (same_num n)
      canonical (str s) = str s
      canonical (bytes b) = bytes b
      canonical (uuid u) = uuid u
      canonical (regex r) = regex r
      canonical (list vs) = list (canonical_all vs)
      canonical (set vs) = set (canonical_all vs)
      canonical (vec v) = vec (canonical_vector v)
      canonical (json j) = json (e.to_string j)
      canonical (validity v) = validity v
      canonical bot = bot

      pub canonical_all : Values X → Values (Printed X)
      canonical_all nil = nil
      canonical_all (cons v vs) = cons (canonical v) (canonical_all vs)

map_injective :
    {A B : Type 0} (f : A → B)
    → ((x y : A) → f x ≡ f y → x ≡ y)
    → (xs ys : List A) → map f xs ≡ map f ys
    → xs ≡ ys
map_injective f i [] [] h = refl
map_injective f i [] (y ∷ ys) h = ground arith
map_injective f i (x ∷ xs) [] h = ground arith
map_injective f i (x ∷ xs) (y ∷ ys) h = ground (arith, i x y, map_injective f i xs ys)

-- Where no two floats are equal as `OrderedFloat` and no two JSON values have one text, nor are two values
-- the same up to these.
module _ {X : Externals} (e : OrderOps X)
    (exact32 : (x y : X.F32) → e.ordered32.canonical x ≡ e.ordered32.canonical y → x ≡ y)
    (exact64 : (x y : X.F64) → e.ordered64.canonical x ≡ e.ordered64.canonical y → x ≡ y)
    (exact_json : (x y : X.Json) → e.to_string x ≡ e.to_string y → x ≡ y) where
  canonical_vector_injective :
      (v w : Vector X) → canonical_vector e v ≡ canonical_vector e w → v ≡ w
  canonical_vector_injective (f32 l) (f32 r) h =
      ap f32 (map_injective e.ordered32.canonical exact32 l r (cc))
  canonical_vector_injective (f32 l) (f64 r) h = cc
  canonical_vector_injective (f64 l) (f32 r) h = cc
  canonical_vector_injective (f64 l) (f64 r) h =
      ap f64 (map_injective e.ordered64.canonical exact64 l r (cc))

  same_num_injective : (a b : Num X) → same_num a ≡ same_num b → a ≡ b
  same_num_injective (int i) (int j) h = cc
  same_num_injective (int i) (float y) h = cc
  same_num_injective (float x) (int j) h = cc
  same_num_injective (float x) (float y) h = cc

  mutual
    unfolding canonical

    pub canonical_injective : (a b : DataValue X) → canonical e a ≡ canonical e b → a ≡ b
    canonical_injective (num a) (num b) h = ap num (same_num_injective a b (cc))
    canonical_injective (list a) (list b) h = ap list (canonical_all_injective a b (cc))
    canonical_injective (set a) (set b) h = ap set (canonical_all_injective a b (cc))
    canonical_injective (vec a) (vec b) h = ap vec (canonical_vector_injective a b (cc))
    canonical_injective (json a) (json b) h = ap json (exact_json a b (cc))
    canonical_injective a b h = ground arith

    pub canonical_all_injective : (a b : Values X) → canonical_all e a ≡ canonical_all e b → a ≡ b
    canonical_all_injective nil nil h = refl
    canonical_all_injective nil (cons b bs) h = cc
    canonical_all_injective (cons a as_) nil h = cc
    canonical_all_injective (cons a as_) (cons b bs) h =
        let p = canonical_injective a b (cc) in let q = canonical_all_injective as_ bs (cc) in cc
