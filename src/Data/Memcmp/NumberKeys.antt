-- ===== src/Data/Memcmp/NumberKeys.antt =====
-- The key of a number decodes to it (retia-core/src/data/memcmp.rs).
use mathlib.Core.List.{append_assoc}
use retia.Prelude.{
  ℕ, zero, suc, ◌+◌, ◌*◌, ◌/◌, ◌%◌, ◌<◌, true, ◌≡◌, refl, some, [], ◌∷◌, ◌++◌, length,
  length-append, arith,
}
use retia.Prelude.Order.{Bytes}
use retia.Data.Value.{ℤ, Externals, FloatOps, Num, int, float, num_get_float}
use retia.Data.Memcmp.Words.{
  IsWord, IsI64, order_encode_f64, order_encode_i64, order_decode_i64-order_encode_i64,
  order_decode_f64-order_encode_f64,
}
use retia.Data.Memcmp.Numbers.{
  write_be, read_be, split_at, is_exact, decoded_num, encode_num, decode_num, encode_tag,
  decode_tag, decode_int,
}

abbrev words : ℕ → ℕ
words zero = 1
words (suc k) = 256 * words k

read_be-append :
    (acc : ℕ) (xs : Bytes) (b : ℕ) → read_be acc (xs ++ b ∷ []) ≡ read_be acc xs * 256 + b
unfolding read_be
read_be-append acc [] b = refl
read_be-append acc (x ∷ xs) b = read_be-append (acc * 256 + x) xs b

read_be-write_be : (k u : ℕ) → u < words k → read_be 0 (write_be k u) ≡ u
unfolding read_be write_be
read_be-write_be zero u h = omega arith
read_be-write_be (suc k) u h = omega (
  arith,
  read_be-append 0 (write_be k (u / 256)) (u % 256),
  read_be-write_be k (u / 256) (omega arith),
)

length-write_be : (k u : ℕ) → length (write_be k u) ≡ k
unfolding write_be
length-write_be zero u = refl
length-write_be (suc k) u =
    omega (arith, length-append (write_be k (u / 256)) (u % 256 ∷ []), length-write_be k (u / 256))

split_at-append : (n : ℕ) (xs ys : Bytes) → length xs ≡ n → split_at n (xs ++ ys) ≡ some (xs, ys)
unfolding split_at
split_at-append zero [] ys h = refl
split_at-append zero (x ∷ xs) ys h = ground arith
split_at-append (suc n) [] ys h = ground arith
split_at-append (suc n) (x ∷ xs) ys h = rw (split_at-append n xs ys (omega arith))

-- What a number is behind its first eight bytes.
abbrev pub InRange : {X : Externals} → Num X → Type 0
InRange (int i) = IsI64 i
InRange (float x) = Unit

split_word : (u : ℕ) (ys : Bytes) → split_at 8 (write_be 8 u ++ ys) ≡ some (write_be 8 u, ys)
split_word u ys = split_at-append 8 (write_be 8 u) ys (length-write_be 8 u)

read_word : (u : ℕ) → IsWord u → read_be 0 (write_be 8 u) ≡ u
read_word u h = read_be-write_be 8 u (omega (arith, h))

module _ {X : Externals} (f : FloatOps X.F64) (to_bits : X.F64 → ℕ) (from_bits : ℕ → X.F64) where
  decode_int-write_be :
      (i : ℤ) (rest : Bytes)
      → IsI64 i
      → decode_int {X = X} f to_bits from_bits (write_be 8 (order_encode_i64 i) ++ rest)
        ≡ decoded_num (int i) rest
  decode_int-write_be i rest h =
      let p = order_decode_i64-order_encode_i64 i h in
      rw (split_word (order_encode_i64 i) rest, read_word (order_encode_i64 i) p.1, p.0)

  decode_tag-encode_tag :
      (v : Num X) (rest : Bytes)
      → InRange v
      → ((i : ℤ) → is_exact i ≡ true → f.to_int (f.of_int i) ≡ i)
      → decode_tag {X = X} f to_bits from_bits
          (num_get_float f v)
          (encode_tag {X = X} f to_bits from_bits v ++ rest)
        ≡ decoded_num v rest
  decode_tag-encode_tag (float x) rest h exact = refl
  decode_tag-encode_tag (int i) rest h exact = ground (arith, exact i, decode_int-write_be i rest h)

  -- The key of a number, whatever follows it, decodes to that number and what follows. An integer is
  -- in the range of an i64, the float of the number is read back from its bits, which are a u64, and
  -- an integer of at most 53 bits converts to a float and back.
  pub decode_num-encode_num :
      (v : Num X) (rest : Bytes)
      → InRange v
      → ((i : ℤ) → is_exact i ≡ true → f.to_int (f.of_int i) ≡ i)
      → IsWord (to_bits (num_get_float f v))
      → from_bits (to_bits (num_get_float f v)) ≡ num_get_float f v
      → decode_num {X = X} f to_bits from_bits (encode_num {X = X} f to_bits from_bits v ++ rest)
        ≡ decoded_num v rest
  unfolding decode_num encode_num
  decode_num-encode_num v rest h exact w back =
      let u = order_encode_f64 (to_bits (num_get_float f v)) in
      let p = order_decode_f64-order_encode_f64 (to_bits (num_get_float f v)) w in
      rw (
        append_assoc (write_be 8 u) (encode_tag {X = X} f to_bits from_bits v) rest,
        split_word u (encode_tag {X = X} f to_bits from_bits v ++ rest),
        read_word u p.1,
        p.0,
        back,
        decode_tag-encode_tag v rest h exact,
      )
