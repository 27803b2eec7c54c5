-- ===== src/Data/Memcmp/Reference.antt =====
-- The encoding of byte strings as a recursion on the bytes, and that the loop computes it.
use retia.Prelude.{
  ℕ, zero, suc, ◌-◌, ◌*◌, ◌≤◌, ◌<◌, ltb, ◌≡◌, refl, ap, some, [], ◌∷◌, ◌++◌, length, take, drop,
  arith, length-drop, false, Bool-cases, inl, inr,
}
use mathlib.Core.List.{append_assoc}
use retia.Prelude.Order.{Bytes}
use retia.Data.Memcmp.Bytes.{enc_asc_padding, encode_group, encode_loop, encode_bytes}

-- The encoding of `key` where `slots` of the present group are free.
unfoldable pub encode_from : ℕ → Bytes → Bytes
encode_from zero [] = 255 ∷ enc_asc_padding 8 ++ 247 ∷ []
encode_from zero (x ∷ key) = 255 ∷ x ∷ encode_from 7 key
encode_from (suc slots) [] = enc_asc_padding (suc slots) ++ (255 - suc slots) ∷ []
encode_from (suc slots) (x ∷ key) = x ∷ encode_from slots key

pub encode_from_full : (key : Bytes) → encode_from zero key ≡ 255 ∷ encode_from 8 key
unfolding encode_from
encode_from_full [] = refl
encode_from_full (x ∷ key) = refl

pub encode_from_group :
    (slots : ℕ) (key : Bytes)
    → slots ≤ length key
    → encode_from slots key ≡ take slots key ++ 255 ∷ encode_from 8 (drop slots key)
unfolding encode_from
encode_from_group zero key h = encode_from_full key
encode_from_group (suc slots) [] h = absurd (omega arith)
encode_from_group (suc slots) (x ∷ key) h =
    ap (λ out. x ∷ out) (encode_from_group slots key (omega arith))

pub encode_from_last :
    (slots : ℕ) (key : Bytes)
    → length key < slots
    → encode_from slots key
      ≡ key ++ (enc_asc_padding (slots - length key) ++ (255 - (slots - length key)) ∷ [])
unfolding encode_from
encode_from_last zero key h = absurd (omega arith)
encode_from_last (suc slots) [] h = let e : suc slots - 0 ≡ suc slots = omega arith in rw e
encode_from_last (suc slots) (x ∷ key) h =
    let e : suc slots - suc (length key) ≡ slots - length key = omega arith in
    rw e (ap (λ out. x ∷ out) (encode_from_last slots key (omega arith)))

take_all : (key : Bytes) (n : ℕ) → length key ≡ n → take n key ≡ key
take_all [] zero h = refl
take_all [] (suc n) h = refl
take_all (x ∷ key) zero h = absurd (omega arith)
take_all (x ∷ key) (suc n) h = ap (λ out. x ∷ out) (take_all key n (omega arith))

-- A group that the loop writes when more follows is a full one.
encode_group_full : (key : Bytes) → 8 ≤ length key → encode_group key ≡ take 8 key ++ 255 ∷ []
unfolding encode_group
encode_group_full key h = elim (Bool-cases (ltb 8 (length key))) [
  | inl more ↦ rw more
  | inr even ↦
      let e : 8 - length key ≡ 0 = ground arith in rw (even, e, take_all key 8 (ground arith))
]

encode_group_last : (key : Bytes) → length key < 8 → encode_group key ≡ encode_from 8 key
unfolding encode_group
encode_group_last key h =
    let e : ltb 8 (length key) ≡ false = ground arith in rw (e, encode_from_last 8 key h)

encode_loop_lem :
    (fuel : ℕ) (key : Bytes)
    → length key < 8 * fuel
    → encode_loop fuel key ≡ some (encode_from 8 key)
unfolding encode_loop
encode_loop_lem zero key h = absurd (omega arith)
encode_loop_lem (suc fuel) key h = elim (Bool-cases (ltb (length key) 8)) [
  | inl last ↦ rw (last, encode_group_last key (ground arith))
  | inr more ↦
      let full : 8 ≤ length key = ground arith in
      rw
        (
          more,
          encode_loop_lem fuel (drop 8 key) (omega (arith, length-drop 8 key)),
          encode_group_full key full,
          encode_from_group 8 key full,
        )
        (ap some (append_assoc (take 8 key) (255 ∷ []) (encode_from 8 (drop 8 key))))
]

-- The loop of `encode_bytes` ends, and writes the encoding that goes byte by byte.
pub encode_bytes-encode_from : (key : Bytes) → encode_bytes key ≡ some (encode_from 8 key)
unfolding encode_bytes
encode_bytes-encode_from key = encode_loop_lem (suc (length key)) key (omega arith)
