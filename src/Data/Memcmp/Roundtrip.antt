-- ===== src/Data/Memcmp/Roundtrip.antt =====
-- `decode_bytes` reads back what `encode_bytes` wrote, and stops where it ended.
use mathlib.Core.List.{append_assoc}
use retia.Prelude.{
  ℕ, zero, suc, ◌+◌, ◌-◌, ◌*◌, ◌≤◌, ◌<◌, ltb, ◌==◌, ◌≡◌, refl, ap, some, [], ◌∷◌, ◌++◌, length,
  take, drop, arith, length-drop, length-append, length-replicate, length-take, take-append-drop,
  Bool-cases, inl, inr, false, List,
}
use retia.Prelude.Order.{Bytes}
use retia.Data.Memcmp.Bytes.{
  enc_asc_padding, encode_bytes, decoded, decode_loop, decode_bytes, decode_chunk,
}
use retia.Data.Memcmp.Reference.{
  encode_from, encode_from_group, encode_from_last, encode_bytes-encode_from,
}

take-append_exact {ℓ} :
    {A : Type ℓ} (n : ℕ) (xs ys : List A) → length xs ≡ n → take n (xs ++ ys) ≡ xs
take-append_exact zero [] ys h = refl
take-append_exact zero (x ∷ xs) ys h = absurd (omega arith)
take-append_exact (suc n) [] ys h = absurd (omega arith)
take-append_exact (suc n) (x ∷ xs) ys h =
    ap (λ out. x ∷ out) (take-append_exact n xs ys (omega arith))

drop-append_exact {ℓ} :
    {A : Type ℓ} (n : ℕ) (xs ys : List A) → length xs ≡ n → drop n (xs ++ ys) ≡ ys
drop-append_exact zero [] ys h = refl
drop-append_exact zero (x ∷ xs) ys h = absurd (omega arith)
drop-append_exact (suc n) [] ys h = absurd (omega arith)
drop-append_exact (suc n) (x ∷ xs) ys h = drop-append_exact n xs ys (omega arith)

drop-suc {ℓ} :
    {A : Type ℓ} (n : ℕ) (x : A) (xs ys : List A) → drop n xs ≡ x ∷ ys → drop (suc n) xs ≡ ys
drop-suc zero x [] ys h = ground arith
drop-suc zero x (y ∷ xs) ys h = ground arith
drop-suc (suc n) x [] ys h = ground arith
drop-suc (suc n) x (y ∷ xs) ys h = drop-suc n x xs ys h

-- One round on a group of eight bytes and its marker.
decode_group :
    (fuel : ℕ) (acc group : Bytes) (marker : ℕ) (rest : Bytes)
    → length group ≡ 8
    → decode_loop (suc fuel) acc (group ++ marker ∷ rest)
      ≡ decode_chunk (λ key. decode_loop fuel key rest) acc group (marker ∷ rest)
unfolding decode_loop
decode_group fuel acc group marker rest h =
    let d = drop-append_exact 8 group (marker ∷ rest) h in
    let long : ltb (length (group ++ marker ∷ rest)) 9 ≡ false =
      ground (arith, length-append group (marker ∷ rest)) in
    rw (
      long,
      take-append_exact 8 group (marker ∷ rest) h,
      d,
      drop-suc 8 marker (group ++ marker ∷ rest) rest d,
    )

-- A key that ends within the group.
decode_last :
    (fuel : ℕ) (acc key rest : Bytes)
    → length key < 8
    → decode_loop (suc fuel) acc (encode_from 8 key ++ rest) ≡ decoded (acc ++ key) rest
decode_last fuel acc key rest h =
    let pad = 8 - length key in
    let group = key ++ enc_asc_padding pad in
    let size : length group ≡ 8 =
      omega (arith, length-append key (enc_asc_padding pad), length-replicate pad (◌+◌ 0 0)) in
    let bytes : encode_from 8 key ++ rest ≡ group ++ (255 - pad) ∷ rest =
      rw (encode_from_last 8 key h) (simp append_assoc) in
    let marker : 255 - (255 - pad) ≡ pad = omega arith in
    let slots : 8 - pad ≡ length key = omega arith in
    let some_pad : (pad == 0) ≡ false = ground arith in
    let in_group : ltb 8 pad ≡ false = ground arith in
    rw (
      bytes,
      decode_group fuel acc group (255 - pad) rest size,
      marker,
      some_pad,
      in_group,
      slots,
      take-append_exact (length key) key (enc_asc_padding pad) refl,
    )

decode_loop_lem :
    (fuel : ℕ) (acc key rest : Bytes)
    → length key < 8 * fuel
    → decode_loop fuel acc (encode_from 8 key ++ rest) ≡ decoded (acc ++ key) rest
decode_loop_lem zero acc key rest h = absurd (omega arith)
decode_loop_lem (suc fuel) acc key rest h = elim (Bool-cases (ltb (length key) 8)) [
  | inl last ↦ decode_last fuel acc key rest (ground arith)
  | inr more ↦
      let full : 8 ≤ length key = ground arith in
      let size : length (take 8 key) ≡ 8 = omega (arith, length-take 8 key) in
      let small : length (drop 8 key) < 8 * fuel = omega (arith, length-drop 8 key) in
      rw (
        encode_from_group 8 key full,
        append_assoc (take 8 key) (255 ∷ encode_from 8 (drop 8 key)) rest,
        decode_group fuel acc (take 8 key) 255 (encode_from 8 (drop 8 key) ++ rest) size,
        decode_loop_lem fuel (acc ++ take 8 key) (drop 8 key) rest small,
        append_assoc acc (take 8 key) (drop 8 key),
        take-append-drop 8 key,
      )
]

length-encode_from : (slots : ℕ) (key : Bytes) → length key ≤ length (encode_from slots key)
unfolding encode_from
length-encode_from zero [] = omega arith
length-encode_from zero (x ∷ key) = omega (arith, length-encode_from 7 key)
length-encode_from (suc slots) [] = omega arith
length-encode_from (suc slots) (x ∷ key) = omega (arith, length-encode_from slots key)

-- Every key is encoded, and from its encoding with anything behind it the key is read back, and what
-- is left is what stood behind it.
pub decode_bytes-encode_bytes :
    (key rest : Bytes)
    → (out : Bytes) × (encode_bytes key ≡ some out)
      × (decode_bytes (out ++ rest) ≡ decoded key rest)
unfolding decode_bytes
decode_bytes-encode_bytes key rest = (
  encode_from 8 key,
  encode_bytes-encode_from key,
  decode_loop_lem (suc (length (encode_from 8 key ++ rest))) [] key rest
      (omega (arith, length-append (encode_from 8 key) rest, length-encode_from 8 key)),
)
