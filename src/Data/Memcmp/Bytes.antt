-- ===== src/Data/Memcmp/Bytes.antt =====
-- `encode_bytes` and `decode_bytes` (retia-core/src/data/memcmp.rs): byte strings in groups of eight.
use retia.Prelude.{
  ℕ, zero, suc, ◌-◌, ltb, ◌==◌, Option, none, some, [], ◌∷◌, ◌++◌, length, take, drop, replicate,
  if◌then◌else◌,
}
use retia.Prelude.Order.{Bytes}

abbrev pub enc_group_size : ℕ
enc_group_size = 8

abbrev pub enc_marker : ℕ
enc_marker = 0xff

-- `&ENC_ASC_PADDING[..pad]`
abbrev pub enc_asc_padding : ℕ → Bytes
enc_asc_padding pad = replicate pad 0

-- One round at the position where `rest` of the key is still to be written: what it writes.
unfoldable pub encode_group : Bytes → Bytes
encode_group rest =
    if ltb enc_group_size (length rest)
    then take enc_group_size rest ++ enc_marker ∷ []
    else rest
      ++ (enc_asc_padding (enc_group_size - length rest)
          ++ (enc_marker - (enc_group_size - length rest)) ∷ [])

-- `while index <= len`; `left` is `len - index`, and the loop ends when the index passes it. `none`
-- is exhausted fuel.
unfoldable pub encode_loop : ℕ → Bytes → Option Bytes
encode_loop zero rest = none
encode_loop (suc fuel) rest =
    let more = encode_loop fuel (drop enc_group_size rest) in
    if ltb (length rest) enc_group_size
    then some (encode_group rest)
    else elim more [ none ↦ none | some out ↦ some (encode_group rest ++ out) ]

-- Each round but the last takes a whole group of the key.
unfoldable pub encode_bytes : Bytes → Option Bytes
unfolding encode_loop encode_group
encode_bytes key = encode_loop (suc (length key)) key

-- How `decode_bytes` ends: it returns the key and the data behind it, or panics on a slice out of
-- bounds. Its debug assertions are not part of it.
pub data Decoded : Type 0 where
  decoded : Bytes → Bytes → Decoded
  panic : Decoded
  out_of_fuel : Decoded

-- `let pad_size = (ENC_MARKER - marker) as usize` and what follows it; `next` goes on with the loop.
abbrev pub decode_chunk : (Bytes → Decoded) → Bytes → Bytes → Bytes → Decoded
decode_chunk next key bytes [] = panic
decode_chunk next key bytes (marker ∷ rest) =
    let pad_size = enc_marker - marker in
    let go_on = next (key ++ bytes) in
    if pad_size == 0
    then go_on
    else if ltb enc_group_size pad_size
    then panic
    else decoded (key ++ take (enc_group_size - pad_size) bytes) rest

unfoldable pub decode_loop : ℕ → Bytes → Bytes → Decoded
decode_loop zero key bs = out_of_fuel
decode_loop (suc fuel) key bs =
    let next = λ (key' : Bytes). decode_loop fuel key' (drop (suc enc_group_size) bs) in
    if ltb (length bs) (suc enc_group_size)
    then panic
    else decode_chunk next key (take enc_group_size bs) (drop enc_group_size bs)

unfoldable pub decode_bytes : Bytes → Decoded
unfolding decode_loop
decode_bytes bs = decode_loop (suc (length bs)) [] bs
