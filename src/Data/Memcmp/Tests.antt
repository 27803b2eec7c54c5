-- ===== src/Data/Memcmp/Tests.antt =====
-- Runs of retia-core/src/data/memcmp.rs on small keys, and the theorems at them.
use retia.Prelude.{ℕ, ◌≡◌, ◌≢◌, refl, some, [], ◌∷◌, ◌++◌, arith, compare}
use retia.Prelude.Order.{Bytes, cmp_list, nat_ord}
use retia.Data.Memcmp.Bytes.{encode_bytes, decode_bytes, decoded, panic}
use retia.Data.Memcmp.Reference.{encode_from, encode_bytes-encode_from}
use retia.Data.Memcmp.Roundtrip.{decode_bytes-encode_bytes}
use retia.Data.Memcmp.Order.{encode_bytes-cmp}
use retia.Data.Value.{pos, negsuc, int}
use retia.Data.Value.NumOrder.{cmp_int}
use retia.Data.Value.Sample.{sample, floats}
use retia.Data.Memcmp.Words.{
  total_cmp, order_encode_i64, order_encode_f64, order_encode_i64-cmp, order_encode_f64-total_cmp,
  as_u64, as_i64,
}
use retia.Data.Memcmp.Numbers.{encode_num, decode_num, decoded_num}
use retia.Data.Memcmp.NumberKeys.{decode_num-encode_num}

-- A key of eight bytes takes a full group and an empty one.
abbrev eight : Bytes
eight = 1 ∷ 2 ∷ 3 ∷ 4 ∷ 5 ∷ 6 ∷ 7 ∷ 0 ∷ []

encode_bytes_runs :
    (encode_bytes (1 ∷ 2 ∷ []) ≡ some (1 ∷ 2 ∷ 0 ∷ 0 ∷ 0 ∷ 0 ∷ 0 ∷ 0 ∷ 249 ∷ []))
    × (encode_bytes eight ≡ some (eight ++ 255 ∷ 0 ∷ 0 ∷ 0 ∷ 0 ∷ 0 ∷ 0 ∷ 0 ∷ 0 ∷ 247 ∷ []))
unfolding encode_bytes
encode_bytes_runs = (refl, refl)

decode_bytes_runs :
    (decode_bytes (1 ∷ 2 ∷ 0 ∷ 0 ∷ 0 ∷ 0 ∷ 0 ∷ 0 ∷ 249 ∷ 7 ∷ []) ≡ decoded (1 ∷ 2 ∷ []) (7 ∷ []))
    × (decode_bytes (1 ∷ 2 ∷ []) ≡ panic)
unfolding decode_bytes
decode_bytes_runs = (refl, refl)

encode_bytes-encode_from_example : encode_bytes eight ≡ some (encode_from 8 eight)
encode_bytes-encode_from_example = encode_bytes-encode_from eight

decode_bytes-encode_bytes_example :
    (out : Bytes) × (encode_bytes eight ≡ some out)
    × (decode_bytes (out ++ 9 ∷ []) ≡ decoded eight (9 ∷ []))
decode_bytes-encode_bytes_example = decode_bytes-encode_bytes eight (9 ∷ [])

keys_differ : ◌≢◌ {A = Bytes} (1 ∷ []) (1 ∷ 0 ∷ [])
keys_differ e = cc

encode_bytes-cmp_example :
    (u v : Bytes) × (encode_bytes (1 ∷ []) ≡ some u)
    × (encode_bytes (1 ∷ 0 ∷ []) ≡ some v)
    × (cmp_list {K = ℕ} (u ++ 5 ∷ []) (v ++ []) ≡ cmp_list {K = ℕ} (1 ∷ []) (1 ∷ 0 ∷ []))
encode_bytes-cmp_example = encode_bytes-cmp (1 ∷ []) (1 ∷ 0 ∷ []) (5 ∷ []) [] keys_differ

order_encode_i64-cmp_example :
    compare (order_encode_i64 (negsuc 6)) (order_encode_i64 (pos 3)) ≡ cmp_int (negsuc 6) (pos 3)
order_encode_i64-cmp_example = order_encode_i64-cmp (negsuc 6) (pos 3) (omega arith) (omega arith)

-- The bits of 1.0, and then of -2.0.
abbrev one : ℕ
one = 0x3ff0000000000000

abbrev minus_two : ℕ
minus_two = 0xc000000000000000

order_encode_f64-total_cmp_example :
    compare (order_encode_f64 one) (order_encode_f64 minus_two) ≡ total_cmp one minus_two
order_encode_f64-total_cmp_example =
    order_encode_f64-total_cmp one minus_two (omega arith) (omega arith)

-- The bits of an integer stand for it where floats are integers.
decode_num-encode_num_example :
    decode_num {X = sample} floats as_u64 as_i64
      (encode_num {X = sample} floats as_u64 as_i64 (int (pos 0x20000000000000)) ++ 9 ∷ [])
    ≡ decoded_num (int (pos 0x20000000000000)) (9 ∷ [])
decode_num-encode_num_example =
    decode_num-encode_num {X = sample} floats as_u64 as_i64 (int (pos 0x20000000000000)) (9 ∷ [])
      (omega arith) (λ i e. refl) (omega arith) refl
