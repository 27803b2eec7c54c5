-- ===== src/Data/Aggr/Bits.antt =====
-- `bit_and`, `bit_or` and `bit_xor` (retia-core/src/data/aggr.rs).
use Prim.Native.Nat.{bit_and, bit_or, bit_xor}
use retia.Prelude.{ℕ, ◌==◌, Bool, true, false, length, if◌then◌else◌, [], ◌∷◌}
use retia.Prelude.Order.{Bytes, bytes_ord, eq?}
use retia.Prelude.Result.{Result, ok, err}
use retia.Data.Value.{Externals, DataValue, bytes}
use retia.Data.Aggr.Base.{Error, wrong_type, wrong_length, NormalAggr, MeetAggr}

abbrev pub is_empty : Bytes → Bool
is_empty [] = true
is_empty (x ∷ xs) = false

-- `for (l, r) in left.iter_mut().zip(right.iter()) { *l = op(*l, *r) }`
unfoldable pub zip_bytes : (ℕ → ℕ → ℕ) → Bytes → Bytes → Bytes
zip_bytes op [] ys = []
zip_bytes op (x ∷ xs) [] = x ∷ xs
zip_bytes op (x ∷ xs) (y ∷ ys) = op x y ∷ zip_bytes op xs ys

-- The three normal aggregations have one body over their operation, and so have the two of meets.
unfoldable pub bits_into : (ℕ → ℕ → ℕ) → Bytes → Bytes → Result Error Bytes
bits_into op res bs =
    if is_empty res
    then ok bs
    else if length res == length bs
    then ok (zip_bytes op res bs)
    else err wrong_length

unfoldable pub meet_bits : (ℕ → ℕ → ℕ) → Bytes → Bytes → Result Error (Bytes × Bool)
meet_bits op left right =
    if eq? left right
    then ok (left, false)
    else if is_empty left
    then ok (right, true)
    else if length left == length right
    then ok (zip_bytes op left right, true)
    else err wrong_length

abbrev pub as_value :
    {X : Externals} → Result Error (Bytes × Bool) → Result Error (DataValue X × Bool)
as_value (Result.ok (bs, changed)) = ok (bytes bs, changed)
as_value (Result.err e) = err e
as_value Result.panic = Result.panic

module _ {X : Externals} where
  unfoldable pub bit_and_set : Bytes → DataValue X → Result Error Bytes
  unfolding bits_into
  bit_and_set res (bytes bs) = bits_into bit_and res bs
  bit_and_set res _ = err wrong_type

  abbrev pub aggr_bit_and : NormalAggr X Bytes
  aggr_bit_and = record { start = []; set_value = bit_and_set; get_value = λ res. ok (bytes res) }

  unfoldable pub meet_bit_and_update : DataValue X → DataValue X → Result Error (DataValue X × Bool)
  unfolding meet_bits
  meet_bit_and_update (bytes left) (bytes right) = as_value (meet_bits bit_and left right)
  meet_bit_and_update _ _ = err wrong_type

  abbrev pub meet_aggr_bit_and : MeetAggr X
  meet_aggr_bit_and = record { init_val = bytes []; update = meet_bit_and_update }

  unfoldable pub bit_or_set : Bytes → DataValue X → Result Error Bytes
  unfolding bits_into
  bit_or_set res (bytes bs) = bits_into bit_or res bs
  bit_or_set res _ = err wrong_type

  abbrev pub aggr_bit_or : NormalAggr X Bytes
  aggr_bit_or = record { start = []; set_value = bit_or_set; get_value = λ res. ok (bytes res) }

  unfoldable pub meet_bit_or_update : DataValue X → DataValue X → Result Error (DataValue X × Bool)
  unfolding meet_bits
  meet_bit_or_update (bytes left) (bytes right) = as_value (meet_bits bit_or left right)
  meet_bit_or_update _ _ = err wrong_type

  abbrev pub meet_aggr_bit_or : MeetAggr X
  meet_aggr_bit_or = record { init_val = bytes []; update = meet_bit_or_update }

  unfoldable pub bit_xor_set : Bytes → DataValue X → Result Error Bytes
  unfolding bits_into
  bit_xor_set res (bytes bs) = bits_into bit_xor res bs
  bit_xor_set res _ = err wrong_type

  abbrev pub aggr_bit_xor : NormalAggr X Bytes
  aggr_bit_xor = record { start = []; set_value = bit_xor_set; get_value = λ res. ok (bytes res) }
