-- ===== src/Data/Value/Tests.antt =====
-- The order of values at small values.
use retia.Prelude.{Ordering, lt, eq, ◌≡◌, ◌↔◌, refl, List, [], ◌∷◌}
use retia.Prelude.Order.{bytes_ord}
use retia.Data.Value.{
  ℤ, pos, negsuc, vec, json, f32, f64, DataValue, num, int, float, list, null, cons, nil,
}
use retia.Data.Value.NumOrder.{cmp_num, int_ord}
use retia.Data.Value.Order.{cmp_vector, cmp_value}
use retia.Data.Value.Order.Canonical.{canonical}
use retia.Data.Value.Order.Lawful.{reversed, cmp_value_total, cmp_value_trans}
use retia.Data.Value.Sample.{sample, floats, floats-IsMonotone, zeros_ops}

abbrev one : DataValue sample
one = num (int (pos 1))

abbrev one_float : DataValue sample
one_float = num (float (pos 1))

abbrev pair : DataValue sample
pair = list (cons one (cons null nil))

abbrev cmp : DataValue sample → DataValue sample → Ordering
cmp a b = cmp_value {X = sample} floats ⦃fo = int_ord⦄ zeros_ops a b

-- An integer comes before the float of the same number.
int_before_float : cmp one one_float ≡ lt
unfolding cmp_value cmp_num int_ord
int_before_float = refl

float_before_list : cmp one_float pair ≡ lt
unfolding cmp_value
float_before_list = refl

-- Vectors compare by their length first, and both zeros are equal in them.
abbrev zeros : List ℤ → DataValue sample
zeros l = vec (f64 l)

vector_by_length : cmp (zeros (pos 5 ∷ [])) (zeros (pos 1 ∷ pos 1 ∷ [])) ≡ lt
unfolding cmp_value cmp_vector int_ord
vector_by_length = refl

zeros_equal : cmp (zeros (negsuc 0 ∷ [])) (zeros (pos 0 ∷ [])) ≡ eq
unfolding cmp_value cmp_vector int_ord
zeros_equal = refl

zeros_before_text : cmp (zeros (pos 0 ∷ [])) (json (b'1' ∷ [])) ≡ lt
unfolding cmp_value
zeros_before_text = refl

shorter_before_zeros : cmp (vec (f32 (pos 7 ∷ []))) (zeros (pos 0 ∷ [])) ≡ lt
unfolding cmp_value cmp_vector
shorter_before_zeros = refl

cmp_value_total_example :
    ((cmp (zeros (negsuc 0 ∷ [])) (zeros (pos 0 ∷ [])) ≡ eq)
      ↔ (canonical zeros_ops (zeros (negsuc 0 ∷ [])) ≡ canonical zeros_ops (zeros (pos 0 ∷ []))))
    × (cmp (zeros (pos 0 ∷ [])) (zeros (negsuc 0 ∷ []))
        ≡ reversed (cmp (zeros (negsuc 0 ∷ [])) (zeros (pos 0 ∷ []))))
cmp_value_total_example =
    cmp_value_total {X = sample} floats ⦃fo = int_ord⦄ zeros_ops floats-IsMonotone
      (zeros (negsuc 0 ∷ [])) (zeros (pos 0 ∷ []))

cmp_value_trans_example : cmp (vec (f32 (pos 7 ∷ []))) (json (b'1' ∷ [])) ≡ lt
cmp_value_trans_example =
    cmp_value_trans {X = sample} floats ⦃fo = int_ord⦄ zeros_ops floats-IsMonotone
      (vec (f32 (pos 7 ∷ []))) (zeros (pos 0 ∷ [])) (json (b'1' ∷ [])) shorter_before_zeros
      zeros_before_text
