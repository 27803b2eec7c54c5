-- ===== src/Data/Memcmp/Order.antt =====
-- The encoding of byte strings keeps their order, whatever follows it.
use retia.Prelude.{
  ℕ, zero, suc, ◌+◌, ◌-◌, ◌≤◌, ◌<◌, ◌≡◌, refl, ◌∙◌, some, sym, ◌≢◌, [], ◌∷◌, ◌++◌, lt, arith, inl,
  inr,
}
use retia.Prelude.Order.{
  Bytes, cmp_list, nat_ord, bytes_ord, list_ord, compare_self, Ordering-cases, eq_of_cmp_list,
  gt_of_lt_list, lt_of_gt_list,
}
use retia.Data.Memcmp.Bytes.{enc_asc_padding, encode_bytes}
use retia.Data.Memcmp.Reference.{encode_from, encode_bytes-encode_from}

-- Lexicographic order, byte by byte.
cmp_step : (x y : ℕ) (xs ys : Bytes) → x ≡ y → cmp_list xs ys ≡ lt → cmp_list (x ∷ xs) (y ∷ ys) ≡ lt
unfolding cmp_list nat_ord
cmp_step x y xs ys e h = ground (arith, compare_self x)

cmp_head : (x y : ℕ) (xs ys : Bytes) → x < y → cmp_list (x ∷ xs) (y ∷ ys) ≡ lt
unfolding cmp_list nat_ord
cmp_head x y xs ys h = ground arith

same_padding :
    (slots m n : ℕ) (r s : Bytes)
    → m < n
    → cmp_list ((enc_asc_padding slots ++ m ∷ []) ++ r) ((enc_asc_padding slots ++ n ∷ []) ++ s)
      ≡ lt
same_padding zero m n r s h = cmp_head m n r s h
same_padding (suc slots) m n r s h = cmp_step 0 0 _ _ refl (same_padding slots m n r s h)

-- Padding and a marker that is low enough come before any encoding.
padding_before :
    (slots marker : ℕ) (r key s : Bytes)
    → marker + slots < 255
    → cmp_list ((enc_asc_padding slots ++ marker ∷ []) ++ r) (encode_from slots key ++ s) ≡ lt
unfolding encode_from
padding_before zero marker r [] s h = cmp_head marker 255 r _ (omega arith)
padding_before zero marker r (y ∷ key) s h = cmp_head marker 255 r _ (omega arith)
padding_before (suc slots) marker r [] s h =
    same_padding (suc slots) marker (255 - suc slots) r s (omega arith)
padding_before (suc slots) marker r (zero ∷ key) s h =
    cmp_step 0 0 _ _ refl (padding_before slots marker r key s (omega arith))
padding_before (suc slots) marker r (suc y ∷ key) s h = cmp_head 0 (suc y) _ _ (omega arith)

-- The end of a key comes before any byte.
end_before :
    (slots y : ℕ) (r key s : Bytes)
    → slots < 8
    → cmp_list
        ((enc_asc_padding (suc slots) ++ (255 - suc slots) ∷ []) ++ r)
        (y ∷ encode_from slots key ++ s)
      ≡ lt
end_before slots zero r key s h =
    cmp_step 0 0 _ _ refl (padding_before slots (255 - suc slots) r key s (omega arith))
end_before slots (suc y) r key s h = cmp_head 0 (suc y) _ _ (omega arith)

-- What the first bytes decide, and where they are equal the rests.
cmp_bytes :
    (x y : ℕ) (xs ys us vs : Bytes)
    → cmp_list (x ∷ xs) (y ∷ ys) ≡ lt
    → (cmp_list xs ys ≡ lt → cmp_list us vs ≡ lt)
    → cmp_list (x ∷ us) (y ∷ vs) ≡ lt
unfolding cmp_list nat_ord
cmp_bytes x y xs ys us vs h step = ground arith

not-lt-nil : (a : Bytes) → ¬ (cmp_list a [] ≡ lt)
unfolding cmp_list
not-lt-nil [] h = cc
not-lt-nil (x ∷ a) h = cc

encode_from-lt :
    (slots : ℕ) (a b r s : Bytes)
    → slots ≤ 8
    → cmp_list a b ≡ lt
    → cmp_list (encode_from slots a ++ r) (encode_from slots b ++ s) ≡ lt
unfolding encode_from
encode_from-lt slots [] [] r s n h = absurd (not-lt-nil [] h)
encode_from-lt zero [] (y ∷ b) r s n h =
    cmp_step 255 255 _ _ refl (end_before 7 y r b s (omega arith))
encode_from-lt (suc slots) [] (y ∷ b) r s n h = end_before slots y r b s n
encode_from-lt slots (x ∷ a) [] r s n h = absurd (not-lt-nil (x ∷ a) h)
encode_from-lt zero (x ∷ a) (y ∷ b) r s n h =
    cmp_step 255 255 _ _ refl
      (cmp_bytes x y a b _ _ h (λ k. encode_from-lt 7 a b r s (omega arith) k))
encode_from-lt (suc slots) (x ∷ a) (y ∷ b) r s n h =
    cmp_bytes x y a b _ _ h (λ k. encode_from-lt slots a b r s (omega arith) k)

-- Two different keys are encoded, and whatever bytes follow the encodings compare as the keys do.
pub encode_bytes-cmp :
    (a b r s : Bytes)
    → a ≢ b
    → (u v : Bytes) × (encode_bytes a ≡ some u)
      × (encode_bytes b ≡ some v)
      × (cmp_list (u ++ r) (v ++ s) ≡ cmp_list a b)
encode_bytes-cmp a b r s n = (
  encode_from 8 a,
  encode_from 8 b,
  encode_bytes-encode_from a,
  encode_bytes-encode_from b,
  elim (Ordering-cases (cmp_list a b)) [
    | inl less ↦ encode_from-lt 8 a b r s (omega arith) less ∙ sym less
    | inr (inl same) ↦ absurd (n (eq_of_cmp_list a b same))
    | inr (inr more) ↦
        gt_of_lt_list (encode_from 8 b ++ s) (encode_from 8 a ++ r)
          (encode_from-lt 8 b a s r (omega arith) (lt_of_gt_list a b more))
        ∙ sym more
  ],
)
