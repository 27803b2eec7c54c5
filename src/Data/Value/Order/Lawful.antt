-- ===== src/Data/Value/Order/Lawful.antt =====
-- The derived order of `DataValue` (retia-core/src/data/value.rs) is total, and what it has as equal.
use retia.Prelude.{
  ℕ, Ordering, lt, eq, gt, ◌≡◌, ◌↔◌, refl, ap, sym, ◌∙◌, arith, Bool, ◌⊎◌, inl, inr, [],
}
use retia.Prelude.Order.{Ord, Bytes, bytes_ord, then, nat_ord, list_ord}
use retia.Prelude.OrderInstances.{bool_ord, sum_ord, pair_ord, reverse_ord, ord_along}
use retia.Data.Value.{
  ℤ, Num, Externals, FloatOps, DataValue, Values, null, bool, num, str, bytes, uuid, regex, list,
  set, vec, json, validity, bot, nil, cons, int, float, Vector, f32, f64,
}
use retia.Data.Value.NumOrder.{IsMonotone, int_ord, cmp_num, num_ord}
use retia.Data.Value.Order.{OrderOps, cmp_vector, cmp_json, cmp_value, cmp_values}
use retia.Data.Value.Order.Vectors.{vector_ord, parts_ord, cmp_elements-canonical}
use retia.Data.Value.Order.Canonical.{Printed, same_num, canonical_vector, canonical, canonical_all}
use retia.Data.Value.Order.Tree.{Tree, Trees, tree_ord, cmp_tree, cmp_trees}

-- What a value holds besides its elements.
abbrev pub Payload : Externals → Type 0
Payload X = Bytes ⊎ (Bool ⊎ (Num X ⊎ (Vector X ⊎ (X.Json ⊎ (ℤ × Bool)))))

module _ {X : Externals} where
  abbrev pub nothing : Payload X
  nothing = inl []

  unfoldable mutual
    pub shape : DataValue X → Tree (ℕ × Payload X)
    shape null = Tree.node (0, nothing) Trees.nil
    shape (bool b) = Tree.node (1, inr (inl b)) Trees.nil
    shape (num n) = Tree.node (2, inr (inr (inl n))) Trees.nil
    shape (str s) = Tree.node (3, inl s) Trees.nil
    shape (bytes b) = Tree.node (4, inl b) Trees.nil
    shape (uuid u) = Tree.node (5, inl u) Trees.nil
    shape (regex r) = Tree.node (6, inl r) Trees.nil
    shape (list vs) = Tree.node (7, nothing) (shapes vs)
    shape (set vs) = Tree.node (8, nothing) (shapes vs)
    shape (vec v) = Tree.node (9, inr (inr (inr (inl v)))) Trees.nil
    shape (json j) = Tree.node (10, inr (inr (inr (inr (inl j))))) Trees.nil
    shape (validity v) =
        Tree.node (11, inr (inr (inr (inr (inr (v.timestamp, v.is_assert)))))) Trees.nil
    shape bot = Tree.node (12, nothing) Trees.nil

    pub shapes : Values X → Trees (ℕ × Payload X)
    shapes nil = Trees.nil
    shapes (cons v vs) = Trees.cons (shape v) (shapes vs)

unfoldable pub validity_ord : Ord (ℤ × Bool)
validity_ord = pair_ord ⦃a = reverse_ord int_ord⦄ ⦃b = reverse_ord bool_ord⦄

-- The order as the right one sees it.
abbrev pub reversed : Ordering → Ordering
reversed lt = gt
reversed eq = eq
reversed gt = lt

cmp_reversed : {K : Type 0} ⦃o : Ord K⦄ (a b : K) → o.cmp b a ≡ reversed (o.cmp a b)
cmp_reversed ⦃o⦄ a b = ground (arith, o.eq_of_cmp a b, o.cmp_self a, o.gt_of_lt a b, o.lt_of_gt a b)

then-eq : (c : Ordering) → then c eq ≡ c
then-eq lt = refl
then-eq eq = refl
then-eq gt = refl

-- The conversion to a value with the texts of JSON keeps the order of numbers.
cmp_num-same :
    {X : Externals} (f : FloatOps X.F64) ⦃fo : Ord X.F64⦄ (a b : Num X)
    → cmp_num {X = X} f a b ≡ cmp_num {X = Printed X} f (same_num a) (same_num b)
unfolding cmp_num
cmp_num-same f (int i) (int j) = refl
cmp_num-same f (int i) (float y) = refl
cmp_num-same f (float x) (int j) = refl
cmp_num-same f (float x) (float y) = refl

module _ {X : Externals} (f : FloatOps X.F64) ⦃fo : Ord X.F64⦄ (e : OrderOps X)
    (mono : IsMonotone f) where
  unfoldable pub payload_ord : Ord (Payload (Printed X))
  payload_ord =
      sum_ord ⦃a = bytes_ord⦄
        ⦃b = sum_ord
          ⦃b = sum_ord ⦃a = num_ord {X = Printed X} f mono⦄
            ⦃b = sum_ord ⦃a = vector_ord e.ordered32.total e.ordered64.total⦄
              ⦃b = sum_ord ⦃a = bytes_ord⦄ ⦃b = validity_ord⦄⦄⦄⦄⦄

  unfoldable pub label_ord : Ord (ℕ × Payload (Printed X))
  label_ord = pair_ord ⦃b = payload_ord⦄

  cmp_vector-canonical :
      (v w : Vector X)
      → cmp_vector e v w
        ≡ (vector_ord e.ordered32.total e.ordered64.total).cmp
            (canonical_vector e v)
            (canonical_vector e w)
  unfolding cmp_vector vector_ord parts_ord ord_along sum_ord pair_ord list_ord nat_ord
  cmp_vector-canonical (f32 l) (f32 r) = cmp_elements-canonical e.ordered32 l r
  cmp_vector-canonical (f32 l) (f64 r) = refl
  cmp_vector-canonical (f64 l) (f32 r) = refl
  cmp_vector-canonical (f64 l) (f64 r) = cmp_elements-canonical e.ordered64 l r

  mutual
    unfolding cmp_value cmp_json cmp_tree shape canonical label_ord payload_ord validity_ord
        pair_ord sum_ord nat_ord bool_ord reverse_ord int_ord num_ord

    pub cmp_value-shape :
        (a b : DataValue X)
        → cmp_value f e a b
          ≡ cmp_tree ⦃o = label_ord⦄ (shape (canonical e a)) (shape (canonical e b))
    cmp_value-shape null null = rw (bytes_ord.cmp_self [])
    cmp_value-shape bot bot = rw (bytes_ord.cmp_self [])
    cmp_value-shape (bool a) (bool b) = sym (then-eq _)
    cmp_value-shape (num a) (num b) = cmp_num-same f a b ∙ sym (then-eq _)
    cmp_value-shape (str a) (str b) = sym (then-eq _)
    cmp_value-shape (bytes a) (bytes b) = sym (then-eq _)
    cmp_value-shape (uuid a) (uuid b) = sym (then-eq _)
    cmp_value-shape (regex a) (regex b) = sym (then-eq _)
    cmp_value-shape (list a) (list b) = rw (bytes_ord.cmp_self []) (cmp_values-shape a b)
    cmp_value-shape (set a) (set b) = rw (bytes_ord.cmp_self []) (cmp_values-shape a b)
    cmp_value-shape (vec a) (vec b) = cmp_vector-canonical a b ∙ sym (then-eq _)
    cmp_value-shape (json a) (json b) = sym (then-eq _)
    cmp_value-shape (validity a) (validity b) = sym (then-eq _)
    cmp_value-shape a b = refl

    pub cmp_values-shape :
        (a b : Values X)
        → cmp_values f e a b
          ≡ cmp_trees ⦃o = label_ord⦄ (shapes (canonical_all e a)) (shapes (canonical_all e b))
    cmp_values-shape nil nil = refl
    cmp_values-shape nil (cons b bs) = refl
    cmp_values-shape (cons a as_) nil = refl
    cmp_values-shape (cons a as_) (cons b bs) = rw (cmp_value-shape a b, cmp_values-shape as_ bs)

module _ {X : Externals} where
  mutual
    unfolding shape

    pub shape_injective : (a b : DataValue X) → shape a ≡ shape b → a ≡ b
    shape_injective (list a) (list b) h = ap list (shapes_injective a b (cc))
    shape_injective (set a) (set b) h = ap set (shapes_injective a b (cc))
    shape_injective a b h = ground arith

    pub shapes_injective : (a b : Values X) → shapes a ≡ shapes b → a ≡ b
    shapes_injective nil nil h = refl
    shapes_injective nil (cons b bs) h = cc
    shapes_injective (cons a as_) nil h = cc
    shapes_injective (cons a as_) (cons b bs) h =
        let p = shape_injective a b (cc) in let q = shapes_injective as_ bs (cc) in cc

module _ {X : Externals} (f : FloatOps X.F64) ⦃fo : Ord X.F64⦄ (e : OrderOps X)
    (mono : IsMonotone f) where
  abbrev shaped_ord : Ord (Tree (ℕ × Payload (Printed X)))
  shaped_ord = tree_ord ⦃o = label_ord f e mono⦄

  -- `DataValue` is in a total order that tells all values apart, if the orders of its floats and texts do.
  unfoldable pub value_ord :
      ((a b : DataValue X) → canonical e a ≡ canonical e b → a ≡ b) → Ord (DataValue X)
  unfolding tree_ord
  value_ord strict =
      ord_along ⦃b = shaped_ord⦄ (λ v. shape (canonical e v)) (cmp_value f e)
        (cmp_value-shape f e mono)
        (λ a b h. strict a b (shape_injective (canonical e a) (canonical e b) h))

  -- The order of values is total, where the conversion of integers to floats is monotone, `total_cmp` is
  -- a total order and `OrderedFloat::cmp` one of the canonical floats: two values
  -- compare as equal exactly when they are one value up to the floats that `OrderedFloat` has as equal,
  -- within vectors, and to JSON of one text, and the other order of the two compares the other way
  -- round.
  pub cmp_value_total :
      (a b : DataValue X)
      → ((cmp_value f e a b ≡ eq) ↔ (canonical e a ≡ canonical e b))
        × (cmp_value f e b a ≡ reversed (cmp_value f e a b))
  unfolding tree_ord
  cmp_value_total a b =
      let o : Ord (Tree (ℕ × Payload (Printed X))) = shaped_ord in
      let s = shape (canonical e a) in
      let t = shape (canonical e b) in
      let h : cmp_value f e a b ≡ o.cmp s t = cmp_value-shape f e mono a b in
      let k : cmp_value f e b a ≡ o.cmp t s = cmp_value-shape f e mono b a in
      (
        (
          λ is. shape_injective (canonical e a) (canonical e b) (o.eq_of_cmp s t (sym h ∙ is)),
          λ is. h ∙ ap (λ v. o.cmp s (shape v)) (sym is) ∙ o.cmp_self s,
        ),
        k ∙ cmp_reversed ⦃o = o⦄ s t ∙ ap reversed (sym h),
      )

  -- The order of values, with those of vectors and of JSON, is transitive, where the conversion of
  -- integers to floats is monotone, `total_cmp` is a total order and `OrderedFloat::cmp` one of the
  -- canonical floats.
  pub cmp_value_trans :
      (a b c : DataValue X)
      → cmp_value f e a b ≡ lt
      → cmp_value f e b c ≡ lt
      → cmp_value f e a c ≡ lt
  unfolding tree_ord
  cmp_value_trans a b c h k =
      let o : Ord (Tree (ℕ × Payload (Printed X))) = shaped_ord in
      cmp_value-shape f e mono a c
      ∙ o.lt_trans (shape (canonical e a)) (shape (canonical e b)) (shape (canonical e c))
          (sym (cmp_value-shape f e mono a b) ∙ h) (sym (cmp_value-shape f e mono b c) ∙ k)

  -- `Bot` is the last value.
  pub bot_last : (v : DataValue X) → (v ≡ bot → ⊥) → cmp_value f e v bot ≡ lt
  unfolding cmp_value
  bot_last bot h = absurd (h refl)
  bot_last v h = refl
