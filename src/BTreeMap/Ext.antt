-- ===== src/BTreeMap/Ext.antt =====
-- Two maps in key order that read alike are equal.
use retia.Prelude.{◌≡◌, refl, none, some, [], ◌∷◌, arith, inl, inr}
use retia.Prelude.Order.{Ord, ◌≺◌, Ordering-cases}
use retia.BTreeMap.{BTreeMap, get, Above, IsSorted}
use retia.BTreeMap.Laws.{get-Above, Above-trans}

module _ {ℓ κ} {K : Type ℓ} {V : Type κ} ⦃o : Ord K⦄ where
  get-cons_self : (k : K) (v : V) (m : BTreeMap K V) → get k ((k, v) ∷ m) ≡ some v
  unfolding get
  get-cons_self k v m = ground (arith, o.cmp_self k)

  -- A key before the first one is absent.
  get_before : (i j : K) (w : V) (n : BTreeMap K V) → i ≺ j → Above j n → get i ((j, w) ∷ n) ≡ none
  get_before i j w n h a = get-Above i ((j, w) ∷ n) (h, Above-trans i j n h a)

  -- Under one first key the rests read alike.
  get_rest :
      (i j : K) (v w : V) (m n : BTreeMap K V)
      → i ≡ j
      → Above i m
      → Above j n
      → (p : K) → get p ((i, v) ∷ m) ≡ get p ((j, w) ∷ n)
      → get p m ≡ get p n
  unfolding get
  get_rest i j v w m n e a b p h = ground (arith, get-Above i m a, get-Above j n b, o.eq_of_cmp p i)

  -- Maps with one first key are equal if the rests are.
  ext_cons :
      (i j : K) (v w : V) (m n : BTreeMap K V)
      → i ≡ j
      → get i ((i, v) ∷ m) ≡ get i ((j, w) ∷ n)
      → m ≡ n
      → ◌≡◌ {A = BTreeMap K V} ((i, v) ∷ m) ((j, w) ∷ n)
  ext_cons i j v w m n e h r = ground (arith, get-cons_self i v m, get-cons_self j w n)

  pub ext : (m n : BTreeMap K V) → IsSorted m → IsSorted n → ((p : K) → get p m ≡ get p n) → m ≡ n
  ext [] [] s t h = refl
  ext [] ((j, w) ∷ n) s t h = ground (arith, h j, get-cons_self j w n, get-Above {V = V} j [] tt)
  ext ((i, v) ∷ m) [] s t h = ground (arith, h i, get-cons_self i v m, get-Above {V = V} i [] tt)
  ext ((i, v) ∷ m) ((j, w) ∷ n) s t h = elim (Ordering-cases (o.cmp i j)) [
    | inl less ↦ ground (arith, h i, get-cons_self i v m, get_before i j w n less t.0)
    | inr (inl same) ↦
        let e = o.eq_of_cmp i j same in
        ext_cons i j v w m n e (h i) (ext m n s.1 t.1 (λ p. get_rest i j v w m n e s.0 t.0 p (h p)))
    | inr (inr more) ↦
        ground (arith, h j, get-cons_self j w n, get_before j i v m (o.lt_of_gt i j more) s.0)
  ]
