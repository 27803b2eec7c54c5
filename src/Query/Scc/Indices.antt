-- ===== src/Query/Scc/Indices.antt =====
-- The indices of the nodes in `strongly_connected_components` (retia-core/src/query/graph.rs).
use retia.Prelude.{
  ℕ, zero, suc, ◌+◌, ◌==◌, ◌≡◌, refl, sym, ap, ◌∙◌, true, false, some, List, [], ◌∷◌, map,
  get_elem?, get_elem?-map, mem, arith, Bool-cases, Option-cases, inl, inr, ◌⊎◌,
}
use retia.Prelude.Order.{Ord, eq?}
use retia.BTreeMap.{BTreeMap, get, insert, IsSorted, Above}
use retia.BTreeMap.Laws.{get-insert, get-Above}
use retia.BTreeSet.{contains}
use retia.Query.Graph.{Graph, children}
use retia.Query.Graph.Reaches.{Reaches}
use retia.Query.Scc.{keys, into_values, invert, indexed}
use retia.Query.Scc.State.{Leads, has_edge}
use retia.Query.Scc.State

module _ {T : Type 0} ⦃o : Ord T⦄ where
  invert-keeps :
      (idx : ℕ) (ks : List T) (acc : BTreeMap T ℕ) (k : T)
      → contains k ks ≡ false
      → get k (invert idx ks acc) ≡ get k acc
  unfolding invert contains
  invert-keeps idx [] acc k h = refl
  invert-keeps idx (j ∷ ks) acc k h =
      invert-keeps (suc idx) ks (insert j idx acc) k (ground arith)
      ∙ ground (arith, get-insert k j idx acc)

  contains-Above : {V : Type 0} (k : T) (m : BTreeMap T V) → Above k m → contains k (keys m) ≡ false
  unfolding contains
  contains-Above k [] a = refl
  contains-Above k ((j, v) ∷ m) a = ground (arith, contains-Above k m a.1)

  -- A key is found at its index.
  invert-get_elem? :
      {V : Type 0} (idx : ℕ) (m : BTreeMap T V) (acc : BTreeMap T ℕ) (i : ℕ) (k : T)
      → IsSorted m
      → get_elem? (keys m) i ≡ some k
      → get k (invert idx (keys m) acc) ≡ some (idx + i)
  unfolding invert
  invert-get_elem? idx [] acc i k s h = absurd (cc)
  invert-get_elem? idx ((j, v) ∷ m) acc zero k s h =
      let e : j ≡ k = ground arith in
      rw (← e) (
        invert-keeps (suc idx) (keys m) (insert j idx acc) j (contains-Above j m s.0)
        ∙ ground (arith, get-insert j j idx acc, o.cmp_self j))
  invert-get_elem? idx ((j, v) ∷ m) acc (suc i) k s h =
      invert-get_elem? (suc idx) m (insert j idx acc) i k s.1 h ∙ ap some (omega arith)

  get_elem?-invert :
      (idx : ℕ) (ks : List T) (acc : BTreeMap T ℕ) (k : T) (i : ℕ)
      → get k (invert idx ks acc) ≡ some i
      → (get k acc ≡ some i) ⊎ ((j : ℕ) × (i ≡ idx + j) × (get_elem? ks j ≡ some k))
  unfolding invert
  get_elem?-invert idx [] acc k i h = inl h
  get_elem?-invert idx (l ∷ ks) acc k i h =
      elim (get_elem?-invert (suc idx) ks (insert l idx acc) k i h) [
        | inr (j, e, at) ↦ inr (suc j, omega arith, at)
        | inl e ↦ elim (Bool-cases (eq? k l)) [
          | inl same ↦
              inr (
                0,
                ground (arith, get-insert k l idx acc),
                ap some (ground (arith, o.eq_of_cmp k l)),
              )
          | inr other ↦ inl (ground (arith, get-insert k l idx acc))
        ]
      ]

  mem-indexed :
      (inverse : BTreeMap T ℕ) (vs : List T) (v : T) (i : ℕ)
      → contains v vs ≡ true
      → get v inverse ≡ some i
      → mem i (indexed inverse vs) ≡ true
  unfolding contains indexed
  mem-indexed inverse [] v i h e = absurd (cc)
  mem-indexed inverse (w ∷ vs) v i h e = elim (Bool-cases (eq? v w)) [
    | inl same ↦
        let f : v ≡ w = ground (arith, o.eq_of_cmp v w) in
        let g : get w inverse ≡ some i = ap (λ x. get x inverse) (sym f) ∙ e in ground arith
    | inr other ↦
        let later = mem-indexed inverse vs v i (ground arith) e in
        elim (Option-cases (get w inverse)) [ inl g ↦ ground arith | inr (j, g) ↦ ground arith ]
  ]

  indexed-mem :
      (inverse : BTreeMap T ℕ) (vs : List T) (i : ℕ)
      → mem i (indexed inverse vs) ≡ true
      → (v : T) × (contains v vs ≡ true) × (get v inverse ≡ some i)
  unfolding contains indexed
  indexed-mem inverse [] i h = absurd (cc)
  indexed-mem inverse (w ∷ vs) i h = elim (Option-cases (get w inverse)) [
    | inl g ↦ let (v, c, e) = indexed-mem inverse vs i (ground arith) in (v, ground arith, e)
    | inr (j, g) ↦ elim (Bool-cases (i == j)) [
      | inl same ↦ (w, ground (arith, o.cmp_self w), ground arith)
      | inr other ↦ let (v, c, e) = indexed-mem inverse vs i (ground arith) in (v, ground arith, e)
    ]
  ]

  -- A row is that of its key.
  row_of :
      {V : Type 0} (m : BTreeMap T V) (i : ℕ) (k : T) (v : V)
      → IsSorted m
      → get_elem? (keys m) i ≡ some k
      → get_elem? (into_values m) i ≡ some v
      → get k m ≡ some v
  unfolding get
  row_of [] i k v s h e = absurd (cc)
  row_of ((j, w) ∷ m) zero k v s h e = let f : j ≡ k = ground arith in ground (arith, o.cmp_self k)
  row_of ((j, w) ∷ m) (suc i) k v s h e =
      let later = row_of m i k v s.1 h e in
      elim (Bool-cases (eq? k j)) [
        | inl same ↦
            let f : k ≡ j = ground (arith, o.eq_of_cmp k j) in
            let g = get-Above j m s.0 in
            let l : get j m ≡ some v = ap (λ x. get x m) (sym f) ∙ later in absurd (ground arith)
        | inr other ↦ ground arith
      ]

  row_at :
      {V : Type 0} (m : BTreeMap T V) (i : ℕ) (k : T)
      → get_elem? (keys m) i ≡ some k
      → (v : V) × (get_elem? (into_values m) i ≡ some v)
  row_at [] i k h = absurd (cc)
  row_at ((j, w) ∷ m) zero k h = (w, refl)
  row_at ((j, w) ∷ m) (suc i) k h = row_at m i k h

  key_at :
      {V : Type 0} (m : BTreeMap T V) (k : T) (v : V)
      → get k m ≡ some v
      → (i : ℕ) × (get_elem? (keys m) i ≡ some k)
  unfolding get
  key_at [] k v h = absurd (cc)
  key_at ((j, w) ∷ m) k v h = elim (Bool-cases (eq? k j)) [
    | inl same ↦ (0, ap some (sym (ground (arith, o.eq_of_cmp k j))))
    | inr other ↦ let (i, at) = key_at m k v (ground arith) in (suc i, at)
  ]

  module _ (graph : Graph T) (sorted : IsSorted graph) where
    abbrev inverse : BTreeMap T ℕ
    inverse = invert 0 (keys graph) []

    -- The graph on indices.
    abbrev pub rows : List (List ℕ)
    rows = map (indexed inverse) (into_values graph)

    inverse_key : (k : T) (i : ℕ) → get k inverse ≡ some i → get_elem? (keys graph) i ≡ some k
    inverse_key k i h = elim (get_elem?-invert 0 (keys graph) [] k i h) [
      | inl e ↦ absurd (unfold get in cc)
      | inr (j, e, at) ↦ ap (get_elem? (keys graph)) (omega arith) ∙ at
    ]

    key_inverse : (k : T) (i : ℕ) → get_elem? (keys graph) i ≡ some k → get k inverse ≡ some i
    key_inverse k i h = invert-get_elem? 0 graph [] i k sorted h ∙ ap some (omega arith)

    edge_of :
        (i j : ℕ) (a : T)
        → get_elem? (keys graph) i ≡ some a
        → has_edge rows i j ≡ true
        → (b : T) × (get_elem? (keys graph) j ≡ some b) × (contains b (children graph a) ≡ true)
    edge_of i j a h e =
        let (vs, at) = row_at graph i a h in
        let row = get_elem?-map (indexed inverse) (into_values graph) i vs at in
        let (b, c, f) = indexed-mem inverse vs j (ground arith) in
        (b, inverse_key b j f, ground (arith, row_of graph i a vs sorted h at))

    edge_at :
        (i j : ℕ) (a b : T)
        → get_elem? (keys graph) i ≡ some a
        → get_elem? (keys graph) j ≡ some b
        → contains b (children graph a) ≡ true
        → has_edge rows i j ≡ true
    edge_at i j a b h k c =
        let (vs, at) = row_at graph i a h in
        let row = get_elem?-map (indexed inverse) (into_values graph) i vs at in
        let found = row_of graph i a vs sorted h at in
        let inside : contains b vs ≡ true = ground arith in
        let met = mem-indexed inverse vs b j inside (key_inverse b j k) in ground arith

    pub Leads-Reaches :
        (i j : ℕ) (a : T)
        → get_elem? (keys graph) i ≡ some a
        → Leads rows i j
        → (b : T) × (get_elem? (keys graph) j ≡ some b) × Reaches graph a b
    Leads-Reaches i j a h State.here = (a, h, Reaches.here)
    Leads-Reaches i j a h (State.step p e) =
        let (b, at, q) = Leads-Reaches i _ a h p in
        let (c, at', f) = edge_of _ j b at e in (c, at', Reaches.step q f)

    pub Reaches-Leads :
        (i : ℕ) (a : T)
        → get_elem? (keys graph) i ≡ some a
        → (j : ℕ) (b : T) → get_elem? (keys graph) j ≡ some b
        → Reaches graph a b
        → Leads rows i j
    Reaches-Leads i a h j b k Reaches.here =
        let same : some i ≡ some j = sym (key_inverse a i h) ∙ key_inverse a j k in
        let e : i ≡ j = ground arith in rw (← e) State.here
    Reaches-Leads i a h j b k (Reaches.step {b = c} p e) = elim (Option-cases (get c graph)) [
      | inl f ↦ absurd (unfold contains in ground arith)
      | inr (vs, f) ↦
          let (l, at) = key_at graph c vs f in
          State.step (Reaches-Leads i a h l c at p) (edge_at l j c b at k e)
    ]
