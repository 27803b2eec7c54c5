-- ===== src/Query/Stratify/Verified.antt =====
-- What `verify_no_cycle` and the components' indices (retia-core/src/query/stratify.rs) guarantee.
use retia.Prelude.{
  ℕ, zero, suc, ◌+◌, ◌<◌, ◌≡◌, refl, Bool, true, false, not, ◌||◌, some, is_some, List, [], ◌∷◌,
  length, get_elem?, lt-get_elem?, if◌then◌else◌, arith, Bool-cases, inl, inr, ◌⊎◌,
}
use retia.Prelude.Order.{Ord, eq?}
use retia.Prelude.Result.{ok, err}
use retia.BTreeMap.{BTreeMap, get, insert}
use retia.BTreeMap.Laws.{get-insert}
use retia.BTreeSet.{BTreeSet, contains}
use retia.Query.Kahn.{StratifiedGraph}
use retia.Query.Stratify.Reduce.{
  unstratifiable, verify_edges, verify_components, verify_no_cycle, index_component,
  index_components,
}

module _ {S : Type 0} ⦃o : Ord S⦄ where
  -- An entry of a map, wherever it stands.
  pub get-cons :
      {V : Type 0} (k j : S) (w : V) (m : BTreeMap S V)
      → get k ((j, w) ∷ m) ≡ (if eq? k j then some w else get k m)
  unfolding get
  get-cons k j w m = ground arith

  contains-cons : (k j : S) (s : BTreeSet S) → contains k (j ∷ s) ≡ (eq? k j || contains k s)
  unfolding contains
  contains-cons k j s = ground arith

  verify_edges_lem :
      (scc : BTreeSet S) (vs : BTreeMap S Bool) (v : S)
      → verify_edges scc vs ≡ ok tt
      → get v vs ≡ some true
      → contains v scc ≡ false
  unfolding verify_edges
  verify_edges_lem scc [] v h e = absurd (unfold get in cc)
  verify_edges_lem scc ((w, p) ∷ vs) v h e =
      ground (arith, get-cons v w p vs, verify_edges_lem scc vs v, o.eq_of_cmp v w)

  verify_components_lem :
      (k : S) (vs : BTreeMap S Bool) (sccs : List (BTreeSet S)) (j : ℕ) (scc : BTreeSet S) (v : S)
      → verify_components k vs sccs ≡ ok tt
      → get_elem? sccs j ≡ some scc
      → contains k scc ≡ true
      → get v vs ≡ some true
      → contains v scc ≡ false
  unfolding verify_components
  verify_components_lem k vs [] j scc v h at c e = absurd (cc)
  verify_components_lem k vs (s ∷ sccs) zero scc v h at c e =
      ground (arith, verify_edges_lem scc vs v)
  verify_components_lem k vs (s ∷ sccs) (suc j) scc v h at c e =
      ground (arith, verify_components_lem k vs sccs j scc v)

  -- A verified graph has no poisoned edge inside a component.
  pub verify_no_cycle_lem :
      (g : StratifiedGraph S) (sccs : List (BTreeSet S)) (k v : S) (vs : BTreeMap S Bool) (j : ℕ)
      (scc : BTreeSet S)
      → verify_no_cycle g sccs ≡ ok tt
      → get k g ≡ some vs
      → get_elem? sccs j ≡ some scc
      → contains k scc ≡ true
      → get v vs ≡ some true
      → contains v scc ≡ false
  unfolding verify_no_cycle
  verify_no_cycle_lem [] sccs k v vs j scc h f at c e = absurd (unfold get in cc)
  verify_no_cycle_lem ((i, ws) ∷ g) sccs k v vs j scc h f at c e = ground (
    arith,
    get-cons k i ws g,
    o.eq_of_cmp k i,
    verify_components_lem k vs sccs j scc v,
    verify_no_cycle_lem g sccs k v vs j scc,
  )

  -- The check passes or reports; it does not panic.
  pub verify_edges_total :
      (scc : BTreeSet S) (vs : BTreeMap S Bool)
      → (verify_edges scc vs ≡ ok tt) ⊎ (verify_edges scc vs ≡ err unstratifiable)
  unfolding verify_edges
  verify_edges_total scc [] = inl refl
  verify_edges_total scc ((v, p) ∷ vs) = elim (Bool-cases (not p || not (contains v scc))) [
    | inl e ↦ rw e (verify_edges_total scc vs)
    | inr e ↦ inr (rw e refl)
  ]

  pub verify_components_total :
      (k : S) (vs : BTreeMap S Bool) (sccs : List (BTreeSet S))
      → (verify_components k vs sccs ≡ ok tt) ⊎ (verify_components k vs sccs ≡ err unstratifiable)
  unfolding verify_components
  verify_components_total k vs [] = inl refl
  verify_components_total k vs (scc ∷ sccs) = elim (Bool-cases (contains k scc)) [
    | inr e ↦ rw e (verify_components_total k vs sccs)
    | inl e ↦ elim (verify_edges_total scc vs) [
      | inl f ↦ rw (e, f) (verify_components_total k vs sccs)
      | inr f ↦ inr (rw (e, f) refl)
    ]
  ]

  pub verify_no_cycle_total :
      (g : StratifiedGraph S) (sccs : List (BTreeSet S))
      → (verify_no_cycle g sccs ≡ ok tt) ⊎ (verify_no_cycle g sccs ≡ err unstratifiable)
  unfolding verify_no_cycle
  verify_no_cycle_total [] sccs = inl refl
  verify_no_cycle_total ((k, vs) ∷ g) sccs = elim (verify_components_total k vs sccs) [
    | inl e ↦ rw e (verify_no_cycle_total g sccs)
    | inr e ↦ inr (rw e refl)
  ]

  index_component_lem :
      (idx : ℕ) (scc : BTreeSet S) (acc : BTreeMap S ℕ) (k : S)
      → get k (index_component idx scc acc) ≡ (if contains k scc then some idx else get k acc)
  unfolding index_component
  index_component_lem idx [] acc k = unfold contains in refl
  index_component_lem idx (j ∷ scc) acc k = ground (
    arith,
    contains-cons k j scc,
    index_component_lem idx scc (insert j idx acc) k,
    get-insert k j idx acc,
  )

  -- The index of a name is that of a component that contains it.
  index_components_sound :
      (idx : ℕ) (sccs : List (BTreeSet S)) (acc : BTreeMap S ℕ) (k : S) (j : ℕ)
      → get k (index_components idx sccs acc) ≡ some j
      → (get k acc ≡ some j)
        ⊎ ((i : ℕ) × (scc : BTreeSet S) × (j ≡ idx + i)
            × (get_elem? sccs i ≡ some scc)
            × (contains k scc ≡ true))
  unfolding index_components
  index_components_sound idx [] acc k j h = inl h
  index_components_sound idx (scc ∷ sccs) acc k j h =
      elim (index_components_sound (suc idx) sccs (index_component idx scc acc) k j h) [
        | inr (i, s, e, at, c) ↦ inr (suc i, s, omega (arith, e), at, c)
        | inl f ↦ elim (Bool-cases (contains k scc)) [
          | inl c ↦ inr (0, scc, ground (arith, index_component_lem idx scc acc k), refl, c)
          | inr c ↦ inl (ground (arith, index_component_lem idx scc acc k))
        ]
      ]

  index_components_keeps :
      (idx : ℕ) (sccs : List (BTreeSet S)) (acc : BTreeMap S ℕ) (k : S)
      → is_some (get k acc) ≡ true
      → is_some (get k (index_components idx sccs acc)) ≡ true
  unfolding index_components
  index_components_keeps idx [] acc k h = h
  index_components_keeps idx (scc ∷ sccs) acc k h =
      index_components_keeps (suc idx) sccs (index_component idx scc acc) k
        (ground (arith, index_component_lem idx scc acc k))

  pub index_components-covers :
      (idx : ℕ) (sccs : List (BTreeSet S)) (acc : BTreeMap S ℕ) (k : S) (j : ℕ) (scc : BTreeSet S)
      → get_elem? sccs j ≡ some scc
      → contains k scc ≡ true
      → is_some (get k (index_components idx sccs acc)) ≡ true
  unfolding index_components
  index_components-covers idx [] acc k j scc h c = absurd (cc)
  index_components-covers idx (s ∷ sccs) acc k zero scc h c =
      index_components_keeps (suc idx) sccs (index_component idx s acc) k
        (ground (arith, index_component_lem idx s acc k))
  index_components-covers idx (s ∷ sccs) acc k (suc j) scc h c =
      index_components-covers (suc idx) sccs (index_component idx s acc) k j scc h c

  pub index_components_lem :
      (sccs : List (BTreeSet S)) (k : S) (j : ℕ)
      → get k (index_components 0 sccs []) ≡ some j
      → (scc : BTreeSet S) × (get_elem? sccs j ≡ some scc)
        × (contains k scc ≡ true)
        × (j < length sccs)
  index_components_lem sccs k j h = elim (index_components_sound 0 sccs [] k j h) [
    | inl e ↦ absurd (unfold get in cc)
    | inr (i, scc, e, at, c) ↦
        let same : j ≡ i = omega (arith, e) in rw same (scc, at, c, lt-get_elem? sccs i at)
  ]
