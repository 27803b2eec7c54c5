-- ===== src/Query/Graph/Walk.antt =====
-- What `reachable_components` (retia-core/src/query/graph.rs) collects.
use retia.Prelude.{
  ℕ, zero, suc, ◌≤◌, ◌<◌, ◌≡◌, ◌↔◌, refl, sym, subst, true, false, ◌||◌, some, List, [], ◌∷◌,
  length, arith, Bool-cases, inl, inr, ◌⊎◌,
}
use retia.Prelude.Order.{Ord, eq?}
use retia.BTreeSet.{BTreeSet, contains, insert, IsSorted}
use retia.BTreeSet.Laws.{contains-insert, insert-IsSorted}
use retia.Query.Graph.{Graph, targets, children, walk, walk_children, reachable_components}
use retia.Query.Graph.Reaches.{
  Reaches, here, step, Reaches-before, child_in_targets, missing, missing-length, missing_grows,
  missing-insert, insert_grows,
}

module _ {T : Type 0} ⦃o : Ord T⦄ (graph : Graph T) where
  -- What a walk from the nodes `els` makes of the set `s`.
  record Walked (els s t : List T) : Type 0 where
    pub grows : (p : T) → contains p s ≡ true → contains p t ≡ true
    pub takes : (p : T) → contains p els ≡ true → contains p t ≡ true
    pub closed :
        (p q : T)
        → contains p t ≡ true
        → contains p s ≡ false
        → contains q (children graph p) ≡ true
        → contains q t ≡ true
    pub sound :
        (p : T)
        → contains p t ≡ true
        → contains p s ≡ false
        → (e : T) × (contains e els ≡ true) × Reaches graph e p
    pub sorted : IsSorted s → IsSorted t

  visited_nothing : (s : List T) → Walked [] s s
  unfolding contains
  visited_nothing s = record {
    grows = λ p h. h;
    takes = λ p h. absurd (cc);
    closed = λ p q h e c. absurd (cc);
    sound = λ p h e. absurd (cc);
    sorted = λ h. h;
  }

  contains-cons : (p x : T) (xs : List T) → contains p (x ∷ xs) ≡ (eq? p x || contains p xs)
  unfolding contains
  contains-cons p x xs = ground arith

  same_node : (p x : T) → eq? p x ≡ true → p ≡ x
  same_node p x h = ground (arith, o.eq_of_cmp p x)

  in_rest : (p x : T) (xs : List T) → contains p xs ≡ true → contains p (x ∷ xs) ≡ true
  in_rest p x xs h = ground (arith, contains-cons p x xs)

  in_front : (x : T) (xs : List T) → contains x (x ∷ xs) ≡ true
  in_front x xs = ground (arith, contains-cons x x xs, o.cmp_self x)

  visited_known :
      (x : T) (els s t : List T) → contains x s ≡ true → Walked els s t → Walked (x ∷ els) s t
  visited_known x els s t h w = record {
    grows = w.grows;
    takes = λ p e. ground (arith, w.grows x h, w.takes p, contains-cons p x els, o.eq_of_cmp p x);
    closed = w.closed;
    sound = λ p e f. let (e', i, path) = w.sound p e f in (e', in_rest e' x els i, path);
    sorted = w.sorted;
  }

  -- Where a new node comes from: it is `x`, or the walk from `x` has met it, or a later one.
  from_where :
      (x p : T) (s t : List T)
      → contains p s ≡ false
      → (p ≡ x)
        ⊎ (((contains p t ≡ true) × (contains p (insert x s) ≡ false)) ⊎ (contains p t ≡ false))
  from_where x p s t h = elim (Bool-cases (eq? p x)) [
    | inl e ↦ inl (same_node p x e)
    | inr e ↦ elim (Bool-cases (contains p t)) [
      | inl c ↦ inr (inl (c, ground (arith, contains-insert p x s)))
      | inr c ↦ inr (inr c)
    ]
  ]

  visited_new :
      (x : T) (els s t u : List T)
      → Walked (children graph x) (insert x s) t
      → Walked els t u
      → Walked (x ∷ els) s u
  visited_new x els s t u v w = record {
    grows = λ p h. w.grows p (v.grows p (insert_grows x s p h));
    takes = λ p h.
        ground
          (arith, contains-cons p x els, w.takes p, w.grows p, v.grows p, contains-insert p x s);
    closed = λ p q h e c. elim (from_where x p s t e) [
      | inl same ↦ w.grows q (v.takes q (subst (λ n. contains q (children graph n) ≡ true) same c))
      | inr (inl (i, f)) ↦ w.grows q (v.closed p q i f c)
      | inr (inr f) ↦ w.closed p q h f c
    ];
    sound = λ p h e. elim (from_where x p s t e) [
      | inl same ↦ (x, in_front x els, subst (λ n. Reaches graph x n) (sym same) here)
      | inr (inl (i, f)) ↦
          let (e', c, path) = v.sound p i f in
          (x, in_front x els, Reaches-before graph x e' p c path)
      | inr (inr f) ↦ let (e', c, path) = w.sound p h f in (e', in_rest e' x els c, path)
    ];
    sorted = λ h. w.sorted (v.sorted (insert-IsSorted x s h));
  }

  -- A walk with fuel for the nodes that are missing ends.
  abbrev WalkEnds : ℕ → Type 0
  WalkEnds fuel =
      (x : T) (s : List T)
      → missing (targets graph) s < fuel
      → (t : List T) × (walk graph fuel x s ≡ some t) × Walked (children graph x) s t

  children_end :
      (fuel : ℕ) (els s : List T)
      → WalkEnds fuel
      → ((p : T) → contains p els ≡ true → contains p (targets graph) ≡ true)
      → missing (targets graph) s ≤ fuel
      → (t : List T) × (walk_children (walk graph fuel) els s ≡ some t) × Walked els s t
  unfolding walk_children
  children_end fuel [] s ends known h = (s, refl, visited_nothing s)
  children_end fuel (x ∷ els) s ends known h = elim (Bool-cases (contains x s)) [
    | inl old ↦
        let (t, runs, w) = children_end fuel els s ends (λ p e. known p (in_rest p x els e)) h in
        (t, rw old runs, visited_known x els s t old w)
    | inr new ↦
        let fewer = missing-insert (targets graph) x s (known x (in_front x els)) new in
        let (t, walks, v) = ends x (insert x s) (omega arith) in
        let fewer' = missing_grows (targets graph) (insert x s) t v.grows in
        let (u, runs, w) =
          children_end fuel els t ends (λ p e. known p (in_rest p x els e)) (omega arith) in
        (u, rw (new, walks) runs, visited_new x els s t u v w)
  ]

  walk_ends : (fuel : ℕ) → WalkEnds fuel
  unfolding walk
  walk_ends zero x s h = absurd (omega arith)
  walk_ends (suc fuel) x s h =
      children_end fuel (children graph x) s (walk_ends fuel) (child_in_targets graph x)
        (omega arith)

  stays_inside :
      (start : T) (t : List T)
      → contains start t ≡ true
      → ((p q : T)
          → contains p t ≡ true
          → contains q (children graph p) ≡ true
          → contains q t ≡ true)
      → (p : T) → Reaches graph start p
      → contains p t ≡ true
  stays_inside start t h closed _ here = h
  stays_inside start t h closed p (step path e) =
      closed _ p (stays_inside start t h closed _ path) e

  only_start : (start p : T) → (p ≡ start) ⊎ (contains p (start ∷ []) ≡ false)
  only_start start p = elim (Bool-cases (contains p (start ∷ []))) [
    | inl e ↦ inl (same_node p start (unfold contains in ground (arith, contains-cons p start [])))
    | inr e ↦ inr e
  ]

  closed_after :
      (start : T) (t : List T)
      → Walked (children graph start) (start ∷ []) t
      → (p q : T) → contains p t ≡ true
      → contains q (children graph p) ≡ true
      → contains q t ≡ true
  closed_after start t w p q h c = elim (only_start start p) [
    | inl same ↦ w.takes q (subst (λ n. contains q (children graph n) ≡ true) same c)
    | inr e ↦ w.closed p q h e c
  ]

  sound_after :
      (start : T) (t : List T)
      → Walked (children graph start) (start ∷ []) t
      → (p : T) → contains p t ≡ true
      → Reaches graph start p
  sound_after start t w p h = elim (only_start start p) [
    | inl same ↦ subst (λ n. Reaches graph start n) (sym same) here
    | inr e ↦ let (x, c, path) = w.sound p h e in Reaches-before graph start x p c path
  ]

  -- `reachable_components` ends and collects, in order, exactly the nodes that a path from the start
  -- leads to, the start among them.
  pub reachable_components-Reaches :
      (start : T)
      → (collected : BTreeSet T) × (reachable_components graph start ≡ some collected)
        × IsSorted collected
        × ((p : T) → (contains p collected ≡ true) ↔ Reaches graph start p)
  unfolding reachable_components
  reachable_components-Reaches start =
      let lacks = missing-length (targets graph) (start ∷ []) in
      let (t, runs, w) =
        walk_ends (suc (length (targets graph))) start (start ∷ []) (omega arith) in
      let began = w.grows start (in_front start []) in
      (
        t,
        runs,
        w.sorted (tt, tt),
        λ p. (sound_after start t w p, stays_inside start t began (closed_after start t w) p),
      )
