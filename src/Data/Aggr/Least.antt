-- ===== src/Data/Aggr/Least.antt =====
-- `min` and `max` (retia-core/src/data/aggr.rs) return a least and a greatest value.
use retia.Prelude.{
  ◌≡◌, refl, sym, subst, Bool, true, false, ◌⊎◌, inl, inr, List, [], ◌∷◌, ◌++◌, ap, map, All,
  if◌then◌else◌, Bool-cases, arith,
}
use retia.Prelude.Result.{ok}
use retia.Data.Value.{Externals, num, Num, num_get_float, FloatOps}
use retia.Data.Aggr.Extreme.{min_set, max_set, aggr_min, aggr_max}
use retia.Data.Aggr.Run.{fold_set, normal_result}
use retia.Data.Aggr.Flags.{IsIrreflexive}

-- The order of floats is transitive, with NaN in no relation.
abbrev pub IsTransitive : {F : Type 0} → FloatOps F → Type 0
IsTransitive {F} f =
    (x y z : F) → f.lt_float x y ≡ true → f.lt_float y z ≡ true → f.lt_float x z ≡ true

abbrev pub Occurs : {A : Type 0} → A → List A → Type 0
Occurs a [] = ⊥
Occurs a (b ∷ bs) = (a ≡ b) ⊎ Occurs a bs

module _ {N : Type 0} (less : N → N → Bool) where
  -- The first of the values that none of the later ones beats.
  unfoldable pub pick : N → List N → N
  pick m [] = m
  pick m (k ∷ ks) = if less k m then pick k ks else pick m ks

  pub pick-Occurs : (m : N) (ks : List N) → (pick m ks ≡ m) ⊎ Occurs (pick m ks) ks
  unfolding pick
  pick-Occurs m [] = inl refl
  pick-Occurs m (k ∷ ks) = ground (arith, pick-Occurs k ks, pick-Occurs m ks)

  module _ (irreflexive : (x : N) → less x x ≡ false)
      (transitive : (x y z : N) → less x y ≡ true → less y z ≡ true → less x z ≡ true) where
    pick_below : (m : N) (ks : List N) → (pick m ks ≡ m) ⊎ (less (pick m ks) m ≡ true)
    unfolding pick
    pick_below m [] = inl refl
    pick_below m (k ∷ ks) =
        ground (arith, pick_below k ks, pick_below m ks, transitive (pick k ks) k m)

    -- Nothing that does not beat `m` beats what is picked after it.
    pick_beaten : (m : N) (ks : List N) (x : N) → less x m ≡ false → less x (pick m ks) ≡ false
    pick_beaten m ks x h = ground (arith, pick_below m ks, transitive x (pick m ks) m)

    pub pick_least : (m : N) (ks : List N) → All (λ k. less k (pick m ks) ≡ false) (m ∷ ks)
    unfolding pick
    pick_least m [] = (irreflexive m, tt)
    pick_least m (k ∷ ks) = elim (Bool-cases (less k m)) [
      | inl beats ↦
          let e : pick m (k ∷ ks) ≡ pick k ks = rw beats in
          let back : less m k ≡ false = ground (arith, transitive k m k, irreflexive k) in
          subst (λ r. All (λ j. less j r ≡ false) (m ∷ k ∷ ks)) (sym e)
            (pick_beaten k ks m back, pick_least k ks)
      | inr stays ↦
          let e : pick m (k ∷ ks) ≡ pick m ks = rw stays in
          let (first, rest) = pick_least m ks in
          subst (λ r. All (λ j. less j r ≡ false) (m ∷ k ∷ ks)) (sym e)
            (first, (pick_beaten m ks k stays, rest))
    ]

  -- `best` is where the scan starts, and nothing beats that; or it beats all before it, and nothing
  -- after it beats it.
  abbrev pub FirstBest : N → List N → N → Type 0
  FirstBest m ks best =
      ((best ≡ m) × All (λ k. less k m ≡ false) ks)
      ⊎ ((before : List N) × (after : List N) × (ks ≡ before ++ best ∷ after)
          × All (λ k. less best k ≡ true) (m ∷ before)
          × All (λ k. less k best ≡ false) after)

  module _ (transitive : (x y z : N) → less x y ≡ true → less y z ≡ true → less x z ≡ true)
      (beats_more : (x m k : N) → less x m ≡ true → less k m ≡ false → less x k ≡ true) where
    pub pick-FirstBest : (m : N) (ks : List N) → FirstBest m ks (pick m ks)
    unfolding pick
    pick-FirstBest m [] = inl (refl, tt)
    pick-FirstBest m (k ∷ ks) = elim (Bool-cases (less k m)) [
      | inl beats ↦
          let e : pick m (k ∷ ks) ≡ pick k ks = rw beats in
          subst (FirstBest m (k ∷ ks)) (sym e) (elim (pick-FirstBest k ks) [
            | inl (same, none_after) ↦
                subst (FirstBest m (k ∷ ks)) (sym same)
                  (inr ([], ks, refl, (beats, tt), none_after))
            | inr (before, after, is, (first, firsts), lasts) ↦ inr (
              k ∷ before,
              after,
              ap (λ l. k ∷ l) is,
              (transitive (pick k ks) k m first beats, (first, firsts)),
              lasts,
            )
          ])
      | inr stays ↦
          let e : pick m (k ∷ ks) ≡ pick m ks = rw stays in
          subst (FirstBest m (k ∷ ks)) (sym e) (elim (pick-FirstBest m ks) [
            | inl (same, none_after) ↦ inl (same, (stays, none_after))
            | inr (before, after, is, (first, firsts), lasts) ↦ inr (
              k ∷ before,
              after,
              ap (λ l. k ∷ l) is,
              (first, (beats_more (pick m ks) m k first stays, firsts)),
              lasts,
            )
          ])
    ]

module _ {X : Externals} (f : FloatOps X.F64) where
  abbrev pub is_less : Num X → Num X → Bool
  is_less a b = f.lt_float (num_get_float f a) (num_get_float f b)

  abbrev pub is_more : Num X → Num X → Bool
  is_more a b = f.lt_float (num_get_float f b) (num_get_float f a)

  min_run :
      (m : Num X) (ks : List (Num X))
      → fold_set (aggr_min f) (num m) (map num ks) ≡ ok (num (pick is_less m ks))
  unfolding fold_set min_set pick
  min_run m [] = refl
  min_run m (k ∷ ks) = ground (arith, min_run m ks, min_run k ks)

  max_run :
      (m : Num X) (ks : List (Num X))
      → fold_set (aggr_max f) (num m) (map num ks) ≡ ok (num (pick is_more m ks))
  unfolding fold_set max_set pick
  max_run m [] = refl
  max_run m (k ∷ ks) = ground (arith, max_run m ks, max_run k ks)

  -- `min` and `max` of one or more numbers return one of them, such that none is less, or greater. No
  -- float is less than itself, and the order of floats is transitive.
  pub min_max_least :
      (n : Num X) (ns : List (Num X))
      → IsIrreflexive f
      → IsTransitive f
      → (least greatest : Num X) × (normal_result (aggr_min f) (map num (n ∷ ns)) ≡ ok (num least))
        × (normal_result (aggr_max f) (map num (n ∷ ns)) ≡ ok (num greatest))
        × Occurs least (n ∷ ns)
        × Occurs greatest (n ∷ ns)
        × All (λ k. is_less k least ≡ false) (n ∷ ns)
        × All (λ k. is_less greatest k ≡ false) (n ∷ ns)
  unfolding normal_result fold_set min_set max_set
  min_max_least n ns irreflexive transitive = (
    pick is_less n ns,
    pick is_more n ns,
    rw (min_run n ns),
    rw (max_run n ns),
    pick-Occurs is_less n ns,
    pick-Occurs is_more n ns,
    pick_least is_less (λ x. irreflexive (num_get_float f x))
        (λ x y z. transitive (num_get_float f x) (num_get_float f y) (num_get_float f z)) n ns,
    pick_least is_more (λ x. irreflexive (num_get_float f x))
        (λ x y z h k. transitive (num_get_float f z) (num_get_float f y) (num_get_float f x) k h) n
        ns,
  )
