-- ===== src/Data/Aggr/SetLaws.antt =====
-- What the meets of `union` and `intersection` make of a set (retia-core/src/data/aggr.rs).
use retia.Prelude.{
  ◌==◌, ◌≡◌, ◌≤◌, ◌↔◌, ap, ◌∙◌, refl, Bool, true, false, not, ◌&&◌, ◌||◌, List, [], ◌∷◌, length,
  arith, Bool-cases, inl, inr,
}
use retia.Prelude.Order.{Ord}
use retia.Prelude.Result.{Result, ok}
use retia.BTreeSet
use retia.BTreeSet.{BTreeSet, contains, insert, extend, insert_all, intersection, IsSorted}
use retia.BTreeSet.Laws.{
  contains-extend, contains-intersection, extend-IsSorted, intersection-IsSorted, insert_all-extend,
  intersection-of_length, insert-of_contains, insert-IsSorted, length-insert,
}
use retia.Data.Value.{Externals, DataValue, list, set, of_list, to_list-of_list}
use retia.Data.Aggr.Base.{Error}
use retia.Data.Aggr.Sets.{meet_union_update, meet_intersection_update}

module _ {X : Externals} ⦃o : Ord (DataValue X)⦄ where
  -- What an update of the set `l` leaves: a set in order that holds what `member` says, and the flag
  -- tells whether it is another set than `l`.
  pub record Leaves (l : BTreeSet (DataValue X)) (member : DataValue X → Bool)
      (u : Result Error (DataValue X × Bool)) : Type 0 where
    pub items : BTreeSet (DataValue X)
    pub flag : Bool
    pub returns : u ≡ ok (set (of_list items), flag)
    pub sorted : IsSorted items
    pub holds : (p : DataValue X) → contains p items ≡ member p
    pub kept : (flag ≡ false) ↔ (items ≡ l)

  length-extend :
      (s : BTreeSet (DataValue X)) (items : List (DataValue X))
      → IsSorted s
      → length s ≤ length (extend s items)
  unfolding extend
  length-extend s [] h = omega arith
  length-extend s (k ∷ items) h = elim (Bool-cases (contains k s)) [
    | inl old ↦ rw (insert-of_contains k s h old) (length-extend s items h)
    | inr new ↦
        let n = length-insert k s new in
        let more = length-extend (insert k s) items (insert-IsSorted k s h) in omega arith
  ]

  -- Without a new element the set stays.
  insert_all_kept :
      (s : BTreeSet (DataValue X)) (inserted : Bool) (items : List (DataValue X))
      → IsSorted s
      → (insert_all s inserted items).1 ≡ false
      → (inserted ≡ false) × (extend s items ≡ s)
  unfolding insert_all extend
  insert_all_kept s inserted [] h e = (e, refl)
  insert_all_kept s inserted (k ∷ items) h e =
      let rest =
        insert_all_kept (insert k s) (inserted || not (contains k s)) items (insert-IsSorted k s h)
          e in
      let old : (inserted ≡ false) × (contains k s ≡ true) = ground arith in
      (old.0, rest.1 ∙ insert-of_contains k s h old.1)

  -- With a new element it grows.
  insert_all_flag :
      (s : BTreeSet (DataValue X)) (items : List (DataValue X))
      → IsSorted s
      → length (extend s items) ≤ length s
      → (insert_all s false items).1 ≡ false
  unfolding insert_all extend
  insert_all_flag s [] h e = refl
  insert_all_flag s (k ∷ items) h e = elim (Bool-cases (contains k s)) [
    | inl old ↦
        let same = insert-of_contains k s h old in
        let e' : length (extend s items) ≤ length s =
          rw (← ap (λ t. length (extend t items)) same) e in
        ap (λ t. (insert_all t (not (contains k s)) items).1) same
        ∙ (ap (λ c. (insert_all s (not c) items).1) old ∙ insert_all_flag s items h e')
    | inr new ↦
        let n = length-insert k s new in
        let more = length-extend (insert k s) items (insert-IsSorted k s h) in absurd (omega arith)
  ]

  union-Leaves :
      (l r : BTreeSet (DataValue X))
      → IsSorted l
      → Leaves l
          (λ p. contains p l || contains p r)
          (meet_union_update (set (of_list l)) (list (of_list r)))
  unfolding meet_union_update
  union-Leaves l r s = record {
    items = extend l r;
    flag = (insert_all l false r).1;
    returns = rw (to_list-of_list l, to_list-of_list r, ← insert_all-extend l false r);
    sorted = extend-IsSorted l r s;
    holds = λ p. contains-extend p l r;
    kept =
        (λ e. (insert_all_kept l false r s e).1, λ e. insert_all_flag l r s (rw e (omega arith)));
  }

  abbrev both : BTreeSet (DataValue X) → BTreeSet (DataValue X) → BTreeSet (DataValue X)
  both l r = intersection l (BTreeSet.collect r)

  contains-both :
      (p : DataValue X) (l r : BTreeSet (DataValue X))
      → contains p (both l r) ≡ (contains p l && contains p r)
  contains-both p l r =
      rw (contains-intersection p l (BTreeSet.collect r), contains-extend p [] r)
        (unfold contains in refl)

  intersection-Leaves :
      (l r : BTreeSet (DataValue X))
      → IsSorted l
      → Leaves l
          (λ p. contains p l && contains p r)
          (meet_intersection_update (set (of_list l)) (list (of_list r)))
  unfolding meet_intersection_update
  intersection-Leaves l r s = elim (Bool-cases (length l == length (both l r))) [
    | inl same ↦ record {
      items = l;
      flag = false;
      returns = rw (to_list-of_list l, to_list-of_list r, same);
      sorted = s;
      holds = λ p.
          rw (← contains-both p l r, intersection-of_length l (BTreeSet.collect r) (ground arith));
      kept = (λ e. refl, λ e. refl);
    }
    | inr other ↦ record {
      items = both l r;
      flag = true;
      returns = rw (to_list-of_list l, to_list-of_list r, other);
      sorted = intersection-IsSorted l (BTreeSet.collect r) s;
      holds = λ p. contains-both p l r;
      kept = (λ e. absurd (cc), λ e. ground (arith, ap length e));
    }
  ]

  -- The meets of `union` and `intersection` keep a set in order under an update by a list. The set holds
  -- the elements of either side, or of both, and the flag is false exactly when the set is the one
  -- before.
  pub union_intersection_leave :
      (l r : List (DataValue X))
      → IsSorted l
      → Leaves l
          (λ p. contains p l || contains p r)
          (meet_union_update (set (of_list l)) (list (of_list r)))
        × Leaves l
            (λ p. contains p l && contains p r)
            (meet_intersection_update (set (of_list l)) (list (of_list r)))
  union_intersection_leave l r s = (union-Leaves l r s, intersection-Leaves l r s)
