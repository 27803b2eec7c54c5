-- ===== src/Query/Logical/Conjuncts.antt =====
-- `conjunctive_to_disjunctive_de_morgen` (retia-core/src/query/logical.rs) is conjunction.
use retia.Prelude.{
  ◌*◌, ◌≡◌, refl, Bool, true, false, ◌&&◌, ◌||◌, List, [], ◌∷◌, ◌++◌, length, length-append, arith,
}
use retia.Query.Logical.{Disjunction, extend_each, conjunctive_to_disjunctive_de_morgen}

module _ {N : Type 0} (n : N → Bool) where
  abbrev pub all_atoms : List N → Bool
  all_atoms [] = true
  all_atoms (a ∷ atoms) = n a && all_atoms atoms

  -- What a disjunction of conjunctions says, given what its atoms say.
  abbrev pub says : Disjunction N → Bool
  says [] = false
  says (atoms ∷ d) = all_atoms atoms || says d

  all_atoms-append : (xs ys : List N) → all_atoms (xs ++ ys) ≡ (all_atoms xs && all_atoms ys)
  all_atoms-append [] ys = refl
  all_atoms-append (x ∷ xs) ys = ground (arith, all_atoms-append xs ys)

  says-append : (d e : Disjunction N) → says (d ++ e) ≡ (says d || says e)
  says-append [] e = refl
  says-append (atoms ∷ d) e = ground (arith, says-append d e)

  says-extend_each :
      (left : List N) (rights : Disjunction N)
      → says (extend_each left rights) ≡ (all_atoms left && says rights)
  says-extend_each left [] = ground arith
  says-extend_each left (right ∷ rights) =
      ground (arith, says-extend_each left rights, all_atoms-append left right)

  says-de_morgen :
      (d e : Disjunction N) → says (conjunctive_to_disjunctive_de_morgen d e) ≡ (says d && says e)
  unfolding conjunctive_to_disjunctive_de_morgen
  says-de_morgen [] e = refl
  says-de_morgen (left ∷ lefts) e = ground (
    arith,
    says-de_morgen lefts e,
    says-extend_each left e,
    says-append (extend_each left e) (conjunctive_to_disjunctive_de_morgen lefts e),
  )

length-extend_each :
    {N : Type 0} (left : List N) (rights : Disjunction N)
    → length (extend_each left rights) ≡ length rights
length-extend_each left [] = refl
length-extend_each left (right ∷ rights) = omega (arith, length-extend_each left rights)

length-de_morgen :
    {N : Type 0} (d e : Disjunction N)
    → length (conjunctive_to_disjunctive_de_morgen d e) ≡ length d * length e
unfolding conjunctive_to_disjunctive_de_morgen
length-de_morgen [] e = omega arith
length-de_morgen (left ∷ lefts) e =
    rw
      (
        length-append (extend_each left e) (conjunctive_to_disjunctive_de_morgen lefts e),
        length-extend_each left e,
        length-de_morgen lefts e,
      )
      (omega arith)

-- The conjunction of two disjunctions of conjunctions is one of as many conjunctions as there are pairs
-- of one of either side. It says, whatever the atoms say, that both of the two hold.
pub conjunctive_to_disjunctive-says :
    {N : Type 0} (n : N → Bool) (d e : Disjunction N)
    → (says n (conjunctive_to_disjunctive_de_morgen d e) ≡ (says n d && says n e))
      × (length (conjunctive_to_disjunctive_de_morgen d e) ≡ length d * length e)
conjunctive_to_disjunctive-says n d e = (says-de_morgen n d e, length-de_morgen d e)
