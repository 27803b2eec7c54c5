-- ===== src/Prelude/Vectors.antt =====
-- Vectors as lists indexed by native numbers, and membership of a number in a list.
use Prim.Native.Nat.{ℕ, zero, suc, ◌+◌, ◌≤◌, ◌<◌}
use mathlib.Core.Path.{◌≡◌, refl, ap}
use mathlib.Core.Bool.{Bool, true, false, ◌||◌}
use mathlib.Core.List.{List, [], ◌∷◌, ◌++◌, map}
use mathlib.Core.Option.{Option, none, some}
use native.Mathlib.Omega.{arith}
use mathlib.Core.Logic.{inl, inr}
use retia.Prelude.Tests.{◌==◌, if◌then◌else◌, Bool-cases}
use retia.Prelude.Lists.{length}

module _ {ℓ} {A : Type ℓ} where
  -- `v.get(i)`
  abbrev pub get_elem? : List A → ℕ → Option A
  get_elem? [] i = none
  get_elem? (x ∷ xs) zero = some x
  get_elem? (x ∷ xs) (suc i) = get_elem? xs i

  -- `v[i] = a`; the callers have read `v[i]` before.
  abbrev pub set : List A → ℕ → A → List A
  set [] i a = []
  set (x ∷ xs) zero a = a ∷ xs
  set (x ∷ xs) (suc i) a = x ∷ set xs i a

  pub length-set : (xs : List A) (i : ℕ) (a : A) → length (set xs i a) ≡ length xs
  length-set [] i a = refl
  length-set (x ∷ xs) zero a = refl
  length-set (x ∷ xs) (suc i) a = omega (arith, length-set xs i a)

module _ {ℓ} {A : Type ℓ} where
  pub get_elem?-set :
      (xs : List A) (i : ℕ) (a : A) (j : ℕ)
      → i < length xs
      → get_elem? (set xs i a) j ≡ (if j == i then some a else get_elem? xs j)
  get_elem?-set [] i a j h = absurd (omega arith)
  get_elem?-set (x ∷ xs) zero a zero h = refl
  get_elem?-set (x ∷ xs) zero a (suc j) h = ground arith
  get_elem?-set (x ∷ xs) (suc i) a zero h = ground arith
  get_elem?-set (x ∷ xs) (suc i) a (suc j) h = ground (arith, get_elem?-set xs i a j (omega arith))

  pub get_elem?-lt : (xs : List A) (i : ℕ) → i < length xs → (a : A) × (get_elem? xs i ≡ some a)
  get_elem?-lt [] i h = absurd (omega arith)
  get_elem?-lt (x ∷ xs) zero h = (x, refl)
  get_elem?-lt (x ∷ xs) (suc i) h = get_elem?-lt xs i (omega arith)

  pub lt-get_elem? : (xs : List A) (i : ℕ) {a : A} → get_elem? xs i ≡ some a → i < length xs
  lt-get_elem? [] i h = absurd (cc)
  lt-get_elem? (x ∷ xs) zero h = omega arith
  lt-get_elem? (x ∷ xs) (suc i) h = omega (arith, lt-get_elem? xs i h)

module _ {ℓ κ} {A : Type ℓ} {B : Type κ} (f : A → B) where
  pub length-map : (xs : List A) → length (map f xs) ≡ length xs
  length-map [] = refl
  length-map (x ∷ xs) = ap suc (length-map xs)

  pub get_elem?-map :
      (xs : List A) (i : ℕ) (a : A) → get_elem? xs i ≡ some a → get_elem? (map f xs) i ≡ some (f a)
  get_elem?-map [] i a h = absurd (cc)
  get_elem?-map (x ∷ xs) zero a h = cc
  get_elem?-map (x ∷ xs) (suc i) a h = get_elem?-map xs i a h

  pub map-get_elem? :
      (xs : List A) (i : ℕ) (b : B)
      → get_elem? (map f xs) i ≡ some b
      → (a : A) × (get_elem? xs i ≡ some a) × (b ≡ f a)
  map-get_elem? [] i b h = absurd (cc)
  map-get_elem? (x ∷ xs) zero b h = (x, refl, cc)
  map-get_elem? (x ∷ xs) (suc i) b h = map-get_elem? xs i b h

abbrev pub mem : ℕ → List ℕ → Bool
mem v [] = false
mem v (x ∷ xs) = (v == x) || mem v xs

pub mem-append : (v : ℕ) (xs ys : List ℕ) → mem v (xs ++ ys) ≡ (mem v xs || mem v ys)
mem-append v [] ys = refl
mem-append v (x ∷ xs) ys = ground (arith, mem-append v xs ys)

pub mem-differs : (v w : ℕ) (xs : List ℕ) → mem v xs ≡ false → mem w xs ≡ true → (v == w) ≡ false
mem-differs v w xs h e = elim (Bool-cases (v == w)) [
  | inl f ↦ let i : v ≡ w = ground arith in absurd (ground (arith, ap (λ z. mem z xs) i))
  | inr f ↦ f
]

-- No number stands twice.
abbrev pub IsUnique : List ℕ → Type 0
IsUnique [] = Unit
IsUnique (x ∷ xs) = (mem x xs ≡ false) × IsUnique xs

-- A vector of numbers read with 0 behind its end.
abbrev pub get_or_zero : List ℕ → ℕ → ℕ
get_or_zero [] i = 0
get_or_zero (x ∷ xs) zero = x
get_or_zero (x ∷ xs) (suc i) = get_or_zero xs i

pub get_elem?-get_or_zero :
    (xs : List ℕ) (i : ℕ) → i < length xs → get_elem? xs i ≡ some (get_or_zero xs i)
get_elem?-get_or_zero [] i h = absurd (omega arith)
get_elem?-get_or_zero (x ∷ xs) zero h = refl
get_elem?-get_or_zero (x ∷ xs) (suc i) h = get_elem?-get_or_zero xs i (omega arith)

pub get_or_zero-set :
    (xs : List ℕ) (i a j : ℕ)
    → i < length xs
    → get_or_zero (set xs i a) j ≡ (if j == i then a else get_or_zero xs j)
get_or_zero-set [] i a j h = absurd (omega arith)
get_or_zero-set (x ∷ xs) zero a zero h = refl
get_or_zero-set (x ∷ xs) zero a (suc j) h = ground arith
get_or_zero-set (x ∷ xs) (suc i) a zero h = ground arith
get_or_zero-set (x ∷ xs) (suc i) a (suc j) h =
    ground (arith, get_or_zero-set xs i a j (omega arith))

-- How many of `xs` are not in `ys`.
abbrev pub lacking : List ℕ → List ℕ → ℕ
lacking [] ys = 0
lacking (x ∷ xs) ys = (if mem x ys then 0 else 1) + lacking xs ys

lacking_grows : (xs ys : List ℕ) (r : ℕ) → lacking xs (r ∷ ys) ≤ lacking xs ys
lacking_grows [] ys r = omega arith
lacking_grows (x ∷ xs) ys r = ground (arith, lacking_grows xs ys r)

pub lacking-cons :
    (xs ys : List ℕ) (r : ℕ)
    → mem r xs ≡ true
    → mem r ys ≡ false
    → lacking xs (r ∷ ys) < lacking xs ys
lacking-cons [] ys r h e = absurd (cc)
lacking-cons (x ∷ xs) ys r h e = ground (arith, lacking-cons xs ys r, lacking_grows xs ys r)

pub lacking-length : (xs ys : List ℕ) → lacking xs ys ≤ length xs
lacking-length [] ys = omega arith
lacking-length (x ∷ xs) ys = ground (arith, lacking-length xs ys)
