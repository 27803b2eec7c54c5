-- ===== src/Query/Stratify/Stratification.antt =====
-- What a stratification promises, and where it has the rules of a name (retia-core/src/query/stratify.rs).
use retia.Prelude.{
  ℕ, ◌-◌, ◌<◌, ◌≤◌, ◌==◌, ◌≡◌, refl, Bool, true, Option, none, some, is_some, List, [], length,
  replicate, arith, Bool-cases, Option-cases, inl, inr, ◌⊎◌,
}
use retia.Prelude.Order.{Ord}
use retia.BTreeMap.{BTreeMap, get}
use retia.Query.Kahn.{StratifiedGraph}
use retia.Query.Program.{Parts, NormalFormRulesOrFixed, NormalFormProgram}
use retia.Query.Stratify.Placed.{lives}
use retia.Query.Stratify.Rules.{rules_at, Places, rules_at-replicate}

module _ {P : Parts} {S : Type 0} ⦃o : Ord S⦄ (self : NormalFormProgram P S)
    (graph : StratifiedGraph S) where
  -- What a stratification of a program promises, by the graph of its names.
  pub record IsStratification (strata : List (NormalFormProgram P S)) (lifetimes : BTreeMap S ℕ)
      : Type 0 where
    pub ordered :
        (k v : S) (vs : BTreeMap S Bool) (p : Bool) (i j : ℕ)
        → get k graph ≡ some vs
        → get v vs ≡ some p
        → is_some (rules_at strata i k) ≡ true
        → is_some (rules_at strata j v) ≡ true
        → (i ≤ j) × (p ≡ true → i < j)
    pub kept : (i : ℕ) (k : S) → is_some (rules_at strata i k) ≡ true → is_some (get k graph) ≡ true
    pub unchanged :
        (i : ℕ) (k : S) (rs : NormalFormRulesOrFixed P S)
        → rules_at strata i k ≡ some rs
        → get k self.prog ≡ some rs
    pub once :
        (i j : ℕ) (k : S)
        → is_some (rules_at strata i k) ≡ true
        → is_some (rules_at strata j k) ≡ true
        → i ≡ j
    pub alive :
        (k v : S) (vs : BTreeMap S Bool) (i : ℕ)
        → get k graph ≡ some vs
        → is_some (get v vs) ≡ true
        → is_some (rules_at strata i k) ≡ true
        → lives (length strata - 1 - i) (get v lifetimes) ≡ true
    pub complete :
        (k : S)
        → is_some (get k graph) ≡ true
        → is_some (get k self.prog) ≡ true
        → (i : ℕ) × (is_some (rules_at strata i k) ≡ true)

module _ {P : Parts} {S : Type 0} ⦃o : Ord S⦄ (self : NormalFormProgram P S) where
  abbrev pub blank : NormalFormProgram P S
  blank = record { prog = []; disable_magic_rewrite = self.disable_magic_rewrite }

  abbrev pub blanks : ℕ → List (NormalFormProgram P S)
  blanks n = replicate n blank

  -- A name has its rules in its stratum and nowhere else.
  pub placed_reads :
      (at : S → Option ℕ) (n : ℕ) (strata : List (NormalFormProgram P S))
      → Places at self.prog (blanks n) strata
      → (i : ℕ) (k : S)
      → (rules_at strata i k ≡ none)
        ⊎ ((rs : NormalFormRulesOrFixed P S) × (rules_at strata i k ≡ some rs)
            × (get k self.prog ≡ some rs)
            × (at k ≡ some i))
  placed_reads at n strata p i k =
      let empty = rules_at-replicate n i k blank (unfold get in refl) in
      elim (Option-cases (get k self.prog)) [
        | inl e ↦ inl (ground (arith, p.reads i k))
        | inr (rs, e) ↦ elim (Option-cases (at k)) [
          | inl f ↦ inl (ground (arith, p.reads i k))
          | inr (j, f) ↦ elim (Bool-cases (j == i)) [
            | inl g ↦ inr (rs, ground (arith, p.reads i k), e, ground arith)
            | inr g ↦ inl (ground (arith, p.reads i k))
          ]
        ]
      ]
