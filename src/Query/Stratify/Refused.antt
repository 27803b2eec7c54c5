-- ===== src/Query/Stratify/Refused.antt =====
-- What `verify_no_cycle` (retia-core/src/query/stratify.rs) has found where it reports.
use retia.Prelude.{
  ℕ, suc, ◌≡◌, refl, ap, ◌∙◌, Bool, true, not, ◌||◌, some, List, [], ◌∷◌, get_elem?, arith,
  Bool-cases, inl, inr,
}
use retia.Prelude.Order.{Ord, eq?}
use retia.Prelude.Result.{err}
use retia.BTreeMap.{BTreeMap, get, IsSorted, Above}
use retia.BTreeMap.Laws.{get-Above}
use retia.BTreeSet.{BTreeSet, contains}
use retia.Query.Kahn.{StratifiedGraph}
use retia.Query.Stratify.Reduce.{unstratifiable, verify_edges, verify_components, verify_no_cycle}
use retia.Query.Stratify.Verified.{get-cons, verify_edges_total, verify_components_total}

module _ {S : Type 0} ⦃o : Ord S⦄ where
  get_later :
      {V : Type 0} (k j : S) (w v : V) (m : BTreeMap S V)
      → Above j m
      → get k m ≡ some v
      → get k ((j, w) ∷ m) ≡ some v
  get_later k j w v m a h = elim (Bool-cases (eq? k j)) [
    | inl e ↦
        let i : k ≡ j = o.eq_of_cmp k j (ground arith) in
        let l : get j m ≡ some v = rw (← i) h in absurd (ground (arith, get-Above j m a))
    | inr e ↦ ground (arith, get-cons k j w m)
  ]

  get_first : {V : Type 0} (k : S) (v : V) (m : BTreeMap S V) → get k ((k, v) ∷ m) ≡ some v
  get_first k v m = ground (arith, get-cons k k v m, o.cmp_self k)

  -- A poisoned edge between two names of a component.
  abbrev pub InComponent : BTreeMap S Bool → S → List (BTreeSet S) → Type 0
  InComponent vs k sccs =
      (v : S) × (j : ℕ) × (scc : BTreeSet S) × (get v vs ≡ some true)
      × (get_elem? sccs j ≡ some scc)
      × (contains k scc ≡ true)
      × (contains v scc ≡ true)

  verify_edges_err :
      (scc : BTreeSet S) (vs : BTreeMap S Bool)
      → IsSorted vs
      → verify_edges scc vs ≡ err unstratifiable
      → (v : S) × (get v vs ≡ some true) × (contains v scc ≡ true)
  unfolding verify_edges
  verify_edges_err scc [] s h = absurd (ground arith)
  verify_edges_err scc ((v, p) ∷ vs) s h = elim (Bool-cases (not p || not (contains v scc))) [
    | inl e ↦
        let (w, f, c) = verify_edges_err scc vs s.1 (ground arith) in
        (w, get_later w v p true vs s.0 f, c)
    | inr e ↦ let i : p ≡ true = ground arith in (v, get_first v p vs ∙ ap some i, ground arith)
  ]

  verify_components_err :
      (k : S) (vs : BTreeMap S Bool) (sccs : List (BTreeSet S))
      → IsSorted vs
      → verify_components k vs sccs ≡ err unstratifiable
      → InComponent vs k sccs
  unfolding verify_components
  verify_components_err k vs [] s h = absurd (ground arith)
  verify_components_err k vs (scc ∷ sccs) s h = elim (Bool-cases (contains k scc)) [
    | inr e ↦ later (verify_components_err k vs sccs s (ground arith))
    | inl e ↦ elim (verify_edges_total scc vs) [
      | inl f ↦ later (verify_components_err k vs sccs s (ground arith))
      | inr f ↦ let (v, g, c) = verify_edges_err scc vs s f in (v, 0, scc, g, refl, e, c)
    ]
  ]
    where
      later : InComponent vs k sccs → InComponent vs k (scc ∷ sccs)
      later (v, j, scc', f, at, c, d) = (v, suc j, scc', f, at, c, d)

  pub verify_no_cycle_err :
      (g : StratifiedGraph S) (sccs : List (BTreeSet S))
      → IsSorted g
      → ((k : S) (vs : BTreeMap S Bool) → get k g ≡ some vs → IsSorted vs)
      → verify_no_cycle g sccs ≡ err unstratifiable
      → (k : S) × (vs : BTreeMap S Bool) × (get k g ≡ some vs) × InComponent vs k sccs
  unfolding verify_no_cycle
  verify_no_cycle_err [] sccs s r h = absurd (ground arith)
  verify_no_cycle_err ((k, vs) ∷ g) sccs s r h = elim (verify_components_total k vs sccs) [
    | inr e ↦
        (k, vs, get_first k vs g, verify_components_err k vs sccs (r k vs (get_first k vs g)) e)
    | inl e ↦
        let (j, ws, f, c) =
          verify_no_cycle_err g sccs s.1 (λ i us f. r i us (get_later i k vs us g s.0 f))
            (ground arith) in
        (j, ws, get_later j k vs ws g s.0 f, c)
  ]
