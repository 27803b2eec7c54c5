-- ===== src/Query/Stratify/Placed.antt =====
-- Where `into_stratified_program` (retia-core/src/query/stratify.rs) puts the rules, and how long stores live.
use retia.Prelude.{
  ℕ, suc, ◌+◌, ◌-◌, ◌<◌, ◌==◌, ltb, ◌≡◌, refl, ap, Bool, true, false, not, Option, none, some,
  is_some, List, [], ◌∷◌, mem, IsUnique, if◌then◌else◌, arith, Bool-cases, Option-cases, inl, inr,
}
use retia.Prelude.Order.{Ord, eq?, nat_ord}
use retia.Prelude.Result.{ok}
use retia.BTreeMap.{BTreeMap, get, insert}
use retia.BTreeMap.Laws.{get-insert}
use retia.Query.Kahn.Edges.{get-insert_nat}
use retia.Query.Kahn.{StratifiedGraph}
use retia.Query.Kahn.Strata.{stratum, rev_onto, emission, mem-rev_onto}
use retia.Query.Scc.{keys}
use retia.Query.Stratify.Place.{
  index_stratum, invert_sort, extend_lifetime, extend_lifetimes, lifetimes_of,
}
use retia.Query.Stratify.Verified.{get-cons}

IsUnique-before : (s before : List ℕ) → IsUnique (rev_onto s before) → IsUnique before
IsUnique-before [] before u = u
IsUnique-before (x ∷ s) before u = (IsUnique-before s (x ∷ before) u).1

IsUnique-strata :
    (strata : List (List ℕ)) (before : List ℕ) → IsUnique (emission strata before) → IsUnique before
IsUnique-strata [] before u = u
IsUnique-strata (s ∷ strata) before u =
    IsUnique-before s before (IsUnique-strata strata (rev_onto s before) u)

not_again :
    (v : ℕ) (s before : List ℕ)
    → IsUnique (rev_onto s before)
    → mem v before ≡ true
    → mem v s ≡ false
not_again v [] before u h = refl
not_again v (x ∷ s) before u h =
    let f = (IsUnique-before s (x ∷ before) u).0 in
    elim (Bool-cases (v == x)) [
      | inl e ↦ let i : v ≡ x = ground arith in absurd (ground (arith, ap (λ y. mem y before) i))
      | inr e ↦ ground (arith, not_again v s (x ∷ before) u)
    ]

-- A node that is emitted before has no later stratum.
no_stratum :
    (v : ℕ) (strata : List (List ℕ)) (before : List ℕ)
    → IsUnique (emission strata before)
    → mem v before ≡ true
    → stratum v strata ≡ none
no_stratum v [] before u h = refl
no_stratum v (s ∷ strata) before u h = ground (
  arith,
  not_again v s before (IsUnique-strata strata (rev_onto s before) u) h,
  no_stratum v strata (rev_onto s before) u (ground (arith, mem-rev_onto v s before)),
)

index_stratum_lem :
    (i : ℕ) (s : List ℕ) (acc : BTreeMap ℕ ℕ) (v : ℕ)
    → get v (index_stratum i s acc) ≡ (if mem v s then some i else get v acc)
unfolding index_stratum
index_stratum_lem i [] acc v = refl
index_stratum_lem i (x ∷ s) acc v =
    ground (arith, index_stratum_lem i s (insert x i acc) v, get-insert_nat v x i acc)

-- The inverse of the sort has the stratum of each node.
invert_sort_from :
    (base : ℕ) (strata : List (List ℕ)) (before : List ℕ) (acc : BTreeMap ℕ ℕ) (v : ℕ)
    → IsUnique (emission strata before)
    → get v (invert_sort base strata acc)
      ≡ elim (stratum v strata) [ none ↦ get v acc | some i ↦ some (base + i) ]
unfolding invert_sort
invert_sort_from base [] before acc v u = refl
invert_sort_from base (s ∷ strata) before acc v u =
    let later =
      invert_sort_from (suc base) strata (rev_onto s before) (index_stratum base s acc) v u in
    elim (Bool-cases (mem v s)) [
      | inl e ↦
          let gone =
            no_stratum v strata (rev_onto s before) u (ground (arith, mem-rev_onto v s before)) in
          ground (arith, index_stratum_lem base s acc v)
      | inr e ↦ elim (Option-cases (stratum v strata)) [
        | inl f ↦ ground (arith, index_stratum_lem base s acc v)
        | inr (i, f) ↦ ground (arith, index_stratum_lem base s acc v)
      ]
    ]

pub invert_sort_lem :
    (strata : List (List ℕ)) (v : ℕ)
    → IsUnique (emission strata [])
    → get v (invert_sort 0 strata []) ≡ stratum v strata
invert_sort_lem strata v u =
    let e = invert_sort_from 0 strata [] [] v u in
    elim (Option-cases (stratum v strata)) [
      | inl f ↦ unfold get in ground arith
      | inr (i, f) ↦ ground arith
    ]

-- A lifetime that reaches as far as `used`.
abbrev pub lives : ℕ → Option ℕ → Bool
lives used none = false
lives used (some l) = not (ltb l used)

module _ {S : Type 0} ⦃o : Ord S⦄ where
  extend_lifetime_lem :
      (used : ℕ) (to : S) (m : BTreeMap S ℕ)
      → lives used (get to (extend_lifetime used to m)) ≡ true
  extend_lifetime_lem used to m = elim (Option-cases (get to m)) [
    | inl e ↦ ground (arith, get-insert to to used m, o.cmp_self to)
    | inr (l, e) ↦ ground (arith, get-insert to to used m, o.cmp_self to)
  ]

  extend_lifetime_keeps :
      (used l : ℕ) (to k : S) (m : BTreeMap S ℕ)
      → lives l (get k m) ≡ true
      → lives l (get k (extend_lifetime used to m)) ≡ true
  extend_lifetime_keeps used l to k m h = elim (Bool-cases (eq? k to)) [
    | inl same ↦
        let f = ap (λ x. get x m) (o.eq_of_cmp k to (ground arith)) in
        elim (Option-cases (get to m)) [
          | inl e ↦ ground (arith, get-insert k to used m)
          | inr (j, e) ↦ ground (arith, get-insert k to used m)
        ]
    | inr other ↦ elim (Option-cases (get to m)) [
      | inl e ↦ ground (arith, get-insert k to used m)
      | inr (j, e) ↦ ground (arith, get-insert k to used m)
    ]
  ]

  extend_lifetimes_keeps :
      (used l : ℕ) (tos : List S) (k : S) (m : BTreeMap S ℕ)
      → lives l (get k m) ≡ true
      → lives l (get k (extend_lifetimes used tos m)) ≡ true
  unfolding extend_lifetimes
  extend_lifetimes_keeps used l [] k m h = h
  extend_lifetimes_keeps used l (to ∷ tos) k m h =
      extend_lifetimes_keeps used l tos k (extend_lifetime used to m)
        (extend_lifetime_keeps used l to k m h)

  extend_lifetimes_lem :
      (used : ℕ) (tos : BTreeMap S Bool) (k : S) (m : BTreeMap S ℕ)
      → is_some (get k tos) ≡ true
      → lives used (get k (extend_lifetimes used (keys tos) m)) ≡ true
  unfolding extend_lifetimes
  extend_lifetimes_lem used [] k m h = absurd (unfold get in cc)
  extend_lifetimes_lem used ((to, p) ∷ tos) k m h = elim (Bool-cases (eq? k to)) [
    | inl same ↦
        let i = o.eq_of_cmp k to (ground arith) in
        extend_lifetimes_keeps used used (keys tos) k (extend_lifetime used to m)
          (rw i (extend_lifetime_lem used to m))
    | inr other ↦
        extend_lifetimes_lem used tos k (extend_lifetime used to m)
          (ground (arith, get-cons k to p tos))
  ]

  -- What the lifetimes promise of the uses in a graph.
  pub record Lifetimes (at : S → Option ℕ) (n : ℕ) (graph : StratifiedGraph S)
      (m out : BTreeMap S ℕ) : Type 0 where
    pub keeps : (l : ℕ) (k : S) → lives l (get k m) ≡ true → lives l (get k out) ≡ true
    pub covers :
        (fr to : S) (tos : BTreeMap S Bool) (s : ℕ)
        → get fr graph ≡ some tos
        → is_some (get to tos) ≡ true
        → at fr ≡ some s
        → lives (n - 1 - s) (get to out) ≡ true

  -- The lifetimes after the edges of one name.
  abbrev lifetimes_once : (S → Option ℕ) → ℕ → S → BTreeMap S Bool → BTreeMap S ℕ → BTreeMap S ℕ
  lifetimes_once at n fr tos m = elim (at fr) [
    | none ↦ m
    | some s ↦ extend_lifetimes (n - 1 - s) (keys tos) m
  ]

  pub lifetimes_of-Lifetimes :
      (at : S → Option ℕ) (n : ℕ) (graph : StratifiedGraph S) (m : BTreeMap S ℕ)
      → ((k : S) (i : ℕ) → at k ≡ some i → i < n)
      → (out : BTreeMap S ℕ) × (lifetimes_of at n graph m ≡ ok out) × Lifetimes at n graph m out
  unfolding lifetimes_of
  lifetimes_of-Lifetimes at n [] m below =
      (m, refl, record { keeps = λ l k h. h; covers = λ fr to tos s e. absurd (unfold get in cc) })
  lifetimes_of-Lifetimes at n ((fr, tos) ∷ graph) m below =
      let (out, runs, rest) =
        lifetimes_of-Lifetimes at n graph (lifetimes_once at n fr tos m) below in
      elim (Option-cases (at fr)) [
        | inl e ↦ (
          out,
          ground arith,
          record {
            keeps = λ l k h. rest.keeps l k (ground arith);
            covers = λ gr to us s f c g. elim (Bool-cases (eq? gr fr)) [
              | inl same ↦ let i = ap at (o.eq_of_cmp gr fr (ground arith)) in absurd (ground arith)
              | inr other ↦ rest.covers gr to us s (ground (arith, get-cons gr fr tos graph)) c g
            ];
          },
        )
        | inr (s, e) ↦ (
          out,
          ground (arith, below fr s e),
          record {
            keeps = λ l k h.
                rest.keeps l k
                  (ground (arith, extend_lifetimes_keeps (n - 1 - s) l (keys tos) k m));
            covers = λ gr to us t f c g. elim (Bool-cases (eq? gr fr)) [
              | inl same ↦
                  let i = ap at (o.eq_of_cmp gr fr (ground arith)) in
                  let j : t ≡ s = ground arith in
                  let w : tos ≡ us = ground (arith, get-cons gr fr tos graph) in
                  let c' : is_some (get to tos) ≡ true = rw w c in
                  rest.keeps (n - 1 - t) to
                    (rw j (ground (arith, extend_lifetimes_lem (n - 1 - s) tos to m c')))
              | inr other ↦ rest.covers gr to us t (ground (arith, get-cons gr fr tos graph)) c g
            ];
          },
        )
      ]
