-- ===== src/Query/Graph/Reaches.antt =====
-- Paths in a graph, and the nodes that a set still lacks.
use retia.Prelude.{
  ℕ, ◌+◌, ◌≤◌, ◌<◌, ◌≡◌, refl, true, false, ◌||◌, List, [], ◌∷◌, ◌++◌, length, if◌then◌else◌, arith,
}
use retia.Prelude.Order.{Ord}
use retia.BTreeMap
use retia.BTreeSet.{BTreeSet, contains, insert}
use retia.BTreeSet.Laws.{contains-insert}
use retia.Query.Graph.{Graph, targets, children}

module _ {T : Type 0} ⦃o : Ord T⦄ where
  -- A path from the node on the left.
  pub data Reaches (graph : Graph T) (a : T) : T → Type 0 where
    here : Reaches graph a a
    step : {b c : T} → Reaches graph a b → contains c (children graph b) ≡ true → Reaches graph a c

  pub Reaches-before :
      (graph : Graph T) (a b c : T)
      → contains b (children graph a) ≡ true
      → Reaches graph b c
      → Reaches graph a c
  Reaches-before graph a b c e here = step here e
  Reaches-before graph a b c e (step p f) = step (Reaches-before graph a b _ e p) f

  pub Reaches-trans :
      (graph : Graph T) (a b c : T) → Reaches graph a b → Reaches graph b c → Reaches graph a c
  Reaches-trans graph a b c p here = p
  Reaches-trans graph a b c p (step q e) = step (Reaches-trans graph a b _ p q) e

  pub contains-append :
      (p : T) (xs ys : List T) → contains p (xs ++ ys) ≡ (contains p xs || contains p ys)
  unfolding contains
  contains-append p [] ys = refl
  contains-append p (x ∷ xs) ys = ground (arith, contains-append p xs ys)

  pub child_in_targets :
      (graph : Graph T) (a b : T)
      → contains b (children graph a) ≡ true
      → contains b (targets graph) ≡ true
  unfolding contains BTreeMap.get
  child_in_targets [] a b h = h
  child_in_targets ((k, tos) ∷ graph) a b h =
      ground (arith, child_in_targets graph a b, contains-append b tos (targets graph))

  -- How many of the nodes a set lacks.
  abbrev pub missing : List T → BTreeSet T → ℕ
  missing [] s = 0
  missing (x ∷ xs) s = (if contains x s then 0 else 1) + missing xs s

  pub missing-length : (xs : List T) (s : BTreeSet T) → missing xs s ≤ length xs
  missing-length [] s = omega arith
  missing-length (x ∷ xs) s = ground (arith, missing-length xs s)

  -- A larger set lacks no more.
  pub missing_grows :
      (xs : List T) (s t : BTreeSet T)
      → ((p : T) → contains p s ≡ true → contains p t ≡ true)
      → missing xs t ≤ missing xs s
  missing_grows [] s t h = omega arith
  missing_grows (x ∷ xs) s t h = ground (arith, missing_grows xs s t h, h x)

  pub insert_grows :
      (k : T) (s : BTreeSet T) (p : T) → contains p s ≡ true → contains p (insert k s) ≡ true
  insert_grows k s p h = ground (arith, contains-insert p k s)

  pub missing-insert :
      (xs : List T) (k : T) (s : BTreeSet T)
      → contains k xs ≡ true
      → contains k s ≡ false
      → missing xs (insert k s) < missing xs s
  unfolding contains
  missing-insert [] k s h e = ground arith
  missing-insert (x ∷ xs) k s h e = ground (
    arith,
    missing-insert xs k s,
    missing_grows xs s (insert k s) (insert_grows k s),
    contains-insert x k s,
    o.eq_of_cmp k x,
    o.cmp_self k,
  )
