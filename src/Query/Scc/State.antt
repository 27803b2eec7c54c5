-- ===== src/Query/Scc/State.antt =====
-- What holds while `TarjanScc::dfs` (retia-core/src/query/graph.rs) runs.
use retia.Prelude.{
  ℕ, zero, suc, ◌<◌, ◌≤◌, ◌==◌, ◌≡◌, refl, Bool, true, false, Option, none, some, List, [], ◌∷◌,
  length, get_elem?, set, mem, get_or_zero, if◌then◌else◌, arith,
}
use retia.Query.Scc.{TarjanScc}
use retia.Query.Scc.Shape.{Shape}

-- `graph[v]` has `w`.
abbrev pub has_edge : List (List ℕ) → ℕ → ℕ → Bool
has_edge graph v w = elim (get_elem? graph v) [ none ↦ false | some tos ↦ mem w tos ]

-- A path from the node on the left.
pub data Leads (graph : List (List ℕ)) (a : ℕ) : ℕ → Type 0 where
  here : Leads graph a a
  step : {b c : ℕ} → Leads graph a b → has_edge graph b c ≡ true → Leads graph a c

pub Leads-trans :
    (graph : List (List ℕ)) (a b c : ℕ) → Leads graph a b → Leads graph b c → Leads graph a c
Leads-trans graph a b c p here = p
Leads-trans graph a b c p (step q e) = step (Leads-trans graph a b _ p q) e

-- The id of a node, 0 before it is visited.
abbrev pub or_zero : Option ℕ → ℕ
or_zero none = 0
or_zero (some i) = i

abbrev pub number : List (Option ℕ) → ℕ → ℕ
number [] v = 0
number (i ∷ ids) zero = or_zero i
number (i ∷ ids) (suc v) = number ids v

pub number-set :
    (ids : List (Option ℕ)) (at i v : ℕ)
    → at < length ids
    → number (set ids at (some i)) v ≡ (if v == at then i else number ids v)
number-set [] at i v h = absurd (omega arith)
number-set (j ∷ ids) zero i zero h = refl
number-set (j ∷ ids) zero i (suc v) h = ground arith
number-set (j ∷ ids) (suc at) i zero h = ground arith
number-set (j ∷ ids) (suc at) i (suc v) h = ground (arith, number-set ids at i v (omega arith))

pub number-get_elem? :
    (ids : List (Option ℕ)) (v : ℕ) (i : Option ℕ)
    → get_elem? ids v ≡ some i
    → number ids v ≡ or_zero i
number-get_elem? [] v i h = absurd (cc)
number-get_elem? (j ∷ ids) zero i h = ground arith
number-get_elem? (j ∷ ids) (suc v) i h = number-get_elem? ids v i h

-- The stack has later nodes in front of earlier ones.
abbrev pub Descends : List (Option ℕ) → List ℕ → Type 0
Descends ids [] = Unit
Descends ids (x ∷ xs) = ((y : ℕ) → mem y xs ≡ true → number ids y < number ids x) × Descends ids xs

-- `gray` are the nodes whose call of `dfs` has not ended.
pub record Inv (n : ℕ) (graph : List (List ℕ)) (gray : List ℕ) (st : TarjanScc) : Type 0 where
  pub shape : Shape n st
  pub positive : (v i : ℕ) → get_elem? st.ids v ≡ some (some i) → 0 < i
  pub bounded : (v : ℕ) → number st.ids v ≤ st.id
  pub injective : (u v : ℕ) → 0 < number st.ids u → number st.ids u ≡ number st.ids v → u ≡ v
  pub on : (v : ℕ) → v < n → get_elem? st.on_stack v ≡ some (mem v st.stack)
  pub visited : (v : ℕ) → mem v st.stack ≡ true → 0 < number st.ids v
  pub descends : Descends st.ids st.stack
  pub grays : (v : ℕ) → mem v gray ≡ true → mem v st.stack ≡ true
  pub low_le : (v : ℕ) → mem v st.stack ≡ true → get_or_zero st.low v ≤ number st.ids v
  pub low_at :
      (v : ℕ)
      → mem v st.stack ≡ true
      → (y : ℕ) × (mem y st.stack ≡ true)
        × (number st.ids y ≡ get_or_zero st.low v)
        × Leads graph v y
  pub back :
      (v : ℕ) → mem v st.stack ≡ true → mem v gray ≡ false → get_or_zero st.low v < number st.ids v
  pub edges :
      (v w : ℕ)
      → mem v st.stack ≡ true
      → mem v gray ≡ false
      → has_edge graph v w ≡ true
      → (0 < number st.ids w) × (mem w st.stack ≡ true → get_or_zero st.low v ≤ number st.ids w)
  pub gone :
      (v w : ℕ)
      → 0 < number st.ids v
      → mem v st.stack ≡ false
      → has_edge graph v w ≡ true
      → (0 < number st.ids w) × (mem w st.stack ≡ false)
  pub roots :
      (v : ℕ)
      → 0 < number st.ids v
      → mem v st.stack ≡ false
      → (r : ℕ) × (0 < number st.ids r)
        × (mem r st.stack ≡ false)
        × (number st.ids r ≡ get_or_zero st.low v)
        × Leads graph v r
        × Leads graph r v
  pub classes :
      (u v : ℕ)
      → 0 < number st.ids u
      → mem u st.stack ≡ false
      → 0 < number st.ids v
      → mem v st.stack ≡ false
      → Leads graph u v
      → Leads graph v u
      → get_or_zero st.low u ≡ get_or_zero st.low v
