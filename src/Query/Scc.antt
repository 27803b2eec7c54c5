-- ===== src/Query/Scc.antt =====
-- `TarjanScc` and `strongly_connected_components` (retia-core/src/query/graph.rs). Where a step has
-- none as its result, an index is out of bounds, an `unwrap` fails, or fuel runs out. The poison that
-- `run` is given is new and no one else has it, so its check passes.
mod Tests
pub mod Shape
pub mod State
pub mod Enter
pub mod Lower
pub mod Pop
pub mod Component
pub mod Settled
pub mod Visits
pub mod Leave
pub mod Dfs
pub mod Groups
pub mod Classes
pub mod Indices
pub mod Components
pub mod Correct
use retia.Prelude.{
  ℕ, zero, suc, ◌+◌, ◌==◌, Bool, true, false, Option, none, some, List, [], ◌∷◌, ◌++◌, length,
  replicate, get_elem?, set, if◌then◌else◌, min, map,
}
use retia.Prelude.Order.{Ord, nat_ord}
use retia.Prelude.Options.{◌>>=◌}
use retia.BTreeMap
use retia.BTreeMap.{BTreeMap}
use retia.Query.Graph.{Graph}

-- The last element of `stack` comes first.
pub record TarjanScc : Type 0 where
  pub id : ℕ
  pub ids : List (Option ℕ)
  pub low : List ℕ
  pub on_stack : List Bool
  pub stack : List ℕ

abbrev pub new : ℕ → TarjanScc
new n = record {
  id = 0;
  ids = replicate n none;
  low = replicate n 0;
  on_stack = replicate n false;
  stack = [];
}

-- `v[i] = a`
abbrev pub write {ℓ} : {A : Type ℓ} → List A → ℕ → A → Option (List A)
write xs i a = do old ← get_elem? xs i; some (set xs i a)

-- What `dfs` does before it looks at the edges.
unfoldable pub enter : ℕ → TarjanScc → Option TarjanScc
enter at st = do
  on_stack' ← write st.on_stack at true
  ids' ← write st.ids at (some (suc st.id))
  low' ← write st.low at (suc st.id)
  some (record {
    id = suc st.id;
    ids = ids';
    low = low';
    on_stack = on_stack';
    stack = at ∷ st.stack;
  })

-- `self.low[at] = min(self.low[at], self.low[to])`
unfoldable pub take_min : ℕ → ℕ → TarjanScc → Option TarjanScc
take_min at to st = do
  low_at ← get_elem? st.low at
  low_to ← get_elem? st.low to
  low' ← write st.low at (min low_at low_to)
  some record st { low = low' }

-- `if self.on_stack[to]`
unfoldable pub lower : ℕ → ℕ → TarjanScc → Option TarjanScc
unfolding take_min
lower at to st = do on ← get_elem? st.on_stack to; if on then take_min at to st else some st

-- `if self.ids[to].is_none() { self.dfs(to) }`, where `dfs` is the recursive call
unfoldable pub visit : (ℕ → TarjanScc → Option TarjanScc) → ℕ → TarjanScc → Option TarjanScc
visit dfs to st = do known ← get_elem? st.ids to; elim known [ none ↦ dfs to st | some i ↦ some st ]

-- `for to in &self.graph[at]`
unfoldable pub visit_all :
    (ℕ → TarjanScc → Option TarjanScc) → ℕ → List ℕ → TarjanScc → Option TarjanScc
unfolding lower visit
visit_all dfs at [] st = some st
visit_all dfs at (to ∷ tos) st = do
  st' ← visit dfs to st
  st'' ← lower at to st'
  visit_all dfs at tos st''

-- `while let Some(node) = self.stack.pop()`, over the stack
unfoldable pub pop_component : ℕ → ℕ → List ℕ → TarjanScc → Option TarjanScc
pop_component at root [] st = some record st { stack = [] }
pop_component at root (node ∷ stack) st = do
  on_stack' ← write st.on_stack node false
  low' ← write st.low node root
  let st' = record st { on_stack = on_stack'; low = low'; stack = stack }
  let later = pop_component at root stack st'
  if node == at then some st' else later

-- `if self.ids[at].unwrap() == self.low[at]`
unfoldable pub leave : ℕ → TarjanScc → Option TarjanScc
unfolding pop_component
leave at st = do
  known ← get_elem? st.ids at
  root ← known
  low ← get_elem? st.low at
  if root == low then pop_component at root st.stack st else some st

unfoldable pub dfs : List (List ℕ) → ℕ → ℕ → TarjanScc → Option TarjanScc
unfolding enter visit_all leave
dfs graph zero at st = none
dfs graph (suc fuel) at st = do
  st' ← enter at st
  tos ← get_elem? graph at
  st'' ← visit_all (dfs graph fuel) at tos st'
  leave at st''

-- `for i in 0..self.graph.len()`, from `i` on for `rounds` rounds
unfoldable pub dfs_all : List (List ℕ) → ℕ → ℕ → TarjanScc → Option TarjanScc
unfolding dfs visit
dfs_all graph zero i st = some st
dfs_all graph (suc rounds) i st = do
  st' ← visit (dfs graph (suc (length graph))) i st
  dfs_all graph rounds (suc i) st'

-- `low_map.entry(grp).or_default().push(idx)`
abbrev pub push_to : ℕ → ℕ → BTreeMap ℕ (List ℕ) → BTreeMap ℕ (List ℕ)
push_to grp idx low_map = elim (BTreeMap.get grp low_map) [
  | none ↦ BTreeMap.insert grp (idx ∷ []) low_map
  | some members ↦ BTreeMap.insert grp (members ++ idx ∷ []) low_map
]

-- `for (idx, grp) in self.low.into_iter().enumerate()`, from `idx` on
unfoldable pub group_low : ℕ → List ℕ → BTreeMap ℕ (List ℕ) → BTreeMap ℕ (List ℕ)
group_low idx [] low_map = low_map
group_low idx (grp ∷ low) low_map = group_low (suc idx) low (push_to grp idx low_map)

abbrev pub into_values {ℓ κ} : {K : Type ℓ} {V : Type κ} → BTreeMap K V → List V
into_values [] = []
into_values ((k, v) ∷ m) = v ∷ into_values m

abbrev pub keys {ℓ κ} : {K : Type ℓ} {V : Type κ} → BTreeMap K V → List K
keys [] = []
keys ((k, v) ∷ m) = k ∷ keys m

-- Each node is visited once, so that is as deep as `dfs` goes.
unfoldable pub run : List (List ℕ) → Option (List (List ℕ))
unfolding dfs_all group_low
run graph = do
  st ← dfs_all graph (length graph) 0 (new (length graph))
  some (into_values (group_low 0 st.low []))

module _ {T : Type 0} ⦃o : Ord T⦄ where
  -- `indices.iter().enumerate().map(|(idx, k)| (*k, idx)).collect()`, from `idx` on
  unfoldable pub invert : ℕ → List T → BTreeMap T ℕ → BTreeMap T ℕ
  invert idx [] acc = acc
  invert idx (k ∷ ks) acc = invert (suc idx) ks (BTreeMap.insert k idx acc)

  -- `vs.iter().filter_map(|v| invert_indices.get(v).cloned())`
  unfoldable pub indexed : BTreeMap T ℕ → List T → List ℕ
  indexed inverse [] = []
  indexed inverse (v ∷ vs) = elim (BTreeMap.get v inverse) [
    | none ↦ indexed inverse vs
    | some i ↦ i ∷ indexed inverse vs
  ]

  -- `vs.into_iter().map(|i| indices[i])`
  unfoldable pub at_indices : List T → List ℕ → Option (List T)
  at_indices indices [] = some []
  at_indices indices (i ∷ is) = do
    k ← get_elem? indices i
    ks ← at_indices indices is
    some (k ∷ ks)

  unfoldable pub all_at_indices : List T → List (List ℕ) → Option (List (List T))
  unfolding at_indices
  all_at_indices indices [] = some []
  all_at_indices indices (vs ∷ vss) = do
    ks ← at_indices indices vs
    kss ← all_at_indices indices vss
    some (ks ∷ kss)

  unfoldable pub strongly_connected_components : Graph T → Option (List (List T))
  unfolding run invert indexed all_at_indices
  strongly_connected_components graph = do
    components ← run (map (indexed (invert 0 (keys graph) [])) (into_values graph))
    all_at_indices (keys graph) components
