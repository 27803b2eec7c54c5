-- ===== src/Query/Stratify/Reduce.antt =====
-- `verify_no_cycle` and `make_scc_reduced_graph` (retia-core/src/query/stratify.rs).
use retia.Prelude.{ℕ, suc, ◌==◌, Bool, not, ◌||◌, Option, none, some, List, [], ◌∷◌, if◌then◌else◌}
use retia.Prelude.Order.{Ord, nat_ord}
use retia.Prelude.Result.{Result, ok, panic, ◌>>=◌, ◌>>◌, ensure}
use retia.BTreeMap
use retia.BTreeMap.{BTreeMap}
use retia.BTreeSet
use retia.BTreeSet.{BTreeSet}
use retia.Query.Graph.{Graph}
use retia.Query.Kahn.{StratifiedGraph}
use retia.Query.Scc.{keys}

-- `UnStratifiableProgram`
pub data Error : Type 0 where
  unstratifiable : Error

-- A step that panics where it has no result.
abbrev pub or_panic {ℓ} : {A : Type ℓ} → Option A → Result Error A
or_panic none = panic
or_panic (some a) = ok a

-- `cur_entry` after an edge to the component `to_idx`.
abbrev pub add_reduced : ℕ → Bool → BTreeMap ℕ Bool → BTreeMap ℕ Bool
add_reduced to_idx poisoned cur_entry = elim (BTreeMap.get to_idx cur_entry) [
  | none ↦ BTreeMap.insert to_idx poisoned cur_entry
  | some old_p ↦ BTreeMap.insert to_idx (old_p || poisoned) cur_entry
]

-- `ret.entry(from_idx).or_default()`
abbrev pub entry_or_default : ℕ → StratifiedGraph ℕ → BTreeMap ℕ Bool
entry_or_default idx ret = elim (BTreeMap.get idx ret) [ none ↦ [] | some entry ↦ entry ]

module _ {S : Type 0} ⦃o : Ord S⦄ where
  -- `reduce_to_graph`
  unfoldable pub reduce_to_graph : StratifiedGraph S → Graph S
  reduce_to_graph [] = []
  reduce_to_graph ((k, s) ∷ g) = (k, keys s) ∷ reduce_to_graph g

  -- `for (v, negated) in vs`
  unfoldable pub verify_edges : BTreeSet S → BTreeMap S Bool → Result Error (Unit {0})
  verify_edges scc [] = ok tt
  verify_edges scc ((v, negated) ∷ vs) = do
    ensure (not negated || not (BTreeSet.contains v scc)) unstratifiable
    verify_edges scc vs

  -- `for scc in sccs`
  unfoldable pub verify_components :
      S → BTreeMap S Bool → List (BTreeSet S) → Result Error (Unit {0})
  unfolding verify_edges
  verify_components k vs [] = ok tt
  verify_components k vs (scc ∷ sccs) = do
    if BTreeSet.contains k scc then verify_edges scc vs else ok tt
    verify_components k vs sccs

  -- `for (k, vs) in g`
  unfoldable pub verify_no_cycle : StratifiedGraph S → List (BTreeSet S) → Result Error (Unit {0})
  unfolding verify_components
  verify_no_cycle [] sccs = ok tt
  verify_no_cycle ((k, vs) ∷ g) sccs = do verify_components k vs sccs; verify_no_cycle g sccs

  -- `scc.iter().map(move |k| ((*k).clone(), idx))`
  unfoldable pub index_component : ℕ → BTreeSet S → BTreeMap S ℕ → BTreeMap S ℕ
  index_component idx [] indices = indices
  index_component idx (k ∷ scc) indices = index_component idx scc (BTreeMap.insert k idx indices)

  -- `sccs.iter().enumerate()`, from `idx` on
  unfoldable pub index_components : ℕ → List (BTreeSet S) → BTreeMap S ℕ → BTreeMap S ℕ
  unfolding index_component
  index_components idx [] indices = indices
  index_components idx (scc ∷ sccs) indices =
      index_components (suc idx) sccs (index_component idx scc indices)

  -- `for (to, poisoned) in tos`
  unfoldable pub reduce_edges :
      BTreeMap S ℕ → ℕ → BTreeMap S Bool → BTreeMap ℕ Bool → BTreeMap ℕ Bool
  reduce_edges indices from_idx [] cur_entry = cur_entry
  reduce_edges indices from_idx ((to, poisoned) ∷ tos) cur_entry =
      reduce_edges indices from_idx tos (elim (BTreeMap.get to indices) [
        | none ↦ cur_entry
        | some to_idx ↦
            if from_idx == to_idx then cur_entry else add_reduced to_idx poisoned cur_entry
      ])

  -- `for (from, tos) in graph`
  unfoldable pub reduce_rows :
      BTreeMap S ℕ → StratifiedGraph S → StratifiedGraph ℕ → Result Error (StratifiedGraph ℕ)
  unfolding reduce_edges
  reduce_rows indices [] ret = ok ret
  reduce_rows indices ((from, tos) ∷ graph) ret = do
    from_idx ← or_panic (BTreeMap.get from indices)
    let entry = reduce_edges indices from_idx tos (entry_or_default from_idx ret)
    reduce_rows indices graph (BTreeMap.insert from_idx entry ret)

  unfoldable pub make_scc_reduced_graph :
      List (BTreeSet S) → StratifiedGraph S → Result Error (BTreeMap S ℕ × StratifiedGraph ℕ)
  unfolding index_components reduce_rows
  make_scc_reduced_graph sccs graph = do
    ret ← reduce_rows (index_components 0 sccs []) graph []
    ok (index_components 0 sccs [], ret)
