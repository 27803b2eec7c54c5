-- ===== src/Storage/Mem/Merge.antt =====
-- The iterator yields the merge of the changes into the stored entries.
use retia.Prelude.{
  ℕ, zero, suc, ◌+◌, ◌<◌, lt, eq, gt, ◌≡◌, refl, ◌∙◌, Option, none, some, [], ◌∷◌, length, cons?,
  arith,
}
use retia.Prelude.Order.{Bytes, bytes_ord}
use retia.Storage.Mem.Scan.{
  Store, Delta, CacheIterRaw, Turn, finish, emit, continue, match_caches, turn, next_inner, collect,
  changes, stored, remaining,
}

-- The value of a change in front of the entries that follow, a deletion left out.
abbrev pub apply_change : Bytes → Option Bytes → Store → Store
apply_change k none rest = rest
apply_change k (some v) rest = (k, v) ∷ rest

-- The merge of two lists in key order, the change winning.
unfoldable pub merge : Delta → Store → Store
merge [] [] = []
merge [] ((dk, v) ∷ d) = (dk, v) ∷ merge [] d
merge ((ck, cv) ∷ c) [] = apply_change ck cv (merge c [])
merge ((ck, cv) ∷ c) ((dk, v) ∷ d) = elim (bytes_ord.cmp ck dk) [
  | lt ↦ apply_change ck cv (merge c ((dk, v) ∷ d))
  | gt ↦ (dk, v) ∷ merge ((ck, cv) ∷ c) d
  | eq ↦ merge ((ck, cv) ∷ c) d
]

-- What a round says about the merge of what remained before it, `c` and `d`.
abbrev pub TurnSays : Turn → Delta → Store → Type 0
TurnSays (finish it') c d = merge c d ≡ []
TurnSays (emit kv it') c d =
    (merge c d ≡ kv ∷ merge (changes it') (stored it')) × (remaining it' < length c + length d)
TurnSays (continue it') c d =
    (merge c d ≡ merge (changes it') (stored it')) × (remaining it' < length c + length d)

abbrev iter : Option (Bytes × Option Bytes) → Delta → Option (Bytes × Bytes) → Store → CacheIterRaw
iter cc ci dc di = record { change_iter = ci; db_iter = di; change_cache = cc; db_cache = dc }

-- Both caches are full.
match_both :
    (ck : Bytes) (cv : Option Bytes) (ci : Delta) (dk v : Bytes) (di : Store)
    → let it = iter (some (ck, cv)) ci (some (dk, v)) di in
      TurnSays (match_caches (some (ck, cv)) (some (dk, v)) it) ((ck, cv) ∷ ci) ((dk, v) ∷ di)
unfolding match_caches merge
match_both ck none ci dk v di = ground arith
match_both ck (some w) ci dk v di = ground arith

-- No stored entry is left.
match_change :
    (ck : Bytes) (cv : Option Bytes) (ci : Delta)
    → let it = iter (some (ck, cv)) ci none [] in
      TurnSays (match_caches (some (ck, cv)) none it) ((ck, cv) ∷ ci) []
unfolding match_caches merge
match_change ck none ci = (refl, omega arith)
match_change ck (some w) ci = (refl, omega arith)

turn_parts :
    (cc : Option (Bytes × Option Bytes)) (ci : Delta) (dc : Option (Bytes × Bytes)) (di : Store)
    → TurnSays (turn (iter cc ci dc di)) (cons? cc ci) (cons? dc di)
unfolding turn merge
turn_parts none [] none [] = refl
turn_parts none [] none ((k, v) ∷ di) = (refl, omega arith)
turn_parts none [] (some (k, v)) di = (refl, omega arith)
turn_parts none ((ck, cv) ∷ ci) none [] = match_change ck cv ci
turn_parts none ((ck, cv) ∷ ci) none ((k, v) ∷ di) = match_both ck cv ci k v di
turn_parts none ((ck, cv) ∷ ci) (some (k, v)) di = match_both ck cv ci k v di
turn_parts (some (ck, cv)) ci none [] = match_change ck cv ci
turn_parts (some (ck, cv)) ci none ((k, v) ∷ di) = match_both ck cv ci k v di
turn_parts (some (ck, cv)) ci (some (k, v)) di = match_both ck cv ci k v di

pub turn_lem : (it : CacheIterRaw) → TurnSays (turn it) (changes it) (stored it)
turn_lem it = turn_parts it.change_cache it.change_iter it.db_cache it.db_iter

-- What a call of `next` says: fuel was left, and it returns the first entry of the merge.
abbrev NextSays : Option (Option (Bytes × Bytes) × CacheIterRaw) → Delta → Store → Type 0
NextSays none c d = ⊥
NextSays (some (none, it')) c d = merge c d ≡ []
NextSays (some (some kv, it')) c d =
    (merge c d ≡ kv ∷ merge (changes it') (stored it')) × (remaining it' < length c + length d)

mono :
    (r : Option (Option (Bytes × Bytes) × CacheIterRaw)) (c c' : Delta) (d d' : Store)
    → merge c d ≡ merge c' d'
    → length c' + length d' < length c + length d
    → NextSays r c' d'
    → NextSays r c d
mono none c c' d d' e h n = n
mono (some (none, it')) c c' d d' e h n = e ∙ n
mono (some (some kv, it')) c c' d d' e h n = (e ∙ n.0, omega arith)

-- With more fuel than entries a call of `next` returns.
next_inner_lem :
    (fuel : ℕ) (it : CacheIterRaw)
    → remaining it < fuel
    → NextSays (next_inner fuel it) (changes it) (stored it)
unfolding next_inner
next_inner_lem zero it h = elim h [ ]
next_inner_lem (suc fuel) it h =
    (elim (turn it)
        as (λ t.
          TurnSays t (changes it) (stored it)
          → NextSays
              (elim t [
                | finish it' ↦ some (none, it')
                | emit kv it' ↦ some (some kv, it')
                | continue it' ↦ next_inner fuel it'
              ])
              (changes it) (stored it)) [
                | finish it' ↦ λ says. says
                | emit kv it' ↦ λ says. says
                | continue it' ↦ λ says.
                    mono (next_inner fuel it') (changes it) (changes it') (stored it) (stored it')
                      says.0 says.1 (next_inner_lem fuel it' (omega arith))
              ])
      (turn_lem it)

-- The iterator yields the merge, given fuel for every entry.
pub collect_lem :
    (rounds fuel : ℕ) (it : CacheIterRaw)
    → remaining it < rounds
    → remaining it < fuel
    → collect rounds fuel it ≡ some (merge (changes it) (stored it))
unfolding collect
collect_lem zero fuel it h k = elim h [ ]
collect_lem (suc rounds) fuel it h k =
    (elim (next_inner fuel it)
        as (λ r.
          NextSays r (changes it) (stored it)
          → (elim r [
            | none ↦ none
            | some (none, it') ↦ some []
            | some (some kv, it') ↦ elim (collect rounds fuel it') [
              | none ↦ none
              | some kvs ↦ some (kv ∷ kvs)
            ]
          ])
            ≡ some (merge (changes it) (stored it))) [
              | none ↦ λ says. absurd says
              | some (none, it') ↦ λ says. rw says
              | some (some kv, it') ↦
                  λ says. rw (says.0, collect_lem rounds fuel it' (omega arith) (omega arith))
            ])
      (next_inner_lem fuel it k)
