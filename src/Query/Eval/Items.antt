-- ===== src/Query/Eval/Items.antt =====
-- The loops over items without a limit (retia-core/src/query/eval.rs).
use retia.Prelude.{
  ◌≡◌, refl, ap, ◌∙◌, Bool, true, false, not, ◌&&◌, ◌||◌, is_some, List, [], ◌∷◌, map, arith,
  Bool-cases, inl, inr,
}
use retia.Prelude.Order.{Ord, list_ord, eq?}
use retia.Prelude.Result.{ok}
use retia.BTreeMap.{IsSorted, insert, get}
use retia.BTreeMap.Laws.{get-insert, insert-IsSorted}
use retia.BTreeSet.{contains}
use retia.Data.Value.{Externals, DataValue}
use retia.Runtime.TempStore.Regular.{Tuple, RegularTempStore, put, put_with_skip}
use retia.Runtime.TempStore.Epoch
use retia.Runtime.TempStore.Epoch.{EpochStore}
use retia.Query.Eval.Limiter.{QueryLimiter, should_skip_next}
use retia.Query.Eval.Plain.{Run, put_next, initial_items, incremental_items}

abbrev pub passed : {X : Externals} → QueryLimiter → RegularTempStore X → Run X
passed limiter out = record { limiter = limiter; out = out; stopped = false }

module _ {X : Externals} ⦃o : Ord (DataValue X)⦄ where
  -- The tuples of `out'` are those of `out` and those that `adds` tells.
  pub record Puts (out : RegularTempStore X) (adds : Tuple X → Bool) (out' : RegularTempStore X)
      : Type 0 where
    pub sorted : IsSorted out'
    pub puts : (t : Tuple X) → is_some (get t out') ≡ (is_some (get t out) || adds t)

  pub contains_cons :
      (t u : Tuple X) (ts : List (Tuple X)) → contains t (u ∷ ts) ≡ (eq? t u || contains t ts)
  unfolding contains
  contains_cons t u ts = ground arith

  pub put_next-insert :
      (limiter : QueryLimiter) (t : Tuple X) (out : RegularTempStore X)
      → put_next limiter t out ≡ insert t (should_skip_next limiter) out
  unfolding put put_with_skip
  put_next-insert limiter t out = elim (Bool-cases (should_skip_next limiter)) [
    | inl e ↦ rw e refl
    | inr e ↦ rw e refl
  ]

  is_some-get-insert :
      (t u : Tuple X) (flag : Bool) (out : RegularTempStore X)
      → is_some (get t (insert u flag out)) ≡ (eq? t u || is_some (get t out))
  is_some-get-insert t u flag out = ground (arith, get-insert t u flag out)

  pub initial_items-Puts :
      (limiter : QueryLimiter) (ts : List (Tuple X)) (out : RegularTempStore X)
      → IsSorted out
      → (out' : RegularTempStore X) × (initial_items false (map ok ts) limiter out
          ≡ ok (passed limiter out'))
        × Puts out (λ t. contains t ts) out'
  unfolding initial_items
  initial_items-Puts limiter [] out s =
      (out, refl, record { sorted = s; puts = λ t. unfold contains in ground arith })
  initial_items-Puts limiter (u ∷ ts) out s =
      let (out', runs, p) =
        initial_items-Puts limiter ts (insert u false out) (insert-IsSorted u false out s) in
      (
        out',
        runs,
        record {
          sorted = p.sorted;
          puts =
              λ t. ground (arith, p.puts t, is_some-get-insert t u false out, contains_cons t u ts);
        },
      )

  -- `old` tells the tuples that the store of the rule has.
  module _ (limiter : QueryLimiter) (prev : EpochStore X) (old : Tuple X → Bool)
      (olds : (t : Tuple X) → Epoch.exists t prev ≡ ok (old t)) where
    pub incremental_items-Puts :
        (ts : List (Tuple X)) (out : RegularTempStore X)
        → IsSorted out
        → (out' : RegularTempStore X) × (incremental_items false prev (map ok ts) limiter out
            ≡ ok (passed limiter out'))
          × Puts out (λ t. contains t ts && not (old t)) out'
    unfolding incremental_items
    incremental_items-Puts [] out s =
        (out, refl, record { sorted = s; puts = λ t. unfold contains in ground arith })
    incremental_items-Puts (u ∷ ts) out s = elim (Bool-cases (old u)) [
      | inl e ↦
          let (out', runs, p) = incremental_items-Puts ts out s in
          (
            out',
            rw (olds u, e) runs,
            record {
              sorted = p.sorted;
              puts = λ t. elim (Bool-cases (eq? t u)) [
                | inl same ↦
                    let i : t ≡ u = (list_ord {K = DataValue X}).eq_of_cmp t u (ground arith) in
                    let j : old t ≡ true = ap old i ∙ e in ground (arith, p.puts t)
                | inr differ ↦ ground (arith, p.puts t, contains_cons t u ts)
              ];
            },
          )
      | inr e ↦
          let out'' = put_next limiter u out in
          let i : out'' ≡ insert u (should_skip_next limiter) out = put_next-insert limiter u out in
          let (out', runs, p) =
            incremental_items-Puts ts out''
              (rw i (insert-IsSorted u (should_skip_next limiter) out s)) in
          (
            out',
            rw (olds u, e) runs,
            record {
              sorted = p.sorted;
              puts = λ t.
                  let j : is_some (get t out'') ≡ (eq? t u || is_some (get t out)) =
                    ap (λ m. is_some (get t m)) i
                    ∙ is_some-get-insert t u (should_skip_next limiter) out in
                  elim (Bool-cases (eq? t u)) [
                    | inl same ↦
                        let i : t ≡ u = (list_ord {K = DataValue X}).eq_of_cmp t u (ground arith) in
                        let k : old t ≡ false = ap old i ∙ e in
                        ground (arith, p.puts t, contains_cons t u ts)
                    | inr differ ↦ ground (arith, p.puts t, contains_cons t u ts)
                  ];
            },
          )
    ]
