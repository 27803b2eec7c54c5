-- ===== src/Query/Eval/Limits.antt =====
-- What `QueryLimiter` does to the results of the entry rules (retia-core/src/query/eval.rs).
use retia.Prelude.{
  ℕ, suc, ◌<◌, ◌≡◌, refl, sym, ap, ◌∙◌, Bool, true, Option, none, some, List, [], ◌∷◌, ◌++◌, length,
  map, ltb, leb, min, arith, Bool-cases, Option-cases, inl, inr, length-append,
}
use Prim.Native.Nat.{max}
use retia.Prelude.Order.{Ord, list_ord, eq?}
use retia.Prelude.Result.{ok}
use retia.BTreeMap.{IsSorted, insert, get}
use retia.BTreeMap.Laws.{get-insert, insert-IsSorted}
use retia.BTreeMap.Size.{length-insert}
use retia.Data.Value.{Externals, DataValue}
use retia.Runtime.TempStore.Regular
use retia.Runtime.TempStore.Regular.{Tuple, RegularTempStore, put, put_with_skip}
use retia.Query.Eval.Limiter.{QueryLimiter, should_skip_next}
use retia.Query.Eval.Items.{put_next-insert}
use retia.Query.Eval.Plain.{Run, put_next, initial_items}
use retia.Query.Eval.Distinct.{
  to_skip, placed, index_of, distinct_onto, distinct, index_of-lt, index_of-snoc,
  distinct_onto-length, late,
}

abbrev pub limiter_at : ℕ → Option ℕ → ℕ → QueryLimiter
limiter_at limit skip counter = record { total = some limit; skip = skip; counter = counter }

module _ {X : Externals} ⦃o : Ord (DataValue X)⦄ where
  -- What the loop of the first epoch leaves, if the tuples of its items are `found`, each once.
  pub record Limits (limit : ℕ) (skip : Option ℕ) (found : List (Tuple X)) (run : Run X)
      : Type 0 where
    pub size : length run.out ≡ run.limiter.counter
    pub counts : run.limiter.counter ≡ min (length found) (max 1 limit)
    pub stops : run.stopped ≡ leb (max 1 limit) (length found)
    pub holds : (t : Tuple X) → get t run.out ≡ placed limit skip (index_of t found)

  -- The store while the loop goes on, when it has met the tuples `seen`, each once.
  record Goes (limit : ℕ) (skip : Option ℕ) (seen : List (Tuple X)) (out : RegularTempStore X)
      : Type 0 where
    sorted : IsSorted out
    size : length out ≡ length seen
    room : length seen < max 1 limit
    holds : (t : Tuple X) → get t out ≡ placed limit skip (index_of t seen)

  -- A tuple that the store has has been met.
  seen_before :
      (limit : ℕ) (skip : Option ℕ) (u : Tuple X) (seen : List (Tuple X)) (out : RegularTempStore X)
      → Goes limit skip seen out
      → (w : Bool) → get u out ≡ some w
      → (i : ℕ) × (index_of u seen ≡ some i)
  seen_before limit skip u seen out g w e = elim (Option-cases (index_of u seen)) [
    | inl f ↦ absurd (ground (arith, g.holds u))
    | inr found ↦ found
  ]

  -- The store once a new tuple has been put into it.
  module _ (limit : ℕ) (skip : Option ℕ) (u : Tuple X) (seen : List (Tuple X))
      (out : RegularTempStore X) (g : Goes limit skip seen out) (new : get u out ≡ none) where
    abbrev put_new : RegularTempStore X
    put_new = put_next (limiter_at limit skip (length out)) u out

    abbrev flag : Bool
    flag = should_skip_next (limiter_at limit skip (length out))

    is_insert : put_new ≡ insert u flag out
    is_insert = put_next-insert (limiter_at limit skip (length out)) u out

    put_new-IsSorted : IsSorted put_new
    put_new-IsSorted = rw is_insert (insert-IsSorted u flag out g.sorted)

    length-put_new : length put_new ≡ suc (length out)
    length-put_new = ap length is_insert ∙ ground (arith, length-insert u flag out g.sorted)

    unseen : index_of u seen ≡ none
    unseen = elim (Option-cases (index_of u seen)) [
      | inl e ↦ e
      | inr (i, e) ↦ ground (arith, g.holds u, index_of-lt u seen i e, g.room)
    ]

    flag_lem : flag ≡ ltb (length seen) (to_skip skip)
    flag_lem = elim (Option-cases skip) [
      | inl e ↦ ground (arith, g.size)
      | inr (n, e) ↦ ground (arith, g.size)
    ]

    holds-put_new : (t : Tuple X) → get t put_new ≡ placed limit skip (index_of t (seen ++ u ∷ []))
    holds-put_new t =
        let reads : get t put_new ≡ get t (insert u flag out) = ap (get t) is_insert in
        reads ∙ get-insert t u flag out ∙ elim (Bool-cases (eq? t u)) [
          | inl same ↦
              let i : t ≡ u = (list_ord {K = DataValue X}).eq_of_cmp t u (ground arith) in
              let j : index_of t seen ≡ none = ap (λ x. index_of x seen) i ∙ unseen in
              ground (arith, index_of-snoc t u seen, flag_lem, g.room)
          | inr differ ↦ elim (Option-cases (index_of t seen)) [
            | inl e ↦ ground (arith, index_of-snoc t u seen, g.holds t)
            | inr (i, e) ↦ ground (arith, index_of-snoc t u seen, g.holds t)
          ]
        ]

  goes :
      (limit : ℕ) (skip : Option ℕ) (ts seen : List (Tuple X)) (out : RegularTempStore X)
      → Goes limit skip seen out
      → (run : Run X) × (initial_items true (map ok ts) (limiter_at limit skip (length out)) out
          ≡ ok run)
        × Limits limit skip (distinct_onto seen ts) run
  unfolding initial_items Regular.exists distinct_onto
  goes limit skip [] seen out g = (
    _,
    refl,
    record {
      size = refl;
      counts = omega (arith, g.size, g.room);
      stops = ground (arith, g.room);
      holds = g.holds;
    },
  )
  goes limit skip (u ∷ ts) seen out g = elim (Option-cases (get u out)) [
    | inr (w, e) ↦
        let (i, known) = seen_before limit skip u seen out g w e in
        let (run, runs, l) = goes limit skip ts seen out g in (run, ground arith, rw known l)
    | inl e ↦
        let out' = put_new limit skip u seen out g e in
        let size = length-put_new limit skip u seen out g e in
        let longer = length-append seen (u ∷ []) in
        let reads = holds-put_new limit skip u seen out g e in
        let new = unseen limit skip u seen out g e in
        elim (Bool-cases (leb limit (suc (length out)))) [
          | inl f ↦
              let full : max 1 limit ≡ length (seen ++ u ∷ []) =
                ground (arith, longer, g.size, g.room) in
              let more = distinct_onto-length (seen ++ u ∷ []) ts in
              (
                record {
                  limiter = limiter_at limit skip (suc (length out));
                  out = out';
                  stopped = true;
                },
                ground arith,
                rw new (record {
                  size = size;
                  counts = omega (arith, g.size, longer, full, more);
                  stops = ground (arith, full, more);
                  holds = λ t.
                      reads t ∙ sym (late limit skip t ts (seen ++ u ∷ []) (omega (arith, full)));
                }),
              )
          | inr f ↦
              let (run, runs, l) = goes limit skip ts (seen ++ u ∷ []) out' (record {
                sorted = put_new-IsSorted limit skip u seen out g e;
                size = omega (arith, size, longer, g.size);
                room = ground (arith, longer, g.size);
                holds = reads;
              }) in
              let runs' : initial_items true (map ok ts) (limiter_at limit skip (suc (length out)))
                    out'
                  ≡ ok run =
                ap (λ n. initial_items true (map ok ts) (limiter_at limit skip n) out')
                  (omega (arith, size))
                ∙ runs in
              (run, ground arith, rw new l)
        ]
  ]

  -- The loop over the items of an entry rule in the first epoch, none of them an error, with a limit,
  -- no tuple put and none counted: it takes the items that are new in their order and counts each once,
  -- up to the limit, and stops exactly when there are as many as that. The store then has those tuples
  -- and no others, and of these the first ones, as many as are to be skipped, have the flag that says
  -- so. A limit of 0 counts as one of 1.
  pub initial_items-Limits :
      (limit : ℕ) (skip : Option ℕ) (ts : List (Tuple X))
      → (run : Run X) × (initial_items true (map ok ts) (limiter_at limit skip 0) [] ≡ ok run)
        × Limits limit skip (distinct ts) run
  unfolding get index_of
  initial_items-Limits limit skip ts =
      goes limit skip ts [] []
        (record { sorted = tt; size = refl; room = omega arith; holds = λ t. refl })
