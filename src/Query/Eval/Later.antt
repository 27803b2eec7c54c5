-- ===== src/Query/Eval/Later.antt =====
-- What `QueryLimiter` does to the results of the entry rules in a later epoch
-- (retia-core/src/query/eval.rs).
use retia.Prelude.{
  ℕ, suc, ◌+◌, ◌-◌, ◌≡◌, refl, ap, ◌∙◌, Bool, true, false, Option, List, [], ◌∷◌, length, map, take,
  ltb, leb, min, if◌then◌else◌, arith, Bool-cases, Option-cases, inl, inr,
}
use Prim.Native.Nat.{max}
use retia.Prelude.Order.{Ord, list_ord}
use retia.Prelude.Result.{Result, ok}
use retia.BTreeMap.{insert}
use retia.Data.Value.{Externals, DataValue}
use retia.Runtime.TempStore.Regular
use retia.Runtime.TempStore.Regular.{Tuple, RegularTempStore, put, put_with_skip}
use retia.Runtime.TempStore.Epoch
use retia.Runtime.TempStore.Epoch.{EpochStore, normal}
use retia.Query.Eval.Limiter.{should_skip_next}
use retia.Query.Eval.Items.{put_next-insert}
use retia.Query.Eval.Rules.{EvalError}
use retia.Query.Eval.Plain.{Run, put_next, incremental_items}
use retia.Query.Eval.Distinct.{to_skip}
use retia.Query.Eval.Limits.{limiter_at}

module _ {X : Externals} ⦃o : Ord (DataValue X)⦄ where
  -- The items that the store does not have, each as often as it comes.
  unfoldable pub new_items : RegularTempStore X → List (Tuple X) → List (Tuple X)
  unfolding Regular.exists
  new_items total [] = []
  new_items total (t ∷ ts) =
      let rest = new_items total ts in if Regular.exists t total then rest else t ∷ rest

  -- Tuples put into a store, the first with the number `i`, and flagged below what is to be skipped.
  unfoldable pub put_from : Option ℕ → ℕ → List (Tuple X) → RegularTempStore X → RegularTempStore X
  put_from skip i [] out = out
  put_from skip i (t ∷ ts) out = put_from skip (suc i) ts (insert t (ltb i (to_skip skip)) out)

  -- The end of a loop that has room for that many of the new items.
  abbrev pub takes : ℕ → Option ℕ → ℕ → ℕ → List (Tuple X) → RegularTempStore X → Run X
  takes limit skip counter room news out = record {
    limiter = limiter_at limit skip (counter + min (length news) room);
    out = put_from skip counter (take room news) out;
    stopped = leb room (length news);
  }

  takes_cons :
      (limit : ℕ) (skip : Option ℕ) (counter room : ℕ) (u : Tuple X) (news : List (Tuple X))
      (out : RegularTempStore X)
      → takes limit skip (suc counter) (suc room) news (insert u (ltb counter (to_skip skip)) out)
        ≡ takes limit skip counter (suc (suc room)) (u ∷ news) out
  unfolding put_from
  takes_cons limit skip counter room u news out = ground arith

  put_next_lem :
      (limit : ℕ) (skip : Option ℕ) (counter : ℕ) (t : Tuple X) (out : RegularTempStore X)
      → put_next (limiter_at limit skip counter) t out ≡ insert t (ltb counter (to_skip skip)) out
  put_next_lem limit skip counter t out =
      let flag : should_skip_next (limiter_at limit skip counter) ≡ ltb counter (to_skip skip) =
        elim (Option-cases skip) [ inl e ↦ ground arith | inr (n, e) ↦ ground arith ] in
      put_next-insert (limiter_at limit skip counter) t out ∙ ap (λ b. insert t b out) flag

  -- One round of the loop.
  module _ (prev : EpochStore X) (u : Tuple X) (limit : ℕ) (skip : Option ℕ) (counter : ℕ)
      (items : List (Result EvalError (Tuple X))) (out : RegularTempStore X) where
    known_item :
        Epoch.exists_in u prev.total ≡ ok true
        → incremental_items true prev (ok u ∷ items) (limiter_at limit skip counter) out
          ≡ incremental_items true prev items (limiter_at limit skip counter) out
    unfolding incremental_items
    known_item h = rw h refl

    last_item :
        Epoch.exists_in u prev.total ≡ ok false
        → leb limit (suc counter) ≡ true
        → incremental_items true prev (ok u ∷ items) (limiter_at limit skip counter) out
          ≡ ok (record {
            limiter = limiter_at limit skip (suc counter);
            out = insert u (ltb counter (to_skip skip)) out;
            stopped = true;
          })
    unfolding incremental_items
    last_item h full = rw h (ground (arith, put_next_lem limit skip counter u out))

    next_item :
        Epoch.exists_in u prev.total ≡ ok false
        → leb limit (suc counter) ≡ false
        → incremental_items true prev (ok u ∷ items) (limiter_at limit skip counter) out
          ≡ incremental_items true prev items
              (limiter_at limit skip (suc counter))
              (insert u (ltb counter (to_skip skip)) out)
    unfolding incremental_items
    next_item h less =
        let step : incremental_items true prev (ok u ∷ items) (limiter_at limit skip counter) out
            ≡ incremental_items true prev items (limiter_at limit skip (suc counter))
                (put_next (limiter_at limit skip counter) u out) =
          rw h (ground arith) in
        step
        ∙ ap (incremental_items true prev items (limiter_at limit skip (suc counter)))
            (put_next_lem limit skip counter u out)

  is_new :
      (prev : EpochStore X) (total : RegularTempStore X) (u : Tuple X) (b : Bool)
      → prev.total ≡ normal total
      → Regular.exists u total ≡ b
      → Epoch.exists_in u prev.total ≡ ok b
  unfolding Epoch.exists_in
  is_new prev total u b is e = ap (Epoch.exists_in u) is ∙ ap ok e

  goes :
      (prev : EpochStore X) (total : RegularTempStore X)
      → prev.total ≡ normal total
      → (limit : ℕ) (skip : Option ℕ) (ts : List (Tuple X)) (counter room : ℕ)
        (out : RegularTempStore X)
      → suc room ≡ max 1 (limit - counter)
      → incremental_items true prev (map ok ts) (limiter_at limit skip counter) out
        ≡ ok (takes limit skip counter (suc room) (new_items total ts) out)
  unfolding new_items put_from
  goes prev total is limit skip [] counter room out e = unfold incremental_items in ground arith
  goes prev total is limit skip (u ∷ ts) counter room out e =
      elim (Bool-cases (Regular.exists u total)) [
        | inl old ↦
            known_item prev u limit skip counter (map ok ts) out (is_new prev total u true is old)
            ∙ goes prev total is limit skip ts counter room out e
            ∙ rw old refl
        | inr new ↦
            let h = is_new prev total u false is new in
            let out' = insert u (ltb counter (to_skip skip)) out in
            elim (Bool-cases (leb limit (suc counter))) [
              | inl full ↦
                  let none_left : room ≡ 0 = ground arith in
                  last_item prev u limit skip counter (map ok ts) out h full
                  ∙ rw (new, none_left) (ground arith)
              | inr less ↦
                  let left : suc (room - 1) ≡ room = ground arith in
                  let news = new_items total ts in
                  next_item prev u limit skip counter (map ok ts) out h less
                  ∙ goes prev total is limit skip ts (suc counter) (room - 1) out' (ground arith)
                  ∙ ap ok (takes_cons limit skip counter (room - 1) u news out)
                  ∙ ap (λ r. ok (takes limit skip counter (suc r) (u ∷ news) out)) left
                  ∙ rw new refl
            ]
      ]

  -- The loop over the items of an entry rule in a later epoch, none of them an error, where the store of
  -- the rule is a regular one, with a limit, of which a part may have been counted before: of the items that the store of the
  -- rule does not have it takes as many as the limit leaves room for, but one also where it leaves none,
  -- in their order and each as often as it comes. It counts them, puts them with the skip flag while the
  -- count is below what is to be skipped, and stops exactly when there are that many.
  pub incremental_items-takes :
      (prev : EpochStore X) (total : RegularTempStore X)
      → prev.total ≡ normal total
      → (limit : ℕ) (skip : Option ℕ) (counter : ℕ) (ts : List (Tuple X)) (out : RegularTempStore X)
      → incremental_items true prev (map ok ts) (limiter_at limit skip counter) out
        ≡ ok (takes limit skip counter (max 1 (limit - counter)) (new_items total ts) out)
  incremental_items-takes prev total is limit skip counter ts out =
      let e : suc (max 1 (limit - counter) - 1) ≡ max 1 (limit - counter) = omega arith in
      goes prev total is limit skip ts counter (max 1 (limit - counter) - 1) out e
      ∙ ap (λ r. ok (takes limit skip counter r (new_items total ts) out)) e
