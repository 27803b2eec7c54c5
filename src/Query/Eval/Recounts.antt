-- ===== src/Query/Eval/Recounts.antt =====
-- A limit in a later epoch (retia-core/src/query/eval.rs).
use retia.Prelude.{
  ℕ, zero, suc, ◌+◌, ◌<◌, ◌≡◌, refl, ◌∙◌, true, false, none, List, [], ◌∷◌, map, replicate, leb,
  arith,
}
use retia.Prelude.Order.{Ord, list_ord}
use retia.Prelude.Result.{Result, ok}
use retia.BTreeMap.{insert}
use retia.Data.Value.{Externals, DataValue}
use retia.Runtime.TempStore.Regular.{Tuple, RegularTempStore, put}
use retia.Runtime.TempStore.Epoch
use retia.Runtime.TempStore.Epoch.{EpochStore}
use retia.Query.Eval.Rules.{EvalError}
use retia.Query.Eval.Plain.{incremental_items}
use retia.Query.Eval.Limits.{limiter_at}

module _ {X : Externals} ⦃o : Ord (DataValue X)⦄ where
  put_again : (t : Tuple X) → put t ((t, false) ∷ []) ≡ (t, false) ∷ []
  unfolding put insert
  put_again t = ground (arith, (list_ord {K = DataValue X}).cmp_self t)

  -- One round of the loop that does not reach the limit.
  recount :
      (prev : EpochStore X) (t : Tuple X)
      → Epoch.exists_in t prev.total ≡ ok false
      → (limit counter : ℕ) → suc counter < limit
      → (items : List (Result EvalError (Tuple X))) (out : RegularTempStore X)
      → incremental_items true prev (ok t ∷ items) (limiter_at limit none counter) out
        ≡ incremental_items true prev items (limiter_at limit none (suc counter)) (put t out)
  unfolding incremental_items
  recount prev t h limit counter lt items out =
      let f : leb limit (suc counter) ≡ false = ground arith in rw h (ground arith)

  recount_last :
      (prev : EpochStore X) (t : Tuple X)
      → Epoch.exists_in t prev.total ≡ ok false
      → (counter : ℕ) (items : List (Result EvalError (Tuple X))) (out : RegularTempStore X)
      → incremental_items true prev (ok t ∷ items) (limiter_at (suc counter) none counter) out
        ≡ ok (record {
          limiter = limiter_at (suc counter) none (suc counter);
          out = put t out;
          stopped = true;
        })
  unfolding incremental_items
  recount_last prev t h counter items out =
      let f : leb (suc counter) (suc counter) ≡ true = ground arith in rw h (ground arith)

  recounts :
      (prev : EpochStore X) (t : Tuple X)
      → Epoch.exists_in t prev.total ≡ ok false
      → (limit n counter : ℕ) → suc n + counter ≡ limit
      → (out : RegularTempStore X) → put t out ≡ (t, false) ∷ []
      → incremental_items true prev
          (map ok (replicate (suc n) t))
          (limiter_at limit none counter)
          out
        ≡ ok (record {
          limiter = limiter_at limit none limit;
          out = (t, false) ∷ [];
          stopped = true;
        })
  recounts prev t h limit zero counter k out e =
      let at_limit : limit ≡ suc counter = omega arith in
      rw at_limit (recount_last prev t h counter [] out ∙ rw e refl)
  recounts prev t h limit (suc n) counter k out e =
      recount prev t h limit counter (omega arith) (map ok (replicate (suc n) t)) out
      ∙ rw e (recounts prev t h limit n (suc counter) (omega arith) ((t, false) ∷ []) (put_again t))

  -- A loop over the items of a later epoch that derives one new tuple again and again, with a limit: it
  -- counts every derivation, so that it stops with a single tuple.
  pub incremental_items-recounts :
      (limit : ℕ) (prev : EpochStore X) (t : Tuple X)
      → Epoch.exists_in t prev.total ≡ ok false
      → incremental_items true prev
          (map ok (replicate (suc limit) t))
          (limiter_at (suc limit) none 0)
          []
        ≡ ok (record {
          limiter = limiter_at (suc limit) none (suc limit);
          out = (t, false) ∷ [];
          stopped = true;
        })
  unfolding put insert
  incremental_items-recounts limit prev t h =
      recounts prev t h (suc limit) limit 0 (omega arith) [] refl
