-- ===== src/Data/Aggr/Run.antt =====
-- An aggregation over the values of a group (retia-core/src/query/eval.rs and
-- retia-core/src/runtime/temp_store.rs): a normal one is set to each value and then read; a meet keeps
-- the first value and is updated with the others, and without any value it is `init_val`.
use retia.Prelude.{◌≡◌, refl, ap, ◌∙◌, sym, List, [], ◌∷◌, All}
use retia.Prelude.Result.{Result, ok, err, panic, ◌>>=◌, >>=_assoc}
use retia.Data.Value.{Externals, DataValue}
use retia.Data.Aggr.Base.{Error, NormalAggr, MeetAggr}

module _ {X : Externals} where
  unfoldable pub fold_set : {S : Type 0} → NormalAggr X S → S → List (DataValue X) → Result Error S
  fold_set a s [] = ok s
  fold_set a s (v ∷ vs) = a.set_value s v >>= λ s'. fold_set a s' vs

  unfoldable pub normal_result :
      {S : Type 0} → NormalAggr X S → List (DataValue X) → Result Error (DataValue X)
  normal_result a vs = fold_set a a.start vs >>= a.get_value

  unfoldable pub fold_update :
      MeetAggr X → DataValue X → List (DataValue X) → Result Error (DataValue X)
  fold_update m l [] = ok l
  fold_update m l (v ∷ vs) = m.update l v >>= λ r. fold_update m r.0 vs

  unfoldable pub meet_result : MeetAggr X → List (DataValue X) → Result Error (DataValue X)
  meet_result m [] = ok m.init_val
  meet_result m (v ∷ vs) = fold_update m v vs

  -- A state of the normal aggregation as a value of the meet, such that a step of one is a step of the
  -- other, and a good first value is itself what the first step makes of it.
  pub record Simulates {S : Type 0} (m : MeetAggr X) (a : NormalAggr X S) (value : S → DataValue X)
      (IsGood : DataValue X → Type 0) : Type 0 where
    pub starts : value a.start ≡ m.init_val
    pub reads : (s : S) → a.get_value s ≡ ok (value s)
    pub steps :
        (s : S) (v : DataValue X)
        → (m.update (value s) v >>= λ r. ok r.0) ≡ (a.set_value s v >>= λ s'. ok (value s'))
    pub first :
        (v : DataValue X) → IsGood v → (s : S) × (a.set_value a.start v ≡ ok s) × (value s ≡ v)

  step_bind :
      {S B : Type 0} (u : Result Error (DataValue X × B)) (t : Result Error S)
      (value : S → DataValue X) (f : DataValue X → Result Error (DataValue X))
      (g : S → Result Error (DataValue X))
      → (u >>= λ r. ok r.0) ≡ (t >>= λ s'. ok (value s'))
      → ((s : S) → f (value s) ≡ g s)
      → (u >>= λ r. f r.0) ≡ (t >>= g)
  step_bind (ok r) (ok s) value f g e h = let same : r.0 ≡ value s = cc in ap f same ∙ h s
  step_bind (ok r) (err e') value f g e h = cc
  step_bind (ok r) panic value f g e h = cc
  step_bind (err e') (ok s) value f g e h = cc
  step_bind (err e') (err e'') value f g e h = e
  step_bind (err e') panic value f g e h = cc
  step_bind panic (ok s) value f g e h = cc
  step_bind panic (err e') value f g e h = cc
  step_bind panic panic value f g e h = refl

  module _ {S : Type 0} (m : MeetAggr X) (a : NormalAggr X S) (value : S → DataValue X)
      (IsGood : DataValue X → Type 0) (sim : Simulates m a value IsGood) where
    folds_agree :
        (s : S) (vs : List (DataValue X))
        → fold_update m (value s) vs ≡ (fold_set a s vs >>= a.get_value)
    unfolding fold_update fold_set
    folds_agree s [] = sym (sim.reads s)
    folds_agree s (v ∷ vs) =
        step_bind (m.update (value s) v) (a.set_value s v) value (λ l. fold_update m l vs)
          (λ s'. fold_set a s' vs >>= a.get_value) (sim.steps s v) (λ s'. folds_agree s' vs)
        ∙ sym (>>=_assoc (a.set_value s v) (λ s'. fold_set a s' vs) a.get_value)

    pub results_agree :
        (vs : List (DataValue X)) → All IsGood vs → meet_result m vs ≡ normal_result a vs
    unfolding meet_result normal_result fold_set
    results_agree [] g = ap ok (sym sim.starts) ∙ sym (sim.reads a.start)
    results_agree (v ∷ vs) g =
        let (s, sets, same) = sim.first v g.0 in rw (sets, ← same) (folds_agree s vs)
