-- ===== src/Data/Aggr/Flags.antt =====
-- The flag of `MeetAggrObj::update` (retia-core/src/data/aggr.rs), which `MeetAggrStore` reads as "the
-- left value has changed".
use retia.Prelude.{◌≡◌, ◌↔◌, refl, Bool, true, false, not, ◌&&◌, ◌||◌, arith, if◌then◌else◌}
use retia.Prelude.Result.{Result, ok, err, panic}
use retia.Data.Value.{
  Externals, DataValue, bool, num, FloatOps, list, Values, nil, cons, num_get_float, Num,
}
use retia.Data.Aggr.Base.{Error}
use retia.Data.Aggr.Logic.{meet_and_update, meet_or_update}
use retia.Data.Aggr.Count.{meet_choice_update}
use retia.Data.Aggr.Extreme.{meet_min_update, meet_max_update}
use retia.Data.Aggr.Cost.{meet_shortest_update, meet_min_cost_update}

module _ {X : Externals} where
  -- The flags of `and` and `or` are inverted: on two booleans each update succeeds and reports `true`
  -- exactly where the left value stays as it was.
  pub and_or_flags_inverted :
      (a b : Bool)
      → (flag_and flag_or : Bool) × (meet_and_update {X = X} (bool a) (bool b)
          ≡ ok (bool (a && b), flag_and))
        × (meet_or_update {X = X} (bool a) (bool b) ≡ ok (bool (a || b), flag_or))
        × ((flag_and ≡ true) ↔ ((a && b) ≡ a))
        × ((flag_or ≡ true) ↔ ((a || b) ≡ a))
  unfolding meet_and_update meet_or_update
  and_or_flags_inverted true true =
      (true, true, refl, refl, (λ h. refl, λ h. refl), (λ h. refl, λ h. refl))
  and_or_flags_inverted true false =
      (false, true, refl, refl, (λ h. cc, λ h. cc), (λ h. refl, λ h. refl))
  and_or_flags_inverted false true =
      (true, false, refl, refl, (λ h. refl, λ h. refl), (λ h. cc, λ h. cc))
  and_or_flags_inverted false false =
      (true, true, refl, refl, (λ h. refl, λ h. refl), (λ h. refl, λ h. refl))

  -- The result of an update of `l` by `r`, if it succeeds, is the value that the flag tells.
  abbrev pub Picks : DataValue X → DataValue X → Result Error (DataValue X × Bool) → Type 0
  Picks l r (ok (l', flag)) = l' ≡ (if flag then r else l)
  Picks l r _ = Unit

  picks :
      (l r : DataValue X) (u : Result Error (DataValue X × Bool))
      → ((l' : DataValue X) (flag : Bool) → u ≡ ok (l', flag) → l' ≡ (if flag then r else l))
      → Picks l r u
  picks l r (ok (l', flag)) h = h l' flag refl
  picks l r (err e) h = tt
  picks l r panic h = tt

  choice_picks :
      (l r l' : DataValue X) (flag : Bool)
      → meet_choice_update l r ≡ ok (l', flag)
      → l' ≡ (if flag then r else l)
  unfolding meet_choice_update
  choice_picks l r l' flag h = ground arith

  shortest_picks :
      (l r l' : DataValue X) (flag : Bool)
      → meet_shortest_update l r ≡ ok (l', flag)
      → l' ≡ (if flag then r else l)
  unfolding meet_shortest_update
  shortest_picks l r l' flag h = ground arith

module _ {X : Externals} (f : FloatOps X.F64) where
  min_picks :
      (l r l' : DataValue X) (flag : Bool)
      → meet_min_update f l r ≡ ok (l', flag)
      → l' ≡ (if flag then r else l)
  unfolding meet_min_update
  min_picks l r l' flag h = ground arith

  max_picks :
      (l r l' : DataValue X) (flag : Bool)
      → meet_max_update f l r ≡ ok (l', flag)
      → l' ≡ (if flag then r else l)
  unfolding meet_max_update
  max_picks l r l' flag h = ground arith

  min_cost_picks :
      (l r l' : DataValue X) (flag : Bool)
      → meet_min_cost_update f l r ≡ ok (l', flag)
      → l' ≡ (if flag then r else l)
  unfolding meet_min_cost_update
  min_cost_picks l r l' flag h = ground arith

module _ {X : Externals} where
  -- What a successful update by `choice`, and by `shortest` of a list, leaves is kept by the same update
  -- again, which reports no change.
  pub choice_shortest_settle :
      (l r l' m m' : DataValue X) (vs : Values X) (flag flag' : Bool)
      → meet_choice_update l r ≡ ok (l', flag)
      → meet_shortest_update m (list vs) ≡ ok (m', flag')
      → (meet_choice_update l' r ≡ ok (l', false))
        × (meet_shortest_update m' (list vs) ≡ ok (m', false))
  unfolding meet_choice_update meet_shortest_update
  choice_shortest_settle l r l' m m' vs flag flag' h k = (ground arith, ground arith)

-- No float is less than itself, NaN among them.
abbrev pub IsIrreflexive : {F : Type 0} → FloatOps F → Type 0
IsIrreflexive {F} f = (x : F) → f.lt_float x x ≡ false

module _ {X : Externals} (f : FloatOps X.F64) (irreflexive : IsIrreflexive f) where
  min_settles :
      (l l' : DataValue X) (n : Num X) (flag : Bool)
      → meet_min_update f l (num n) ≡ ok (l', flag)
      → meet_min_update f l' (num n) ≡ ok (l', false)
  unfolding meet_min_update
  min_settles l l' n flag h = ground (arith, irreflexive (num_get_float f n))

  max_settles :
      (l l' : DataValue X) (n : Num X) (flag : Bool)
      → meet_max_update f l (num n) ≡ ok (l', flag)
      → meet_max_update f l' (num n) ≡ ok (l', false)
  unfolding meet_max_update
  max_settles l l' n flag h = ground (arith, irreflexive (num_get_float f n))

  -- What a successful update by `min` or `max` with a number leaves is kept by the same update again,
  -- which reports no change.
  pub min_max_settle :
      (l l' m m' : DataValue X) (n : Num X) (flag flag' : Bool)
      → meet_min_update f l (num n) ≡ ok (l', flag)
      → meet_max_update f m (num n) ≡ ok (m', flag')
      → (meet_min_update f l' (num n) ≡ ok (l', false))
        × (meet_max_update f m' (num n) ≡ ok (m', false))
  min_max_settle l l' m m' n flag flag' h k =
      (min_settles l l' n flag h, max_settles m m' n flag' k)

module _ {X : Externals} (f : FloatOps X.F64) (irreflexive : IsIrreflexive f) where
  -- An update of a value by itself succeeds and keeps it: by `min` and `max` a number, by `choice` any
  -- value, by `shortest` a list, by `min_cost` a pair of a value and a number. None reports a
  -- change but `min_cost`, which does exactly where the cost is not below or equal to itself, as NaN is
  -- not. No float is less than itself.
  pub meet_self :
      (v : DataValue X) (n : Num X) (vs : Values X)
      → (meet_min_update f (num n) (num n) ≡ ok (num n, false))
        × (meet_max_update f (num n) (num n) ≡ ok (num n, false))
        × (meet_choice_update v v ≡ ok (v, false))
        × (meet_shortest_update (list vs) (list vs) ≡ ok (list vs, false))
        × (meet_min_cost_update f
              (list (cons v (cons (num n) nil)))
              (list (cons v (cons (num n) nil)))
            ≡ ok (
              list (cons v (cons (num n) nil)),
              not (f.le_float (num_get_float f n) (num_get_float f n)),
            ))
  unfolding meet_min_update meet_max_update meet_choice_update meet_shortest_update
      meet_min_cost_update
  meet_self v n vs = (
    ground (arith, irreflexive (num_get_float f n)),
    ground (arith, irreflexive (num_get_float f n)),
    ground arith,
    ground arith,
    ground arith,
  )

module _ {X : Externals} (f : FloatOps X.F64) where
  -- An update by `choice`, `shortest`, `min`, `max` or `min_cost` that succeeds either keeps the left
  -- value and reports no change, or puts the right value in its place and reports a change.
  pub meet_update-Picks :
      (l r : DataValue X)
      → Picks l r (meet_choice_update l r)
        × Picks l r (meet_shortest_update l r)
        × Picks l r (meet_min_update f l r)
        × Picks l r (meet_max_update f l r)
        × Picks l r (meet_min_cost_update f l r)
  meet_update-Picks l r = (
    picks l r _ (choice_picks l r),
    picks l r _ (shortest_picks l r),
    picks l r _ (min_picks f l r),
    picks l r _ (max_picks f l r),
    picks l r _ (min_cost_picks f l r),
  )
