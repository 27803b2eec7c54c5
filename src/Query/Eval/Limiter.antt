-- ===== src/Query/Eval/Limiter.antt =====
-- `QueryLimiter` (retia-core/src/query/eval.rs). Its counter stops far below 2 ^ 64.
use retia.Prelude.{ℕ, suc, ltb, leb, Bool, false, Option, none, some}

pub record QueryLimiter : Type 0 where
  pub total : Option ℕ
  pub skip : Option ℕ
  pub counter : ℕ

-- The limiter after the call, and whether to stop.
abbrev pub incr_and_should_stop : QueryLimiter → QueryLimiter × Bool
incr_and_should_stop limiter = elim limiter.total [
  | none ↦ (limiter, false)
  | some limit ↦ (record limiter { counter = suc limiter.counter }, leb limit (suc limiter.counter))
]

abbrev pub is_stopped : QueryLimiter → Bool
is_stopped limiter = elim limiter.total [ none ↦ false | some limit ↦ leb limit limiter.counter ]

abbrev pub should_skip_next : QueryLimiter → Bool
should_skip_next limiter = elim limiter.skip [ none ↦ false | some i ↦ ltb limiter.counter i ]
