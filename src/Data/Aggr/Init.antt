-- ===== src/Data/Aggr/Init.antt =====
-- Which names have a meet, and what `normal_init` asks of the arguments (retia-core/src/data/aggr.rs).
use retia.Prelude.{ℕ, suc, ◌≡◌, ◌∙◌, refl, Bool, true, false, List, [], ◌∷◌, Option, some, arith}
use retia.Prelude.Order.{Ord}
use retia.Prelude.Result.{Result, ok, err, panic}
use retia.Data.Value.{Externals, DataValue, FloatOps, get_int, pos}
use retia.Data.Aggr.Base.{Error}
use retia.Data.Aggr.Count.{aggr_collect}
use retia.Data.Aggr.Parse.{
  AggrName, is_meet, meet_init, normal_init, collect_limit, NormalObj, normal, collect_aggr,
}

abbrev pub returns {ℓ} : {E : Type 0} {A : Type ℓ} → Result E A → Bool
returns (ok a) = true
returns _ = false

-- The arguments that an aggregation refuses.
abbrev pub accepts : {X : Externals} → FloatOps X.F64 → AggrName → List (DataValue X) → Bool
accepts f collect_aggr (arg ∷ args) = elim (get_int f arg) [ some (pos (suc n)) ↦ true | _ ↦ false ]
accepts f _ args = true

returns-collect :
    (X : Externals) (limit : Result Error (Option ℕ))
    → returns {A = NormalObj X}
        (elim limit [ ok n ↦ ok (normal (aggr_collect n)) | err e ↦ err e | panic ↦ panic ])
      ≡ returns limit
returns-collect X (ok n) = refl
returns-collect X (err e) = refl
returns-collect X panic = refl

module _ {X : Externals} (f : FloatOps X.F64) where
  collect_limit-accepts :
      (args : List (DataValue X)) → returns (collect_limit f args) ≡ accepts f collect_aggr args
  collect_limit-accepts [] = refl
  collect_limit-accepts (arg ∷ args) = ground arith

module _ {X : Externals} (f : FloatOps X.F64) ⦃o : Ord (DataValue X)⦄ where
  normal_init-accepts :
      (draws : ℕ → X.F64) (args : List (DataValue X)) (name : AggrName)
      → returns (normal_init {X = X} f draws args name) ≡ accepts f name args
  unfolding normal_init get_int
  normal_init-accepts draws args collect_aggr =
      returns-collect X (collect_limit f args) ∙ collect_limit-accepts f args
  normal_init-accepts draws args name = refl

  -- `meet_init` gives an object exactly for the names that are a meet, and is unreachable code for the
  -- others; `normal_init` gives one for every name, but for `collect` with a limit that is not positive.
  pub inits_return :
      (draws : ℕ → X.F64) (args : List (DataValue X)) (name : AggrName)
      → (returns (meet_init {X = X} f name) ≡ is_meet name)
        × (returns (normal_init {X = X} f draws args name) ≡ accepts f name args)
  unfolding meet_init
  inits_return draws args name = (ground arith, normal_init-accepts draws args name)
