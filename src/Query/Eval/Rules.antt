-- ===== src/Query/Eval/Rules.antt =====
-- Compiled rules (retia-core/src/query/compile.rs), and what their evaluation takes from the relational
-- operators, from fixed rules and from `Poison`.
use retia.Prelude.{ℕ, Bool, true, false, not, ◌||◌, Option, none, some, List, [], ◌∷◌, length}
use retia.Prelude.Result.{Result, ok, err, panic, ◌>>=◌}
use retia.BTreeMap.{BTreeMap}
use retia.Data.Value.{Externals, DataValue}
use retia.Data.Aggr.Base.{Error}
use retia.Data.Aggr.Parse.{AggrName, is_meet}
use retia.Runtime.TempStore.Regular.{Tuple, RegularTempStore}
use retia.Runtime.TempStore.Epoch.{EpochStore}

pub data EvalError : Type 0 where
  aggregation : Error → EvalError
  no_entry killed in_relation : EvalError

-- `?` on a result of the aggregations or the stores.
abbrev pub lift {ℓ} : {A : Type ℓ} → Result Error A → Result EvalError A
lift (ok a) = ok a
lift (err e) = err (aggregation e)
lift panic = panic

pub data ContainedRuleMultiplicity : Type 0 where
  one many : ContainedRuleMultiplicity

abbrev pub Stores : Externals → Type 0 → Type 0
Stores X S = BTreeMap S (EpochStore X)

-- `iter` yields its items one by one, each of which may be an error. `run_fixed` returns what the fixed
-- rule has put into its store. `check` is what `poison.check()` says while the rules of a name run.
pub record Engine (X : Externals) (S : Type 0) : Type 1 where
  pub RelAlgebra : Type 0
  pub Fixed : Type 0
  pub fixed_arity : Fixed → ℕ
  pub iter :
      RelAlgebra → Option S → Stores X S → Result EvalError (List (Result EvalError (Tuple X)))
  pub run_fixed : Fixed → Stores X S → Result EvalError (RegularTempStore X)
  pub check : S → Result EvalError (Unit {0})
  pub is_prog_entry : S → Bool

module _ {X : Externals} {S : Type 0} where
  pub record CompiledRule (e : Engine X S) : Type 0 where
    pub aggr : List (Option (AggrName × List (DataValue X)))
    pub relation : e.RelAlgebra
    pub contained_rules : BTreeMap S ContainedRuleMultiplicity

  pub data CompiledRuleSet (e : Engine X S) : Type 0 where
    rules : List (CompiledRule e) → CompiledRuleSet e
    fixed : e.Fixed → CompiledRuleSet e

pub data AggrKind : Type 0 where
  none_kind normal_kind meet_kind : AggrKind

abbrev pub kind_of : Bool × Bool → AggrKind
kind_of (false, has_non_meet) = none_kind
kind_of (true, true) = normal_kind
kind_of (true, false) = meet_kind

module _ {V : Type 0} where
  -- `for maybe_aggr in rules[0].aggr.iter()`: `has_aggr` and `has_non_meet`
  abbrev pub look_at_aggrs : List (Option (AggrName × V)) → Bool → Bool → Bool × Bool
  look_at_aggrs [] has_aggr has_non_meet = (has_aggr, has_non_meet)
  look_at_aggrs (none ∷ aggrs) has_aggr has_non_meet =
      look_at_aggrs aggrs has_aggr (has_aggr || has_non_meet)
  look_at_aggrs (some (aggr, args) ∷ aggrs) has_aggr has_non_meet =
      look_at_aggrs aggrs true (has_non_meet || not (is_meet aggr))

module _ {X : Externals} {S : Type 0} {e : Engine X S} where
  -- `rules[0]` panics where there is none.
  abbrev pub first_aggr :
      List (CompiledRule e) → Result EvalError (List (Option (AggrName × List (DataValue X))))
  first_aggr [] = panic
  first_aggr (r ∷ rs) = ok r.aggr

  abbrev pub arity : CompiledRuleSet e → Result EvalError ℕ
  arity (rules rs) = first_aggr rs >>= λ aggr. ok (length aggr)
  arity (fixed f) = ok (e.fixed_arity f)

  abbrev pub aggr_kind : CompiledRuleSet e → Result EvalError AggrKind
  aggr_kind (rules rs) = first_aggr rs >>= λ aggr. ok (kind_of (look_at_aggrs aggr false false))
  aggr_kind (fixed f) = ok none_kind
