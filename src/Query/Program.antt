-- ===== src/Query/Program.antt =====
-- Programs in normal form (retia-core/src/data/program.rs). Positions in the source text are left out.
use retia.Prelude.{Bool, Option, List}
use retia.BTreeMap.{BTreeMap}
use retia.Data.Aggr.Parse.{AggrName}

-- What the atoms and the fixed rules carry and the stratification only passes on.
pub record Parts : Type 1 where
  pub RelationApply : Type 0
  pub Expr : Type 0
  pub Unification : Type 0
  pub HnswSearch : Type 0
  pub FtsSearch : Type 0
  pub LshSearch : Type 0
  pub Value : Type 0
  pub StoredArgs : Type 0
  pub FixedImpl : Type 0

-- A symbol stands for its name.
pub data NormalFormAtom (P : Parts) (S : Type 0) : Type 0 where
  rule : S → List S → NormalFormAtom P S
  relation : P.RelationApply → NormalFormAtom P S
  negated_rule : S → List S → NormalFormAtom P S
  negated_relation : P.RelationApply → NormalFormAtom P S
  predicate : P.Expr → NormalFormAtom P S
  unification : P.Unification → NormalFormAtom P S
  hnsw_search : P.HnswSearch → NormalFormAtom P S
  fts_search : P.FtsSearch → NormalFormAtom P S
  lsh_search : P.LshSearch → NormalFormAtom P S

pub record NormalFormInlineRule (P : Parts) (S : Type 0) : Type 0 where
  pub head : List S
  pub aggr : List (Option (AggrName × List P.Value))
  pub body : List (NormalFormAtom P S)

pub data FixedRuleArg (P : Parts) (S : Type 0) : Type 0 where
  in_mem : S → List S → FixedRuleArg P S
  stored : S → P.StoredArgs → FixedRuleArg P S
  named_stored : S → P.StoredArgs → FixedRuleArg P S

pub record FixedRuleApply (P : Parts) (S : Type 0) : Type 0 where
  pub rule_args : List (FixedRuleArg P S)
  pub fixed_impl : P.FixedImpl

pub data NormalFormRulesOrFixed (P : Parts) (S : Type 0) : Type 0 where
  rules : List (NormalFormInlineRule P S) → NormalFormRulesOrFixed P S
  fixed : FixedRuleApply P S → NormalFormRulesOrFixed P S

pub record NormalFormProgram (P : Parts) (S : Type 0) : Type 0 where
  pub prog : BTreeMap S (NormalFormRulesOrFixed P S)
  pub disable_magic_rewrite : Bool
