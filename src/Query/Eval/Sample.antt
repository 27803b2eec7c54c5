-- ===== src/Query/Eval/Sample.antt =====
-- A recursive program for the tests of the evaluation: `p[false]`, and `p[true]` if `p[false]`
-- (retia-core/src/query/eval.rs).
use retia.Prelude.{
  ℕ, ◌≡◌, refl, ap, ◌∙◌, sym, subst, Bool, true, false, ◌&&◌, ◌||◌, ◌⊎◌, Option, Option-cases, none,
  some, is_some, List, [], ◌∷◌, map, All, if◌then◌else◌, arith, Bool-cases, inl, inr,
}
use retia.Prelude.Order.{Ord, list_ord, nat_ord}
use retia.Prelude.Result.{ok, panic}
use retia.BTreeMap.{BTreeMap, get}
use retia.BTreeMap.Laws.{key_cases}
use retia.BTreeSet.{contains}
use retia.Data.Value.{DataValue, bool}
use retia.Data.Value.Sample.{sample}
use retia.Runtime.TempStore.Regular.{Tuple}
use retia.Runtime.TempStore.Epoch.{new_normal, has_delta}
use retia.Query.Eval.Rules.{Stores, Engine, one, CompiledRule, CompiledRuleSet, rules, aggr_kind}
use retia.Query.Eval.View.{
  in_total, in_delta, has_news, Rows, Reads, derived, Keeps, IsPlain, Starts, Stored,
}
use retia.Query.Eval.Takes.{no_delta}

abbrev pub no : Tuple sample
no = bool false ∷ []

abbrev pub yes : Tuple sample
yes = bool true ∷ []

module _ ⦃o : Ord (DataValue sample)⦄ where
  -- The relation `true` reads the name 0.
  abbrev pub rows_of : Bool → Option ℕ → Stores sample ℕ → List (Tuple sample)
  rows_of false delta stores = no ∷ []
  rows_of true none stores = if in_total (get 0 stores) no then yes ∷ [] else []
  rows_of true (some k) stores = if in_delta (get 0 stores) no then yes ∷ [] else []

  abbrev pub engine : Engine sample ℕ
  engine = record {
    RelAlgebra = Bool;
    Fixed = Unit {0};
    fixed_arity = λ x. 0;
    iter = λ rel delta stores. ok (map ok (rows_of rel delta stores));
    run_fixed = λ x stores. panic;
    check = λ k. ok tt;
    is_prog_entry = λ k. false;
  }

  abbrev pub base : CompiledRule engine
  base = record { aggr = none ∷ []; relation = false; contained_rules = [] }

  abbrev pub step : CompiledRule engine
  step = record { aggr = none ∷ []; relation = true; contained_rules = (0, one) ∷ [] }

  abbrev pub program : BTreeMap ℕ (CompiledRuleSet engine)
  program = (0, rules (base ∷ step ∷ [])) ∷ []

  abbrev pub start : Stores sample ℕ
  start = (0, new_normal sample 1) ∷ []

  abbrev pub program_rows : Rows engine
  program_rows = record { rows = rows_of; checks = λ k. refl }

  pub only :
      (k : ℕ) (set : CompiledRuleSet engine)
      → get k program ≡ some set
      → (k ≡ 0) × (set ≡ rules (base ∷ step ∷ []))
  only k set h = elim (key_cases k 0 (rules (base ∷ step ∷ [])) []) [
    | inl (i, g) ↦ (i, cc)
    | inr (d, g) ↦ absurd (unfold get in cc)
  ]

  pub base-Reads :
      (prog : BTreeMap ℕ (CompiledRuleSet engine)) (begin : Stores sample ℕ)
      → Reads program_rows prog begin base
  unfolding get
  base-Reads prog begin = record {
    finds = λ stores state. refl;
    finds_by_delta = λ stores k state h. refl;
    sound = λ stores k t state h c. c;
    split = λ stores stores' t state state' grows once c. inl c;
  }

  pub contains-if :
      (t : Tuple sample) (b : Bool)
      → contains t (if b then yes ∷ [] else []) ≡ (b && contains t (yes ∷ []))
  unfolding contains
  contains-if t true = refl
  contains-if t false = refl

  news_of_delta :
      (stores : Stores sample ℕ) (t : Tuple sample)
      → in_delta (get 0 stores) t ≡ true
      → has_news (get 0 stores) ≡ true
  news_of_delta stores t h = elim (Option-cases (get 0 stores)) [
    | inl i ↦ absurd (cc (ap (λ x. in_delta x t) i))
    | inr (store, i) ↦ elim (Bool-cases (has_delta store)) [
      | inl n ↦ ap has_news i ∙ n
      | inr q ↦
          let quiet : in_delta (get 0 stores) t ≡ false =
            ap (λ x. in_delta x t) i ∙ no_delta store q t in
          absurd (cc)
    ]
  ]

  -- The delta is what `no` is in, where it was not in the store before.
  step_split :
      (stores stores' : Stores sample ℕ) (t : Tuple sample)
      → in_total (get 0 stores') no ≡ (in_total (get 0 stores) no || in_delta (get 0 stores') no)
      → contains t (rows_of true none stores') ≡ true
      → (contains t (rows_of true none stores) ≡ true)
        ⊎ ((k : ℕ) × (is_some (get k step.contained_rules) ≡ true)
            × (has_news (get k stores') ≡ true)
            × (contains t (rows_of true (some k) stores') ≡ true))
  step_split stores stores' t adds c =
      let c' = contains-if t (in_total (get 0 stores') no) in
      elim (Bool-cases (in_total (get 0 stores) no)) [
        | inl old ↦ inl (ground (arith, contains-if t (in_total (get 0 stores) no)))
        | inr new ↦
            let delta : in_delta (get 0 stores') no ≡ true = ground arith in
            inr (
              0,
              unfold get nat_ord in refl,
              news_of_delta stores' no delta,
              ground (arith, contains-if t (in_delta (get 0 stores') no)),
            )
      ]

  pub step-Reads :
      (prog : BTreeMap ℕ (CompiledRuleSet engine)) (begin : Stores sample ℕ)
      → Reads program_rows prog begin step
  step-Reads prog begin = record {
    finds = λ stores state. refl;
    finds_by_delta = λ stores k state h. refl;
    sound = λ stores k t state h c. ground (
      arith,
      contains-if t (in_total (get 0 stores) no),
      contains-if t (in_delta (get 0 stores) no),
      state.held 0 no,
    );
    split = λ stores stores' t state state' grows once c. elim (Option-cases (get 0 prog)) [
      | inl i ↦
          let same : in_total (get 0 stores') no ≡ in_total (get 0 stores) no =
            ap (λ x. in_total x no) (grows.agrees 0 i) in
          inl (ap (λ b. contains t (if b then yes ∷ [] else [])) (sym same) ∙ c)
      | inr (set, i) ↦ step_split stores stores' t (grows.adds 0 no (ap is_some i)) c
    ];
  }

  pub program-IsPlain : IsPlain program_rows program start
  program-IsPlain = record {
    sorted = (tt, tt);
    plain = λ k set h. let (i, same) = only k set h in (base ∷ step ∷ [], same, ap aggr_kind same);
    reads = λ k rule_set h.
        let (i, same) = only k (rules rule_set) h in
        let i : base ∷ step ∷ [] ≡ rule_set = cc same in
        subst (All (Reads program_rows program start)) i
          (base-Reads program start, (step-Reads program start, tt));
  }

  is_some-start : (k : ℕ) → is_some (get k program) ≡ is_some (get k start)
  unfolding get
  is_some-start k = ground arith

  start-Stored :
      (j : ℕ) → is_some (get j step.contained_rules) ≡ true → is_some (get j start) ≡ true
  unfolding get
  start-Stored j h = ground arith

  base-Stored : (j : ℕ) → is_some (get j base.contained_rules) ≡ true → is_some (get j start) ≡ true
  unfolding get
  base-Stored j h = absurd (cc)

  pub start-Starts : Starts program start
  unfolding get nat_ord
  start-Starts = record {
    new = λ k h. elim (Option-cases (get k program)) [
      | inl i ↦ absurd (cc (ap is_some i))
      | inr (set, i) ↦ let (at_zero, same) = only k set i in (1, ap (λ x. get x start) at_zero)
    ];
    settled = λ k h. elim (Option-cases (get k start)) [
      | inl i ↦ ap has_news i
      | inr (store, i) ↦
          let there : is_some (get k start) ≡ true = ap is_some i in
          let missing : is_some (get k program) ≡ false = ap is_some h in
          let same : is_some (get k program) ≡ is_some (get k start) = is_some-start k in
          absurd (cc)
    ];
    stored = λ k rule_set h.
        let (at_zero, same) = only k (rules rule_set) h in
        let i : base ∷ step ∷ [] ≡ rule_set = cc same in
        subst (All (Stored start)) i (base-Stored, (start-Stored, tt));
  }

  pub in_two :
      (begin : Stores sample ℕ)
      → Keeps program_rows program begin (λ k t. contains t (no ∷ yes ∷ []) ≡ true)
  unfolding derived contains
  in_two begin stores state held k rule_set t h d =
      let (i, same) = only k (rules rule_set) h in
      let i : rule_set ≡ base ∷ step ∷ [] = cc same in
      let d' : derived program_rows (base ∷ step ∷ []) stores t ≡ true =
        ap (λ x. derived program_rows x stores t) (sym i) ∙ d in
      ground (arith, contains-if t (in_total (get 0 stores) no))
