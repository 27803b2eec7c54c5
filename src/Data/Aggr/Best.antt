-- ===== src/Data/Aggr/Best.antt =====
-- `latest_by` and `min_cost` (retia-core/src/data/aggr.rs) return the best of their pairs.
use retia.Prelude.{◌≡◌, refl, Bool, true, false, List, [], ◌∷◌, map, All, arith}
use retia.Prelude.Order.{Ord, lt?}
use retia.Prelude.Result.{ok}
use retia.Data.Value.{
  Externals, DataValue, null, list, cons, nil, num, float, Num, num_get_float, FloatOps,
}
use retia.Data.Aggr.Cost.{latest_by_set, min_cost_set, aggr_latest_by, aggr_min_cost}
use retia.Data.Aggr.Run.{fold_set, normal_result}
use retia.Data.Aggr.Flags.{IsIrreflexive}
use retia.Data.Aggr.Least.{
  IsTransitive, Occurs, pick, pick-Occurs, pick_least, FirstBest, pick-FirstBest,
}

abbrev pub pair_of : {X : Externals} → DataValue X × DataValue X → DataValue X
pair_of p = list (cons p.0 (cons p.1 nil))

module _ {X : Externals} ⦃o : Ord (DataValue X)⦄ where
  abbrev pub is_later : DataValue X × DataValue X → DataValue X × DataValue X → Bool
  is_later a b = lt? b.1 a.1

  latest_run :
      (m : DataValue X × DataValue X) (ps : List (DataValue X × DataValue X))
      → fold_set aggr_latest_by (record { found = m.0; cost = m.1 }) (map pair_of ps)
        ≡ ok (record { found = (pick is_later m ps).0; cost = (pick is_later m ps).1 })
  unfolding fold_set latest_by_set pick
  latest_run m [] = refl
  latest_run m (p ∷ ps) = ground (arith, latest_run m ps, latest_run p ps)

  later_trans :
      (p q r : DataValue X × DataValue X)
      → is_later p q ≡ true
      → is_later q r ≡ true
      → is_later p r ≡ true
  later_trans p q r h k = ground (arith, o.lt_trans r.1 q.1 p.1)

  later_than_more :
      (p m q : DataValue X × DataValue X)
      → is_later p m ≡ true
      → is_later q m ≡ false
      → is_later p q ≡ true
  later_than_more p m q h k =
      ground (arith, o.lt_of_gt m.1 q.1, o.eq_of_cmp m.1 q.1, o.lt_trans q.1 m.1 p.1)

  -- `latest_by` of pairs returns the first item of the pair `best`. Either that is two nulls, and no
  -- pair has a second item greater than null; or it is one of the pairs, with a second item greater
  -- than null and than those of all pairs before it, and no pair after it has a greater one.
  pub latest_by-FirstBest :
      (ps : List (DataValue X × DataValue X))
      → (best : DataValue X × DataValue X) × (normal_result aggr_latest_by (map pair_of ps)
          ≡ ok best.0)
        × FirstBest is_later (null, null) ps best
  unfolding normal_result
  latest_by-FirstBest ps = (
    pick is_later (null, null) ps,
    rw (latest_run (null, null) ps),
    pick-FirstBest is_later later_trans later_than_more (null, null) ps,
  )

module _ {X : Externals} (f : FloatOps X.F64) where
  abbrev pub is_cheaper : DataValue X × X.F64 → DataValue X × X.F64 → Bool
  is_cheaper a b = f.lt_float a.1 b.1

  -- A pair with a number, and the pair that is compared.
  abbrev pub priced : DataValue X × Num X → DataValue X
  priced p = list (cons p.0 (cons (num p.1) nil))

  abbrev pub price_of : DataValue X × Num X → DataValue X × X.F64
  price_of p = (p.0, num_get_float f p.1)

  min_cost_run :
      (m : DataValue X × X.F64) (ps : List (DataValue X × Num X))
      → fold_set (aggr_min_cost f) (record { found = m.0; cost = m.1 }) (map priced ps)
        ≡ ok (record {
          found = (pick is_cheaper m (map price_of ps)).0;
          cost = (pick is_cheaper m (map price_of ps)).1;
        })
  unfolding fold_set min_cost_set pick
  min_cost_run m [] = refl
  min_cost_run m (p ∷ ps) = ground (arith, min_cost_run m ps, min_cost_run (price_of p) ps)

  -- `min_cost` of pairs of a value and a number returns a pair with a cost that none is below, or null
  -- with the infinite cost where no cost is below that. No float is less than itself, and the order of
  -- floats is transitive.
  pub min_cost-Occurs :
      (ps : List (DataValue X × Num X))
      → IsIrreflexive f
      → IsTransitive f
      → (best : DataValue X × X.F64) × (normal_result (aggr_min_cost f) (map priced ps)
          ≡ ok (list (cons best.0 (cons (num (float best.1)) nil))))
        × Occurs best ((null, f.infinity) ∷ map price_of ps)
        × All (λ p. f.lt_float p.1 best.1 ≡ false) ((null, f.infinity) ∷ map price_of ps)
  unfolding normal_result
  min_cost-Occurs ps irreflexive transitive =
      let start : DataValue X × X.F64 = (null, f.infinity) in
      (
        pick is_cheaper start (map price_of ps),
        rw (min_cost_run start ps),
        pick-Occurs is_cheaper start (map price_of ps),
        pick_least is_cheaper (λ p. irreflexive p.1) (λ p q r. transitive p.1 q.1 r.1) start
            (map price_of ps),
      )
