-- ===== src/Data/Aggr/Float.antt =====
-- `variance`, `std_dev`, `mean`, `sum` and `product` (retia-core/src/data/aggr.rs).
use retia.Prelude.Result.{Result, ok, err}
use retia.Data.Value.{Externals, DataValue, num, float, num_get_float, FloatOps, ℤ, pos}
use retia.Data.Aggr.Base.{Error, wrong_type, NormalAggr}
use retia.Data.Aggr.Count.{i64_succ}

-- The fields of `AggrVariance` and of `AggrStdDev`.
pub record Moments (X : Externals) : Type 0 where
  pub count : ℤ
  pub sum : X.F64
  pub sum_sq : X.F64

-- `AggrMean`
pub record Mean (X : Externals) : Type 0 where
  pub count : ℤ
  pub sum : X.F64

module _ {X : Externals} (f : FloatOps X.F64) where
  abbrev pub no_moments : Moments X
  no_moments = record { count = pos 0; sum = f.of_int (pos 0); sum_sq = f.of_int (pos 0) }

  unfoldable pub variance_set : Moments X → DataValue X → Result Error (Moments X)
  variance_set s (num n) =
      let x = num_get_float f n in
      ok (record {
        count = i64_succ s.count;
        sum = f.add s.sum x;
        sum_sq = f.add s.sum_sq (f.mul x x);
      })
  variance_set s _ = err wrong_type

  -- (sum_sq - sum * sum / ct) / (ct - 1.)
  abbrev pub variance_of : Moments X → X.F64
  variance_of s =
      let ct = f.of_int s.count in
      f.div (f.sub s.sum_sq (f.div (f.mul s.sum s.sum) ct)) (f.sub ct (f.of_int (pos 1)))

  abbrev pub aggr_variance : NormalAggr X (Moments X)
  aggr_variance = record {
    start = no_moments;
    set_value = variance_set;
    get_value = λ s. ok (num (float (variance_of s)));
  }

  unfoldable pub std_dev_set : Moments X → DataValue X → Result Error (Moments X)
  std_dev_set s (num n) =
      let x = num_get_float f n in
      ok (record {
        count = i64_succ s.count;
        sum = f.add s.sum x;
        sum_sq = f.add s.sum_sq (f.mul x x);
      })
  std_dev_set s _ = err wrong_type

  abbrev pub aggr_std_dev : NormalAggr X (Moments X)
  aggr_std_dev = record {
    start = no_moments;
    set_value = std_dev_set;
    get_value = λ s. ok (num (float (f.sqrt (variance_of s))));
  }

  unfoldable pub mean_set : Mean X → DataValue X → Result Error (Mean X)
  mean_set s (num n) =
      ok (record { count = i64_succ s.count; sum = f.add s.sum (num_get_float f n) })
  mean_set s _ = err wrong_type

  abbrev pub aggr_mean : NormalAggr X (Mean X)
  aggr_mean = record {
    start = record { count = pos 0; sum = f.of_int (pos 0) };
    set_value = mean_set;
    get_value = λ s. ok (num (float (f.div s.sum (f.of_int s.count))));
  }

  unfoldable pub sum_set : X.F64 → DataValue X → Result Error X.F64
  sum_set sum (num n) = ok (f.add sum (num_get_float f n))
  sum_set sum _ = err wrong_type

  abbrev pub aggr_sum : NormalAggr X X.F64
  aggr_sum = record {
    start = f.of_int (pos 0);
    set_value = sum_set;
    get_value = λ sum. ok (num (float sum));
  }

  unfoldable pub product_set : X.F64 → DataValue X → Result Error X.F64
  product_set product (num n) = ok (f.mul product (num_get_float f n))
  product_set product _ = err wrong_type

  abbrev pub aggr_product : NormalAggr X X.F64
  aggr_product = record {
    start = f.of_int (pos 1);
    set_value = product_set;
    get_value = λ product. ok (num (float product));
  }
