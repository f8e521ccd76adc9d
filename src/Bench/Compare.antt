-- ===== src/Bench/Compare.antt =====
-- cmd/golinker-bench/comparison.go: the status of each metric and the result, over the machine's
-- float64. What is printed is left out.
pub mod Regression
use golinker.Base.{Bool, true, false, List, [], ◌∷◌, ◌&&◌, ◌||◌, if◌then◌else◌}
use golinker.Errors.{Result, ok, err, external}
use golinker.Go.Float.{Float64}

-- The metrics of a BenchResult that are compared.
pub record Metrics (F : Type 0) : Type 0 where
  pub p50 : F
  pub p99 : F
  pub p999 : F
  pub messages_per_sec : F
  pub cpu_percent : F
  pub rss_mb : F

pub record Row (F : Type 0) : Type 0 where
  pub base : F
  pub curr : F
  pub higher_bad : Bool

pub data Status : Type 0 where
  pass warn fail : Status

unfoldable pub rows : {F : Type 0} → Metrics F → Metrics F → List (Row F)
rows b c =
    record { base = b.p50; curr = c.p50; higher_bad = true }
    ∷ record { base = b.p99; curr = c.p99; higher_bad = true }
    ∷ record { base = b.p999; curr = c.p999; higher_bad = true }
    ∷ record { base = b.messages_per_sec; curr = c.messages_per_sec; higher_bad = false }
    ∷ record { base = b.cpu_percent; curr = c.cpu_percent; higher_bad = true }
    ∷ record { base = b.rss_mb; curr = c.rss_mb; higher_bad = true }
    ∷ []

abbrev pub is_fail : Status → Bool
is_fail fail = true
is_fail _ = false

module _ {F : Type 0} (fl : Float64 F) where
  abbrev pub is_zero : F → Bool
  is_zero x = fl.eq x (fl.of_nat 0)

  -- `((r.curr - r.base) / r.base) * 100.0`
  abbrev pub percent : Row F → F
  percent r = fl.mul (fl.div (fl.sub r.curr r.base) r.base) (fl.of_nat 100)

  unfoldable pub delta : Row F → F
  delta r = if is_zero r.base then fl.of_nat 0 else percent r

  -- The two comparisons of a change, with `threshold` and with `threshold*0.6`.
  unfoldable pub beyond : Bool → F → F → Bool
  beyond true threshold d = fl.lt threshold (fl.abs d)
  beyond false threshold d = fl.lt d (fl.neg threshold)

  unfoldable pub nearly_beyond : Bool → F → F → Bool
  nearly_beyond true threshold d = fl.lt (fl.mul threshold fl.six_tenths) (fl.abs d)
  nearly_beyond false threshold d = fl.lt d (fl.mul (fl.neg threshold) fl.six_tenths)

  unfoldable pub status : F → Row F → Status
  unfolding delta beyond nearly_beyond
  status threshold r =
      if beyond r.higher_bad threshold (delta r)
      then fail
      else if nearly_beyond r.higher_bad threshold (delta r)
      then warn
      else pass

  -- The loop over the rows, from `hasRegression`.
  unfoldable pub has_regression : F → Bool → List (Row F) → Bool
  unfolding status
  has_regression threshold found [] = found
  has_regression threshold found (r ∷ rs) =
      if is_zero r.base && is_zero r.curr
      then has_regression threshold found rs
      else has_regression threshold (found || is_fail (status threshold r)) rs

  unfoldable pub compare_results : F → Metrics F → Metrics F → Result (Unit {0})
  unfolding rows has_regression
  compare_results threshold b c =
      if has_regression threshold false (rows b c) then err (external 6) else ok tt
