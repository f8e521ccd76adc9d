-- ===== src/Bench/Compare/Regression.antt =====
-- cmd/golinker-bench/comparison.go: when a regression is reported.
use golinker.Base.{◌≡◌, ◌⊎◌, true, false}
use golinker.Bench.Compare.{Row, is_zero, percent, beyond}
use golinker.Go.Float.{Float64}

module _ {F : Type 0} (fl : Float64 F) (threshold : F) where
  -- No change is not beyond the threshold: it is not negative.
  pub record IsThreshold : Type 0 where
    pub above : fl.lt threshold (fl.abs (fl.of_nat 0)) ≡ false
    pub below : fl.lt (fl.of_nat 0) (fl.neg threshold) ≡ false

  -- A metric whose base is 0, or whose change in percent is within the threshold: a decrease for
  -- throughput, a change in either direction for the others.
  abbrev pub IsWithin : Row F → Type 0
  IsWithin r =
      (is_zero fl r.base ≡ true) ⊎ (beyond fl r.higher_bad threshold (percent fl r) ≡ false)
