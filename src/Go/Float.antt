-- ===== src/Go/Float.antt =====
-- Go's float64: the operations of IEEE 754 that the program uses, as the machine has them, on a type
-- `F` that is a parameter.
use golinker.Base.{ℕ, suc, ◌≤◌, ◌^◌, ◌≡◌, Bool, true, false, ltb, leb}
use golinker.Go.Int.{ℤ, pos, negsuc}

pub record Float64 (F : Type 0) : Type 0 where
  pub of_nat : ℕ → F
  pub add : F → F → F
  pub sub : F → F → F
  pub mul : F → F → F
  pub div : F → F → F
  pub abs : F → F
  pub neg : F → F
  pub lt : F → F → Bool
  pub le : F → F → Bool
  pub eq : F → F → Bool
  -- The constant 0.6.
  pub six_tenths : F
  -- `time.Duration(x)` as a time to sleep: 0 where it is negative.
  pub trunc : F → ℕ

-- `float64(n)` of an int.
abbrev pub of_int : {F : Type 0} → Float64 F → ℤ → F
of_int fl (pos n) = fl.of_nat n
of_int fl (negsuc n) = fl.neg (fl.of_nat (suc n))

-- What IEEE 754 says of the operations, with a result that is not a number neither below nor above
-- another, and what the documentation of `Seconds` says of a duration that is not negative.
pub record FloatLaws {F : Type 0} (fl : Float64 F) (seconds : ℕ → F) : Type 0 where
  pub lt_irreflexive : (x : F) → fl.lt x x ≡ false
  -- Integers of at most 53 bits are exact.
  pub lt_exact : (m n : ℕ) → m ≤ 2 ^ 53 → n ≤ 2 ^ 53 → fl.lt (fl.of_nat m) (fl.of_nat n) ≡ ltb m n
  pub le_exact : (m n : ℕ) → m ≤ 2 ^ 53 → n ≤ 2 ^ 53 → fl.le (fl.of_nat m) (fl.of_nat n) ≡ leb m n
  pub sub_exact : (n : ℕ) → suc n ≤ 2 ^ 53 → fl.sub (fl.of_nat (suc n)) (fl.of_nat 1) ≡ fl.of_nat n
  -- Rounding is monotonic.
  pub sub_below : (x y : F) → fl.lt x y ≡ false → fl.lt x (fl.sub y (fl.of_nat 1)) ≡ false
  pub sub_above :
      (x : F) → fl.le (fl.of_nat 1) x ≡ true → fl.lt (fl.sub x (fl.of_nat 1)) (fl.of_nat 0) ≡ false
  pub of_nat_above : (n : ℕ) → fl.lt (fl.of_nat n) (fl.of_nat 0) ≡ false
  pub add_above :
      (x y : F)
      → fl.lt x (fl.of_nat 0) ≡ false
      → fl.lt y (fl.of_nat 0) ≡ false
      → fl.lt (fl.add x y) (fl.of_nat 0) ≡ false
  pub mul_above :
      (x y : F)
      → fl.lt x (fl.of_nat 0) ≡ false
      → fl.lt y (fl.of_nat 0) ≡ false
      → fl.lt (fl.mul x y) (fl.of_nat 0) ≡ false
  pub seconds_above : (d : ℕ) → fl.lt (seconds d) (fl.of_nat 0) ≡ false
  -- No time brings no tokens: 0 times a finite rate is 0 or -0.
  pub idle : (n : ℕ) (r : ℤ) → fl.add (fl.of_nat n) (fl.mul (seconds 0) (of_int fl r)) ≡ fl.of_nat n
