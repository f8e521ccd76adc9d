-- ===== src/Tests/Limits.antt =====
-- cmd/golinker-bench/ratelimit/limiter.go at concrete inputs, over numbers that are cut to naturals.
use golinker.Base.{◌+◌, ◌-◌, ◌*◌, ◌/◌, ◌≡◌, ◌==◌, refl, ℕ, [], ◌∷◌, arith, ltb, leb, false}
use golinker.Bench.Limiter.{
  Limiter, new_limiter, grants, refill, take_token, try_wait, is_unlimited, wait_round, here, tries,
  waits,
}
use golinker.Bench.Limiter.Bounds.{Within, burst_of, Reach-Within}
use golinker.Bench.Limiter.Burst.{repeated, grants-burst}
use golinker.Go.Float.{Float64, FloatLaws}
use golinker.Go.Int.{pos, negsuc}

abbrev cut : Float64 ℕ
cut = record {
  of_nat = λ n. n;
  add = λ x y. x + y;
  sub = λ x y. x - y;
  mul = λ x y. x * y;
  div = λ x y. x / y;
  abs = λ x. x;
  neg = λ x. 0;
  lt = ltb;
  le = leb;
  eq = λ x y. x == y;
  six_tenths = 0;
  trunc = λ x. x;
}

abbrev seconds : ℕ → ℕ
seconds d = d / 1000000000

lt_irreflexive : (x : ℕ) → ltb x x ≡ false
lt_irreflexive x = ground arith

not_below : (x : ℕ) → ltb x 0 ≡ false
not_below x = ground arith

below_less : (x y : ℕ) → ltb x y ≡ false → ltb x (y - 1) ≡ false
below_less x y h = ground arith

abbrev cut_laws : FloatLaws cut seconds
cut_laws = record {
  lt_irreflexive = lt_irreflexive;
  lt_exact = λ m n h k. refl;
  le_exact = λ m n h k. refl;
  sub_exact = λ n h. omega arith;
  sub_below = below_less;
  sub_above = λ x h. not_below (x - 1);
  of_nat_above = not_below;
  add_above = λ x y h k. not_below (x + y);
  mul_above = λ x y h k. not_below (x * y);
  seconds_above = λ d. not_below (seconds d);
  idle = λ n r. omega arith;
}

-- Two at once, none in the next hundred milliseconds, one after a whole second.
granted :
    (grants cut seconds
      (0 ∷ 0 ∷ 0 ∷ 100000000 ∷ 1100000000 ∷ [])
      (new_limiter cut seconds (pos 1) (pos 2) 0)).0
    ≡ 3
unfolding new_limiter try_wait refill take_token is_unlimited
granted = refl

abbrev start : Limiter ℕ
start = new_limiter cut seconds (pos 1) (negsuc 0) 0

abbrev second_call : Limiter ℕ
second_call = (wait_round cut seconds 9000000000 (try_wait cut seconds 0 start).1).1

Reach-Within_example :
    Within cut seconds cut_laws (burst_of cut seconds cut_laws (negsuc 0)) second_call
Reach-Within_example =
    Reach-Within cut seconds cut_laws 1 (negsuc 0) 0 second_call (waits (tries here 0) 9000000000)

grants-burst_example :
    (grants cut seconds (repeated 5 7) (new_limiter cut seconds (pos 4) (pos 3) 7)).0 ≡ 3
grants-burst_example =
    grants-burst cut seconds cut_laws (pos 4) refl 3 7 2 (omega arith) (omega arith)
