-- ===== src/Bench/Limiter/Burst.antt =====
-- cmd/golinker-bench/ratelimit/limiter.go: the burst of a new limiter.
use golinker.Base.{
  ◌≡◌, refl, ◌∙◌, ap, true, false, ℕ, zero, suc, ◌+◌, ◌-◌, ◌≤◌, ◌^◌, List, [], ◌∷◌, arith, ltb, leb,
}
use golinker.Bench.Limiter.{
  Limiter, new_limiter, refill, take_token, try_wait, is_unlimited, grants,
}
use golinker.Go.Float.{Float64, FloatLaws, of_int}
use golinker.Go.Int.{ℤ, pos}

-- A time, some times over.
abbrev pub repeated : ℕ → ℕ → List ℕ
repeated zero t = []
repeated (suc n) t = t ∷ repeated n t

module _ {F : Type 0} (fl : Float64 F) (seconds : ℕ → F) (laws : FloatLaws fl seconds) (r : ℤ)
    (limited : fl.eq (of_int fl r) (fl.of_nat 0) ≡ false) where
  -- The limiter with `n` of `m` tokens.
  abbrev holding : ℕ → ℕ → ℕ → Limiter F
  holding m now n = record {
    rate = of_int fl r;
    tokens = fl.of_nat n;
    max_burst = fl.of_nat m;
    last_time = now;
  }

  refill-holding :
      (m now n : ℕ) → m ≤ 2 ^ 53 → n ≤ m → refill fl seconds now (holding m now n) ≡ holding m now n
  unfolding refill
  refill-holding m now n s h =
      let none : now - now ≡ 0 = omega arith in
      let small : n ≤ 2 ^ 53 = omega (arith, s, h) in
      let under : ltb m n ≡ false = ground arith in
      rw (none, laws.idle n r, laws.lt_exact m n s small, under) refl

  try_wait-limited :
      (m now n : ℕ)
      → m ≤ 2 ^ 53
      → n ≤ m
      → try_wait fl seconds now (holding m now n) ≡ take_token fl seconds (holding m now n)
  unfolding try_wait is_unlimited
  try_wait-limited m now n s h =
      rw limited refl ∙ ap (take_token fl seconds) (refill-holding m now n s h)

  try_wait-grants :
      (m now n : ℕ)
      → m ≤ 2 ^ 53
      → suc n ≤ m
      → try_wait fl seconds now (holding m now (suc n)) ≡ (true, holding m now n)
  unfolding take_token
  try_wait-grants m now n s h =
      let small : suc n ≤ 2 ^ 53 = omega (arith, s, h) in
      let one : 1 ≤ 2 ^ 53 = omega (arith, small) in
      let enough : leb 1 (suc n) ≡ true = ground arith in
      try_wait-limited m now (suc n) s h
      ∙ rw (laws.le_exact 1 (suc n) one small, enough, laws.sub_exact n small) refl

  try_wait-refuses :
      (m now : ℕ)
      → m ≤ 2 ^ 53
      → 1 ≤ m
      → try_wait fl seconds now (holding m now 0) ≡ (false, holding m now 0)
  unfolding take_token
  try_wait-refuses m now s h =
      let one : 1 ≤ 2 ^ 53 = omega (arith, s, h) in
      let none : 0 ≤ 2 ^ 53 = omega (arith, one) in
      try_wait-limited m now 0 s (omega arith) ∙ rw (laws.le_exact 1 0 one none) refl

  none_left :
      (m now k : ℕ)
      → m ≤ 2 ^ 53
      → 1 ≤ m
      → (grants fl seconds (repeated k now) (holding m now 0)).0 ≡ 0
  none_left m now zero s h = refl
  none_left m now (suc k) s h = rw (try_wait-refuses m now s h) (none_left m now k s h)

  some_left :
      (m now k n : ℕ)
      → m ≤ 2 ^ 53
      → 1 ≤ m
      → n ≤ m
      → (grants fl seconds (repeated (n + k) now) (holding m now n)).0 ≡ n
  some_left m now k zero s h b =
      let same : 0 + k ≡ k = omega arith in rw same (none_left m now k s h)
  some_left m now k (suc n) s h b =
      let next : suc n + k ≡ suc (n + k) = omega arith in
      rw (next, try_wait-grants m now n s b) (ap suc (some_left m now k n s h (omega (arith, b))))

  -- Over the float64 operations of the machine, a new limiter with a rate other than 0 and a burst
  -- of at least 1 and at most 2^53: of any greater number of calls of TryWait at the time of New,
  -- exactly as many are granted as the burst.
  pub grants-burst :
      (m now k : ℕ)
      → 1 ≤ m
      → m ≤ 2 ^ 53
      → (grants fl seconds (repeated (m + k) now) (new_limiter fl seconds r (pos m) now)).0 ≡ m
  unfolding new_limiter
  grants-burst m now k h s =
      let asked : leb m 0 ≡ false = ground arith in rw asked (some_left m now k m s h (omega arith))
