-- ===== src/Bench/Limiter.antt =====
-- cmd/golinker-bench/ratelimit/limiter.go over the machine's float64. Times are nanoseconds of Go's
-- monotonic clock; `Seconds` of a duration is a parameter.
pub mod Bounds
pub mod Burst
use golinker.Base.{ℕ, zero, suc, ◌-◌, Bool, true, false, List, [], ◌∷◌, if◌then◌else◌}
use golinker.Errors.{Result, ok, diverge}
use golinker.Go.Float.{Float64, of_int}
use golinker.Go.Int.{ℤ, pos, le_int}

pub record Limiter (F : Type 0) : Type 0 where
  pub rate : F
  pub tokens : F
  pub max_burst : F
  pub last_time : ℕ

-- The end of a round of Wait, with the rounds that follow.
unfoldable pub settled :
    {F : Type 0} → (Limiter F → Result (Limiter F)) → Bool × Limiter F → Result (Limiter F)
settled again (true, l) = ok l
settled again (false, l) = again l

module _ {F : Type 0} (fl : Float64 F) (seconds : ℕ → F) where
  unfoldable pub new_limiter : ℤ → ℤ → ℕ → Limiter F
  new_limiter rate burst now =
      let size = of_int fl (if le_int burst (pos 0) then pos 1 else burst) in
      record { rate = of_int fl rate; tokens = size; max_burst = size; last_time = now }

  unfoldable pub unlimited : Limiter F
  unlimited = record {
    rate = fl.of_nat 0;
    tokens = fl.of_nat 0;
    max_burst = fl.of_nat 0;
    last_time = 0;
  }

  -- What both operations begin with: the tokens of the time since the last call, up to the burst.
  unfoldable pub refill : ℕ → Limiter F → Limiter F
  refill now l =
      let tokens = fl.add l.tokens (fl.mul (seconds (now - l.last_time)) l.rate) in
      record l {
        tokens = if fl.lt l.max_burst tokens then l.max_burst else tokens;
        last_time = now;
      }

  -- The token that is taken if there is one.
  unfoldable pub take_token : Limiter F → Bool × Limiter F
  take_token l =
      if fl.le (fl.of_nat 1) l.tokens
      then (true, record l { tokens = fl.sub l.tokens (fl.of_nat 1) })
      else (false, l)

  unfoldable pub is_unlimited : Limiter F → Bool
  is_unlimited l = fl.eq l.rate (fl.of_nat 0)

  -- TryWait at a time.
  unfoldable pub try_wait : ℕ → Limiter F → Bool × Limiter F
  unfolding refill take_token is_unlimited
  try_wait now l = if is_unlimited l then (true, l) else take_token (refill now l)

  -- The time that Wait sleeps.
  unfoldable pub delay : Limiter F → ℕ
  delay l = fl.trunc (fl.mul (fl.div (fl.sub (fl.of_nat 1) l.tokens) l.rate) (fl.of_nat 1000000000))

  -- What Wait does under its lock in a round.
  unfoldable pub wait_round : ℕ → Limiter F → Bool × Limiter F
  unfolding refill take_token
  wait_round now l = take_token (refill now l)

  -- Wait, with a bound on its rounds; `wake now d` is the time at which a sleep of `d` from `now` ends.
  unfoldable pub wait_rounds : (ℕ → ℕ → ℕ) → ℕ → ℕ → Limiter F → Result (Limiter F)
  unfolding settled delay wait_round
  wait_rounds wake zero now l = diverge
  wait_rounds wake (suc fuel) now l =
      settled (λ r. wait_rounds wake fuel (wake now (delay r)) r) (wait_round now l)

  unfoldable pub wait : (ℕ → ℕ → ℕ) → ℕ → ℕ → Limiter F → Result (Limiter F)
  unfolding wait_rounds is_unlimited
  wait wake fuel now l = if is_unlimited l then ok l else wait_rounds wake fuel now l

  -- The number of tokens that TryWait grants at a list of times, and the limiter after them.
  abbrev pub grants : List ℕ → Limiter F → ℕ × Limiter F
  grants [] l = (0, l)
  grants (t ∷ ts) l =
      let (granted, l') = try_wait t l in
      let (n, l'') = grants ts l' in ((if granted then suc n else n), l'')

  -- TryWait and the rounds of Wait of any number of goroutines, in any order: the lock makes each one
  -- step.
  pub data Reach (l : Limiter F) : Limiter F → Type 0 where
    here : Reach l l
    tries : {m : Limiter F} → Reach l m → (now : ℕ) → Reach l (try_wait now m).1
    waits : {m : Limiter F} → Reach l m → (now : ℕ) → Reach l (wait_round now m).1
