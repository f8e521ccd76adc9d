-- ===== src/Bench/Limiter/Bounds.antt =====
-- cmd/golinker-bench/ratelimit/limiter.go: between which bounds the tokens stay.
use golinker.Base.{◌≡◌, refl, false, ℕ, ◌-◌, if◌then◌else◌, inl, inr, Bool-cases}
use golinker.Bench.Limiter.{
  Limiter, new_limiter, refill, take_token, try_wait, wait_round, is_unlimited, Reach, here, tries,
  waits,
}
use golinker.Go.Float.{Float64, FloatLaws, of_int}
use golinker.Go.Int.{ℤ, pos, negsuc, le_int}

module _ {F : Type 0} (fl : Float64 F) (seconds : ℕ → F) (laws : FloatLaws fl seconds) where
  -- A limiter with a rate that is not negative and with tokens that are neither negative nor above
  -- the burst.
  pub record Within (burst : F) (l : Limiter F) : Type 0 where
    pub size : l.max_burst ≡ burst
    pub rate : fl.lt l.rate (fl.of_nat 0) ≡ false
    pub above : fl.lt l.tokens (fl.of_nat 0) ≡ false
    pub below : fl.lt l.max_burst l.tokens ≡ false
    pub room : fl.lt l.max_burst (fl.of_nat 0) ≡ false

  refill-Within :
      (burst : F) (now : ℕ) (l : Limiter F)
      → Within burst l
      → Within burst (refill fl seconds now l)
  unfolding refill
  refill-Within burst now l w =
      let earned = fl.add l.tokens (fl.mul (seconds (now - l.last_time)) l.rate) in
      elim (Bool-cases (fl.lt l.max_burst earned)) [
        | inl over ↦ record {
          size = w.size;
          rate = w.rate;
          above = rw over w.room;
          below = rw over (laws.lt_irreflexive l.max_burst);
          room = w.room;
        }
        | inr under ↦ record {
          size = w.size;
          rate = w.rate;
          above = rw under (
              laws.add_above l.tokens (fl.mul (seconds (now - l.last_time)) l.rate) w.above (
                laws.mul_above (seconds (now - l.last_time)) l.rate
                  (laws.seconds_above (now - l.last_time)) w.rate));
          below = rw under under;
          room = w.room;
        }
      ]

  take_token-Within :
      (burst : F) (l : Limiter F) → Within burst l → Within burst (take_token fl seconds l).1
  unfolding take_token
  take_token-Within burst l w = elim (Bool-cases (fl.le (fl.of_nat 1) l.tokens)) [
    | inl enough ↦ rw enough (record {
      size = w.size;
      rate = w.rate;
      above = laws.sub_above l.tokens enough;
      below = laws.sub_below l.max_burst l.tokens w.below;
      room = w.room;
    })
    | inr short ↦ rw short w
  ]

  wait_round-Within :
      (burst : F) (now : ℕ) (l : Limiter F)
      → Within burst l
      → Within burst (wait_round fl seconds now l).1
  unfolding wait_round
  wait_round-Within burst now l w =
      take_token-Within burst (refill fl seconds now l) (refill-Within burst now l w)

  try_wait-Within :
      (burst : F) (now : ℕ) (l : Limiter F)
      → Within burst l
      → Within burst (try_wait fl seconds now l).1
  unfolding try_wait
  try_wait-Within burst now l w = elim (Bool-cases (is_unlimited fl seconds l)) [
    | inl free ↦ rw free w
    | inr bound ↦
        rw bound (take_token-Within burst (refill fl seconds now l) (refill-Within burst now l w))
  ]

  Reach-keeps :
      (burst : F) (l m : Limiter F) → Within burst l → Reach fl seconds l m → Within burst m
  Reach-keeps burst l _ w here = w
  Reach-keeps burst l _ w (tries {m} r now) =
      try_wait-Within burst now m (Reach-keeps burst l m w r)
  Reach-keeps burst l _ w (waits {m} r now) =
      wait_round-Within burst now m (Reach-keeps burst l m w r)

  -- The burst of New: 1 where it is asked for none.
  abbrev pub burst_of : ℤ → F
  burst_of burst = of_int fl (if le_int burst (pos 0) then pos 1 else burst)

  burst-above : (burst : ℤ) → fl.lt (burst_of burst) (fl.of_nat 0) ≡ false
  burst-above (pos n) = elim (Bool-cases (le_int (pos n) (pos 0))) [
    | inl none ↦ rw none (laws.of_nat_above 1)
    | inr some_ ↦ rw some_ (laws.of_nat_above n)
  ]
  burst-above (negsuc n) = laws.of_nat_above 1

  -- Over the float64 operations of the machine, a limiter of New with a rate that is not negative: in
  -- every interleaving of TryWait and of the rounds of Wait, at any times, its tokens are never
  -- negative and never above the burst, which stays that of New.
  pub Reach-Within :
      (rate : ℕ) (burst : ℤ) (start : ℕ) (m : Limiter F)
      → Reach fl seconds (new_limiter fl seconds (pos rate) burst start) m
      → Within (burst_of burst) m
  unfolding new_limiter
  Reach-Within rate burst start m r =
      Reach-keeps (burst_of burst) (new_limiter fl seconds (pos rate) burst start) m
        (record {
          size = refl;
          rate = laws.of_nat_above rate;
          above = burst-above burst;
          below = laws.lt_irreflexive (burst_of burst);
          room = burst-above burst;
        })
        r
