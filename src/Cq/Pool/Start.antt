-- ===== src/Cq/Pool/Start.antt =====
-- pkg/cq/pool.go: NewPool, over Start and Close of a poller as parameters on a state `W`. A poller is
-- known by its position.
pub mod Undo
use golinker.Base.{
  ℕ, Bool, true, false, zero, suc, Option, none, some, List, [], ◌∷◌, ◌++◌, if◌then◌else◌,
}
use golinker.Api.{PollMode}
use golinker.Cq.Pool.{Pool}
use golinker.Errors.{Error, Result, ok, err, panic, diverge, nil_verbs, num_pollers_not_positive}
use golinker.Go.Int.{ℤ, pos, le_int, to_nat}
use golinker.Go.State.{Call, return, fail}

-- The pollers that were started and those that were closed, in their order.
pub record Ran (W : Type 0) : Type 0 where
  pub started : List ℕ
  pub closed : List ℕ
  pub world : W

module _ {W : Type 0} (start : ℕ → W → Option Error × W) (close : ℕ → W → W) where
  unfoldable pub close_started : List ℕ → Ran W → Ran W
  close_started [] s = s
  close_started (i ∷ is) s =
      close_started is (record s { closed = s.closed ++ i ∷ []; world = close i s.world })

  -- The branches on the result of Start, with the rest of the loop.
  unfoldable pub start_rest :
      (List ℕ → Call (Ran W) (List ℕ))
      → List ℕ
      → ℕ
      → Ran W
      → Option Error × W
      → Result (List ℕ) × Ran W
  unfolding close_started
  start_rest rest pollers i s (none, w) =
      rest (pollers ++ i ∷ []) (record s { started = s.started ++ i ∷ []; world = w })
  start_rest rest pollers i s (some e, w) = fail e (close_started pollers (record s { world = w }))

  -- The loop, from the pollers that run and the position of the next.
  unfoldable pub start_all : ℕ → ℕ → List ℕ → Call (Ran W) (List ℕ)
  unfolding start_rest
  start_all zero i pollers s = return pollers s
  start_all (suc n) i pollers s = start_rest (start_all n (suc i)) pollers i s (start i s.world)

  -- The branches on the result of the loop.
  unfoldable pub pooled : PollMode → Result (List ℕ) × Ran W → Result (List ℕ × Pool W) × Ran W
  pooled mode (ok pollers, s) = (
    ok (
      pollers,
      record { cq_size = 4096; poll_mode = mode; cq_map = []; is_closed = false; world = s.world },
    ),
    s,
  )
  pooled mode (err e, s) = (err e, s)
  pooled mode (panic, s) = (panic, s)
  pooled mode (diverge, s) = (diverge, s)

  -- NewPool, from whether `verbs` is nil: the positions of its pollers, and the pool.
  unfoldable pub new_pool : Bool → ℤ → PollMode → Call (Ran W) (List ℕ × Pool W)
  unfolding start_all pooled
  new_pool true num mode s = fail nil_verbs s
  new_pool false num mode s =
      if le_int num (pos 0)
      then fail num_pollers_not_positive s
      else pooled mode (start_all (to_nat num) 0 [] s)
