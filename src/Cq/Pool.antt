-- ===== src/Cq/Pool.antt =====
-- pkg/cq/pool.go. A poller is known by its position; its load is the number of its queues.
pub mod LeastLoaded
pub mod Start
use golinker.Base.{
  ℕ, zero, suc, Bool, true, false, Option, none, some, List, [], ◌∷◌, ltb, if◌then◌else◌,
}
use golinker.Api.{PollMode, event, smart}
use golinker.Errors.{Error, cq_pool_closed, cq_not_found}
use golinker.Go.Dict.{lookup, insert, delete}
use golinker.Go.State.{Call, ◌>>=◌, ◌>>◌, return, fail, modify, on}

-- The pollers themselves are in the state `W`, read by their loads.
pub record Pool (W : Type 0) : Type 0 where
  pub cq_size : ℕ
  pub poll_mode : PollMode
  pub cq_map : List (ℕ × ℕ)
  pub is_closed : Bool
  pub world : W

-- NumCQs of every poller, CreateCQ with and without a channel, RemoveCQ and Close of a poller.
pub record Pollers (W : Type 0) : Type 0 where
  pub loads : W → List ℕ
  pub create_cq : Bool → ℕ → Call W ℕ
  pub remove_cq : ℕ → ℕ → W → W
  pub close : ℕ → W → Option Error × W

-- The loop of Assign over the other pollers, from the best so far and the position of the next.
unfoldable pub least_loop : ℕ → ℕ → ℕ → List ℕ → ℕ
least_loop best min i [] = best
least_loop best min i (n ∷ ns) =
    least_loop (if ltb n min then i else best) (if ltb n min then n else min) (suc i) ns

-- The least loaded poller; there is one at least.
unfoldable pub least_loaded : List ℕ → ℕ
unfolding least_loop
least_loaded [] = 0
least_loaded (n ∷ ns) = least_loop 0 n 1 ns

abbrev pub wants_channel : PollMode → Bool
wants_channel event = true
wants_channel smart = true
wants_channel _ = false

module _ {W : Type 0} (ps : Pollers W) where
  abbrev on_world : {A : Type 0} → Call W A → Call (Pool W) A
  on_world = on (λ p. p.world) (λ w p. record p { world = w })

  unfoldable pub assign_to : ℕ → Call (Pool W) (ℕ × ℕ)
  assign_to poller p =
      (on_world (ps.create_cq (wants_channel p.poll_mode) p.cq_size) >>= λ cq.
      modify (λ p. record p { cq_map = insert cq poller p.cq_map }) >> return (poller, cq))
        p

  unfoldable pub assign : Call (Pool W) (ℕ × ℕ)
  unfolding assign_to least_loaded
  assign p =
      if p.is_closed then fail cq_pool_closed p else assign_to (least_loaded (ps.loads p.world)) p

  released : ℕ → Option ℕ → Call (Pool W) (Unit {0})
  released cq none = fail cq_not_found
  released cq (some poller) =
      modify (λ p. record p { cq_map = delete cq p.cq_map; world = ps.remove_cq poller cq p.world })

  unfoldable pub release : ℕ → Call (Pool W) (Unit {0})
  unfolding released
  release cq p = released cq (lookup cq p.cq_map) p

  -- The first error of the pollers' Close.
  close_each : ℕ → ℕ → W → Option Error → Option Error × W
  close_each zero i w first = (first, w)
  close_each (suc n) i w first =
      let (e, w') = ps.close i w in close_each n (suc i) w' (keep first e)
    where
      keep : Option Error → Option Error → Option Error
      keep none e = e
      keep (some f) e = some f

  unfoldable pub close_pool : ℕ → Pool W → Option Error × Pool W
  unfolding close_each
  close_pool num_pollers p =
      if p.is_closed
      then (none, p)
      else let (e, w) = close_each num_pollers 0 p.world none in
        (e, record p { is_closed = true; world = w })
