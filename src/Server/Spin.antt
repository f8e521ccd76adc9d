-- ===== src/Server/Spin.antt =====
-- pkg/server/accept.go over pkg/connection/manager.go: the accept loop, round by round.
use golinker.Base.{ℕ, zero, suc, ◌≡◌, refl, Bool, true, false, Option, none, some, if◌then◌else◌}
use golinker.Connection.Manager.{Manager, accept_step}
use golinker.Errors.{Result, ok, err, panic, diverge, manager_closed}
use golinker.Server.{Server, track_conn}

-- What follows a round: the goroutine of a new connection and the next round, the next round, or
-- the return; a panic ends the program.
pub data Round : Type 0 where
  serves : ℕ → Round
  again returns faults : Round

-- The body of the loop, from the result of Accept; `ctx_done` is `ctx.Err() != nil`.
unfoldable pub accept_round : Bool → Result ℕ → Server → Round × Server
accept_round ctx_done (ok id) s = (serves id, track_conn id s)
accept_round ctx_done (err e) s = (if ctx_done then returns else again, s)
accept_round ctx_done panic s = (faults, s)
accept_round ctx_done diverge s = (faults, s)

module _ {V : Type 0} where
  -- The next round, if one follows.
  unfoldable pub next_round :
      (Manager V → Server → Option (Round × Manager V × Server))
      → Manager V
      → Round × Server
      → Option (Round × Manager V × Server)
  next_round rest m (again, s) = rest m s
  next_round rest m (serves id, s) = some (serves id, m, s)
  next_round rest m (returns, s) = some (returns, m, s)
  next_round rest m (faults, s) = some (faults, m, s)

  unfoldable pub accept_with :
      (Manager V → Server → Option (Round × Manager V × Server))
      → Bool
      → Option (Result ℕ × Manager V)
      → Server
      → Option (Round × Manager V × Server)
  unfolding next_round accept_round
  accept_with rest ctx_done none s = none
  accept_with rest ctx_done (some (r, m)) s = next_round rest m (accept_round ctx_done r s)

  -- At most `n` rounds with the manager's Accept; `choice` says which ready case each of its
  -- `select`s picks, and `none` is an Accept that waits for ever.
  unfoldable pub accept_rounds :
      ℕ → (ℕ → Bool) → Bool → Manager V → Server → Option (Round × Manager V × Server)
  unfolding accept_with
  accept_rounds zero choice ctx_done m s = some (again, m, s)
  accept_rounds (suc n) choice ctx_done m s =
      accept_with (accept_rounds n choice ctx_done) ctx_done (accept_step (choice n) ctx_done m) s

  closed_accept :
      (from_ctx ctx_done : Bool) (m : Manager V)
      → m.is_closed ≡ true
      → accept_step from_ctx ctx_done m ≡ some (err manager_closed, m)
  unfolding accept_step
  closed_accept from_ctx ctx_done m h = simp h refl

  -- Once the manager is closed and as long as the server's context is not cancelled, the accept loop
  -- spins: after any number of rounds it has not returned, has not waited and has changed nothing,
  -- whatever the `select`s pick.
  pub accept_rounds-spins :
      (n : ℕ) (choice : ℕ → Bool) (m : Manager V) (s : Server)
      → m.is_closed ≡ true
      → accept_rounds n choice false m s ≡ some (again, m, s)
  unfolding accept_rounds accept_with accept_round next_round
  accept_rounds-spins zero choice m s h = refl
  accept_rounds-spins (suc n) choice m s h =
      rw (closed_accept (choice n) false m h) (accept_rounds-spins n choice m s h)
