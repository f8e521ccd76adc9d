-- ===== src/Rdma/Listener.antt =====
-- internal/rdma/listener.go: Accept of a Listener, over the event channel and the construction of a
-- connection as parameters on a state `W`. A queue pair is known by a number.
pub mod Handout
pub mod Acks
use golinker.Api.{CmEvent, CmEventType, connect_request, established}
use golinker.Base.{ℕ, zero, suc, Option, none, some, List}
use golinker.Errors.{Error, Result, ok, err, panic, diverge}
use golinker.Go.Dict.{lookup, insert, delete}
use golinker.Go.State.{Call, ◌>>=◌, ◌>>◌, return, lift, modify, on, attempt, fail}

-- GetEvent, AckEvent, AcceptConn and NewPingPongFromQP.
pub record Channel (W : Type 0) : Type 0 where
  pub get_event : Call W CmEvent
  pub ack_event : CmEvent → W → W
  pub accept_conn : ℕ → Call W ℕ
  pub new_ping_pong : ℕ → Call W (Unit {0})

-- `pending` maps the CM ids to the queue pairs that wait for their Established event.
pub record Listener (W : Type 0) : Type 0 where
  pub pending : List (ℕ × ℕ)
  pub world : W

module _ {W : Type 0} (ch : Channel W) where
  unfoldable pub on_channel : {A : Type 0} → Call W A → Call (Listener W) A
  on_channel m = on (λ ln. ln.world) (λ w ln. record ln { world = w }) m

  unfoldable pub ack : CmEvent → Listener W → Listener W
  ack e ln = record ln { world = ch.ack_event e ln.world }

  -- The branches on the result of AcceptConn.
  unfoldable pub requested :
      Call (Listener W) (ℕ × ℕ) → CmEvent → Result ℕ → Call (Listener W) (ℕ × ℕ)
  unfolding ack
  requested again e (ok qp) ln = again (ack e (record ln { pending = insert e.id qp ln.pending }))
  requested again e (err x) ln = again (ack e ln)
  requested again e panic ln = (panic, ln)
  requested again e diverge ln = (diverge, ln)

  -- The branches on the entry of `pending`; a connection is its CM id and its queue pair.
  unfoldable pub completed : Call (Listener W) (ℕ × ℕ) → ℕ → Option ℕ → Call (Listener W) (ℕ × ℕ)
  unfolding on_channel
  completed again id none = again
  completed again id (some qp) = do
    modify (λ ln. record ln { pending = delete id ln.pending })
    on_channel (ch.new_ping_pong qp)
    return (id, qp)

  -- The branches on the type of the event.
  unfoldable pub on_event :
      Call (Listener W) (ℕ × ℕ) → CmEventType → CmEvent → Call (Listener W) (ℕ × ℕ)
  unfolding on_channel requested completed ack
  on_event again connect_request e ln =
      (attempt (on_channel (ch.accept_conn e.id)) >>= requested again e) ln
  on_event again established e ln = completed again e.id (lookup e.id ln.pending) (ack e ln)
  on_event again _ e ln = again (ack e ln)

  -- Listener.Accept, with a bound on the events.
  unfoldable pub accept : ℕ → Call (Listener W) (ℕ × ℕ)
  unfolding on_channel on_event
  accept zero ln = (diverge, ln)
  accept (suc fuel) ln = (on_channel ch.get_event >>= λ e. on_event (accept fuel) e.type e) ln
