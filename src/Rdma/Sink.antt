-- ===== src/Rdma/Sink.antt =====
-- cmd/golinker-bench/server.go: runSinkLoop, over the data path of a connection.
pub mod Balance
use golinker.Base.{ℕ, zero, suc, Bool, true, false, List, [], ◌∷◌, if◌then◌else◌}
use golinker.Errors.{Result, ok, err, panic, diverge}
use golinker.Go.State.{Call, ◌>>=◌, attempt}
use golinker.Go.Word.{inc64}
use golinker.Rdma.DataPath.{Nic, send, recv_in_place}
use golinker.Rdma.Echo.{Stats, Echo, count_received, count_error, counted, device}

-- "ACK\0"
abbrev pub ack_bytes : List ℕ
ack_bytes = 65 ∷ 67 ∷ 75 ∷ 0 ∷ []

-- An acknowledgement adds to no byte count.
unfoldable pub count_ack : Stats → Stats
count_ack s = record s { messages_sent = inc64 s.messages_sent }

module _ {W : Type 0} (nic : Nic W) (buf_size fuel : ℕ) where
  -- The branches on the result of Send.
  unfoldable pub acked : Call (Echo W) (Unit {0}) → Result (Unit {0}) → Call (Echo W) (Unit {0})
  unfolding counted count_ack count_error
  acked again (ok u) s = again (counted count_ack s)
  acked again (err e) s = (ok tt, counted count_error s)
  acked again panic s = (panic, s)
  acked again diverge s = (diverge, s)

  -- The branches on the result of RecvInPlace.
  unfoldable pub received : Call (Echo W) (Unit {0}) → Result ℕ → Call (Echo W) (Unit {0})
  unfolding counted count_received count_error device send acked
  received again (ok n) s =
      (attempt (device (send nic buf_size fuel ack_bytes)) >>= acked again)
        (counted (count_received n) s)
  received again (err e) s = (ok tt, counted count_error s)
  received again panic s = (panic, s)
  received again diverge s = (diverge, s)

  -- The loop, with a bound on its rounds.
  unfoldable pub sink_loop : (W → Bool) → ℕ → Call (Echo W) (Unit {0})
  unfolding device recv_in_place received
  sink_loop ctx_done zero s = (diverge, s)
  sink_loop ctx_done (suc rounds) s =
      if ctx_done s.world
      then (ok tt, s)
      else (attempt (device (recv_in_place nic buf_size fuel))
            >>= received (sink_loop ctx_done rounds))
          s
