-- ===== src/Rdma/Sink/Balance.antt =====
-- cmd/golinker-bench/server.go: the counters of runSinkLoop, whatever the device does.
use golinker.Base.{ℕ, zero, suc, ◌≡◌, ◌⊎◌, inl, inr, ap, Bool, Bool-cases}
use golinker.Errors.{Result, ok, err, panic, diverge}
use golinker.Go.State.{Call, and_then, attempted, put_back}
use golinker.Go.Word.{inc64}
use golinker.Rdma.DataPath.{Nic, send, recv_in_place}
use golinker.Rdma.Echo.{Stats, Echo, count_received, count_error, counted, device}
use golinker.Rdma.Sink.{ack_bytes, count_ack, acked, received, sink_loop}

-- Every message that came was acknowledged, or all but one; and the errors.
pub record Acknowledged (errors : ℕ) (s : Stats) : Type 0 where
  pub even : s.messages_received ≡ s.messages_sent
  pub same : s.errors ≡ errors

pub record Owing (errors : ℕ) (s : Stats) : Type 0 where
  pub ahead : s.messages_received ≡ inc64 s.messages_sent
  pub same : s.errors ≡ errors

abbrev pub Ended : {W : Type 0} → ℕ → Result (Unit {0}) × Echo W → Type 0
Ended errors (ok u, s) =
    Acknowledged errors s.stats
    ⊎ (Acknowledged (inc64 errors) s.stats ⊎ Owing (inc64 errors) s.stats)
Ended errors (err e, s) = ⊥
Ended errors (panic, s) = Acknowledged errors s.stats ⊎ Owing errors s.stats
Ended errors (diverge, s) = Acknowledged errors s.stats ⊎ Owing errors s.stats

module _ {W : Type 0} (nic : Nic W) (buf_size fuel errors : ℕ) where
  module _ (again : Call (Echo W) (Unit {0}))
      (ih : (s : Echo W) → Acknowledged errors s.stats → Ended errors (again s)) where
    after_send :
        (q : Result (Unit {0}) × W) (s : Echo W)
        → Owing errors s.stats
        → Ended errors (
            and_then
              (attempted (put_back (λ w s. record s { world = w }) s q))
              (acked nic buf_size fuel again))
    unfolding acked counted count_ack count_error
    after_send (ok u, w) s v = ih _ (record { even = v.ahead; same = v.same })
    after_send (err e, w) s v = inr (inr (record { ahead = v.ahead; same = ap inc64 v.same }))
    after_send (panic, w) s v = inr v
    after_send (diverge, w) s v = inr v

    after_recv :
        (q : Result ℕ × W) (s : Echo W)
        → Acknowledged errors s.stats
        → Ended errors (
            and_then
              (attempted (put_back (λ w s. record s { world = w }) s q))
              (received nic buf_size fuel again))
    unfolding received counted count_received count_error device
    after_recv (ok n, w) s v =
        after_send (send nic buf_size fuel ack_bytes w)
          (counted (count_received n) (record s { world = w }))
          (record { ahead = ap inc64 v.even; same = v.same })
    after_recv (err e, w) s v = inr (inl (record { even = v.even; same = ap inc64 v.same }))
    after_recv (panic, w) s v = inl v
    after_recv (diverge, w) s v = inl v

  -- Whatever the device answers, and however the loop ends: it returns no error itself; where it
  -- returns, it acknowledged every message that it counted and counted no error, or it counted one
  -- error, and then at most one message is not acknowledged. All counts are modulo 2^64.
  pub sink_loop-Ended :
      (ctx_done : W → Bool) (rounds : ℕ) (s : Echo W)
      → Acknowledged errors s.stats
      → Ended errors (sink_loop nic buf_size fuel ctx_done rounds s)
  unfolding sink_loop device
  sink_loop-Ended ctx_done zero s v = inl v
  sink_loop-Ended ctx_done (suc rounds) s v = elim (Bool-cases (ctx_done s.world)) [
    | inl stop ↦ rw stop (inl v)
    | inr go ↦ rw go (
        after_recv (sink_loop nic buf_size fuel ctx_done rounds) (sink_loop-Ended ctx_done rounds)
          (recv_in_place nic buf_size fuel s.world) s v)
  ]
