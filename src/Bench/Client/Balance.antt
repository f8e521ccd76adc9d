-- ===== src/Bench/Client/Balance.antt =====
-- cmd/golinker-bench/client.go: the counters of runPingPong, whatever the device does.
use golinker.Base.{ℕ, zero, suc, ◌≡◌, ◌⊎◌, inl, inr, ap, Option, none, some, List, Bool-cases}
use golinker.Bench.Client.{
  Client, Bench, count_sent, count_recv, count_error, touch, on_world, received, sent, ping_pong,
}
use golinker.Errors.{Result, ok, err, panic, diverge}
use golinker.Go.State.{Call, and_then, attempted, put_back}
use golinker.Go.Word.{inc64}
use golinker.Rdma.DataPath.{Nic, send, recv}

module _ {W : Type 0} where
  -- Every message that was sent was answered.
  pub record Answered (errors : ℕ) (s : Client W) : Type 0 where
    pub even : s.msgs_sent ≡ s.msgs_recv
    pub same : s.errors ≡ errors

  -- One message has no answer yet.
  pub record Waiting (errors : ℕ) (s : Client W) : Type 0 where
    pub ahead : s.msgs_sent ≡ inc64 s.msgs_recv
    pub same : s.errors ≡ errors

  -- The loop returns either with every message answered and no error, or with one error and at most
  -- one message unanswered.
  abbrev pub Ended : ℕ → Result (Unit {0}) × Client W → Type 0
  Ended errors (ok u, s) =
      Answered errors s ⊎ (Answered (inc64 errors) s ⊎ Waiting (inc64 errors) s)
  Ended errors (err e, s) = ⊥
  Ended errors (panic, s) = Answered errors s ⊎ Waiting errors s
  Ended errors (diverge, s) = Answered errors s ⊎ Waiting errors s

  touch-Answered : (n : ℕ) (f : W → W) (s : Client W) → Answered n s → Answered n (touch f s)
  unfolding touch
  touch-Answered n f s v = record { even = v.even; same = v.same }

  world-Answered :
      (n : ℕ) (w : W) (s : Client W) → Answered n s → Answered n (record s { world = w })
  world-Answered n w s v = record { even = v.even; same = v.same }

  world-Waiting : (n : ℕ) (w : W) (s : Client W) → Waiting n s → Waiting n (record s { world = w })
  world-Waiting n w s v = record { ahead = v.ahead; same = v.same }

  count_sent-Waiting : (n : ℕ) (s : Client W) → Answered n s → Waiting n (count_sent s)
  unfolding count_sent
  count_sent-Waiting n s v = record { ahead = ap inc64 v.even; same = v.same }

  count_recv-Answered :
      (n : ℕ) (o : Option (List ℕ)) (s : Client W) → Waiting n s → Answered n (count_recv o s)
  unfolding count_recv
  count_recv-Answered n none s v = record { even = v.ahead; same = v.same }
  count_recv-Answered n (some buf) s v = record { even = v.ahead; same = v.same }

  error-Answered : (n : ℕ) (s : Client W) → Answered n s → Answered (inc64 n) (count_error s)
  unfolding count_error
  error-Answered n s v = record { even = v.even; same = ap inc64 v.same }

  error-Waiting : (n : ℕ) (s : Client W) → Waiting n s → Waiting (inc64 n) (count_error s)
  unfolding count_error
  error-Waiting n s v = record { ahead = v.ahead; same = ap inc64 v.same }

module _ {W : Type 0} (nic : Nic W) (bench : Bench W) (buf_size polls : ℕ) (payload : List ℕ)
    (errors : ℕ) where
  module _ (again : Call (Client W) (Unit {0}))
      (ih : (s : Client W) → Answered errors s → Ended errors (again s)) where
    after_recv :
        (q : Result (ℕ × Option (List ℕ)) × W) (s : Client W)
        → Waiting errors s
        → Ended errors (
            and_then
              (attempted (put_back (λ w s. record s { world = w }) s q))
              (received nic bench buf_size polls payload again))
    unfolding received
    after_recv (ok (n, buf), w) s v = ih _ (
        touch-Answered errors bench.record_latency _
          (count_recv-Answered errors buf _ (world-Waiting errors w s v)))
    after_recv (err e, w) s v = inr (inr (error-Waiting errors _ (world-Waiting errors w s v)))
    after_recv (panic, w) s v = inr (world-Waiting errors w s v)
    after_recv (diverge, w) s v = inr (world-Waiting errors w s v)

    after_send :
        (q : Result (Unit {0}) × W) (s : Client W)
        → Answered errors s
        → Ended errors (
            and_then
              (attempted (put_back (λ w s. record s { world = w }) s q))
              (sent nic bench buf_size polls payload again))
    unfolding sent on_world
    after_send (ok u, w) s v =
        let t = count_sent (record s { world = w }) in
        after_recv (recv nic buf_size polls (some t.recv_buf) t.world) t
          (count_sent-Waiting errors _ (world-Answered errors w s v))
    after_send (err e, w) s v = inr (inl (error-Answered errors _ (world-Answered errors w s v)))
    after_send (panic, w) s v = inl (world-Answered errors w s v)
    after_send (diverge, w) s v = inl (world-Answered errors w s v)

  -- Whatever the device answers, and however the loop ends: it never returns an error itself; where
  -- it returns, it counted as many messages received as sent and no error, or one error, and then at
  -- most one message that was sent has no answer. All counts are modulo 2^64.
  pub ping_pong-Ended :
      (rounds : ℕ) (s : Client W)
      → Answered errors s
      → Ended errors (ping_pong nic bench buf_size polls payload rounds s)
  unfolding ping_pong on_world
  ping_pong-Ended zero s v = inl v
  ping_pong-Ended (suc rounds) s v = elim (Bool-cases (bench.ctx_done s.world)) [
    | inl stop ↦ rw stop (inl v)
    | inr go ↦
        let t = touch bench.wait s in
        rw go (
          after_send (ping_pong nic bench buf_size polls payload rounds) (ping_pong-Ended rounds)
            (send nic buf_size polls payload t.world) t (touch-Answered errors bench.wait s v))
  ]
