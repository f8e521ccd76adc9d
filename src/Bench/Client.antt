-- ===== src/Bench/Client.antt =====
-- cmd/golinker-bench/client.go: the loop of one connection in runPingPong, and the connections of
-- runEndToEnd, over the device, the rate limiter and the histogram as parameters on a state `W`.
pub mod Balance
pub mod Release
use golinker.Base.{
  ℕ, zero, suc, Bool, true, false, Option, none, some, List, [], ◌∷◌, ◌++◌, if◌then◌else◌,
}
use golinker.Errors.{Error, Result, ok, err, panic, diverge}
use golinker.Go.State.{Call, ◌>>=◌, ◌>>◌, return, fail, lift, modify, on, attempt}
use golinker.Go.Word.{inc64}
use golinker.Rdma.DataPath.{Nic, send, recv}

-- BenchClient's counters, the receive buffer of one goroutine, and the rest.
pub record Client (W : Type 0) : Type 0 where
  pub msgs_sent : ℕ
  pub msgs_recv : ℕ
  pub errors : ℕ
  pub recv_buf : List ℕ
  pub world : W

-- Whether the context is done, Wait of the limiter, and the record of a latency.
pub record Bench (W : Type 0) : Type 0 where
  pub ctx_done : W → Bool
  pub wait : W → W
  pub record_latency : W → W

module _ {W : Type 0} where
  unfoldable pub count_sent : Client W → Client W
  count_sent s = record s { msgs_sent = inc64 s.msgs_sent }

  unfoldable pub count_recv : Option (List ℕ) → Client W → Client W
  count_recv none s = record s { msgs_recv = inc64 s.msgs_recv }
  count_recv (some buf) s = record s { msgs_recv = inc64 s.msgs_recv; recv_buf = buf }

  unfoldable pub count_error : Client W → Client W
  count_error s = record s { errors = inc64 s.errors }

  unfoldable pub touch : (W → W) → Client W → Client W
  touch f s = record s { world = f s.world }

  unfoldable pub on_world : {A : Type 0} → Call W A → Call (Client W) A
  on_world m = on (λ s. s.world) (λ w s. record s { world = w }) m

module _ {W : Type 0} (nic : Nic W) (bench : Bench W) (buf_size polls : ℕ) (payload : List ℕ) where
  -- The branches on the result of Recv.
  unfoldable pub received :
      Call (Client W) (Unit {0}) → Result (ℕ × Option (List ℕ)) → Call (Client W) (Unit {0})
  unfolding count_recv count_error touch
  received again (ok (n, buf)) s = again (touch bench.record_latency (count_recv buf s))
  received again (err e) s = (ok tt, count_error s)
  received again panic s = (panic, s)
  received again diverge s = (diverge, s)

  -- The branches on the result of Send.
  unfoldable pub sent : Call (Client W) (Unit {0}) → Result (Unit {0}) → Call (Client W) (Unit {0})
  unfolding received count_sent count_error on_world
  sent again (ok u) s =
      (attempt (on_world (recv nic buf_size polls (some s.recv_buf))) >>= received again)
        (count_sent s)
  sent again (err e) s = (ok tt, count_error s)
  sent again panic s = (panic, s)
  sent again diverge s = (diverge, s)

  -- The loop, with a bound on its rounds.
  unfoldable pub ping_pong : ℕ → Call (Client W) (Unit {0})
  unfolding sent touch on_world
  ping_pong zero s = (diverge, s)
  ping_pong (suc rounds) s =
      if bench.ctx_done s.world
      then (ok tt, s)
      else (attempt (on_world (send nic buf_size polls payload)) >>= sent (ping_pong rounds))
          (touch bench.wait s)

-- The connections that were opened and closed, each by its number.
pub record Conns (W : Type 0) : Type 0 where
  pub opened : List ℕ
  pub closed : List ℕ
  pub world : W

module _ {W : Type 0} (dial : Call W ℕ) (close : ℕ → W → W) where
  unfoldable pub close_conn : ℕ → Conns W → Conns W
  close_conn c s = record s { closed = s.closed ++ c ∷ []; world = close c s.world }

  unfoldable pub close_conns : List ℕ → Conns W → Conns W
  unfolding close_conn
  close_conns [] s = s
  close_conns (c ∷ cs) s = close_conns cs (close_conn c s)

  unfoldable pub dial_one : Call (Conns W) ℕ
  dial_one = do
    c ← on (λ s. s.world) (λ w s. record s { world = w }) dial
    modify (λ s. record s { opened = s.opened ++ c ∷ [] })
    return c

  -- The loop that dials, from the connections so far; an error closes them.
  unfoldable pub dialled :
      (List ℕ → Call (Conns W) (List ℕ)) → List ℕ → Result ℕ → Call (Conns W) (List ℕ)
  unfolding close_conns
  dialled again held (ok c) s = again (held ++ c ∷ []) s
  dialled again held (err e) s = (err e, close_conns held s)
  dialled again held panic s = (panic, s)
  dialled again held diverge s = (diverge, s)

  unfoldable pub dial_all : ℕ → List ℕ → Call (Conns W) (List ℕ)
  unfolding dialled dial_one
  dial_all zero held s = (ok held, s)
  dial_all (suc n) held s = (attempt dial_one >>= dialled (dial_all n) held) s

  -- The rest of runEndToEnd, with its deferred loop; `run` is the warmup, the benchmark and the report.
  unfoldable pub finished :
      (List ℕ → Call W (Unit {0})) → Result (List ℕ) × Conns W → Result (Unit {0}) × Conns W
  unfolding close_conns
  finished run (ok cs, s) =
      let (r, w) = run cs s.world in (r, close_conns cs (record s { world = w }))
  finished run (err e, s) = (err e, s)
  finished run (panic, s) = (panic, s)
  finished run (diverge, s) = (diverge, s)

  unfoldable pub run_end_to_end : (List ℕ → Call W (Unit {0})) → ℕ → Call (Conns W) (Unit {0})
  unfolding finished dial_all
  run_end_to_end run n s = finished run (dial_all n [] s)
