-- ===== src/Rdma/Echo.antt =====
-- cmd/golinker-bench/server.go: runEchoLoop, over the data path of a connection.
pub mod Answers
use golinker.Base.{
  ℕ, zero, suc, ◌+◌, ◌≤◌, ◌<◌, ◌≡◌, refl, sym, ap, ◌∙◌, Bool, true, false, List, [], ◌∷◌, ◌++◌, ◌^◌,
  length, take, All, arith, if◌then◌else◌, append_assoc, append-nil,
}
use golinker.Errors.{Result, ok, err, panic, diverge}
use golinker.Go.State.{Call, ◌>>=◌, ◌>>◌, return, lift, modify, on, attempt}
use golinker.Go.Word.{inc64, add64}
use golinker.Rdma.DataPath.{
  Polled, nothing, completed, Nic, polled, poll_loop, post_result, post_recv, post_send,
  poll_send_cq, send_raw, recv_in_place, copy_recv_to_send,
}
use golinker.Rdma.PingPong.{clamp}

-- AtomicStats.
pub record Stats : Type 0 where
  pub messages_received : ℕ
  pub messages_sent : ℕ
  pub bytes_received : ℕ
  pub bytes_sent : ℕ
  pub errors : ℕ

-- The counters and the C memory and device.
pub record Echo (W : Type 0) : Type 0 where
  pub stats : Stats
  pub world : W

unfoldable pub count_received : ℕ → Stats → Stats
count_received n s = record s {
  messages_received = inc64 s.messages_received;
  bytes_received = add64 s.bytes_received n;
}

unfoldable pub count_sent : ℕ → Stats → Stats
count_sent n s = record s {
  messages_sent = inc64 s.messages_sent;
  bytes_sent = add64 s.bytes_sent n;
}

unfoldable pub count_error : Stats → Stats
count_error s = record s { errors = inc64 s.errors }

module _ {W : Type 0} where
  unfoldable pub counted : (Stats → Stats) → Echo W → Echo W
  counted f s = record s { stats = f s.stats }

  -- A call on the device.
  unfoldable pub device : {A : Type 0} → Call W A → Call (Echo W) A
  device m = on (λ s. s.world) (λ w s. record s { world = w }) m

module _ {W : Type 0} (nic : Nic W) (buf_size fuel : ℕ) where
  -- The branches on the result of SendRaw.
  unfoldable pub sent : Call (Echo W) (Unit {0}) → ℕ → Result (Unit {0}) → Call (Echo W) (Unit {0})
  unfolding counted count_sent count_error
  sent again n (ok u) = do modify (counted (count_sent n)); again
  sent again n (err e) = modify (counted count_error)
  sent again n panic = lift panic
  sent again n diverge = lift diverge

  -- The branches on the result of RecvInPlace.
  unfoldable pub received : Call (Echo W) (Unit {0}) → Result ℕ → Call (Echo W) (Unit {0})
  unfolding counted count_received count_error device copy_recv_to_send send_raw sent
  received again (ok n) = do
    modify (counted (count_received n))
    device (modify (copy_recv_to_send nic buf_size n))
    r ← attempt (device (send_raw nic buf_size fuel n))
    sent again n r
  received again (err e) = modify (counted count_error)
  received again panic = lift panic
  received again diverge = lift diverge

  -- The loop, with a bound on its rounds; `ctx_done` is whether the context is cancelled.
  unfoldable pub echo_loop : (W → Bool) → ℕ → Call (Echo W) (Unit {0})
  unfolding device recv_in_place received
  echo_loop ctx_done zero s = (diverge, s)
  echo_loop ctx_done (suc rounds) s =
      if ctx_done s.world
      then (ok tt, s)
      else (attempt (device (recv_in_place nic buf_size fuel))
            >>= received (echo_loop ctx_done rounds))
          s
