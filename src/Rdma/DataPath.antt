-- ===== src/Rdma/DataPath.antt =====
-- internal/rdma/pingpong.go: the data path of a PingPongConn, over the C calls as parameters on a
-- state `W` that holds both buffers.
use golinker.Base.{
  ℕ, zero, suc, Bool, true, false, Option, none, some, List, [], ◌∷◌, ◌++◌, ◌%◌, ◌^◌, length, take,
  drop,
}
use golinker.Errors.{Error, Result, ok, err, diverge, panic, external}
use golinker.Go.State.{Call, ◌>>=◌, ◌>>◌, return, modify}
use golinker.Rdma.PingPong.{clamp}

-- What golinker_poll_cq yields: a negative number, zero, or a completion with whether its status is
-- success and its byte_len.
pub data Polled : Type 0 where
  broken nothing : Polled
  completed : Bool → ℕ → Polled

-- The C calls: memcpy to the head of the send buffer, the posts of a number of bytes of a buffer, and
-- the polls of both queues.
pub record Nic (W : Type 0) : Type 0 where
  pub recv_mem : W → List ℕ
  pub write_send : List ℕ → W → W
  pub post_recv : ℕ → W → Bool × W
  pub post_send : ℕ → W → Bool × W
  pub poll_recv : W → Polled × W
  pub poll_send : W → Polled × W

abbrev post_error : Error
post_error = external 3

abbrev poll_error : Error
poll_error = external 4

abbrev status_error : Error
status_error = external 5

-- `C.uint32_t(n)`
abbrev uint32 : ℕ → ℕ
uint32 n = n % 2 ^ 32

module _ {W : Type 0} where
  -- A post, with its error.
  unfoldable pub post_result : Bool × W → Result (Unit {0}) × W
  post_result (true, w) = (ok tt, w)
  post_result (false, w) = (err post_error, w)

  -- The branches on a poll, with the next round of the loop.
  unfoldable pub polled : Call W ℕ → Polled × W → Result ℕ × W
  polled again (broken, w) = (err poll_error, w)
  polled again (nothing, w) = again w
  polled again (completed true n, w) = (ok n, w)
  polled again (completed false n, w) = (err status_error, w)

  -- The loop that polls a queue until a completion, with a bound on its rounds.
  unfoldable pub poll_loop : (W → Polled × W) → ℕ → Call W ℕ
  unfolding polled
  poll_loop poll zero w = (diverge, w)
  poll_loop poll (suc fuel) w = polled (poll_loop poll fuel) (poll w)

module _ {W : Type 0} (nic : Nic W) (buf_size : ℕ) where
  unfoldable pub post_recv : Call W (Unit {0})
  unfolding post_result
  post_recv w = post_result (nic.post_recv (uint32 buf_size) w)

  unfoldable pub poll_send_cq : ℕ → Call W (Unit {0})
  unfolding poll_loop
  poll_send_cq fuel = do _ ← poll_loop nic.poll_send fuel; return tt

  unfoldable pub post_send : ℕ → Call W (Unit {0})
  unfolding post_result
  post_send n w = post_result (nic.post_send (uint32 n) w)

  -- Send: a longer message is cut to the buffer.
  unfoldable pub send : ℕ → List ℕ → Call W (Unit {0})
  unfolding clamp post_send poll_send_cq
  send fuel bytes = do
    modify (nic.write_send (take (clamp buf_size (length bytes)) bytes))
    post_send (clamp buf_size (length bytes))
    poll_send_cq fuel

  unfoldable pub send_raw : ℕ → ℕ → Call W (Unit {0})
  unfolding clamp post_send poll_send_cq
  send_raw fuel n = do post_send (clamp buf_size n); poll_send_cq fuel

  -- What Recv writes to its destination; `&dst[0]` panics where it has no bytes.
  unfoldable pub copy_out : Option (List ℕ) → ℕ → Call W (Option (List ℕ))
  unfolding clamp
  copy_out none n w = (ok none, w)
  copy_out (some dst) zero w = (ok (some dst), w)
  copy_out (some []) (suc n) w = (panic, w)
  copy_out (some (d ∷ dst)) (suc n) w =
      let copied = clamp (length (d ∷ dst)) (suc n) in
      (ok (some (take copied (nic.recv_mem w) ++ drop copied (d ∷ dst))), w)

  -- Recv: the number of bytes that arrived and the destination after it. The number that it returns
  -- beside an error of the post is left out.
  unfoldable pub recv : ℕ → Option (List ℕ) → Call W (ℕ × Option (List ℕ))
  unfolding poll_loop copy_out post_recv
  recv fuel dst = do
    n ← poll_loop nic.poll_recv fuel
    dst' ← copy_out dst n
    post_recv
    return (n, dst')

  unfoldable pub recv_in_place : ℕ → Call W ℕ
  unfolding poll_loop post_recv
  recv_in_place fuel = do n ← poll_loop nic.poll_recv fuel; post_recv; return n

  unfoldable pub copy_recv_to_send : ℕ → W → W
  unfolding clamp
  copy_recv_to_send n w = nic.write_send (take (clamp buf_size n) (nic.recv_mem w)) w
