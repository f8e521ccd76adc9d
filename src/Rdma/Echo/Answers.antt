-- ===== src/Rdma/Echo/Answers.antt =====
-- cmd/golinker-bench/server.go: what runEchoLoop answers, on a device that keeps the stated laws.
use golinker.Base.{
  ◌+◌, ℕ, zero, suc, ◌≤◌, ◌<◌, ◌≡◌, refl, sym, ap, ◌∙◌, Bool, true, false, List, [], ◌∷◌, ◌++◌, ◌^◌,
  ◌%◌, length, take, All, arith, ltb, append_assoc, append-nil,
}
use golinker.Errors.{ok}
use golinker.Rdma.DataPath.{
  nothing, completed, Nic, polled, poll_loop, post_result, post_recv, post_send, poll_send_cq,
  send_raw, recv_in_place, copy_recv_to_send,
}
use golinker.Rdma.Echo.{
  Echo, count_received, count_sent, counted, device, sent, received, echo_loop,
}
use golinker.Rdma.PingPong.{clamp}

-- A device and a peer: the messages that are to come and those that were sent, and how many polls of
-- each queue stay empty before the next completion. `post_recv` says that the peer is one that waits
-- for its answer before it sends again, as the benchmark client does, so that no message lands in the
-- posted buffer before the last one is copied; `continues`, that the context is not cancelled while
-- messages are to come.
pub record NicLaws {W : Type 0} (nic : Nic W) (ctx_done : W → Bool) (patience : ℕ) : Type 0 where
  pub boxes : W → List (List ℕ) × List (List ℕ)
  pub send_mem : W → List ℕ
  pub idle_recv : W → ℕ
  pub idle_send : W → ℕ
  pub patient_recv : (w : W) → idle_recv w ≤ patience
  pub patient_send : (w : W) → idle_send w ≤ patience
  pub continues :
      (m : List ℕ) (ms : List (List ℕ)) (w : W) → (boxes w).0 ≡ m ∷ ms → ctx_done w ≡ false
  pub recv_waits :
      (n : ℕ) (w : W)
      → idle_recv w ≡ suc n
      → (v : W) × (nic.poll_recv w ≡ (nothing, v)) × (boxes v ≡ boxes w) × (idle_recv v ≡ n)
  pub recv_comes :
      (m : List ℕ) (ms out : List (List ℕ)) (w : W)
      → idle_recv w ≡ 0
      → boxes w ≡ (m ∷ ms, out)
      → (v : W) × (nic.poll_recv w ≡ (completed true (length m), v))
        × (take (length m) (nic.recv_mem v) ≡ m)
        × (boxes v ≡ (ms, out))
  pub post_recv :
      (n : ℕ) (w : W)
      → (v : W) × (nic.post_recv n w ≡ (true, v))
        × (nic.recv_mem v ≡ nic.recv_mem w)
        × (boxes v ≡ boxes w)
  pub copies :
      (bytes : List ℕ) (w : W)
      → (take (length bytes) (send_mem (nic.write_send bytes w)) ≡ bytes)
        × (boxes (nic.write_send bytes w) ≡ boxes w)
  pub post_send :
      (n : ℕ) (w : W)
      → (v : W) × (nic.post_send n w ≡ (true, v))
        × (boxes v ≡ ((boxes w).0, (boxes w).1 ++ take n (send_mem w) ∷ []))
  pub send_waits :
      (n : ℕ) (w : W)
      → idle_send w ≡ suc n
      → (v : W) × (nic.poll_send w ≡ (nothing, v)) × (boxes v ≡ boxes w) × (idle_send v ≡ n)
  pub send_ends :
      (w : W)
      → idle_send w ≡ 0
      → (v : W) × (n : ℕ) × (nic.poll_send w ≡ (completed true n, v)) × (boxes v ≡ boxes w)

-- A message that the buffer holds.
abbrev pub IsShort : ℕ → List ℕ → Type 0
IsShort buf_size m = length m ≤ buf_size

module _ {W : Type 0} (nic : Nic W) (ctx_done : W → Bool) (patience buf_size : ℕ)
    (laws : NicLaws nic ctx_done patience) where
  take-length :
      (m bytes : List ℕ) → take (length m) bytes ≡ m → length (take (length m) bytes) ≡ length m
  take-length m bytes h = ap length h

  -- More rounds than the polls that stay empty end with the completion.
  recv_loop :
      (fuel : ℕ) (m : List ℕ) (ms out : List (List ℕ)) (w : W)
      → laws.idle_recv w < fuel
      → laws.boxes w ≡ (m ∷ ms, out)
      → (v : W) × (poll_loop nic.poll_recv fuel w ≡ (ok (length m), v))
        × (take (length m) (nic.recv_mem v) ≡ m)
        × (laws.boxes v ≡ (ms, out))
  unfolding poll_loop polled
  recv_loop zero m ms out w h b = absurd (omega (arith, h))
  recv_loop (suc fuel) m ms out w h b =
      go (laws.idle_recv w) refl (λ v i c. recv_loop fuel m ms out v i c)
    where
      go :
          (n : ℕ)
          → laws.idle_recv w ≡ n
          → ((v : W)
              → laws.idle_recv v < fuel
              → laws.boxes v ≡ (m ∷ ms, out)
              → (x : W) × (poll_loop nic.poll_recv fuel v ≡ (ok (length m), x))
                × (take (length m) (nic.recv_mem x) ≡ m)
                × (laws.boxes x ≡ (ms, out)))
          → (v : W) × (polled (poll_loop nic.poll_recv fuel) (nic.poll_recv w) ≡ (ok (length m), v))
            × (take (length m) (nic.recv_mem v) ≡ m)
            × (laws.boxes v ≡ (ms, out))
      go zero i again = let (v, e, t, c) = laws.recv_comes m ms out w i b in (v, rw e refl, t, c)
      go (suc n) i again =
          let (v, e, c, j) = laws.recv_waits n w i in
          let (x, f, t, d) = again v (omega (arith, h, i, j)) (c ∙ b) in (x, rw e f, t, d)

  send_loop :
      (fuel : ℕ) (w : W)
      → laws.idle_send w < fuel
      → (v : W) × (n : ℕ) × (poll_loop nic.poll_send fuel w ≡ (ok n, v))
        × (laws.boxes v ≡ laws.boxes w)
  unfolding poll_loop polled
  send_loop zero w h = absurd (omega (arith, h))
  send_loop (suc fuel) w h = go (laws.idle_send w) refl (λ v i. send_loop fuel v i)
    where
      go :
          (n : ℕ)
          → laws.idle_send w ≡ n
          → ((v : W)
              → laws.idle_send v < fuel
              → (x : W) × (k : ℕ) × (poll_loop nic.poll_send fuel v ≡ (ok k, x))
                × (laws.boxes x ≡ laws.boxes v))
          → (v : W) × (k : ℕ) × (polled (poll_loop nic.poll_send fuel) (nic.poll_send w)
              ≡ (ok k, v))
            × (laws.boxes v ≡ laws.boxes w)
      go zero i again = let (v, k, e, c) = laws.send_ends w i in (v, k, rw e refl, c)
      go (suc n) i again =
          let (v, e, c, j) = laws.send_waits n w i in
          let (x, k, f, d) = again v (omega (arith, h, i, j)) in (x, k, rw e f, d ∙ c)

  recv_in_place-takes :
      (fuel : ℕ) (m : List ℕ) (ms out : List (List ℕ)) (w : W)
      → patience < fuel
      → laws.boxes w ≡ (m ∷ ms, out)
      → (v : W) × (recv_in_place nic buf_size fuel w ≡ (ok (length m), v))
        × (take (length m) (nic.recv_mem v) ≡ m)
        × (laws.boxes v ≡ (ms, out))
  unfolding recv_in_place post_recv post_result
  recv_in_place-takes fuel m ms out w h b =
      let (v, e, t, c) = recv_loop fuel m ms out w (omega (arith, h, laws.patient_recv w)) b in
      let (x, f, k, d) = laws.post_recv (buf_size % 2 ^ 32) v in (x, rw (e, f) refl, rw k t, d ∙ c)

  send_raw-posts :
      (fuel : ℕ) (m : List ℕ) (ms out : List (List ℕ)) (w : W)
      → patience < fuel
      → length m ≤ buf_size
      → buf_size < 2 ^ 32
      → take (length m) (laws.send_mem w) ≡ m
      → laws.boxes w ≡ (ms, out)
      → (v : W) × (send_raw nic buf_size fuel (length m) w ≡ (ok tt, v))
        × (laws.boxes v ≡ (ms, out ++ m ∷ []))
  unfolding send_raw post_send post_result poll_send_cq clamp
  send_raw-posts fuel m ms out w h s z t b =
      let within : ltb buf_size (length m) ≡ false = ground arith in
      let small : length m % 2 ^ 32 ≡ length m = omega arith in
      let (v, e, c) = laws.post_send (length m) w in
      let (x, k, f, d) = send_loop fuel v (omega (arith, h, laws.patient_send v)) in
      (
        x,
        rw (within, small, e, f) refl,
        d
            ∙ c
            ∙ ap (λ q. (q.0, q.1 ++ take (length m) (laws.send_mem w) ∷ [])) b
            ∙ ap (λ q. (ms, out ++ q ∷ [])) t,
      )

  copied :
      (m : List ℕ) (v : W)
      → length m ≤ buf_size
      → take (length m) (nic.recv_mem v) ≡ m
      → copy_recv_to_send nic buf_size (length m) v ≡ nic.write_send m v
  unfolding copy_recv_to_send clamp
  copied m v short t =
      let within : ltb buf_size (length m) ≡ false = ground arith in
      rw (copy_recv_to_send, clamp, within) (ap (λ l. nic.write_send l v) t)

  -- Over a device on which no call fails and a peer that sends its next message only when it has the
  -- answer to the last, while the context is not cancelled and with fewer empty polls than the fuel
  -- of a loop: in one round for each message, runEchoLoop sends back every message of at most
  -- `buf_size` bytes unchanged and in order, and counts no error; then the loop goes on.
  pub echo_loop-echoes :
      (fuel rounds : ℕ) (ms out : List (List ℕ)) (s : Echo W)
      → patience < fuel
      → buf_size < 2 ^ 32
      → All (IsShort buf_size) ms
      → laws.boxes s.world ≡ (ms, out)
      → (e : Echo W) × (echo_loop nic buf_size fuel ctx_done (length ms + rounds) s
          ≡ echo_loop nic buf_size fuel ctx_done rounds e)
        × (laws.boxes e.world ≡ ([], out ++ ms))
        × (e.stats.errors ≡ s.stats.errors)
  unfolding echo_loop received sent counted count_received count_sent device
  echo_loop-echoes fuel rounds [] out s h z a b =
      let none_more : 0 + rounds ≡ rounds = omega arith in
      (s, rw none_more refl, b ∙ ap (λ l. ([], l)) (sym (append-nil out)), refl)
  echo_loop-echoes fuel rounds (m ∷ ms) out s h z (short, a) b =
      let going = laws.continues m ms s.world (ap (λ q. q.0) b) in
      let (v, e, t, c) = recv_in_place-takes fuel m ms out s.world h b in
      let (k, d) = laws.copies m v in
      let (x, f, g) = send_raw-posts fuel m ms out (nic.write_send m v) h short z k (d ∙ c) in
      let stats = count_sent (length m) (count_received (length m) s.stats) in
      let (y, i, j, r) =
        echo_loop-echoes fuel rounds ms (out ++ m ∷ []) (record { stats = stats; world = x }) h z a
          g in
      let one_more : suc (length ms) + rounds ≡ suc (length ms + rounds) = omega arith in
      (
        y,
        rw (one_more, going, e, copied m v short t, f) i,
        j ∙ ap (λ l. ([], l)) (append_assoc out (m ∷ []) ms),
        r,
      )
