-- ===== src/Rdma/PingPong.antt =====
-- internal/rdma/pingpong.go: the two buffers and regions of a PingPongConn.
use golinker.Base.{ℕ, Bool, true, false, List, [], ◌∷◌, arith, ltb, if◌then◌else◌}
use golinker.Errors.{Result, ok, err, panic, diverge}
use golinker.Go.State.{Call, ◌>>◌}
use golinker.Rdma.Ledger.{
  Resource, send_buf, recv_buf, send_mr, recv_mr, Lib, Fabric, acquire, attempt_op, call_cleanups,
  malloc_send, malloc_recv, reg_send, reg_recv, post_recv,
}
use golinker.Rdma.Release.{IsUndone, start-Holds}
use golinker.Rdma.Undo.{After, bind-After, acquire-After, attempt_op-After, call_cleanups-Holds}

-- What a built connection holds, in the order in which Close frees it.
abbrev pub parts : List Resource
parts = recv_mr ∷ send_mr ∷ recv_buf ∷ send_buf ∷ []

-- NewPingPongFromQP; where the first receive cannot be posted it calls Close.
unfoldable pub new_ping_pong : {W : Type 0} → Lib W → Call (Fabric W) (Unit {0})
unfolding acquire attempt_op
new_ping_pong lib = do
  acquire lib malloc_send send_buf []
  acquire lib malloc_recv recv_buf (send_buf ∷ [])
  acquire lib reg_send send_mr (recv_buf ∷ send_buf ∷ [])
  acquire lib reg_recv recv_mr (send_mr ∷ recv_buf ∷ send_buf ∷ [])
  attempt_op lib post_recv parts

-- Close frees what the fields hold and sets them to nil.
unfoldable pub close_ping_pong : {W : Type 0} → List Resource → Fabric W → List Resource × Fabric W
unfolding call_cleanups
close_ping_pong held f = ([], call_cleanups held f)

-- `length > p.bufSize`, in Send and SendRaw.
unfoldable pub clamp : ℕ → ℕ → ℕ
clamp buf_size n = if ltb buf_size n then buf_size else n

abbrev pub is_ok : Result (Unit {0}) → Bool
is_ok (ok u) = true
is_ok _ = false

module _ {W : Type 0} (lib : Lib W) where
  pub new_ping_pong-After : (f : Fabric W) → After f.log parts (new_ping_pong lib f)
  unfolding new_ping_pong
  new_ping_pong-After f =
      let s = f.log in
      bind-After s (send_buf ∷ []) parts (acquire lib malloc_send send_buf [] f) _
        (acquire-After s lib malloc_send send_buf [] f (start-Holds lib f))
        λ f h.
          bind-After s (recv_buf ∷ send_buf ∷ []) parts
            (acquire lib malloc_recv recv_buf (send_buf ∷ []) f) _
            (acquire-After s lib malloc_recv recv_buf (send_buf ∷ []) f h)
            λ f h.
              bind-After s (send_mr ∷ recv_buf ∷ send_buf ∷ []) parts
                (acquire lib reg_send send_mr (recv_buf ∷ send_buf ∷ []) f) _
                (acquire-After s lib reg_send send_mr (recv_buf ∷ send_buf ∷ []) f h)
                λ f h.
                  bind-After s parts parts
                    (acquire lib reg_recv recv_mr (send_mr ∷ recv_buf ∷ send_buf ∷ []) f) _
                    (acquire-After s lib reg_recv recv_mr (send_mr ∷ recv_buf ∷ send_buf ∷ []) f h)
                    λ f h. attempt_op-After s lib post_recv parts f h

  -- Whatever comes of NewPingPongFromQP, its buffers and regions are given back: at once where it
  -- fails, and by Close where it succeeds.
  pub new_ping_pong-IsUndone :
      (f : Fabric W)
      → IsUndone f.log
          (if is_ok (new_ping_pong lib f).0
            then (close_ping_pong parts (new_ping_pong lib f).1).1
            else (new_ping_pong lib f).1).log
  unfolding close_ping_pong
  new_ping_pong-IsUndone f = go (new_ping_pong lib f) (new_ping_pong-After f)
    where
      go :
          (q : Result (Unit {0}) × Fabric W)
          → After f.log parts q
          → IsUndone f.log (if is_ok q.0 then call_cleanups parts q.1 else q.1).log
      go (ok u, g) a = λ r n. omega (arith, call_cleanups-Holds f.log parts g a r n)
      go (err e, g) a = λ r n. omega (arith, a r n)
      go (panic, g) a = absurd a
      go (diverge, g) a = absurd a
