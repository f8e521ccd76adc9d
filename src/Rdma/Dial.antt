-- ===== src/Rdma/Dial.antt =====
-- internal/rdma/dial.go and conn.go: Dial of a connection and its Close, over the dialer and the
-- ping-pong connection. The host and port of the address are parsed elsewhere.
use golinker.Base.{ℕ, ◌≡◌, refl, false, List, ◌==◌, arith}
use golinker.Errors.{Result, ok, err, panic, diverge}
use golinker.Go.State.{Call}
use golinker.Rdma.Cm.{dial, close_dialer, with_recv}
use golinker.Rdma.Ledger.{
  Resource, cm_id, channel, pd, send_cq, recv_cq, Action, QpConfig, Lib, Fabric, call_cleanups,
}
use golinker.Rdma.PingPong.{parts, new_ping_pong, close_ping_pong, new_ping_pong-After}
use golinker.Rdma.Release.{IsLeaked, close_dialer-other, kept}
use golinker.Rdma.Undo.{code, among, Holds, After, call_cleanups-Holds}

-- `apiQPConfig`, from the depth of the queues.
unfoldable pub api_qp_config : ℕ → QpConfig
api_qp_config depth = record {
  max_send_wr = depth;
  max_recv_wr = depth;
  max_send_sge = 1;
  max_recv_sge = 1;
  max_inline_data = 0;
  sq_sig_all = false;
}

unfoldable pub new_dialer : {W : Type 0} → Fabric W → Fabric W
new_dialer f = record f { ids = 0; channels = 0 }

-- The branches on the result of NewPingPongFromQP; a connection is what it holds.
unfoldable pub built :
    {W : Type 0} → Result (Unit {0}) × Fabric W → Result (List Resource) × Fabric W
unfolding close_dialer
built (ok u, f) = (ok parts, f)
built (err e, f) = (err e, close_dialer f)
built (panic, f) = (panic, f)
built (diverge, f) = (diverge, f)

-- The branches on the result of the dialer.
unfoldable pub dialled :
    {W : Type 0} → Lib W → Result (Unit {0}) × Fabric W → Result (List Resource) × Fabric W
unfolding built new_ping_pong close_dialer
dialled lib (ok u, f) = built (new_ping_pong lib f)
dialled lib (err e, f) = (err e, close_dialer f)
dialled lib (panic, f) = (panic, f)
dialled lib (diverge, f) = (diverge, f)

unfoldable pub dial_conn : {W : Type 0} → Lib W → ℕ → Call (Fabric W) (List Resource)
unfolding dialled dial api_qp_config new_dialer
dial_conn lib depth f = dialled lib (dial lib (api_qp_config depth) (new_dialer f))

-- Conn.Close: the ping-pong connection, then the cleanup, which closes the dialer.
unfoldable pub close_conn : {W : Type 0} → List Resource → Fabric W → Fabric W
unfolding close_ping_pong close_dialer
close_conn held f = close_dialer (close_ping_pong held f).1

-- A connection from Dial to its Close, if it was built.
abbrev pub lifetime : {W : Type 0} → Result (List Resource) × Fabric W → Fabric W
lifetime (ok held, f) = close_conn held f
lifetime (_, f) = f

-- What neither Close frees.
abbrev pub IsForgotten : Resource → Type 0
IsForgotten r =
    ((code r == 5) ≡ false)
    × ((code cm_id == code r) ≡ false)
    × ((code channel == code r) ≡ false)
    × (among r with_recv ≡ 1)

module _ {W : Type 0} (lib : Lib W) where
  built-IsLeaked :
      (start : List Action) (r : Resource) (f : Fabric W) (q : Result (Unit {0}) × Fabric W)
      → IsForgotten r
      → Holds start with_recv f.log
      → After f.log parts q
      → IsLeaked start r (lifetime (built q)).log
  unfolding built close_conn close_ping_pong
  built-IsLeaked start r f (ok u, g) (n, i, c, a) h k =
      let (t, d) = close_dialer-other r (call_cleanups parts g) i c in
      omega (arith, h r n, call_cleanups-Holds f.log parts g k r n, t, d, a)
  built-IsLeaked start r f (err e, g) (n, i, c, a) h k =
      let (t, d) = close_dialer-other r g i c in omega (arith, h r n, k r n, t, d, a)
  built-IsLeaked start r f (panic, g) w h k = absurd k
  built-IsLeaked start r f (diverge, g) w h k = absurd k

  leaked :
      (r : Resource) (depth : ℕ) (f : Fabric W)
      → IsForgotten r
      → (dial lib (api_qp_config depth) (new_dialer f)).0 ≡ ok tt
      → IsLeaked f.log r (lifetime (dial_conn lib depth f)).log
  unfolding dial_conn dialled new_dialer
  leaked r depth f w h =
      go (dial lib (api_qp_config depth) (new_dialer f)) h
        (kept lib (api_qp_config depth) (new_dialer f) h)
    where
      go :
          (q : Result (Unit {0}) × Fabric W)
          → q.0 ≡ ok tt
          → Holds f.log with_recv q.1.log
          → IsLeaked f.log r (lifetime (dialled lib q)).log
      go (ok u, g) e k =
          built-IsLeaked f.log r g (new_ping_pong lib g) w k (new_ping_pong-After lib g)
      go (err x, g) e k = cc
      go (panic, g) e k = cc
      go (diverge, g) e k = cc

  -- Once the handshake has succeeded, the protection domain and both completion queues of the
  -- connection are held for good: they are freed neither where the buffers cannot be set up, nor by
  -- the Close of the connection.
  pub dial_conn-IsLeaked :
      (depth : ℕ) (f : Fabric W)
      → (dial lib (api_qp_config depth) (new_dialer f)).0 ≡ ok tt
      → IsLeaked f.log pd (lifetime (dial_conn lib depth f)).log
        × IsLeaked f.log send_cq (lifetime (dial_conn lib depth f)).log
        × IsLeaked f.log recv_cq (lifetime (dial_conn lib depth f)).log
  dial_conn-IsLeaked depth f h = (
    leaked pd depth f (refl, refl, refl, refl) h,
    leaked send_cq depth f (refl, refl, refl, refl) h,
    leaked recv_cq depth f (refl, refl, refl, refl) h,
  )
