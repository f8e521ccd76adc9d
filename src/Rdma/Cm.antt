-- ===== src/Rdma/Cm.antt =====
-- internal/rdma/real_cm.go: Listen, Dial, AcceptConn and the two Close methods.
use golinker.Base.{ℕ, Bool, true, false, zero, suc, ltb, List, [], ◌∷◌, if◌then◌else◌}
use golinker.Go.State.{Call, ◌>>◌, modify}
use golinker.Rdma.Ledger.{
  Resource, channel, cm_id, pd, send_cq, recv_cq, qp, QpConfig, Lib, Fabric, call_cleanups, acquire,
  attempt_op, await_event, create_channel, create_id, bind_addr, listen, resolve_addr,
  resolve_route, connect, accept, alloc_pd, create_send_cq, create_recv_cq, create_qp,
  addr_resolved, route_resolved, established,
}

-- What the error paths free: all but the QP.
abbrev pub with_id : List Resource
with_id = cm_id ∷ channel ∷ []

abbrev pub with_pd : List Resource
with_pd = pd ∷ with_id

abbrev pub with_send : List Resource
with_send = send_cq ∷ with_pd

abbrev pub with_recv : List Resource
with_recv = recv_cq ∷ with_send

abbrev bigger : ℕ → ℕ → ℕ
bigger n size = if ltb size n then n else size

-- The capacity of both queues: the larger of the limits, and no less than 128.
unfoldable pub cq_size : QpConfig → ℕ
cq_size cfg = bigger 128 (bigger cfg.max_recv_wr cfg.max_send_wr)

module _ {W : Type 0} (lib : Lib W) where
  -- RealCMEventChannel.Listen.
  unfoldable pub listen_on : Call (Fabric W) (Unit {0})
  unfolding acquire attempt_op
  listen_on = do
    acquire lib create_channel channel []
    acquire lib create_id cm_id (channel ∷ [])
    attempt_op lib bind_addr with_id
    attempt_op lib listen with_id

  -- The part of Dial up to the resolved address.
  unfoldable pub dial_address : Call (Fabric W) (Unit {0})
  unfolding acquire attempt_op await_event
  dial_address = do
    acquire lib create_channel channel []
    acquire lib create_id cm_id (channel ∷ [])
    attempt_op lib resolve_addr with_id
    await_event lib addr_resolved with_id

  -- The protection domain and the queues.
  unfoldable pub dial_queues : QpConfig → Call (Fabric W) (Unit {0})
  unfolding acquire
  dial_queues cfg = do
    acquire lib alloc_pd pd with_id
    acquire lib (create_send_cq (cq_size cfg)) send_cq with_pd
    acquire lib (create_recv_cq (cq_size cfg)) recv_cq with_send

  -- The route, the QP and the connection.
  unfoldable pub dial_connect : QpConfig → Call (Fabric W) (Unit {0})
  unfolding acquire attempt_op await_event
  dial_connect cfg = do
    attempt_op lib resolve_route with_recv
    await_event lib route_resolved with_recv
    acquire lib (create_qp cfg) qp with_recv
    attempt_op lib connect with_recv
    await_event lib established with_recv

  -- RealCMDialer.Dial; on success the dialer keeps the id and the channel.
  unfoldable pub dial : QpConfig → Call (Fabric W) (Unit {0})
  unfolding dial_address dial_queues dial_connect
  dial cfg = do
    dial_address
    dial_queues cfg
    dial_connect cfg
    modify (λ f. record f { ids = suc f.ids; channels = suc f.channels })

  -- RealCMEventChannel.AcceptConn.
  unfoldable pub accept_conn : QpConfig → Call (Fabric W) (Unit {0})
  unfolding acquire attempt_op
  accept_conn cfg = do
    acquire lib alloc_pd pd []
    acquire lib (create_send_cq (cq_size cfg)) send_cq (pd ∷ [])
    acquire lib (create_recv_cq (cq_size cfg)) recv_cq (send_cq ∷ pd ∷ [])
    acquire lib (create_qp cfg) qp (recv_cq ∷ send_cq ∷ pd ∷ [])
    attempt_op lib accept (recv_cq ∷ send_cq ∷ pd ∷ [])

-- RealCMEventChannel.Close, from whether it was closed and what its fields hold.
unfoldable pub close_channel :
    {W : Type 0} → Bool → List Resource → Fabric W → Bool × List Resource × Fabric W
unfolding call_cleanups
close_channel true held f = (true, held, f)
close_channel false held f = (true, [], call_cleanups held f)

-- `n` times the resource.
unfoldable pub repeated : ℕ → Resource → List Resource
repeated zero r = []
repeated (suc n) r = r ∷ repeated n r

-- RealCMDialer.Close, without the error of DestroyID that it returns.
unfoldable pub close_dialer : {W : Type 0} → Fabric W → Fabric W
unfolding call_cleanups repeated
close_dialer f =
    record (call_cleanups (repeated f.channels channel) (call_cleanups (repeated f.ids cm_id) f)) {
      ids = 0;
      channels = 0;
    }
