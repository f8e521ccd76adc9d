-- ===== src/Connection/Conn.antt =====
-- pkg/connection/conn.go. A method is a call on a `Link`: the connection beside the pools and the
-- verbs that it shares. A registered callback is a number, and a call of it is logged.
pub mod State
pub mod Sending
pub mod Outgoing
pub mod Receiving
use golinker.Base.{
  ℕ, zero, suc, ◌%◌, ◌^◌, Bool, true, false, ◌&&◌, ◌||◌, not, Option, none, some, List, [], ◌∷◌,
  ◌++◌, map, leb, ◌==◌, if◌then◌else◌, length, take,
}
use golinker.Api.{
  Buffer, Message, ConnectionState, init, connecting, connected, draining, closed, error,
  WorkCompletion, WcOpcode, WcStatus, Sge, send, rdma_write, rdma_read, recv, recv_rdma_with_imm,
  SendWr, RecvWr, send_signaled,
}
use golinker.Buffer.Pool.{Pool, alloc, free}
use golinker.Buffer.RecvPool.{recv_wr}
use golinker.Buffer.SendPool.{SendPool, key, complete_send}
use golinker.Cq.Dispatch.{Tracker, track_send, on_error}
use golinker.Errors.{
  Error, Result, ok, err, panic, diverge, not_connected, conn_closed, context_done, in_bounds,
}
use golinker.Go.Chan.{Chan, Received, value, blocked, drained, make, try_send, receive}
use golinker.Go.Dict.{lookup, insert, delete}
use golinker.Go.State.{
  Call, ◌>>=◌, ◌>>◌, return, fail, fault, gets, modify, lift, attempt, on, put_back,
}
use golinker.Go.Word.{inc64}
use golinker.Message.Wire.{unpack_batch}

-- A received message: the copied payload and the immediate value.
pub record Incoming : Type 0 where
  pub payload : List ℕ
  pub imm_data : ℕ

-- The call of a callback with the old and the new state.
pub record Notified : Type 0 where
  pub callback : ℕ
  pub old : ConnectionState
  pub new : ConnectionState

-- `wrid_map` is the table of the send handler, if one was set, and `on_complete` its callback.
pub record Conn : Type 0 where
  pub id : ℕ
  pub remote_addr : List ℕ
  pub has_qp : Bool
  pub has_recv_pool : Bool
  pub cm_id : Option ℕ
  pub has_dialer : Bool
  pub state : ConnectionState
  pub callbacks : List ℕ
  pub notified : List Notified
  pub recv_ch : Chan Incoming
  pub done : Bool
  pub wrid_map : Option (List (ℕ × Option Buffer))
  pub on_complete : Option ℕ
  pub next_wrid : ℕ
  pub recv_bufs : List (ℕ × Buffer)

-- The fields of ConnDeps that the connection tests or passes on.
pub record ConnDeps : Type 0 where
  pub has_qp : Bool
  pub has_recv_pool : Bool
  pub cm_id : Option ℕ
  pub has_dialer : Bool

unfoldable pub new_conn : ℕ → List ℕ → ConnDeps → Conn
new_conn id remote_addr deps = record {
  id = id;
  remote_addr = remote_addr;
  has_qp = deps.has_qp;
  has_recv_pool = deps.has_recv_pool;
  cm_id = deps.cm_id;
  has_dialer = deps.has_dialer;
  state = init;
  callbacks = [];
  notified = [];
  recv_ch = make 128;
  done = false;
  wrid_map = none;
  on_complete = none;
  next_wrid = 0;
  recv_bufs = [];
}

-- The verbs and the CM dialer that a connection calls; `bytes` reads the registered memory, which
-- the device writes.
pub record Verbs (V : Type 0) : Type 0 where
  pub post_send : SendWr → Call V (Unit {0})
  pub post_recv : RecvWr → Call V (Unit {0})
  pub disconnect : ℕ → Call V (Unit {0})
  pub bytes : Buffer → V → List ℕ

pub record Link (V : Type 0) : Type 0 where
  pub conn : Conn
  pub send_pool : SendPool
  pub recv_pool : Pool
  pub verbs : V

abbrev pub same_state : ConnectionState → ConnectionState → Bool
same_state init init = true
same_state connecting connecting = true
same_state connected connected = true
same_state draining draining = true
same_state closed closed = true
same_state error error = true
same_state _ _ = false

-- The atomic swap of the state, then the callbacks in the order of their registration.
unfoldable pub transition : ConnectionState → Conn → Conn
transition new c = if same_state c.state new then record c { state = new } else record c {
  state = new;
  notified = c.notified ++ map (λ f. record { callback = f; old = c.state; new = new }) c.callbacks;
}

unfoldable pub set_state : ConnectionState → Conn → Conn
unfolding transition
set_state = transition

unfoldable pub on_state_change : ℕ → Conn → Conn
on_state_change f c = record c { callbacks = c.callbacks ++ f ∷ [] }

unfoldable pub set_send_handler : Option ℕ → Conn → Conn
set_send_handler on_complete c = record c { wrid_map = some []; on_complete = on_complete }

unfoldable pub track_recv_buffer : ℕ → Buffer → Conn → Conn
track_recv_buffer wrid b c = record c { recv_bufs = insert wrid b c.recv_bufs }

-- The ready cases of the `select` in Recv: the Go run time picks any of them.
pub data Ready : Type 0 where
  queue context stopped : Ready

taken : Received Incoming × Chan Incoming → Conn → Option (Result Incoming × Conn)
taken (value m, ch) c = some (ok m, record c { recv_ch = ch })
taken (drained, ch) c = some (err conn_closed, c)
taken (blocked, ch) c = none

-- `none` where the picked case is not ready.
unfoldable pub recv_step : Ready → Bool → Conn → Option (Result Incoming × Conn)
unfolding taken
recv_step queue ctx_done c = taken (receive c.recv_ch) c
recv_step context ctx_done c = if ctx_done then some (err context_done, c) else none
recv_step stopped ctx_done c = if c.done then some (err conn_closed, c) else none

-- A full queue drops the message.
queued : Conn → Result (Bool × Chan Incoming) → Result (Unit {0}) × Conn
queued c (ok (_, ch)) = (ok tt, record c { recv_ch = ch })
queued c (err e) = (err e, c)
queued c panic = (panic, c)
queued c diverge = (diverge, c)

unfoldable pub deliver_recv : Incoming → Call Conn (Unit {0})
unfolding queued
deliver_recv m c = queued c (try_send c.recv_ch m)

-- The loop over the unpacked payloads. `&msgBuf[0]` of an empty payload is out of range.
unfoldable pub deliver_all : ℕ → List (List ℕ) → Call Conn (Unit {0})
unfolding deliver_recv
deliver_all imm [] = return tt
deliver_all imm ([] ∷ rest) = fault
deliver_all imm ((x ∷ xs) ∷ rest) = do
  deliver_recv (record { payload = x ∷ xs; imm_data = imm })
  deliver_all imm rest

-- `close(c.done)` unless it is closed already.
unfoldable pub shut : Conn → Conn
unfolding transition
shut c = transition closed (record (transition draining c) { done = true })

-- `&api.WorkCompletion{WRID: wrid}`
abbrev pub failed_wc : ℕ → WorkCompletion
failed_wc wrid = record {
  wrid = wrid;
  status = WcStatus.success;
  opcode = send;
  byte_len = 0;
  qpn = 0;
  imm = 0;
  has_imm = false;
}

abbrev pub sg_list : Option Buffer → ℕ → List Sge
sg_list none len = []
sg_list (some b) len = record { addr = key b; len = len % 2 ^ 32; lkey = b.lkey } ∷ []

abbrev pub send_wr : ℕ → Message → SendWr
send_wr wrid msg = record {
  wrid = wrid;
  sg_list = sg_list msg.buffer msg.len;
  opcode = 0;
  send_flags = send_signaled;
  imm_data = msg.imm_data;
}

abbrev pub is_recv : WcOpcode → Bool
is_recv recv = true
is_recv recv_rdma_with_imm = true
is_recv _ = false

module _ {V : Type 0} where
  abbrev pub on_conn : {A : Type 0} → Call Conn A → Call (Link V) A
  on_conn = on (λ l. l.conn) (λ c l. record l { conn = c })

  abbrev pub on_recv_pool : {A : Type 0} → Call Pool A → Call (Link V) A
  on_recv_pool = on (λ l. l.recv_pool) (λ p l. record l { recv_pool = p })

  abbrev pub on_verbs : {A : Type 0} → Call V A → Call (Link V) A
  on_verbs = on (λ l. l.verbs) (λ v l. record l { verbs = v })

  -- The send handler's table beside the send pool.
  abbrev pub tracker : List (ℕ × Option Buffer) → Link V → Tracker SendPool
  tracker m l = record { wrid_map = m; world = l.send_pool }

  abbrev pub put_tracker : Tracker SendPool → Link V → Link V
  put_tracker t l = record l {
    conn = record l.conn { wrid_map = some t.wrid_map };
    send_pool = t.world;
  }

  -- `if c.sendHandler != nil && msg.Buffer != nil`
  unfoldable pub track : Option (List (ℕ × Option Buffer)) → ℕ → Option Buffer → Link V → Link V
  track (some m) wrid (some b) l = put_tracker (track_send wrid (some b) (tracker m l)) l
  track _ wrid _ l = l

  -- The handler's OnError for the request that was refused.
  unfoldable pub untrack_failed :
      Option (List (ℕ × Option Buffer))
      → WorkCompletion
      → Error
      → Option Buffer
      → Call (Link V) (Unit {0})
  untrack_failed (some m) wc e (some b) l =
      put_back put_tracker l (on_error complete_send (some wc) e (tracker m l))
  untrack_failed _ wc e _ l = return tt l

  unfoldable pub sent : ℕ → Message → Result (Unit {0}) → Call (Link V) (Unit {0})
  unfolding untrack_failed
  sent wrid msg (err e) l =
      (untrack_failed l.conn.wrid_map (failed_wc wrid) e msg.buffer >> fail e) l
  sent wrid msg r l = lift r l

module _ {V : Type 0} (verbs : Verbs V) where
  -- Send behind its check of the state, with the new WRID.
  unfoldable pub post : ℕ → Message → Call (Link V) (Unit {0})
  unfolding track sent
  post wrid msg = do
    modify (λ l. record l { conn = record l.conn { next_wrid = wrid } })
    modify (λ l. track l.conn.wrid_map wrid msg.buffer l)
    r ← attempt (on_verbs (verbs.post_send (send_wr wrid msg)))
    sent wrid msg r

  unfoldable pub send_msg : Message → Call (Link V) (Unit {0})
  unfolding post
  send_msg msg l =
      if same_state l.conn.state connected
      then post (inc64 l.conn.next_wrid) msg l
      else fail not_connected l

  -- The best-effort disconnect, whose error is dropped.
  unfoldable pub cm_disconnect : Bool → Option ℕ → Call (Link V) (Unit {0})
  cm_disconnect true (some id) = do _ ← attempt (on_verbs (verbs.disconnect id)); return tt
  cm_disconnect _ _ = return tt

  unfoldable pub close : Call (Link V) (Unit {0})
  unfolding cm_disconnect shut
  close l =
      if same_state l.conn.state closed || same_state l.conn.state draining
      then return tt l
      else (cm_disconnect l.conn.has_dialer l.conn.cm_id
            >> modify (λ l. record l { conn = shut l.conn }))
          l

  -- PostRecv failed: forget the buffer, return it to the pool, and report.
  unfoldable pub recv_posted : Buffer → Result (Unit {0}) → Call (Link V) (Unit {0})
  recv_posted b (err e) = do
    modify (λ l. record l { conn = record l.conn { recv_bufs = delete (key b) l.conn.recv_bufs } })
    on_recv_pool (free (some b))
    fail e
  recv_posted b r = lift r

  -- One buffer: track it under its address, and post it. A nil buffer is dereferenced.
  unfoldable pub post_recv_one : Option Buffer → Call (Link V) (Unit {0})
  unfolding track_recv_buffer recv_posted
  post_recv_one none = fault
  post_recv_one (some b) = do
    modify (λ l. record l { conn = track_recv_buffer (key b) b l.conn })
    r ← attempt (on_verbs (verbs.post_recv (recv_wr b)))
    recv_posted b r

  unfoldable pub post_loop : ℕ → Call (Link V) (Unit {0})
  unfolding post_recv_one
  post_loop zero = return tt
  post_loop (suc n) = do b ← on_recv_pool (alloc 0); post_recv_one b; post_loop n

  unfoldable pub post_recv_buffers : ℕ → Call (Link V) (Unit {0})
  unfolding post_loop
  post_recv_buffers count l =
      if l.conn.has_recv_pool && l.conn.has_qp then post_loop count l else return tt l

  unfoldable pub replenish_recv : Call (Link V) (Unit {0})
  unfolding post_recv_buffers
  replenish_recv = do _ ← attempt (post_recv_buffers 1); return tt

  -- The messages that a filled buffer holds; an error of the wire format is only reported to
  -- `OnError`, which does nothing.
  unfoldable pub unpacked : WorkCompletion → Result (List (List ℕ)) → Call (Link V) (Unit {0})
  unfolding replenish_recv deliver_all
  unpacked wc (ok msgs) = do
    on_conn (deliver_all (if wc.has_imm then wc.imm else 0) msgs)
    replenish_recv
  unpacked wc (err e) = replenish_recv
  unpacked wc panic = lift panic
  unpacked wc diverge = lift diverge

  -- `data[:wc.ByteLen]` of the tracked buffer.
  unfoldable pub filled : WorkCompletion → Option Buffer → Call (Link V) (Unit {0})
  unfolding unpacked
  filled wc none = replenish_recv
  filled wc (some b) = do
    bytes ← on_verbs (gets (verbs.bytes b))
    lift (in_bounds (leb wc.byte_len (length bytes)))
    unpacked wc (unpack_batch (take wc.byte_len bytes) wc.byte_len)

  unfoldable pub received : WorkCompletion → Call (Link V) (Unit {0})
  unfolding filled
  received wc = do
    b ← gets (λ l. lookup wc.wrid l.conn.recv_bufs)
    modify (λ l. record l { conn = record l.conn { recv_bufs = delete wc.wrid l.conn.recv_bufs } })
    filled wc b

  unfoldable pub on_completion : WorkCompletion → Call (Link V) (Unit {0})
  unfolding received
  on_completion wc =
      if is_recv wc.opcode
      then if wc.byte_len == 0 then replenish_recv else received wc
      else return tt
