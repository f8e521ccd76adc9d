-- ===== src/Connection/Manager.antt =====
-- pkg/connection/manager.go and cm_events.go. The connections stand in a heap under their id, and
-- the maps of the manager hold ids, as the Go maps hold pointers. What CM and `net` do is a
-- parameter. The registrations with the CQ poller, whose errors the source drops, are left out.
pub mod Events
pub mod Closing
use golinker.Base.{
  ℕ, ◌≡◌, Bool, true, false, ◌&&◌, not, Option, none, some, List, [], ◌∷◌, ◌++◌, map, if◌then◌else◌,
  ◌==◌,
}
use golinker.Api.{
  ConnectionState, init, connecting, connected, draining, closed, error, CmEvent, CmEventType,
  addr_resolved, route_resolved, connect_request, established, disconnected, rejected,
  device_removal,
}
use golinker.Buffer.Pool.{Pool}
use golinker.Buffer.SendPool.{SendPool}
use golinker.Connection.Conn
use golinker.Connection.Conn.{
  Conn, ConnDeps, Link, Verbs, new_conn, set_state, set_send_handler, same_state, post_recv_buffers,
}
use golinker.Errors.{Error, Result, ok, err, panic, diverge, manager_closed, context_done}
use golinker.Go.Chan.{Chan, Received, value, blocked, drained, make, try_send, receive}
use golinker.Go.Chan
use golinker.Go.Dict.{lookup, insert, delete}
use golinker.Go.Int.{ℤ, pos, le_int, to_nat}
use golinker.Go.State.{Call, ◌>>=◌, ◌>>◌, return, fail, gets, modify, lift, attempt, on, put_back}
use golinker.Go.Word.{inc64}

pub record ManagerConfig : Type 0 where
  pub queue_depth : ℤ
  pub has_send_pool : Bool
  pub on_send_complete : Option ℕ
  pub has_recv_pool : Bool
  pub has_pd : Bool
  pub has_acceptor : Bool
  pub has_dialer : Bool

pub record Manager (V : Type 0) : Type 0 where
  pub queue_depth : ℕ
  pub cfg : ManagerConfig
  pub heap : List (ℕ × Conn)
  pub connections : List (ℕ × ℕ)
  pub cm_id_conns : List (ℕ × ℕ)
  pub next_id : ℕ
  pub accept_ch : Chan ℕ
  pub is_closed : Bool
  pub close_done : Bool
  pub send_pool : SendPool
  pub recv_pool : Pool
  pub verbs : V

-- AcceptConn for a CM id, and Dial, which yields the CM id of the new connection.
pub record Cm (V : Type 0) : Type 0 where
  pub accept_conn : ℕ → Call V (Unit {0})
  pub dial : List ℕ → ℕ → Call V ℕ
  pub split_host_port : List ℕ → Result (List ℕ × ℕ)

unfoldable pub new_manager : {V : Type 0} → ManagerConfig → SendPool → Pool → V → Manager V
new_manager cfg sp rp v = record {
  queue_depth = if le_int cfg.queue_depth (pos 0) then 64 else to_nat cfg.queue_depth;
  cfg = cfg;
  heap = [];
  connections = [];
  cm_id_conns = [];
  next_id = 0;
  accept_ch = make 64;
  is_closed = false;
  close_done = false;
  send_pool = sp;
  recv_pool = rp;
  verbs = v;
}

-- `Range` with a test of the state: the first connection that passes is acted on. The order of
-- `sync.Map` is any; here it is that of the table.
unfoldable pub first_in : ConnectionState → List (ℕ × ℕ) → List (ℕ × Conn) → Option ℕ
first_in s [] heap = none
first_in s ((k, id) ∷ rest) heap = elim (lookup id heap) [
  | none ↦ first_in s rest heap
  | some c ↦ if same_state c.state s then some id else first_in s rest heap
]

abbrev or_fallback : Option ℕ → Option ℕ → Option ℕ
or_fallback (some id) other = some id
or_fallback none other = other

-- `if m.cfg.SendPool == nil { return }`
unfoldable pub wire_send_handler : Bool → Option ℕ → Conn → Conn
wire_send_handler has_send_pool on_complete c =
    if has_send_pool then set_send_handler on_complete c else c

module _ {V : Type 0} where
  abbrev pub on_verbs : {A : Type 0} → Call V A → Call (Manager V) A
  on_verbs = on (λ m. m.verbs) (λ v m. record m { verbs = v })

  abbrev pub store_conn : ℕ → Conn → Manager V → Manager V
  store_conn id c m = record m { heap = insert id c m.heap }

  abbrev pub link : Conn → Manager V → Link V
  link c m = record { conn = c; send_pool = m.send_pool; recv_pool = m.recv_pool; verbs = m.verbs }

  abbrev pub put_link : ℕ → Link V → Manager V → Manager V
  put_link id l m = record m {
    heap = insert id l.conn m.heap;
    send_pool = l.send_pool;
    recv_pool = l.recv_pool;
    verbs = l.verbs;
  }

  -- A method of the connection behind a pointer.
  unfoldable pub method_at :
      ℕ → Option Conn → Call (Link V) (Unit {0}) → Call (Manager V) (Unit {0})
  method_at id none f m = (panic, m)
  method_at id (some c) f m = put_back (put_link id) m (f (link c m))

  unfoldable pub method : ℕ → Call (Link V) (Unit {0}) → Call (Manager V) (Unit {0})
  unfolding method_at
  method id f m = method_at id (lookup id m.heap) f m

  unfoldable pub set_conn_state : ConnectionState → ℕ → Call (Manager V) (Unit {0})
  unfolding method
  set_conn_state s id = method id (modify (λ l. record l { conn = set_state s l.conn }))

  -- The ready cases of the `select` in Accept; `none` where the case is not ready.
  accepted : Received ℕ × Chan ℕ → Manager V → Option (Result ℕ × Manager V)
  accepted (value id, ch) m = some (ok id, record m { accept_ch = ch })
  accepted (drained, ch) m = some (err manager_closed, m)
  accepted (blocked, ch) m = none

  unfoldable pub accept_step : Bool → Bool → Manager V → Option (Result ℕ × Manager V)
  unfolding accepted
  accept_step from_ctx ctx_done m =
      if m.is_closed
      then some (err manager_closed, m)
      else if from_ctx
      then (if ctx_done then some (err context_done, m) else none)
      else accepted (receive m.accept_ch) m

  abbrev deref : Option ℕ → Manager V → Option Conn
  deref none m = none
  deref (some id) m = lookup id m.heap

  unfoldable pub get_connection : ℕ → Manager V → Option Conn
  get_connection id m = deref (lookup id m.connections) m

  -- `m.nextID.Add(1)`
  unfoldable pub allocate_conn_id : Call (Manager V) ℕ
  allocate_conn_id m = (ok (inc64 m.next_id), record m { next_id = inc64 m.next_id })

  unfoldable pub store_connection : ℕ → Manager V → Manager V
  store_connection id m = record m { connections = insert id id m.connections }

  -- The non-blocking send to the accept queue: a full queue drops the connection.
  offered : Manager V → Result (Bool × Chan ℕ) → Result (Unit {0}) × Manager V
  offered m (ok (_, ch)) = (ok tt, record m { accept_ch = ch })
  offered m (err e) = (err e, m)
  offered m panic = (panic, m)
  offered m diverge = (diverge, m)

  unfoldable pub offer : ℕ → Call (Manager V) (Unit {0})
  unfolding offered
  offer id m = offered m (try_send m.accept_ch id)

  -- The pointer of the event, or else the fallback.
  unfoldable pub event_target : ConnectionState → CmEvent → Manager V → Option ℕ
  unfolding first_in
  event_target s event m =
      or_fallback (lookup event.id m.cm_id_conns) (first_in s m.connections m.heap)

  abbrev pub act : Option ℕ → (ℕ → Call (Manager V) (Unit {0})) → Call (Manager V) (Unit {0})
  act none f = return tt
  act (some id) f = f id

  -- `m.cmIDConns.Delete(event.ID)`; nothing is deleted where the fallback acted.
  unfoldable pub forget : CmEvent → Manager V → Manager V
  forget event m = record m { cm_id_conns = delete event.id m.cm_id_conns }

  closed_channel : Manager V → Result (Chan ℕ) → Result (Unit {0}) × Manager V
  closed_channel m (ok ch) = (ok tt, record m { accept_ch = ch })
  closed_channel m (err e) = (err e, m)
  closed_channel m panic = (panic, m)
  closed_channel m diverge = (diverge, m)

  unfoldable pub close_accept : Call (Manager V) (Unit {0})
  unfolding closed_channel
  close_accept m = closed_channel m (Chan.close m.accept_ch)

-- `"unknown"`
abbrev pub unknown_addr : List ℕ
unknown_addr = 117 ∷ 110 ∷ 107 ∷ 110 ∷ 111 ∷ 119 ∷ 110 ∷ []

unfoldable pub remote_addr_from_event : CmEvent → List ℕ
remote_addr_from_event e = elim e.private_data [ [] ↦ unknown_addr | x ∷ xs ↦ x ∷ xs ]

module _ {V : Type 0} (verbs : Verbs V) (cm : Cm V) where
  -- handleConnectRequest behind the acceptor's result.
  unfoldable pub admit : CmEvent → ℕ → Bool → Call (Manager V) (Unit {0})
  unfolding remote_addr_from_event store_connection offer
  admit event id has_qp = do
    has_recv ← gets (λ m. m.cfg.has_recv_pool)
    let c = set_state connecting (
        new_conn id (remote_addr_from_event event) (record {
          has_qp = has_qp;
          has_recv_pool = has_recv;
          cm_id = some event.id;
          has_dialer = false;
        }))
    modify (store_conn id c)
    modify (store_connection id)
    modify (λ m. record m { cm_id_conns = insert event.id id m.cm_id_conns })
    offer id

  -- An error of AcceptConn skips the connection.
  unfoldable pub answered : CmEvent → ℕ → Result (Unit {0}) → Call (Manager V) (Unit {0})
  unfolding admit
  answered event id (ok u) = admit event id true
  answered event id (err e) = return tt
  answered event id panic = lift panic
  answered event id diverge = lift diverge

  unfoldable pub request : CmEvent → ℕ → Call (Manager V) (Unit {0})
  unfolding answered
  request event id m =
      if m.cfg.has_acceptor && m.cfg.has_pd
      then (attempt (on_verbs (cm.accept_conn event.id)) >>= answered event id) m
      else admit event id false m

  unfoldable pub handle_connect_request : CmEvent → Call (Manager V) (Unit {0})
  unfolding request allocate_conn_id
  handle_connect_request event m =
      if m.is_closed then return tt m else (allocate_conn_id >>= request event) m

  unfoldable pub handle_established : CmEvent → Call (Manager V) (Unit {0})
  unfolding event_target set_conn_state
  handle_established event = do
    id ← gets (event_target connecting event)
    act id (set_conn_state connected)

  unfoldable pub close_conn : ℕ → Call (Manager V) (Unit {0})
  unfolding method
  close_conn id = method id (Conn.close verbs)

  unfoldable pub handle_disconnected : CmEvent → Call (Manager V) (Unit {0})
  unfolding event_target forget close_conn
  handle_disconnected event = do
    id ← gets (event_target connected event)
    modify (forget event)
    act id close_conn

  unfoldable pub handle_rejected : CmEvent → Call (Manager V) (Unit {0})
  unfolding event_target forget set_conn_state
  handle_rejected event = do
    id ← gets (event_target connecting event)
    modify (forget event)
    act id (set_conn_state error)

  unfoldable pub dispatch : CmEventType → CmEvent → Call (Manager V) (Unit {0})
  unfolding handle_connect_request handle_established handle_disconnected handle_rejected
  dispatch connect_request event = handle_connect_request event
  dispatch established event = handle_established event
  dispatch disconnected event = handle_disconnected event
  dispatch rejected event = handle_rejected event
  dispatch _ event = return tt

  unfoldable pub handle_cm_event : CmEvent → Call (Manager V) (Unit {0})
  unfolding dispatch
  handle_cm_event event = dispatch event.type event

  -- The dialled connection: receive buffers are posted before it counts as connected. An error of
  -- the posts is returned, and the connection is not stored.
  unfoldable pub dialled : ℕ → List ℕ → ℕ → Call (Manager V) ℕ
  unfolding wire_send_handler method set_conn_state store_connection
  dialled id addr cm_id = do
    has_send ← gets (λ m. m.cfg.has_send_pool)
    has_recv ← gets (λ m. m.cfg.has_recv_pool)
    on_complete ← gets (λ m. m.cfg.on_send_complete)
    let c = wire_send_handler has_send on_complete (
        new_conn id addr (record {
          has_qp = true;
          has_recv_pool = has_recv;
          cm_id = some cm_id;
          has_dialer = true;
        }))
    modify (store_conn id c)
    depth ← gets (λ m. m.queue_depth)
    method id (post_recv_buffers verbs depth)
    set_conn_state connected id
    modify (store_connection id)
    modify (λ m. record m { cm_id_conns = insert cm_id id m.cm_id_conns })
    return id

  unfoldable pub mock_connect : ℕ → List ℕ → Call (Manager V) ℕ
  unfolding wire_send_handler set_conn_state store_connection
  mock_connect id addr = do
    has_send ← gets (λ m. m.cfg.has_send_pool)
    has_recv ← gets (λ m. m.cfg.has_recv_pool)
    on_complete ← gets (λ m. m.cfg.on_send_complete)
    let c = wire_send_handler has_send on_complete (
        new_conn id addr
          (record { has_qp = false; has_recv_pool = has_recv; cm_id = none; has_dialer = false }))
    modify (store_conn id c)
    set_conn_state connecting id
    set_conn_state connected id
    modify (store_connection id)
    return id

  unfoldable pub connect_with : List ℕ → ℕ → Call (Manager V) ℕ
  unfolding dialled mock_connect
  connect_with addr id m =
      if m.cfg.has_dialer
      then (lift (cm.split_host_port addr) >>= λ hp.
            on_verbs (cm.dial hp.0 hp.1) >>= λ cm_id. dialled id addr cm_id)
          m
      else mock_connect id addr m

  unfoldable pub connect : List ℕ → Call (Manager V) ℕ
  unfolding connect_with allocate_conn_id
  connect addr m =
      if m.is_closed then fail manager_closed m else (allocate_conn_id >>= connect_with addr) m

  -- The Range of Close: each connection is closed and taken out of the table.
  unfoldable pub close_all : List (ℕ × ℕ) → Call (Manager V) (Unit {0})
  unfolding close_conn
  close_all [] = return tt
  close_all ((k, id) ∷ rest) = do
    close_conn id
    modify (λ m. record m { connections = delete k m.connections })
    close_all rest

  unfoldable pub close : Call (Manager V) (Unit {0})
  unfolding close_all close_accept
  close m =
      if m.is_closed
      then return tt m
      else (modify (λ m. record m { is_closed = true })
            >> close_accept
            >> (gets (λ m. m.connections) >>= close_all)
            >> modify (λ m. record m { close_done = true }))
          m
