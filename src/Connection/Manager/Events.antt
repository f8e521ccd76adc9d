-- ===== src/Connection/Manager/Events.antt =====
-- pkg/connection/cm_events.go: what the CM events do to a connection.
use golinker.Base.{
  ℕ, ◌≡◌, refl, ap, ◌∙◌, true, false, ◌&&◌, none, some, [], ◌∷◌, ◌++◌, arith, Bool-cases, inl, inr,
  ltb, length,
}
use golinker.Api.{ConnectionState, connecting, connected, closed, CmEvent, Message}
use golinker.Connection.Conn.{Conn, Verbs, new_conn, set_state, transition, close}
use golinker.Connection.Conn.State.{open_state, close-Closes}
use golinker.Connection.Manager.{
  Manager, Cm, handle_connect_request, request, answered, admit, offer, allocate_conn_id,
  store_connection, handle_established, handle_disconnected, event_target, set_conn_state, method,
  method_at, close_conn, forget, get_connection, remote_addr_from_event, link, put_link,
}
use golinker.Errors.{ok, Returns}
use golinker.Go.Chan.{Chan, try_send}
use golinker.Go.Dict.{lookup, insert, Distinct, lookup-insert_self, lookup-delete_self}
use golinker.Go.State.{put_back}
use golinker.Go.Word.{inc64}

transition-state : (s : ConnectionState) (c : Conn) → (transition s c).state ≡ s
unfolding transition
transition-state s c = ground arith

transition-wrid_map : (s : ConnectionState) (c : Conn) → (transition s c).wrid_map ≡ c.wrid_map
unfolding transition
transition-wrid_map s c = ground arith

transition-recv_bufs : (s : ConnectionState) (c : Conn) → (transition s c).recv_bufs ≡ c.recv_bufs
unfolding transition
transition-recv_bufs s c = ground arith

module _ {V : Type 0} (verbs : Verbs V) (cm : Cm V) where
  -- An Established event for a known CM id connects its connection, whatever state it was in.
  established_at :
      (m : Manager V) (event : CmEvent) (id : ℕ) (c : Conn)
      → lookup event.id m.cm_id_conns ≡ some id
      → lookup id m.heap ≡ some c
      → handle_established verbs cm event m
        ≡ (ok tt, record m { heap = insert id (transition connected c) m.heap })
  unfolding handle_established event_target set_conn_state method method_at set_state
  established_at m event id c e h = rw (e, h)

  -- An Established event makes the connection of its CM id connected from every state, also from
  -- closed, and keeps its handler table and its receive buffers.
  pub handle_established-connects :
      (m : Manager V) (event : CmEvent) (id : ℕ) (c : Conn)
      → lookup event.id m.cm_id_conns ≡ some id
      → lookup id m.heap ≡ some c
      → ((handle_established verbs cm event m).0 ≡ ok tt)
        × ((c' : Conn) × (lookup id (handle_established verbs cm event m).1.heap ≡ some c')
            × (c'.state ≡ connected)
            × (c'.wrid_map ≡ c.wrid_map)
            × (c'.recv_bufs ≡ c.recv_bufs))
  handle_established-connects m event id c e h = rw (established_at m event id c e h) (
    refl,
    (
      transition connected c,
      lookup-insert_self id (transition connected c) m.heap,
      transition-state connected c,
      transition-wrid_map connected c,
      transition-recv_bufs connected c,
    ),
  )

  -- The connection that a request makes.
  abbrev requested : Manager V → CmEvent → Conn
  requested m event = transition connecting (
      new_conn (inc64 m.next_id) (remote_addr_from_event event) (record {
        has_qp = true;
        has_recv_pool = m.cfg.has_recv_pool;
        cm_id = some event.id;
        has_dialer = false;
      }))

  offer_open :
      (id : ℕ) (m : Manager V)
      → m.accept_ch.is_closed ≡ false
      → (ch : Chan ℕ) × (offer id m ≡ (ok tt, record m { accept_ch = ch }))
  unfolding offer try_send
  offer_open id m a = elim (Bool-cases (ltb (length m.accept_ch.items) m.accept_ch.cap)) [
    | inl fits ↦ (record m.accept_ch { items = m.accept_ch.items ++ id ∷ [] }, ground arith)
    | inr full ↦ (m.accept_ch, ground arith)
  ]

  -- The tables after a request.
  abbrev admitted : Manager V → CmEvent → V → Manager V
  admitted m event v = record m {
    heap = insert (inc64 m.next_id) (requested m event) m.heap;
    connections = insert (inc64 m.next_id) (inc64 m.next_id) m.connections;
    cm_id_conns = insert event.id (inc64 m.next_id) m.cm_id_conns;
    next_id = inc64 m.next_id;
    verbs = v;
  }

  requested_at :
      (m : Manager V) (event : CmEvent) (v : V)
      → m.is_closed ≡ false
      → (m.cfg.has_acceptor && m.cfg.has_pd) ≡ true
      → cm.accept_conn event.id m.verbs ≡ (ok tt, v)
      → handle_connect_request verbs cm event m ≡ offer (inc64 m.next_id) (admitted m event v)
  unfolding handle_connect_request allocate_conn_id request answered admit set_state
      store_connection
  requested_at m event v o q p = rw (o, q, p)

  -- A ConnectRequest that the acceptor accepts, and its Established event: the connection stands in
  -- the tables under a new id and is connected, but no receive buffer of it is posted and it has no
  -- send handler, so that it receives nothing and returns no send buffer.
  pub handle_connect_request-unwired :
      (m : Manager V) (event established : CmEvent) (v : V)
      → m.is_closed ≡ false
      → m.accept_ch.is_closed ≡ false
      → (m.cfg.has_acceptor && m.cfg.has_pd) ≡ true
      → cm.accept_conn event.id m.verbs ≡ (ok tt, v)
      → established.id ≡ event.id
      → let m' = (handle_connect_request verbs cm event m).1 in
        let m'' = (handle_established verbs cm established m').1 in
        (lookup (inc64 m.next_id) m''.connections ≡ some (inc64 m.next_id))
        × ((c : Conn) × (lookup (inc64 m.next_id) m''.heap ≡ some c)
            × (c.state ≡ connected)
            × (c.recv_bufs ≡ [])
            × (c.wrid_map ≡ none))
  unfolding new_conn
  handle_connect_request-unwired m event established v o a q p same =
      let id : ℕ = inc64 m.next_id in
      let c = requested m event in
      let (ch, offered) = offer_open id (admitted m event v) a in
      let queued : Manager V = record (admitted m event v) { accept_ch = ch } in
      let known : lookup established.id queued.cm_id_conns ≡ some id =
        ap (λ k. lookup k queued.cm_id_conns) same ∙ lookup-insert_self event.id id m.cm_id_conns in
      rw
        (
          requested_at m event v o q p,
          offered,
          established_at queued established id c known (lookup-insert_self id c m.heap),
        )
        (
          lookup-insert_self id id m.connections,
          (
            transition connected c,
            lookup-insert_self id (transition connected c) queued.heap,
            transition-state connected c,
            transition-recv_bufs connected c ∙ transition-recv_bufs connecting _,
            transition-wrid_map connected c ∙ transition-wrid_map connecting _,
          ),
        )

  disconnected_at :
      (m : Manager V) (event : CmEvent) (id : ℕ) (c : Conn)
      → lookup event.id m.cm_id_conns ≡ some id
      → lookup id m.heap ≡ some c
      → handle_disconnected verbs cm event m
        ≡ put_back (put_link id) (forget event m) (close verbs (link c (forget event m)))
  unfolding handle_disconnected event_target close_conn method method_at forget
  disconnected_at m event id c e h = rw (e, h)

  -- A Disconnected event for the CM id of an open connection closes the connection and forgets its
  -- CM id, but keeps it in the table of connections: GetConnection still hands it out, closed.
  pub handle_disconnected-closes :
      (m : Manager V) (event : CmEvent) (id : ℕ) (c : Conn)
      → ((id : ℕ) (v : V) → Returns (verbs.disconnect id v).0)
      → lookup event.id m.cm_id_conns ≡ some id
      → lookup id m.heap ≡ some c
      → lookup id m.connections ≡ some id
      → Distinct m.cm_id_conns
      → open_state c.state ≡ true
      → (lookup event.id (handle_disconnected verbs cm event m).1.cm_id_conns ≡ none)
        × ((c' : Conn) × (get_connection id (handle_disconnected verbs cm event m).1 ≡ some c')
            × (c'.state ≡ closed)
            × (c'.done ≡ true))
  unfolding get_connection forget
  handle_disconnected-closes m event id c sound e h t d o =
      let gone = forget event m in
      let r = close verbs (link c gone) in
      let all = close-Closes verbs sound (link c gone) no_message o in
      rw (disconnected_at m event id c e h) (
        lookup-delete_self event.id m.cm_id_conns d,
        (
          r.1.conn,
          found gone (put_link id r.1 gone) t (lookup-insert_self id r.1.conn m.heap),
          all.1.is_closed,
          all.1.is_done,
        ),
      )
    where
      no_message : Message
      no_message = record { buffer = none; len = 0; flags = 0; imm_data = 0 }

      found :
          (g k : Manager V) {x : Conn}
          → lookup id k.connections ≡ some id
          → lookup id k.heap ≡ some x
          → get_connection id k ≡ some x
      found g k p q = rw p q
