-- ===== src/Tests/Events.antt =====
-- pkg/connection/cm_events.go at concrete inputs.
use golinker.Base.{ℕ, ◌≡◌, refl, true, false, none, some, All, List, [], ◌∷◌}
use golinker.Api.{CmEvent, CmEventType, connected, connect_request, established}
use golinker.Connection.Conn.{Conn}
use golinker.Connection.Manager.{Manager, Cm, close, handle_established, handle_connect_request}
use golinker.Connection.Manager.Closing.{Stands, Shut, close-Shut}
use golinker.Connection.Manager.Events.{handle_connect_request-unwired}
use golinker.Errors.{ok, err, invalid_address}
use golinker.Go.Chan.{make}
use golinker.Go.Dict.{lookup}
use golinker.Go.Int.{pos}
use golinker.Go.Word.{inc64}
use golinker.Tests.Links.{live, willing}
use golinker.Tests.Pools.{pool_with, all_free}

-- A connection manager whose acceptor takes every request.
abbrev accepting : Cm (List ℕ)
accepting = record {
  accept_conn = λ id v. (ok tt, v);
  dial = λ host port v. (ok 9, v);
  split_host_port = λ addr. err invalid_address;
}

abbrev pub fresh : Manager (List ℕ)
fresh = record {
  queue_depth = 64;
  cfg = record {
    queue_depth = pos 64;
    has_send_pool = true;
    on_send_complete = none;
    has_recv_pool = true;
    has_pd = true;
    has_acceptor = true;
    has_dialer = false;
  };
  heap = [];
  connections = [];
  cm_id_conns = [];
  next_id = 0;
  accept_ch = make 64;
  is_closed = false;
  close_done = false;
  send_pool = all_free;
  recv_pool = pool_with [];
  verbs = [];
}

-- One connection under id 1 and CM id 9, in the given state.
abbrev with_conn : Conn → Manager (List ℕ)
with_conn c = record fresh {
  heap = (1, c) ∷ [];
  connections = (1, 1) ∷ [];
  cm_id_conns = (9, 1) ∷ [];
}

abbrev event : CmEventType → CmEvent
event t = record { type = t; id = 9; private_data = [] }

stands : (c : Conn) → lookup 1 (with_conn c).heap ≡ some c
unfolding lookup
stands c = refl

handle_connect_request-unwired_example :
    (lookup
        (inc64 0)
        (handle_established willing accepting
          (event established)
          (handle_connect_request willing accepting (event connect_request) fresh).1).1.connections
      ≡ some (inc64 0))
    × ((c : Conn) × (lookup
            (inc64 0)
            (handle_established willing accepting
              (event established)
              (handle_connect_request willing accepting (event connect_request) fresh).1).1.heap
          ≡ some c)
        × (c.state ≡ connected)
        × (c.recv_bufs ≡ [])
        × (c.wrid_map ≡ none))
handle_connect_request-unwired_example =
    handle_connect_request-unwired willing accepting fresh (event connect_request)
      (event established) [] refl refl refl refl refl

standing : All (Stands (with_conn live)) (with_conn live).connections
standing = ((live, stands live), tt)

close-Shut_example :
    (m : Manager (List ℕ)) × (close willing accepting (with_conn live) ≡ (ok tt, m))
    × (m.connections ≡ [])
    × All (Shut (with_conn live) m) ((1, 1) ∷ [])
    × (m.accept_ch.is_closed ≡ true)
    × (m.close_done ≡ true)
    × (close willing accepting m ≡ (ok tt, m))
close-Shut_example = close-Shut willing accepting (λ id v. tt) (with_conn live) refl refl standing
