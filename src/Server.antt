-- ===== src/Server.antt =====
-- pkg/server: server.go, accept.go and handler.go. A connection is known by its id.
pub mod Serve
pub mod Steps
pub mod Shutdown
pub mod Spin
use golinker.Base.{ℕ, Bool, true, false, List, [], ◌∷◌, if◌then◌else◌}
use golinker.Errors.{Result, ok, err, nil_config, nil_conn_mgr, server_started, server_not_started}
use golinker.Go.Dict.{insert, delete}
use golinker.Go.State.{Call, fail}

-- The table of the connections, whether a handler is registered, and whether the server was started.
pub record Server : Type 0 where
  pub has_handler : Bool
  pub conns : List (ℕ × ℕ)
  pub started : Bool

-- The checks of the configuration and of the connection manager against nil.
unfoldable pub new_server : Bool → Bool → Result Server
new_server has_cfg has_conn_mgr =
    if has_cfg
    then (if has_conn_mgr
        then ok (record { has_handler = false; conns = []; started = false })
        else err nil_conn_mgr)
    else err nil_config

-- Start up to the `go` of the accept loop.
unfoldable pub start : Call Server (Unit {0})
start s = if s.started then fail server_started s else (ok tt, record s { started = true })

-- The first check of Stop.
unfoldable pub check_started : Call Server (Unit {0})
check_started s = if s.started then (ok tt, s) else fail server_not_started s

unfoldable pub register_handler : Bool → Server → Server
register_handler handler s = record s { has_handler = handler }

-- `s.conns[conn.ID()] = conn`
unfoldable pub track_conn : ℕ → Server → Server
track_conn id s = record s { conns = insert id id s.conns }

unfoldable pub remove_conn : ℕ → Server → Server
remove_conn id s = record s { conns = delete id s.conns }

-- The ids in the table.
abbrev pub ids : List (ℕ × ℕ) → List ℕ
ids [] = []
ids ((k, c) ∷ m) = k ∷ ids m

-- The end of Stop: the connections that it closes, and the server after it.
unfoldable pub close_tracked : Server → List ℕ × Server
close_tracked s = (ids s.conns, record s { conns = []; started = false })
