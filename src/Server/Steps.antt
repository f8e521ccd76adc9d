-- ===== src/Server/Steps.antt =====
-- pkg/server/accept.go, handler.go and Stop of server.go: the goroutines of one Start, interleaved.
use golinker.Base.{
  ℕ, suc, ◌+◌, ◌-◌, ◌<◌, ◌≡◌, Bool, true, false, List, [], ◌∷◌, ◌++◌, ◌==◌, if◌then◌else◌, length,
}
use golinker.Server.{Server, track_conn, remove_conn, close_tracked}

-- Where the accept loop is: in Accept, behind the entry of a connection in the table and before its
-- `wg.Add(1)`, or returned.
pub data Acceptor : Type 0 where
  waiting : Acceptor
  tracked : ℕ → Acceptor
  ended : Acceptor

-- Where Stop is: not called, waiting for the goroutines, past the wait because they are done or
-- because the deadline came, or returned.
pub data Stopper : Type 0 where
  unstopped draining drained expired stopped : Stopper

-- `serving` are the handler goroutines by the id of their connection, `leaving` how many of them are
-- between removeConn and `wg.Done()`. `closed` are the connections that Stop closed.
pub record System : Type 0 where
  pub server : Server
  pub cancelled : Bool
  pub acceptor : Acceptor
  pub serving : List ℕ
  pub leaving : ℕ
  pub stopper : Stopper
  pub closed : List ℕ

abbrev pub alive : Acceptor → ℕ
alive ended = 0
alive _ = 1

-- The wait group.
abbrev pub wg : System → ℕ
wg s = alive s.acceptor + length s.serving + s.leaving

abbrev pub elem : ℕ → List ℕ → Bool
elem k [] = false
elem k (j ∷ js) = if j == k then true else elem k js

abbrev pub remove : ℕ → List ℕ → List ℕ
remove k [] = []
remove k (j ∷ js) = if j == k then js else j ∷ remove k js

-- The accept loop: a connection is entered, its goroutine started, and the return on a cancelled
-- context.
unfoldable pub accept_conn : ℕ → System → System
accept_conn id s = record s { server = track_conn id s.server; acceptor = tracked id }

unfoldable pub spawn : ℕ → System → System
spawn id s = record s { acceptor = waiting; serving = id ∷ s.serving }

unfoldable pub quit : System → System
quit s = record s { acceptor = ended }

-- The deferred calls of handleConn.
unfoldable pub leave : ℕ → System → System
leave id s = record s {
  server = remove_conn id s.server;
  serving = remove id s.serving;
  leaving = suc s.leaving;
}

unfoldable pub done : System → System
done s = record s { leaving = s.leaving - 1 }

-- Stop: `s.cancel()`, the two ends of its wait, and the rest.
unfoldable pub cancel : System → System
cancel s = record s { cancelled = true; stopper = draining }

unfoldable pub wait_done : System → System
wait_done s = record s { stopper = drained }

unfoldable pub deadline : System → System
deadline s = record s { stopper = expired }

unfoldable pub sweep : System → System
sweep s =
    let (closed, server) = close_tracked s.server in
    record s { server = server; closed = s.closed ++ closed; stopper = stopped }

-- One step of one goroutine. Accept may hand out a connection after the cancellation too, since its
-- `select` picks any ready case; a handler may return at any time.
pub data Step (s : System) : System → Type 0 where
  accepts : (id : ℕ) → s.acceptor ≡ waiting → Step s (accept_conn id s)
  retries : s.acceptor ≡ waiting → s.cancelled ≡ false → Step s s
  spawns : (id : ℕ) → s.acceptor ≡ tracked id → Step s (spawn id s)
  quits : s.acceptor ≡ waiting → s.cancelled ≡ true → Step s (quit s)
  leaves : (id : ℕ) → elem id s.serving ≡ true → Step s (leave id s)
  finishes : 0 < s.leaving → Step s (done s)
  cancels : s.stopper ≡ unstopped → Step s (cancel s)
  drains : s.stopper ≡ draining → wg s ≡ 0 → Step s (wait_done s)
  expires : s.stopper ≡ draining → Step s (deadline s)
  sweeps_drained : s.stopper ≡ drained → Step s (sweep s)
  sweeps_expired : s.stopper ≡ expired → Step s (sweep s)

-- After Start of a new server.
abbrev pub init : System
init = record {
  server = record { has_handler = true; conns = []; started = true };
  cancelled = false;
  acceptor = waiting;
  serving = [];
  leaving = 0;
  stopper = unstopped;
  closed = [];
}

pub data Reach : System → Type 0 where
  here : Reach init
  later : {s t : System} → Reach s → Step s t → Reach t
