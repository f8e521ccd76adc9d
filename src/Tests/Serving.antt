-- ===== src/Tests/Serving.antt =====
-- pkg/server at concrete inputs.
use golinker.Base.{ℕ, ◌≡◌, refl, true, Option, none, some, List, [], ◌∷◌, ◌++◌, arith}
use golinker.Api.{Message}
use golinker.Connection.Conn.{Incoming}
use golinker.Connection.Manager.{Manager}
use golinker.Errors.{Result, ok, err, conn_closed, Returns}
use golinker.Go.Dict.{insert, delete}
use golinker.Server.{Server, track_conn, remove_conn}
use golinker.Server.Serve.{Peer, PeerLaws}
use golinker.Server.Shutdown.{sweep-drained}
use golinker.Server.Steps.{
  System, drained, init, Reach, here, later, accepts, spawns, cancels, leaves, finishes, quits,
  drains, accept_conn, spawn, cancel, leave, done, quit, wait_done, sweep,
}
use golinker.Tests.Events.{fresh}

abbrev Boxes : Type 0
Boxes = List Incoming × List Message

abbrev take_next : List Incoming → List Message → Result Incoming × Boxes
take_next [] out = (err conn_closed, ([], out))
take_next (m ∷ ms) out = (ok m, (ms, out))

abbrev pong : Message
pong = record { buffer = none; len = 4; flags = 0; imm_data = 0 }

-- Empty messages get no answer.
-- The handler refuses an empty message.
abbrev reply_to : List ℕ → Result (Option Message)
reply_to [] = err conn_closed
reply_to (x ∷ xs) = ok (some pong)

abbrev reply : Incoming → Result (Option Message)
reply m = reply_to m.payload

returned : (l : List ℕ) → Returns (reply_to l)
returned [] = tt
returned (x ∷ xs) = tt

abbrev peer : Peer Boxes
peer = record {
  recv = λ w. take_next w.0 w.1;
  send = λ m w. (err conn_closed, (w.0, w.1 ++ m ∷ []));
  handle = λ m w. (reply m, w);
}

peer_laws : PeerLaws peer reply
peer_laws = record {
  inbox = λ w. w.0;
  outbox = λ w. w.1;
  recv_next = λ m ms w h. ((ms, w.1), rw h refl, refl, refl);
  recv_end = λ w h. (conn_closed, ([], w.1), rw h refl, refl);
  returns = λ m. returned m.payload;
  handles = λ m w. (w, refl, refl, refl);
  sends = λ r w. (tt, refl, refl);
}

abbrev hello : Incoming
hello = record { payload = 104 ∷ []; imm_data = 0 }

abbrev empty : Incoming
empty = record { payload = []; imm_data = 0 }

-- A connection is accepted and served; Stop waits until it is gone.
abbrev s1 : System
s1 = accept_conn 7 init

abbrev s2 : System
s2 = spawn 7 s1

abbrev s3 : System
s3 = cancel s2

abbrev s4 : System
s4 = leave 7 s3

abbrev s5 : System
s5 = done s4

abbrev s6 : System
s6 = quit s5

abbrev s7 : System
s7 = wait_done s6

run : Reach s7
unfolding accept_conn spawn cancel leave done quit wait_done track_conn remove_conn insert delete
run =
    later {s = s6}
      (later {s = s5}
        (later {s = s4}
          (later {s = s3}
            (later {s = s2}
              (later {s = s1} (later {s = init} here (accepts 7 refl)) (spawns 7 refl))
              (cancels refl))
            (leaves 7 refl))
          (finishes (omega arith)))
        (quits refl refl))
      (drains refl refl)

at_end : s7.stopper ≡ drained
unfolding wait_done
at_end = refl

sweep-drained_example : (sweep s7).closed ≡ []
sweep-drained_example = sweep-drained run at_end

abbrev gone : Manager (List ℕ)
gone = record fresh { is_closed = true }

abbrev idle : Server
idle = record { has_handler = true; conns = []; started = true }
