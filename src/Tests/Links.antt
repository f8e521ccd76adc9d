-- ===== src/Tests/Links.antt =====
-- pkg/connection/conn.go at concrete inputs: verbs that accept every post, and whose memory holds
-- the same bytes at every buffer.
use golinker.Base.{ℕ, ◌≡◌, refl, true, false, Option, none, some, List, [], ◌∷◌, ◌++◌, arith}
use golinker.Api.{Buffer, Message, WorkCompletion, connected, success, recv}
use golinker.Buffer.SendPool.{is_in_flight}
use golinker.Connection.Conn.{Conn, Link, Verbs, close, send_msg, on_completion}
use golinker.Connection.Conn.Receiving.{delivered, replenished, on_completion-delivers}
use golinker.Connection.Conn.Sending.{Owned, send_msg-Owned}
use golinker.Connection.Conn.State.{Closes, hung_up, close-Closes}
use golinker.Errors.{ok, err, not_connected}
use golinker.Go.Chan.{make}
use golinker.Go.Dict.{lookup}
use golinker.Go.Word.{inc64}
use golinker.Message.Encoding.{encoding}
use golinker.Tests.Pools.{slot, pool_with, one_out, one_out-Inv, usable}
use golinker.Tests.Wire.{two_messages}

-- The state is the memory.
abbrev pub willing : Verbs (List ℕ)
willing = record {
  post_send = λ wr v. (ok tt, v);
  post_recv = λ wr v. (ok tt, v);
  disconnect = λ id v. (err not_connected, v);
  bytes = λ b v. v;
}

-- A connected connection, with one receive buffer posted.
abbrev pub live : Conn
live = record {
  id = 1;
  remote_addr = [];
  has_qp = true;
  has_recv_pool = true;
  cm_id = some 9;
  has_dialer = true;
  state = connected;
  callbacks = 5 ∷ [];
  notified = [];
  recv_ch = make 128;
  done = false;
  wrid_map = some [];
  on_complete = none;
  next_wrid = 0;
  recv_bufs = (4096, slot 0) ∷ [];
}

abbrev pub linked : List Buffer → List ℕ → Link (List ℕ)
linked free bytes = record {
  conn = live;
  send_pool = one_out;
  recv_pool = pool_with free;
  verbs = bytes;
}

abbrev packed : List ℕ
packed = encoding 7 two_messages ++ 0 ∷ 0 ∷ []

abbrev received : ℕ → WorkCompletion
received n = record {
  wrid = 4096;
  status = success;
  opcode = recv;
  byte_len = n;
  qpn = 1;
  imm = 0;
  has_imm = false;
}

posted : lookup 4096 live.recv_bufs ≡ some (slot 0)
unfolding lookup
posted = refl

on_completion-delivers_example :
    on_completion willing (received 39) (linked (slot 1 ∷ []) packed) ≡ (
      ok tt,
      replenished willing
          (delivered willing (received 39) two_messages (linked (slot 1 ∷ []) packed))
          (slot 1)
          []
          packed,
    )
on_completion-delivers_example =
    on_completion-delivers willing (received 39) (linked (slot 1 ∷ []) packed) (slot 0) 7
      two_messages (0 ∷ 0 ∷ []) refl posted refl refl (omega arith, (omega arith, tt))
      (usable (slot 1 ∷ []) (omega arith)) (slot 1) [] packed ((λ p. cc), ((λ p. cc), tt)) refl
      (omega arith) refl refl refl

abbrev message : Message
message = record { buffer = some (slot 1); len = 39; flags = 0; imm_data = 0 }

out : is_in_flight one_out (slot 1) ≡ true
unfolding is_in_flight lookup
out = refl

untracked : lookup {V = Option Buffer} (inc64 0) [] ≡ none
unfolding lookup
untracked = refl

send_msg-Owned_example : Owned (linked [] []) [] (slot 1) (send_msg willing message (linked [] []))
send_msg-Owned_example =
    send_msg-Owned willing (λ wr v. tt) (linked [] []) [] (slot 1) message refl refl refl untracked
      one_out-Inv out

close-Closes_example :
    ((close willing (linked [] [])).0 ≡ ok tt)
    × Closes live (close willing (linked [] [])).1.conn
    × ((close willing (linked [] [])).1.send_pool ≡ one_out)
    × ((close willing (linked [] [])).1.recv_pool ≡ pool_with [])
    × ((close willing (linked [] [])).1.verbs
        ≡ hung_up willing live.has_dialer live.cm_id (linked [] []).verbs)
    × (close willing (close willing (linked [] [])).1 ≡ (ok tt, (close willing (linked [] [])).1))
    × (send_msg willing message (close willing (linked [] [])).1
        ≡ (err not_connected, (close willing (linked [] [])).1))
close-Closes_example = close-Closes willing (λ id v. tt) (linked [] []) message refl
