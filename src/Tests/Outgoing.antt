-- ===== src/Tests/Outgoing.antt =====
-- The senders over a connection, at concrete inputs: a device that transmits at once what its 64
-- bytes of memory hold.
use golinker.Base.{
  ℕ, zero, suc, ◌%◌, ◌^◌, ◌<◌, ◌≡◌, refl, sym, ap, ◌∙◌, List, [], ◌∷◌, arith, length,
}
use golinker.Api.{Buffer, Sge, closed}
use golinker.Connection.Conn.{Link, Verbs, send_wr}
use golinker.Connection.Conn.Outgoing.{
  Host, DeviceLaws, IsReady, Posts, conn_transport, aggregate_send-Posts,
}
use golinker.Errors.{ok}
use golinker.Message.Aggregator.{Aggregator, aggregate_send}
use golinker.Message.Aggregator.Flush
use golinker.Message.Immediate
use golinker.Message.Transport.{Sends, message}
use golinker.Message.Wire.{unpack_batch}
use golinker.Tests.Links.{live}
use golinker.Tests.Pools.{pool_with, one_out, one_out-Inv}
use golinker.Tests.Senders.{waiting, arrive}
use golinker.Tests.Wire.{two_messages}

-- The bytes, cut or filled up to `n`.
abbrev sized : ℕ → List ℕ → List ℕ
sized zero xs = []
sized (suc n) [] = 0 ∷ sized n []
sized (suc n) (x ∷ xs) = x ∷ sized n xs

length-sized : (n : ℕ) (xs : List ℕ) → length (sized n xs) ≡ n
length-sized zero xs = refl
length-sized (suc n) [] = ap suc (length-sized n [])
length-sized (suc n) (x ∷ xs) = ap suc (length-sized n xs)

sized-length : (xs : List ℕ) → sized (length xs) xs ≡ xs
sized-length [] = refl
sized-length (x ∷ xs) = ap (◌∷◌ x) (sized-length xs)

abbrev Device : Type 0
Device = List (List ℕ) × List ℕ

abbrev sge_len : List Sge → ℕ
sge_len [] = 0
sge_len (s ∷ ss) = s.len

abbrev eager : Verbs Device
eager = record {
  post_send = λ wr v. arrive (unpack_batch (sized 64 v.1) (sge_len wr.sg_list)) v;
  post_recv = λ wr v. (ok tt, v);
  disconnect = λ id v. (ok tt, v);
  bytes = λ b v. sized 64 v.1;
}

abbrev host : Host Device
host = record { write = λ b out v. (v.0, out); clock = λ v. 7 }

-- The length of a request is that of the message where it fits 32 bits.
posts :
    (wrid n : ℕ) (b : Buffer) (msgs : List (List ℕ)) (v : Device)
    → n < 2 ^ 32
    → unpack_batch (sized 64 v.1) n ≡ ok msgs
    → Sends {W = Device}
        (λ v. v.0)
        (λ v. Unit {0})
        msgs
        v
        (eager.post_send (send_wr wrid (message b n)) v)
posts wrid n b msgs v h e =
    let same : n % 2 ^ 32 ≡ n = omega arith in
    let read : unpack_batch (sized 64 v.1) (n % 2 ^ 32) ≡ ok msgs =
      ap (unpack_batch (sized 64 v.1)) same ∙ e in
    rw read (refl, tt)

eager_laws : DeviceLaws eager host 64
eager_laws = record {
  accepted = λ v. v.0;
  length_of = λ b v e. length-sized 64 v.1;
  reads_back = λ b out v e h. ap (λ n. sized n out) (sym h) ∙ sized-length out;
  silent = λ b out v. refl;
  posts = λ wrid n b msgs v e h r. posts wrid n b msgs v h r;
}

small : 64 < 2 ^ 32
small = omega arith

abbrev ready : Link Device
ready = record { conn = live; send_pool = one_out; recv_pool = pool_with []; verbs = ([], []) }

ready-IsReady : IsReady 64 ready
ready-IsReady = record {
  is_connected = refl;
  handler = ([], refl);
  pool = one_out-Inv;
  fitting = (refl, tt);
}

abbrev two_waiting : Aggregator (Link Device)
two_waiting = waiting two_messages 27 1 ready

two_waiting-Inv : Flush.Inv 64 (IsReady 64) two_waiting
two_waiting-Inv = record {
  sized = refl;
  fits = omega arith;
  small = (omega arith, (omega arith, tt));
  room = omega arith;
  good = ready-IsReady;
}

aggregate_send-Posts_example :
    Posts eager host 64 eager_laws small
      (1 ∷ 2 ∷ 3 ∷ [])
      two_waiting
      (aggregate_send (conn_transport eager host) (1 ∷ 2 ∷ 3 ∷ []) two_waiting)
aggregate_send-Posts_example =
    aggregate_send-Posts eager host 64 eager_laws small (1 ∷ 2 ∷ 3 ∷ []) two_waiting two_waiting-Inv
      (omega arith) (omega arith)

abbrev shut : Link Device
shut = record ready { conn = record live { state = closed } }
