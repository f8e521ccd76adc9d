-- ===== src/Connection/Conn/Outgoing.antt =====
-- pkg/connection/conn.go and pkg/buffer/send_pool.go as the transport of pkg/message: the connection
-- and the send pool that NewAggregator and NewImmediateSender are given.
pub mod Refused
use golinker.Base.{
  ℕ, suc, ◌+◌, ◌≤◌, ◌<◌, ◌^◌, ◌≡◌, ◌≢◌, ◌⊎◌, refl, sym, ap, ◌∙◌, true, false, Option, none, some,
  List, [], ◌∷◌, ◌++◌, arith, length, All, if◌then◌else◌, inl, inr,
}
use mathlib.Core.Path.{subst}
use golinker.Api.{Buffer, Message, connected}
use golinker.Buffer.SendPool.{SendPool, key, is_in_flight, acquire_for_send, complete_send}
use golinker.Buffer.SendPool.Inv.{
  Inv, taking, putting, acquire_empty, acquire_next, taking-Inv, putting-Inv, list_cases,
  acquire_for_send-exclusive,
}
use golinker.Connection.Conn.{
  Conn, Link, Verbs, same_state, send_wr, sent, untrack_failed, post, send_msg,
}
use golinker.Connection.Conn.Sending.{tracked, posted, post-posted, on_error-tracked}
use golinker.Errors.{Error, Result, ok, err, panic, diverge, not_connected}
use golinker.Go.State.{Call, put_back, on}
use golinker.Go.Word.{inc64}
use golinker.Message.Aggregator.{Aggregator, aggregate_send}
use golinker.Message.Aggregator.Flush
use golinker.Message.Aggregator.Stream.{Accepted, aggregate_send-Accepted}
use golinker.Message.Transport.{Transport, Laws, Stored, Acquires, Sends, message}
use golinker.Message.Wire.{unpack_batch}

-- What the transport needs beside the verbs: a write to the memory of a buffer, and the clock.
pub record Host (V : Type 0) : Type 0 where
  pub write : Buffer → List ℕ → V → V
  pub clock : V → ℕ

abbrev pub conn_transport : {V : Type 0} → Verbs V → Host V → Transport (Link V)
conn_transport verbs host = record {
  acquire_for_send = on (λ l. l.send_pool) (λ sp l. record l { send_pool = sp }) acquire_for_send;
  complete_send =
      λ b. on (λ l. l.send_pool) (λ sp l. record l { send_pool = sp }) (complete_send b);
  send = send_msg verbs;
  bytes = λ b l. verbs.bytes b l.verbs;
  store = λ b out l. record l { verbs = host.write b out l.verbs };
  now = λ l. host.clock l.verbs;
}

-- The device and the memory, for buffers of `size` bytes: a buffer is as long as its length says, a
-- write is read back and posts nothing. `accepted` are the messages of the send requests that PostSend
-- took, one that it refuses adds nothing: what UnpackBatch reads in the bytes that the only SGE names,
-- at the time of the post. What the device makes of the opcode of a request is not said.
pub record DeviceLaws {V : Type 0} (verbs : Verbs V) (host : Host V) (size : ℕ) : Type 0 where
  pub accepted : V → List (List ℕ)
  pub length_of : (b : Buffer) (v : V) → b.len ≡ size → length (verbs.bytes b v) ≡ size
  pub reads_back :
      (b : Buffer) (out : List ℕ) (v : V)
      → b.len ≡ size
      → length out ≡ size
      → verbs.bytes b (host.write b out v) ≡ out
  pub silent : (b : Buffer) (out : List ℕ) (v : V) → accepted (host.write b out v) ≡ accepted v
  pub posts :
      (wrid n : ℕ) (b : Buffer) (msgs : List (List ℕ)) (v : V)
      → b.len ≡ size
      → n < 2 ^ 32
      → unpack_batch (verbs.bytes b v) n ≡ ok msgs
      → Sends accepted (λ v. Unit {0}) msgs v (verbs.post_send (send_wr wrid (message b n)) v)

-- Every buffer of a pool has the pool's size.
abbrev pub IsFitting : ℕ → Buffer → Type 0
IsFitting size b = b.len ≡ size

-- A connected link with a send handler, over a send pool of fitting buffers.
pub record IsReady {V : Type 0} (size : ℕ) (l : Link V) : Type 0 where
  pub is_connected : l.conn.state ≡ connected
  pub handler : (m : List (ℕ × Option Buffer)) × (l.conn.wrid_map ≡ some m)
  pub pool : Inv l.send_pool
  pub fitting : All (IsFitting size) l.send_pool.pool.free_ch.items

-- The buffer is in flight and fitting.
abbrev pub IsHeld : {V : Type 0} → ℕ → Buffer → Link V → Type 0
IsHeld size b l = (is_in_flight l.send_pool b ≡ true) × IsFitting size b

All-append :
    (size : ℕ) (bs : List Buffer) (b : Buffer)
    → All (IsFitting size) bs
    → IsFitting size b
    → All (IsFitting size) (bs ++ b ∷ [])
All-append size [] b a h = (h, tt)
All-append size (x ∷ bs) b a h = (a.0, All-append size bs b a.1 h)

module _ {V : Type 0} (verbs : Verbs V) (host : Host V) (size : ℕ)
    (laws : DeviceLaws verbs host size) (small : size < 2 ^ 32) where
  abbrev delivered : Link V → List (List ℕ)
  delivered l = laws.accepted l.verbs

  abbrev t : Transport (Link V)
  t = conn_transport verbs host

  acquires :
      (l : Link V)
      → IsReady size l
      → Acquires delivered (IsReady size) (IsHeld size) t.bytes size l (t.acquire_for_send l)
  acquires l r = elim (list_cases l.send_pool.pool.free_ch.items) [
    | inl e ↦ rw (acquire_empty l.send_pool r.pool e) (refl, r)
    | inr (b, rest, e) ↦
        let fit : All (IsFitting size) (b ∷ rest) = subst (All (IsFitting size)) e r.fitting in
        let next = acquire_next l.send_pool b rest r.pool e in
        let mine = acquire_for_send-exclusive l.send_pool b r.pool (ap (λ q. q.0) next) in
        let flying : is_in_flight (taking l.send_pool b rest) b ≡ true =
          ap (λ q. is_in_flight q.1 b) (sym next) ∙ mine.1 in
        rw next (
          refl,
          omega (arith, laws.length_of b l.verbs fit.0),
          record {
            is_connected = r.is_connected;
            handler = r.handler;
            pool = taking-Inv l.send_pool b rest r.pool e;
            fitting = fit.1;
          },
          (flying, fit.0),
        )
  ]

  stores :
      (b : Buffer) (out : List ℕ) (l : Link V)
      → IsReady size l
      → IsHeld size b l
      → length out ≡ length (t.bytes b l)
      → Stored t delivered (IsReady size) (IsHeld size) b out l
  stores b out l r h e = record {
    reads_back = laws.reads_back b out l.verbs h.1 (e ∙ laws.length_of b l.verbs h.1);
    silent = laws.silent b out l.verbs;
    good = record {
      is_connected = r.is_connected;
      handler = r.handler;
      pool = r.pool;
      fitting = r.fitting;
    };
    held = h;
  }

  -- The end of a Send, from what PostSend returned.
  finished :
      (l : Link V) (m : List (ℕ × Option Buffer)) (b : Buffer) (n wrid : ℕ) (msgs : List (List ℕ))
      → IsReady size l
      → IsHeld size b l
      → (q : Result (Unit {0}) × V) → Sends laws.accepted (λ v. Unit {0}) msgs l.verbs q
      → Sends delivered (IsReady size) msgs l (posted verbs wrid l m b (message b n) q)
  unfolding sent untrack_failed is_in_flight
  finished l m b n wrid msgs r h (ok u, v) s = (
    s.0,
    record {
      is_connected = r.is_connected;
      handler = (_, refl);
      pool = r.pool;
      fitting = r.fitting;
    },
  )
  finished l m b n wrid msgs r h (err e, v) s =
      rw (on_error-tracked verbs m wrid b e l.send_pool r.pool h.0) (
        s.0,
        record {
          is_connected = r.is_connected;
          handler = (_, refl);
          pool = putting-Inv l.send_pool b r.pool h.0;
          fitting = All-append size l.send_pool.pool.free_ch.items b r.fitting h.1;
        },
      )
  finished l m b n wrid msgs r h (panic, v) s = s
  finished l m b n wrid msgs r h (diverge, v) s = s

  sends :
      (b : Buffer) (n : ℕ) (msgs : List (List ℕ)) (l : Link V)
      → IsReady size l
      → IsHeld size b l
      → n ≤ length (t.bytes b l)
      → unpack_batch (t.bytes b l) n ≡ ok msgs
      → Sends delivered (IsReady size) msgs l (t.send (message b n) l)
  unfolding send_msg
  sends b n msgs l r h fits e =
      let wrid = inc64 l.conn.next_wrid in
      let (m, handled) = r.handler in
      let steps =
        ap
          (λ s.
            if◌then◌else◌ (same_state s connected) (post verbs wrid (message b n) l)
              (err not_connected, l))
          r.is_connected
        ∙ post-posted verbs wrid l m b (message b n) handled refl in
      let fits32 : n < 2 ^ 32 = omega (arith, laws.length_of b l.verbs h.1, small) in
      subst (Sends delivered (IsReady size) msgs l) (sym steps) (
        finished l m b n wrid msgs r h (verbs.post_send (send_wr wrid (message b n)) l.verbs)
          (laws.posts wrid n b msgs l.verbs h.1 fits32 e))

  -- A connection in the state connected, with a send handler and an open send pool of buffers of
  -- `size` bytes, is a transport that keeps the senders' laws, over a device that keeps its
  -- own: what a Send delivers is what PostSend accepts, and after each call, refused or not,
  -- the link is again such a connection.
  pub conn_transport-Laws : Laws t size (IsReady size) (IsHeld size)
  conn_transport-Laws = record {
    delivered = delivered;
    acquires = acquires;
    stores = stores;
    sends = sends;
  }

  -- What an aggregated send of `msg` does to what PostSend accepted and what is pending.
  abbrev pub Posts : List ℕ → Aggregator (Link V) → Result (Unit {0}) × Aggregator (Link V) → Type 0
  Posts msg a (ok u, a') =
      Flush.Inv size (IsReady size) a'
      × (laws.accepted a'.world.verbs ++ a'.pending
          ≡ (laws.accepted a.world.verbs ++ a.pending) ++ msg ∷ [])
      × ((a'.pending ≡ []) ⊎ (a'.ongoing_sends ≢ 0))
  Posts msg a (err e, a') = Flush.Inv size (IsReady size) a'
  Posts msg a (panic, a') = ⊥
  Posts msg a (diverge, a') = ⊥

  -- The aggregated Send over a connected connection with a send handler, its send pool and a device
  -- that keeps its laws: it never panics, and where it reports no error, what PostSend has
  -- accepted followed by what is pending has grown by exactly the message. Whatever it reports,
  -- the aggregator, the connection and the pool keep their invariants.
  pub aggregate_send-Posts :
      (msg : List ℕ) (a : Aggregator (Link V))
      → Flush.Inv size (IsReady size) a
      → 24 + length msg ≤ a.buffer_size
      → length msg < 2 ^ 32
      → Posts msg a (aggregate_send t msg a)
  unfolding conn_transport-Laws
  aggregate_send-Posts msg a v h s =
      read (aggregate_send t msg a) (aggregate_send-Accepted t size conn_transport-Laws msg a v h s)
    where
      read :
          (r : Result (Unit {0}) × Aggregator (Link V))
          → Accepted t size conn_transport-Laws msg a r
          → Posts msg a r
      read (ok u, a') p = (p.0, p.1, p.2)
      read (err e, a') p = p
      read (panic, a') p = p
      read (diverge, a') p = p
