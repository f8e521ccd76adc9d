-- ===== src/Connection/Conn/Sending.antt =====
-- pkg/connection/conn.go with pkg/cq/dispatcher.go and pkg/buffer/send_pool.go: who owns the buffer
-- of a message after Send.
use golinker.Base.{ℕ, ◌≡◌, refl, ap, sym, ◌∙◌, true, false, Option, some, List, if◌then◌else◌}
use mathlib.Core.Path.{subst}
use golinker.Api.{Buffer, Message, connected, SendWr}
use golinker.Buffer.SendPool.{SendPool, is_in_flight, is_some, complete_send, key}
use golinker.Buffer.SendPool.Inv.{Inv, complete_found, putting, putting-Inv}
use golinker.Connection.Conn.{
  Link, Verbs, same_state, track, untrack_failed, failed_wc, send_wr, sent, post, send_msg,
  on_verbs,
}
use golinker.Cq.Dispatch.{track_send, on_error}
use golinker.Errors.{Error, Result, ok, err, panic, diverge, Returns, not_connected}
use golinker.Go.Dict.{
  insert, Absent, delete, delete-insert_new, lookup-insert_self, lookup-delete_self,
}
use golinker.Go.State.{and_then, attempted, put_back}
use golinker.Go.Word.{inc64}

-- Sending `b` under the new WRID: it is tracked and stays in flight, or it is free again.
abbrev pub Owned :
    {V : Type 0} → Link V → List (ℕ × Option Buffer) → Buffer → Result (Unit {0}) × Link V → Type 0
Owned l m b (ok u, l') =
    (l'.send_pool ≡ l.send_pool)
    × (l'.conn.wrid_map ≡ some (insert (inc64 l.conn.next_wrid) (some b) m))
Owned l m b (err e, l') =
    Inv l'.send_pool × (is_in_flight l'.send_pool b ≡ false) × (l'.conn.wrid_map ≡ some m)
Owned l m b (panic, l') = ⊥
Owned l m b (diverge, l') = ⊥

module _ {V : Type 0} (verbs : Verbs V) where
  -- The handler's OnError gives the buffer back and deletes the WRID.
  pub on_error-tracked :
      (m : List (ℕ × Option Buffer)) (wrid : ℕ) (b : Buffer) (e : Error) (sp : SendPool)
      → Inv sp
      → is_in_flight sp b ≡ true
      → on_error complete_send
          (some (failed_wc wrid))
          e
          (record { wrid_map = insert wrid (some b) m; world = sp })
        ≡ (ok tt, record { wrid_map = delete wrid (insert wrid (some b) m); world = putting sp b })
  unfolding on_error is_in_flight
  on_error-tracked m wrid b e sp v h =
      rw (lookup-insert_self wrid (some b) m, complete_found sp b v h)

  handler_on_error :
      (m : List (ℕ × Option Buffer)) (wrid : ℕ) (b : Buffer) (e : Error) (sp : SendPool)
      → Inv sp
      → is_in_flight sp b ≡ true
      → Absent wrid m
      → on_error complete_send
          (some (failed_wc wrid))
          e
          (record { wrid_map = insert wrid (some b) m; world = sp })
        ≡ (ok tt, record { wrid_map = m; world = putting sp b })
  handler_on_error m wrid b e sp v h a =
      on_error-tracked m wrid b e sp v h
      ∙ ap (λ k. (ok tt, record { wrid_map = k; world = putting sp b }))
          (delete-insert_new wrid (some b) m a)

  -- The link when PostSend is called.
  abbrev pub tracked : ℕ → Link V → List (ℕ × Option Buffer) → Buffer → Link V
  tracked wrid l m b = record l {
    conn = record l.conn { next_wrid = wrid; wrid_map = some (insert wrid (some b) m) };
  }

  abbrev pub posted :
      ℕ
      → Link V
      → List (ℕ × Option Buffer)
      → Buffer
      → Message
      → Result (Unit {0}) × V
      → Result (Unit {0}) × Link V
  posted wrid l m b msg q =
      and_then (attempted (put_back (λ v x. record x { verbs = v }) (tracked wrid l m b) q))
        (sent wrid msg)

  pub post-posted :
      (wrid : ℕ) (l : Link V) (m : List (ℕ × Option Buffer)) (b : Buffer) (msg : Message)
      → l.conn.wrid_map ≡ some m
      → msg.buffer ≡ some b
      → post verbs wrid msg l ≡ posted wrid l m b msg (verbs.post_send (send_wr wrid msg) l.verbs)
  unfolding post track track_send
  post-posted wrid l m b msg w e =
      ap
        (λ x.
          and_then (attempted (on_verbs (verbs.post_send (send_wr wrid msg)) x)) (sent wrid msg))
        (mapped l.conn.wrid_map msg.buffer w e)
    where
      start : Link V
      start = record l { conn = record l.conn { next_wrid = wrid } }

      mapped :
          (o : Option (List (ℕ × Option Buffer))) (q : Option Buffer)
          → o ≡ some m
          → q ≡ some b
          → track o wrid q start ≡ tracked wrid l m b
      mapped o q p r = rw (p, r)

  settled :
      (l : Link V) (m : List (ℕ × Option Buffer)) (b : Buffer) (msg : Message)
      → msg.buffer ≡ some b
      → Absent (inc64 l.conn.next_wrid) m
      → Inv l.send_pool
      → is_in_flight l.send_pool b ≡ true
      → (q : Result (Unit {0}) × V) → Returns q.0
      → Owned l m b (posted (inc64 l.conn.next_wrid) l m b msg q)
  unfolding sent untrack_failed is_in_flight
  settled l m b msg e a v h (ok u, x) r = (refl, refl)
  settled l m b msg e a v h (err y, x) r =
      rw (e, handler_on_error m (inc64 l.conn.next_wrid) b y l.send_pool v h a)
        (
          putting-Inv l.send_pool b v h,
          ap is_some (lookup-delete_self (key b) l.send_pool.in_flight v.distinct),
          refl,
        )
  settled l m b msg e a v h (panic, x) r = r
  settled l m b msg e a v h (diverge, x) r = r

  module _ (sound : (wr : SendWr) (v : V) → Returns (verbs.post_send wr v).0) where
    -- A Send of a buffer in flight on a connected link with a send handler: on success the buffer
    -- is tracked under a new WRID and stays in flight; where PostSend fails the error goes up, the
    -- buffer is back among the free ones and the WRID is forgotten. Send never panics.
    pub send_msg-Owned :
        (l : Link V) (m : List (ℕ × Option Buffer)) (b : Buffer) (msg : Message)
        → l.conn.state ≡ connected
        → l.conn.wrid_map ≡ some m
        → msg.buffer ≡ some b
        → Absent (inc64 l.conn.next_wrid) m
        → Inv l.send_pool
        → is_in_flight l.send_pool b ≡ true
        → Owned l m b (send_msg verbs msg l)
    unfolding send_msg
    send_msg-Owned l m b msg c w e a v h =
        let wrid = inc64 l.conn.next_wrid in
        let steps =
          ap (λ s. if same_state s connected then post verbs wrid msg l else (err not_connected, l))
            c
          ∙ post-posted wrid l m b msg w e in
        subst (Owned l m b) (sym steps) (
          settled l m b msg e a v h (verbs.post_send (send_wr wrid msg) l.verbs)
            (sound (send_wr wrid msg) l.verbs))
