-- ===== src/Message/Aggregator/Faults.antt =====
-- pkg/message/aggregator.go: what becomes of the messages when a call of the transport fails.
use golinker.Base.{ℕ, ◌≤◌, ◌≡◌, refl, ap, true, false, List, [], ◌∷◌, ◌++◌, arith, length, drop}
use golinker.Api.{Buffer}
use golinker.Errors.{Error, ok, err}
use golinker.Go.Word.{inc32}
use golinker.Message.Aggregator.{
  Aggregator, append, post_batch, flush_with, flush_list, flush_locked, overflows, make_room,
  triggered, maybe_flush, aggregate_send,
}
use golinker.Message.Encoding.{encoding, pack_batch-eq-encoding}
use golinker.Message.Transport.{Transport, message}
use golinker.Message.Wire.{framed_size, batch_size}

module _ {W : Type 0} (t : Transport W) where
  -- The bytes that a flush writes into the buffer that it acquired.
  abbrev pub batch_bytes : List (List ℕ) → Buffer → W → List ℕ
  batch_bytes msgs b w = encoding (t.now w) msgs ++ drop (batch_size msgs) (t.bytes b w)

  -- Without a free buffer a flush reports the error of the pool and leaves every message pending.
  pub flush_locked_exhausted :
      (a : Aggregator W) (m : List ℕ) (ms : List (List ℕ)) (w : W) (e : Error)
      → a.pending ≡ m ∷ ms
      → t.acquire_for_send a.world ≡ (err e, w)
      → flush_locked t a ≡ (err e, record a { pending_size = framed_size a.pending; world = w })
  unfolding flush_locked flush_list flush_with
  flush_locked_exhausted a m ms w e p h = ground arith

  -- A Send whose flush finds no free buffer reports the error, and its message stays pending all
  -- the same, behind those that waited: the caller sees a failure of a message that will be sent.
  pub aggregate_send_exhausted :
      (a : Aggregator W) (msg : List ℕ) (w : W) (e : Error)
      → overflows t msg a ≡ false
      → triggered t (append msg a) ≡ true
      → t.acquire_for_send a.world ≡ (err e, w)
      → ((aggregate_send t msg a).0 ≡ err e)
        × ((aggregate_send t msg a).1.pending ≡ a.pending ++ msg ∷ [])
  unfolding aggregate_send make_room maybe_flush
  aggregate_send_exhausted a msg w e o g h = rw o (rw g (kept (a.pending) refl))
    where
      kept :
          (l : List (List ℕ))
          → a.pending ≡ l
          → ((flush_locked t (append msg a)).0 ≡ err e)
            × ((flush_locked t (append msg a)).1.pending ≡ a.pending ++ msg ∷ [])
      kept [] p =
          rw (flush_locked_exhausted (append msg a) msg [] w e (ap (λ x. x ++ msg ∷ []) p) h)
            (refl, refl)
      kept (m ∷ ms) p =
          rw
            (flush_locked_exhausted (append msg a) m (ms ++ msg ∷ []) w e
              (ap (λ x. x ++ msg ∷ []) p) h)
            (refl, refl)

  -- A flush whose post fails drops the messages of the batch and keeps its count of a send under
  -- way, for which no completion will come.
  pub flush_locked_refused :
      (a : Aggregator W) (m : List ℕ) (ms : List (List ℕ)) (b : Buffer) (w v : W) (e : Error)
      → a.pending ≡ m ∷ ms
      → t.acquire_for_send a.world ≡ (ok b, w)
      → batch_size (m ∷ ms) ≤ length (t.bytes b w)
      → t.send (message b (batch_size (m ∷ ms))) (t.store b (batch_bytes (m ∷ ms) b w) w)
        ≡ (err e, v)
      → ((flush_locked t a).0 ≡ err e)
        × ((flush_locked t a).1.pending ≡ [])
        × ((flush_locked t a).1.ongoing_sends ≡ inc32 a.ongoing_sends)
  unfolding flush_locked flush_list flush_with post_batch
  flush_locked_refused a m ms b w v e p h fits s = rw p (
      rw h (
        rw (pack_batch-eq-encoding (t.now w) (m ∷ ms) (t.bytes b w) fits)
          (rw s (refl, refl, refl))))
