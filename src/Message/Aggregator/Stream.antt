-- ===== src/Message/Aggregator/Stream.antt =====
-- pkg/message/aggregator.go: no message is lost, repeated or overtaken by the aggregated sends.
use golinker.Base.{
  ℕ, ◌+◌, ◌≤◌, ◌<◌, ◌^◌, ◌≡◌, ◌≢◌, ◌⊎◌, inl, inr, refl, sym, ap, ◌∙◌, false, List, [], ◌∷◌, ◌++◌,
  arith, length, append_assoc, Bool-cases,
}
use golinker.Api.{Buffer}
use golinker.Errors.{Result, ok, err, panic, diverge}
use golinker.Go.State.{and_then}
use golinker.Message.Aggregator.{
  Aggregator, append, flush_locked, overflows, make_room, triggered, maybe_flush, aggregate_send,
}
use golinker.Message.Transport.{Transport, Laws}
use golinker.Message.Wire.{framed_size, batch_size}
use golinker.Message.Aggregator.Flush.{
  Inv, framed_size-append, Small-append, stream, Flushed, flush_locked-Flushed,
}

module _ {W : Type 0} (t : Transport W) (size : ℕ) {Good : W → Type 0} {Held : Buffer → W → Type 0}
    (laws : Laws t size Good Held) where
  -- Room for the message beside what is pending.
  abbrev Roomy : List ℕ → Aggregator W → Result (Unit {0}) × Aggregator W → Type 0
  Roomy msg a (ok u, a') =
      Inv size Good a'
      × (stream t size laws a' ≡ stream t size laws a)
      × (batch_size a'.pending + (12 + length msg) ≤ a'.buffer_size)
  Roomy msg a (err e, a') = Inv size Good a'
  Roomy msg a (panic, a') = ⊥
  Roomy msg a (diverge, a') = ⊥

  Flushed-Roomy :
      (msg : List ℕ) (a : Aggregator W) (r : Result (Unit {0}) × Aggregator W)
      → 24 + length msg ≤ a.buffer_size
      → Flushed t size laws a r
      → Roomy msg a r
  Flushed-Roomy msg a (ok u, b) h f = (f.0, f.2, omega (arith, f.3, ap framed_size f.1))
  Flushed-Roomy msg a (err e, b) h f = f
  Flushed-Roomy msg a (panic, b) h f = f
  Flushed-Roomy msg a (diverge, b) h f = f

  no_overflow :
      (msg : List ℕ) (a : Aggregator W)
      → Inv size Good a
      → 24 + length msg ≤ a.buffer_size
      → overflows t msg a ≡ false
      → batch_size a.pending + (12 + length msg) ≤ a.buffer_size
  unfolding overflows
  no_overflow msg a v h e = ground (arith, v.sized)

  make_room-Roomy :
      (msg : List ℕ) (a : Aggregator W)
      → Inv size Good a
      → 24 + length msg ≤ a.buffer_size
      → Roomy msg a (make_room t msg a)
  unfolding make_room
  make_room-Roomy msg a v h = elim (Bool-cases (overflows t msg a)) [
    | inl over ↦
        rw over (Flushed-Roomy msg a (flush_locked t a) h (flush_locked-Flushed t size laws a v))
    | inr fits ↦ rw fits (v, refl, no_overflow msg a v h fits)
  ]

  append-Inv :
      (msg : List ℕ) (a : Aggregator W)
      → Inv size Good a
      → length msg < 2 ^ 32
      → batch_size a.pending + (12 + length msg) ≤ a.buffer_size
      → Inv size Good (append msg a)
  append-Inv msg a v s h =
      let longer = framed_size-append a.pending (msg ∷ []) in
      record {
        sized = omega (arith, v.sized);
        fits = omega arith;
        small = Small-append a.pending msg v.small s;
        room = v.room;
        good = v.good;
      }

  -- What a send of `msg` does to the stream.
  abbrev pub Accepted : List ℕ → Aggregator W → Result (Unit {0}) × Aggregator W → Type 0
  Accepted msg a (ok u, a') =
      Inv size Good a'
      × (stream t size laws a' ≡ stream t size laws a ++ msg ∷ [])
      × ((a'.pending ≡ []) ⊎ (a'.ongoing_sends ≢ 0))
      × ((a'.pending ≡ []) ⊎ (batch_size a'.pending ≤ a'.send_threshold))
  Accepted msg a (err e, a') = Inv size Good a'
  Accepted msg a (panic, a') = ⊥
  Accepted msg a (diverge, a') = ⊥

  Flushed-Accepted :
      (msg : List ℕ) (a b : Aggregator W) (r : Result (Unit {0}) × Aggregator W)
      → stream t size laws b ≡ stream t size laws a ++ msg ∷ []
      → Flushed t size laws b r
      → Accepted msg a r
  Flushed-Accepted msg a b (ok u, c) e f = (f.0, f.2 ∙ e, inl f.1, inl f.1)
  Flushed-Accepted msg a b (err x, c) e f = f
  Flushed-Accepted msg a b (panic, c) e f = f
  Flushed-Accepted msg a b (diverge, c) e f = f

  not_triggered :
      (a : Aggregator W)
      → triggered t a ≡ false
      → (a.ongoing_sends ≢ 0) × (12 + a.pending_size ≤ a.send_threshold)
  unfolding triggered
  not_triggered a h = (λ e. ground arith, ground arith)

  maybe_flush-Accepted :
      (msg : List ℕ) (a b : Aggregator W)
      → Inv size Good b
      → stream t size laws b ≡ stream t size laws a ++ msg ∷ []
      → Accepted msg a (maybe_flush t b)
  unfolding maybe_flush
  maybe_flush-Accepted msg a b v e = elim (Bool-cases (triggered t b)) [
    | inl hit ↦
        rw hit
          (Flushed-Accepted msg a b (flush_locked t b) e (flush_locked-Flushed t size laws b v))
    | inr miss ↦
        let calm = not_triggered b miss in
        rw miss (v, e, inr calm.0, inr (omega (arith, v.sized, calm.1)))
  ]

  Roomy-Accepted :
      (msg : List ℕ) (a : Aggregator W) (r : Result (Unit {0}) × Aggregator W)
      → length msg < 2 ^ 32
      → Roomy msg a r
      → Accepted msg a (and_then r (λ _ b. maybe_flush t (append msg b)))
  Roomy-Accepted msg a (ok u, b) s p =
      maybe_flush-Accepted msg a (append msg b) (append-Inv msg b p.0 s p.2) (
        sym (append_assoc (laws.delivered b.world) b.pending (msg ∷ []))
        ∙ ap (λ l. l ++ msg ∷ []) p.1)
  Roomy-Accepted msg a (err e, b) s p = p
  Roomy-Accepted msg a (panic, b) s p = p
  Roomy-Accepted msg a (diverge, b) s p = p

  -- The aggregated Send of a message that fits a buffer never panics and keeps the invariant. Where
  -- it reports no error, the stream of delivered and pending messages has grown by exactly this
  -- message, at its end: nothing is lost, repeated or reordered, whatever was flushed on the way.
  -- Moreover no message is left pending with no send under way, and what stays pending is within
  -- the send threshold.
  pub aggregate_send-Accepted :
      (msg : List ℕ) (a : Aggregator W)
      → Inv size Good a
      → 24 + length msg ≤ a.buffer_size
      → length msg < 2 ^ 32
      → Accepted msg a (aggregate_send t msg a)
  unfolding aggregate_send
  aggregate_send-Accepted msg a v h s =
      Roomy-Accepted msg a (make_room t msg a) s (make_room-Roomy msg a v h)
