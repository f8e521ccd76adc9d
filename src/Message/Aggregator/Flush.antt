-- ===== src/Message/Aggregator/Flush.antt =====
-- pkg/message/aggregator.go: what flushLocked does to the stream of delivered and pending messages.
use golinker.Base.{
  ℕ, ◌+◌, ◌≤◌, ◌<◌, ◌^◌, ◌≡◌, refl, sym, ap, ◌∙◌, List, [], ◌∷◌, ◌++◌, arith, length, length-append,
  length-drop, drop, append-nil,
}
use mathlib.Core.Path.{subst}
use golinker.Api.{Buffer}
use golinker.Errors.{Result, ok, err, panic, diverge}
use golinker.Go.State.{and_then, attempted, put_back}
use golinker.Message.Aggregator.{
  Aggregator, put_pending, count_batch, post_batch, flush_with, flush_list, flush_locked,
}
use golinker.Message.Encoding.{Small, encoding, length-frames, pack_batch-eq-encoding}
use golinker.Message.RoundTrip.{unpack_batch-encoding}
use golinker.Message.Transport.{Transport, Laws, Acquires, Sends}
use golinker.Message.Wire.{unpack_batch, framed_size, batch_size}

-- The pending messages are counted right, fit a buffer together, and can be framed; the transport
-- is in a good state.
pub record Inv {W : Type 0} (size : ℕ) (Good : W → Type 0) (a : Aggregator W) : Type 0 where
  pub sized : a.pending_size ≡ framed_size a.pending
  pub fits : batch_size a.pending ≤ a.buffer_size
  pub small : Small a.pending
  pub room : a.buffer_size ≤ size
  pub good : Good a.world

pub framed_size-append :
    (xs ys : List (List ℕ)) → framed_size (xs ++ ys) ≡ framed_size xs + framed_size ys
framed_size-append [] ys = omega arith
framed_size-append (x ∷ xs) ys = omega (arith, framed_size-append xs ys)

pub Small-append :
    (xs : List (List ℕ)) (m : List ℕ) → Small xs → length m < 2 ^ 32 → Small (xs ++ m ∷ [])
Small-append [] m s h = (h, tt)
Small-append (x ∷ xs) m s h = (s.0, Small-append xs m s.1 h)

-- What a flush and its parts leave alone.
record Keeps {W : Type 0} (a a' : Aggregator W) : Type 0 where
  pub pending : a'.pending ≡ a.pending
  pub pending_size : a'.pending_size ≡ a.pending_size
  pub buffer_size : a'.buffer_size ≡ a.buffer_size

module _ {W : Type 0} (t : Transport W) (size : ℕ) {Good : W → Type 0} {Held : Buffer → W → Type 0}
    (laws : Laws t size Good Held) where
  -- Everything that was delivered, and what still waits, in order.
  abbrev pub stream : Aggregator W → List (List ℕ)
  stream a = laws.delivered a.world ++ a.pending

  abbrev Posted : Aggregator W → List (List ℕ) → Result (Unit {0}) × Aggregator W → Type 0
  Posted a msgs (ok u, a') =
      (laws.delivered a'.world ≡ laws.delivered a.world ++ msgs) × Keeps a a' × Good a'.world
  Posted a msgs (err e, a') =
      (laws.delivered a'.world ≡ laws.delivered a.world) × Keeps a a' × Good a'.world
  Posted a msgs (panic, a') = ⊥
  Posted a msgs (diverge, a') = ⊥

  sent-Posted :
      (a a' : Aggregator W) (w : W) (msgs : List (List ℕ)) (r : Result (Unit {0}) × W)
      → Keeps a a'
      → laws.delivered w ≡ laws.delivered a.world
      → Sends laws.delivered Good msgs w r
      → Posted a msgs (put_back (λ w a. record a { world = w }) a' r)
  sent-Posted a a' w msgs (ok u, w') k e s = (s.0 ∙ ap (λ d. d ++ msgs) e, k', s.1)
    where
      k' : Keeps a (record a' { world = w' })
      k' = record {
        pending = k.pending;
        pending_size = k.pending_size;
        buffer_size = k.buffer_size;
      }
  sent-Posted a a' w msgs (err x, w') k e s = (s.0 ∙ e, k', s.1)
    where
      k' : Keeps a (record a' { world = w' })
      k' = record {
        pending = k.pending;
        pending_size = k.pending_size;
        buffer_size = k.buffer_size;
      }
  sent-Posted a a' w msgs (panic, w') k e s = s
  sent-Posted a a' w msgs (diverge, w') k e s = s

  -- The bytes that are written: as many as the buffer has.
  abbrev out : List (List ℕ) → Buffer → W → List ℕ
  out msgs b w = encoding (t.now w) msgs ++ drop (batch_size msgs) (t.bytes b w)

  length-out :
      (msgs : List (List ℕ)) (b : Buffer) (w : W)
      → batch_size msgs ≤ length (t.bytes b w)
      → length (out msgs b w) ≡ length (t.bytes b w)
  length-out msgs b w h = omega (
    arith,
    length-append (encoding (t.now w) msgs) (drop (batch_size msgs) (t.bytes b w)),
    length-frames (t.now w) msgs,
    length-drop (batch_size msgs) (t.bytes b w),
  )

  post_batch-Posted :
      (a : Aggregator W) (msgs : List (List ℕ)) (b : Buffer)
      → Small msgs
      → batch_size msgs ≤ length (t.bytes b a.world)
      → Good a.world
      → Held b a.world
      → Posted a msgs (post_batch t msgs b a)
  unfolding post_batch
  post_batch-Posted a msgs b s h g held =
      let now = t.now a.world in
      let dest = t.bytes b a.world in
      let bytes = out msgs b a.world in
      let long = length-out msgs b a.world h in
      let stored = laws.stores b bytes a.world g held long in
      let read : unpack_batch (t.bytes b (t.store b bytes a.world)) (batch_size msgs) ≡ ok msgs =
        ap (λ d. unpack_batch d (batch_size msgs)) stored.reads_back
        ∙ unpack_batch-encoding now msgs (drop (batch_size msgs) dest) s in
      let fits : batch_size msgs ≤ length (t.bytes b (t.store b bytes a.world)) =
        omega (arith, ap length stored.reads_back) in
      rw (pack_batch-eq-encoding now msgs dest h) (
        sent-Posted a (count_batch (length msgs) (record a { world = t.store b bytes a.world }))
          (t.store b bytes a.world) msgs _
          (record { pending = refl; pending_size = refl; buffer_size = refl }) stored.silent
          (laws.sends b (batch_size msgs) msgs (t.store b bytes a.world) stored.good stored.held
            fits read))

  -- A flush posts all that is pending, or fails; the invariant holds after either.
  abbrev pub Flushed : Aggregator W → Result (Unit {0}) × Aggregator W → Type 0
  Flushed a (ok u, a') =
      Inv size Good a'
      × (a'.pending ≡ [])
      × (stream a' ≡ stream a)
      × (a'.buffer_size ≡ a.buffer_size)
  Flushed a (err e, a') = Inv size Good a'
  Flushed a (panic, a') = ⊥
  Flushed a (diverge, a') = ⊥

  emptied-Inv :
      (a a' : Aggregator W)
      → Inv size Good a
      → Keeps (put_pending [] a) a'
      → Good a'.world
      → Inv size Good a'
  emptied-Inv a a' v k g = record {
    sized = k.pending_size ∙ ap framed_size (sym k.pending);
    fits = omega (arith, v.fits, k.buffer_size, ap framed_size k.pending);
    small = subst Small (sym k.pending) tt;
    room = omega (arith, v.room, k.buffer_size);
    good = g;
  }

  Keeps-trans : (a b c : Aggregator W) → Keeps a b → Keeps b c → Keeps a c
  Keeps-trans a b c k l = record {
    pending = l.pending ∙ k.pending;
    pending_size = l.pending_size ∙ k.pending_size;
    buffer_size = l.buffer_size ∙ k.buffer_size;
  }

  Posted-Flushed :
      (a b : Aggregator W) (r : Result (Unit {0}) × Aggregator W)
      → Inv size Good a
      → Keeps (put_pending [] a) b
      → laws.delivered b.world ≡ laws.delivered a.world
      → Posted b a.pending r
      → Flushed a r
  Posted-Flushed a b (ok u, c) v k e p =
      let all = Keeps-trans (put_pending [] a) b c k p.1 in
      (
        emptied-Inv a c v all p.2,
        all.pending,
        ap (λ l. laws.delivered c.world ++ l) all.pending
            ∙ append-nil (laws.delivered c.world)
            ∙ p.0
            ∙ ap (λ d. d ++ a.pending) e,
        all.buffer_size,
      )
  Posted-Flushed a b (err x, c) v k e p =
      emptied-Inv a c v (Keeps-trans (put_pending [] a) b c k p.1) p.2
  Posted-Flushed a b (panic, c) v k e p = p
  Posted-Flushed a b (diverge, c) v k e p = p

  acquired-Flushed :
      (a : Aggregator W) (q : Result Buffer × W)
      → Inv size Good a
      → Acquires laws.delivered Good Held t.bytes size a.world q
      → Flushed a (
          and_then
            (attempted (put_back (λ w x. record x { world = w }) (put_pending [] a) q))
            (flush_with t a.pending))
  unfolding flush_with
  acquired-Flushed a (ok b, w) v h =
      let after = record (put_pending [] a) { world = w } in
      Posted-Flushed a after (post_batch t a.pending b after) v
        (record { pending = refl; pending_size = refl; buffer_size = refl }) h.0
        (post_batch-Posted after a.pending b v.small (omega (arith, v.fits, v.room, h.1)) h.2 h.3)
  acquired-Flushed a (err e, w) v h = record {
    sized = refl;
    fits = v.fits;
    small = v.small;
    room = v.room;
    good = h.1;
  }
  acquired-Flushed a (panic, w) v h = h
  acquired-Flushed a (diverge, w) v h = h

  flush_list-Flushed :
      (msgs : List (List ℕ)) (a : Aggregator W)
      → a.pending ≡ msgs
      → Inv size Good a
      → Flushed a (flush_list t msgs a)
  unfolding flush_list
  flush_list-Flushed [] a e v = (v, e, refl, refl)
  flush_list-Flushed (m ∷ ms) a e v =
      subst
        (λ l. Flushed a (
          and_then
            (attempted (
              put_back (λ w x. record x { world = w }) (put_pending [] a)
                (t.acquire_for_send a.world)))
            (flush_with t l)))
        e (acquired-Flushed a (t.acquire_for_send a.world) v (laws.acquires a.world v.good))

  -- Flush posts every pending message, in order and in one batch, or reports an error; it keeps the
  -- invariant either way and never panics, because the batch fits the buffer.
  pub flush_locked-Flushed : (a : Aggregator W) → Inv size Good a → Flushed a (flush_locked t a)
  unfolding flush_locked
  flush_locked-Flushed a v = flush_list-Flushed a.pending a refl v
