-- ===== src/Cq/Poller/Wakeup.antt =====
-- pkg/cq/poller.go: what a waiter that waits for an event may have missed.
use golinker.Base.{ℕ, zero, suc, ◌<◌, ◌≡◌, ◌⊎◌, inl, inr, refl, true, false, arith}
use golinker.Cq.Poller.Waiter.{
  Place, spinning, arming, checking, reading, acking, draining, returned, Mode, Waiter, head,
  is_polling, after_poll, poll, fail_poll, arm, read, ack, exit, arrive, Step, arrives, polls,
  fails, arms, arm_fails, reads, read_fails, acks, cancelled, init, Reach, here, later,
}

-- Behind the arming the queue is armed or an event waits; where the waiter reads and no event waits,
-- the queue was found empty.
pub record Inv (w : Waiter) : Type 0 where
  pub alert : (w.place ≡ checking) ⊎ (w.place ≡ reading) → (w.armed ≡ true) ⊎ (0 < w.events)
  pub emptied : w.place ≡ reading → w.events ≡ 0 → w.failed ≡ false → w.pending ≡ 0

arrive-Inv : (w : Waiter) → Inv w → Inv (arrive w)
unfolding arrive
arrive-Inv w v = record {
  alert = λ p. ground (arith, v.alert p);
  emptied = λ p e f. ground (arith, v.alert (inr p));
}

abbrev IsBehind : Place → Type 0
IsBehind p = (p ≡ checking) ⊎ (p ≡ reading)

-- Only a poll behind the arming leads to another one or to the read, and only an empty one to the read.
behind :
    (m : Mode) (p : Place) (found : ℕ)
    → is_polling p ≡ true
    → IsBehind (after_poll m p found)
    → (p ≡ checking) × (after_poll m p found ≡ reading → found ≡ 0)
unfolding after_poll
behind m (spinning n) zero q h = ground arith
behind m (spinning n) (suc found) q h = ground arith
behind m arming found q h = cc
behind m checking zero q h = (refl, λ e. refl)
behind m checking (suc found) q h = (refl, λ e. ground arith)
behind m reading found q h = cc
behind m acking found q h = cc
behind m draining zero q h = ground arith
behind m draining (suc found) q h = ground arith
behind m returned found q h = cc

poll-Inv :
    (m : Mode) (found : ℕ) (w : Waiter)
    → is_polling w.place ≡ true
    → (found ≡ 0 → w.pending ≡ 0)
    → Inv w
    → Inv (poll m found w)
unfolding poll
poll-Inv m found w q e v = record {
  alert = λ p. v.alert (inl (behind m w.place found q p).0);
  emptied = λ p k f.
      let none_found = (behind m w.place found q (inr p)).1 p in
      omega (arith, e none_found, none_found);
}

fail_poll-Inv : (m : Mode) (w : Waiter) → is_polling w.place ≡ true → Inv w → Inv (fail_poll m w)
unfolding fail_poll
fail_poll-Inv m w q v = record {
  alert = λ p. v.alert (inl (behind m w.place 0 q p).0);
  emptied = λ p k f. cc;
}

-- A waiter elsewhere than behind the arming has nothing to keep.
away-Inv : (w : Waiter) → (IsBehind w.place → ⊥) → Inv w
away-Inv w h = record { alert = λ p. absurd (h p); emptied = λ p e f. absurd (h (inr p)) }

head_away : (m : Mode) → IsBehind (head m) → ⊥
head_away m h = ground arith

Step-Inv : {m : Mode} {w v : Waiter} → Step m w v → Inv w → Inv v
unfolding arm read ack exit
Step-Inv {w} arrives v = arrive-Inv w v
Step-Inv {m} {w} (polls found q h e) v = poll-Inv m found w q e v
Step-Inv {m} {w} (fails q) v = fail_poll-Inv m w q v
Step-Inv {w} (arms q) v = record { alert = λ p. inl refl; emptied = λ p. ground arith }
Step-Inv {w} (arm_fails q) v = away-Inv (exit w) (λ p. ground arith)
Step-Inv {w} (reads q h) v = away-Inv (read w) (λ p. ground arith)
Step-Inv {w} (read_fails q) v = away-Inv (exit w) (λ p. ground arith)
Step-Inv {w} (acks q) v = away-Inv (ack w) (λ p. ground arith)
Step-Inv {w} (cancelled q) v = away-Inv (exit w) (λ p. ground arith)

Reach-Inv : {m : Mode} {w : Waiter} → Reach m w → Inv w
Reach-Inv {m} here = away-Inv (init m) (head_away m)
Reach-Inv (later r s) = Step-Inv s (Reach-Inv r)

-- No wake-up is lost, in either mode and however the waiter and the device interleave: a waiter that
-- has come to its read while completions are in the queue finds an event on the channel, so that the
-- read does not block, unless the poll before the read returned an error.
pub Reach-wakes :
    {m : Mode} {w : Waiter}
    → Reach m w
    → w.place ≡ reading
    → w.failed ≡ false
    → 0 < w.pending
    → 0 < w.events
Reach-wakes r p f h = ground (arith, (Reach-Inv r).emptied p)

abbrev event_mode : Mode
event_mode = record { smart = false; spin_count = 0 }

-- The waiter before its first arming, after `n` completions.
abbrev early : ℕ → Waiter
early n = record { place = arming; pending = n; armed = false; events = 0; failed = false }

Reach-early : (n : ℕ) → Reach event_mode (early n)
unfolding arrive
Reach-early zero = here
Reach-early (suc n) = later (Reach-early n) arrives

-- After an error of that poll the waiter may wait while completions are in the queue, any number of
-- them: those that came before the arming raise no event.
pub fail_poll-strands :
    (n : ℕ)
    → (w : Waiter) × Reach event_mode w × (w.place ≡ reading) × (w.pending ≡ n) × (w.events ≡ 0)
unfolding arm fail_poll after_poll
fail_poll-strands n = (
  fail_poll event_mode (arm (early n)),
  later (later (Reach-early n) (arms refl)) (fails refl),
  refl,
  refl,
  refl,
)
