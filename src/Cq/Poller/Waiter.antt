-- ===== src/Cq/Poller/Waiter.antt =====
-- pkg/cq/poller.go: eventWaiterLoop and smartWaiterLoop of one queue with a completion channel, as
-- steps of the waiter and of the device. A completion that the device adds to an armed queue puts one
-- event on the channel and disarms the queue, which is what ibv_req_notify_cq promises.
use golinker.Base.{ℕ, zero, suc, ◌-◌, ◌≤◌, ◌<◌, ◌≡◌, Bool, true, false, not, ltb, if◌then◌else◌}

-- Where a waiter is: before a poll of the busy phase, after so many empty ones; before ReqNotify; at
-- a poll behind it; in the read of the channel's file; before AckEvents; at a poll of the final
-- drain; or returned.
pub data Place : Type 0 where
  spinning : ℕ → Place
  arming checking reading acking draining returned : Place

-- Whether the mode is smart, and SpinCount.
pub record Mode : Type 0 where
  pub smart : Bool
  pub spin_count : ℕ

-- The queue: its completions, whether it is armed, and the events on its channel. `failed` is
-- whether the last poll returned an error.
pub record Waiter : Type 0 where
  pub place : Place
  pub pending : ℕ
  pub armed : Bool
  pub events : ℕ
  pub failed : Bool

-- The top of the loop.
abbrev pub head : Mode → Place
head m = if m.smart then spinning 0 else arming

abbrev pub is_head : Mode → Place → Bool
is_head m (spinning n) = true
is_head m arming = not m.smart
is_head m _ = false

abbrev pub is_polling : Place → Bool
is_polling (spinning n) = true
is_polling checking = true
is_polling draining = true
is_polling _ = false

-- What follows a poll that found so many completions; an error counts as none.
unfoldable pub after_poll : Mode → Place → ℕ → Place
after_poll m (spinning n) zero = if ltb (suc n) m.spin_count then spinning (suc n) else arming
after_poll m (spinning n) (suc found) = spinning 0
after_poll m checking zero = reading
after_poll m checking (suc found) = if m.smart then spinning 0 else checking
after_poll m draining zero = head m
after_poll m draining (suc found) = draining
after_poll m p found = p

unfoldable pub poll : Mode → ℕ → Waiter → Waiter
unfolding after_poll
poll m found w = record w {
  place = after_poll m w.place found;
  pending = w.pending - found;
  failed = false;
}

-- The poll function returned an error: pollSingleCQ returns 0.
unfoldable pub fail_poll : Mode → Waiter → Waiter
unfolding after_poll
fail_poll m w = record w { place = after_poll m w.place 0; failed = true }

unfoldable pub arm : Waiter → Waiter
arm w = record w { place = checking; armed = true }

unfoldable pub read : Waiter → Waiter
read w = record w { place = acking; events = w.events - 1 }

unfoldable pub ack : Waiter → Waiter
ack w = record w { place = draining }

unfoldable pub exit : Waiter → Waiter
exit w = record w { place = returned }

-- The device adds a completion.
unfoldable pub arrive : Waiter → Waiter
arrive w = record w {
  pending = suc w.pending;
  armed = false;
  events = if w.armed then suc w.events else w.events;
}

-- One step. A poll takes some of the completions, and none only where there are none; the read waits
-- for an event, and fails when the file is closed.
pub data Step (m : Mode) (w : Waiter) : Waiter → Type 0 where
  arrives : Step m w (arrive w)
  polls :
      (found : ℕ)
      → is_polling w.place ≡ true
      → found ≤ w.pending
      → (found ≡ 0 → w.pending ≡ 0)
      → Step m w (poll m found w)
  fails : is_polling w.place ≡ true → Step m w (fail_poll m w)
  arms : w.place ≡ arming → Step m w (arm w)
  arm_fails : w.place ≡ arming → Step m w (exit w)
  reads : w.place ≡ reading → 0 < w.events → Step m w (read w)
  read_fails : w.place ≡ reading → Step m w (exit w)
  acks : w.place ≡ acking → Step m w (ack w)
  cancelled : is_head m w.place ≡ true → Step m w (exit w)

abbrev pub init : Mode → Waiter
init m = record { place = head m; pending = 0; armed = false; events = 0; failed = false }

pub data Reach (m : Mode) : Waiter → Type 0 where
  here : Reach m (init m)
  later : {w v : Waiter} → Reach m w → Step m w v → Reach m v
