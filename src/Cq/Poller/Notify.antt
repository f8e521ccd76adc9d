-- ===== src/Cq/Poller/Notify.antt =====
-- pkg/cq/poller.go: smartPollLoop for the queues without a completion channel, and Notify.
use golinker.Base.{
  ℕ, zero, suc, ◌-◌, ◌≤◌, ◌<◌, ◌≡◌, refl, Bool, true, false, leb, arith, if◌then◌else◌,
}
use mathlib.Core.Path.{subst}

-- Where the loop is: before a poll, after so many empty ones; before the `select` that takes a
-- notification from eventCh and drops it; or in the `select` that waits for one.
pub data Place : Type 0 where
  polling : ℕ → Place
  dropping blocked returned : Place

-- The completions in the queues, and whether a notification waits in eventCh, which holds one.
pub record Spinner : Type 0 where
  pub place : Place
  pub pending : ℕ
  pub notified : Bool

-- Notify.
unfoldable pub notify : Spinner → Spinner
notify s = record s { notified = true }

-- What follows a poll of all queues, from `emptyRuns` and the completions that were found.
unfoldable pub after_poll : ℕ → ℕ → ℕ → Place
after_poll spin_count runs zero = if leb spin_count (suc runs) then dropping else polling (suc runs)
after_poll spin_count runs (suc found) = polling 0

unfoldable pub poll : ℕ → ℕ → ℕ → Spinner → Spinner
unfolding after_poll
poll spin_count runs found s = record s {
  place = after_poll spin_count runs found;
  pending = s.pending - found;
}

unfoldable pub drop_notification : Spinner → Spinner
drop_notification s = record s { place = blocked; notified = false }

unfoldable pub take_notification : Spinner → Spinner
take_notification s = record s { place = polling 0; notified = false }

unfoldable pub exit : Spinner → Spinner
exit s = record s { place = returned }

unfoldable pub arrive : Spinner → Spinner
unfolding notify
arrive s = notify (record s { pending = suc s.pending })

-- One step. Every completion comes with its notification; a poll finds none only where there are none.
pub data Step (spin_count : ℕ) (s : Spinner) : Spinner → Type 0 where
  arrives : Step spin_count s (arrive s)
  polls :
      (runs found : ℕ)
      → s.place ≡ polling runs
      → found ≤ s.pending
      → (found ≡ 0 → s.pending ≡ 0)
      → Step spin_count s (poll spin_count runs found s)
  drops : s.place ≡ dropping → Step spin_count s (drop_notification s)
  takes : s.place ≡ blocked → s.notified ≡ true → Step spin_count s (take_notification s)
  cancelled : (runs : ℕ) → s.place ≡ polling runs → Step spin_count s (exit s)
  cancelled_blocked : s.place ≡ blocked → Step spin_count s (exit s)

abbrev pub init : Spinner
init = record { place = polling 0; pending = 0; notified = false }

pub data Reach (spin_count : ℕ) : Spinner → Type 0 where
  here : Reach spin_count init
  later : {s t : Spinner} → Reach spin_count s → Step spin_count s t → Reach spin_count t

abbrev is_positive : ℕ → Bool
is_positive zero = false
is_positive (suc n) = true

abbrev spun : ℕ → Spinner
spun runs = record { place = polling runs; pending = 0; notified = false }

-- An empty poll below and at SpinCount.
spin :
    (spin_count runs : ℕ)
    → suc runs < spin_count
    → poll spin_count runs 0 (spun runs) ≡ spun (suc runs)
unfolding poll after_poll
spin spin_count runs h =
    let below : leb spin_count (suc runs) ≡ false = ground arith in rw below refl

abbrev late : ℕ → Spinner
late n = record { place = dropping; pending = n; notified = is_positive n }

tire : (runs : ℕ) → poll (suc runs) runs 0 (spun runs) ≡ late 0
unfolding poll after_poll
tire runs = let full : leb (suc runs) (suc runs) ≡ true = ground arith in rw full refl

Reach-spun : (spin_count runs : ℕ) → runs < spin_count → Reach spin_count (spun runs)
Reach-spun spin_count zero h = here
Reach-spun spin_count (suc runs) h = subst (Reach spin_count) (spin spin_count runs h) (
    later (Reach-spun spin_count runs (omega (arith, h)))
      (polls runs 0 refl (omega arith) (λ e. refl)))

Reach-late : (runs n : ℕ) → Reach (suc runs) (late n)
unfolding arrive notify
Reach-late runs zero =
    subst (Reach (suc runs)) (tire runs) (
      later (Reach-spun (suc runs) runs (omega arith))
        (polls runs 0 refl (omega arith) (λ e. refl)))
Reach-late runs (suc n) = later (Reach-late runs n) arrives

-- A notification can be lost, whatever the positive SpinCount is: the loop may wait with any number of
-- completions in the queues and no notification in the channel, although every completion came with
-- a notification; the loop took them between its last poll and its wait, and dropped them.
pub drop_notification-loses :
    (runs n : ℕ)
    → (s : Spinner) × Reach (suc runs) s
      × (s.place ≡ blocked)
      × (s.pending ≡ n)
      × (s.notified ≡ false)
unfolding drop_notification
drop_notification-loses runs n =
    (drop_notification (late n), later (Reach-late runs n) (drops refl), refl, refl, refl)
