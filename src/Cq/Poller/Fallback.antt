-- ===== src/Cq/Poller/Fallback.antt =====
-- pkg/cq/poller.go: eventPollLoop for the queues without a completion channel, of which here is one,
-- with Notify and the poll of one batch for each notification.
use golinker.Base.{ℕ, zero, suc, ◌+◌, ◌-◌, ◌≤◌, ◌<◌, ◌≡◌, refl, Bool, true, false, arith}

-- In the `select`; in pollNonEventCQs; or returned.
pub data Place : Type 0 where
  waiting polling returned : Place

-- The completions in the queue, whether a notification waits in eventCh, which holds one, and whether
-- the last poll failed.
pub record Fallback : Type 0 where
  pub place : Place
  pub pending : ℕ
  pub notified : Bool
  pub failed : Bool

unfoldable pub notify : Fallback → Fallback
notify s = record s { notified = true }

unfoldable pub take_notification : Fallback → Fallback
take_notification s = record s { place = polling; notified = false }

unfoldable pub poll : ℕ → Fallback → Fallback
poll found s = record s { place = waiting; pending = s.pending - found; failed = false }

-- pollSingleCQ with an error: nothing is found.
unfoldable pub fail_poll : Fallback → Fallback
fail_poll s = record s { place = waiting; failed = true }

unfoldable pub exit : Fallback → Fallback
exit s = record s { place = returned }

unfoldable pub arrive : Fallback → Fallback
unfolding notify
arrive s = notify (record s { pending = suc s.pending })

-- One step. `batch` is MaxBatchSize: a poll finds fewer only where there are no more. A completion
-- comes with its notification, and only while there are fewer than `depth`.
pub data Step (batch depth : ℕ) (s : Fallback) : Fallback → Type 0 where
  arrives : s.pending < depth → Step batch depth s (arrive s)
  notifies : Step batch depth s (notify s)
  takes : s.place ≡ waiting → s.notified ≡ true → Step batch depth s (take_notification s)
  polls :
      (found : ℕ)
      → s.place ≡ polling
      → found ≤ s.pending
      → found ≤ batch
      → (found < batch → found ≡ s.pending)
      → Step batch depth s (poll found s)
  fails : s.place ≡ polling → Step batch depth s (fail_poll s)
  cancelled : s.place ≡ waiting → Step batch depth s (exit s)

abbrev pub init : Fallback
init = record { place = waiting; pending = 0; notified = false; failed = false }

pub data Reach (batch depth : ℕ) : Fallback → Type 0 where
  here : Reach batch depth init
  later : {s t : Fallback} → Reach batch depth s → Step batch depth s t → Reach batch depth t

-- What waits was announced, where the queue is no deeper than a batch.
record Announced (depth : ℕ) (s : Fallback) : Type 0 where
  bounded : s.pending ≤ depth
  announced : s.place ≡ waiting → s.failed ≡ false → s.notified ≡ false → s.pending ≡ 0

Step-Announced :
    (batch depth : ℕ) (s t : Fallback)
    → depth ≤ batch
    → Announced depth s
    → Step batch depth s t
    → Announced depth t
unfolding notify take_notification poll fail_poll exit arrive
Step-Announced batch depth s _ le v (arrives h) = record {
  bounded = omega (arith, h);
  announced = λ e g n. cc;
}
Step-Announced batch depth s _ le v notifies = record {
  bounded = v.bounded;
  announced = λ e g n. cc;
}
Step-Announced batch depth s _ le v (takes e n) = record {
  bounded = v.bounded;
  announced = λ e' g n'. cc;
}
Step-Announced batch depth s _ le v (polls found e h b full) = record {
  bounded = omega (arith, v.bounded);
  announced = λ e' g n'. ground (arith, v.bounded, le, h, b, full);
}
Step-Announced batch depth s _ le v (fails e) = record {
  bounded = v.bounded;
  announced = λ e' g n'. cc;
}
Step-Announced batch depth s _ le v (cancelled e) = record {
  bounded = v.bounded;
  announced = λ e' g n'. cc;
}

Reach-Announced :
    (batch depth : ℕ) (s : Fallback) → depth ≤ batch → Reach batch depth s → Announced depth s
Reach-Announced batch depth _ le here = record { bounded = omega arith; announced = λ e g n. refl }
Reach-Announced batch depth t le (later {s} r step) =
    Step-Announced batch depth s t le (Reach-Announced batch depth s le r) step

-- A queue that never holds more completions than MaxBatchSize, and each of whose completions comes
-- with a Notify, is served: in every interleaving of eventPollLoop, the device and Notify, the loop
-- waits with no notification in the channel only where the queue is empty or the last poll failed.
pub Reach-serves :
    (batch depth : ℕ) (s : Fallback)
    → depth ≤ batch
    → Reach batch depth s
    → s.place ≡ waiting
    → s.failed ≡ false
    → s.notified ≡ false
    → s.pending ≡ 0
Reach-serves batch depth s le r = (Reach-Announced batch depth s le r).announced

abbrev is_positive : ℕ → Bool
is_positive zero = false
is_positive (suc n) = true

abbrev filled : ℕ → Fallback
filled n = record { place = waiting; pending = n; notified = is_positive n; failed = false }

Reach-filled : (batch depth n : ℕ) → n ≤ depth → Reach batch depth (filled n)
unfolding arrive notify
Reach-filled batch depth zero h = here
Reach-filled batch depth (suc n) h =
    later (Reach-filled batch depth n (omega (arith, h))) (arrives (omega (arith, h)))

-- A deeper one is not: `batch + n` completions come, each with its notification, of which eventCh
-- holds one; the loop takes it, polls one batch, and waits with `n` completions in the queue and
-- nothing that announces them.
pub poll-strands :
    (batch n : ℕ)
    → (s : Fallback) × Reach batch (suc (batch + n)) s
      × (s.place ≡ waiting)
      × (s.notified ≡ false)
      × (s.pending ≡ suc n)
unfolding poll take_notification
poll-strands batch n =
    let r = Reach-filled batch (suc (batch + n)) (suc (batch + n)) (omega arith) in
    (
      poll batch (take_notification (filled (suc (batch + n)))),
      later (later r (takes refl refl))
          (polls batch refl (omega arith) (omega arith) (λ h. omega (arith, h))),
      refl,
      refl,
      omega arith,
    )

-- After a failed poll the loop can wait with any number of completions in the queue and nothing that
-- announces them.
pub fail_poll-strands :
    (batch n : ℕ)
    → (s : Fallback) × Reach batch (suc n) s
      × (s.place ≡ waiting)
      × (s.notified ≡ false)
      × (s.pending ≡ suc n)
unfolding fail_poll take_notification
fail_poll-strands batch n =
    let r = Reach-filled batch (suc n) (suc n) (omega arith) in
    (
      fail_poll (take_notification (filled (suc n))),
      later (later r (takes refl refl)) (fails refl),
      refl,
      refl,
      refl,
    )
