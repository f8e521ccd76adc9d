-- ===== src/Tests/Waiters.antt =====
-- pkg/cq/poller.go at concrete runs of its goroutines.
use golinker.Base.{◌<◌, ◌≡◌, refl, true, false, arith}
use golinker.Cq.Poller.Fallback
use golinker.Cq.Poller.Fallback.{Fallback, Reach-serves}
use golinker.Cq.Poller.Notify
use golinker.Cq.Poller.Notify.{Spinner, drop_notification-loses}
use golinker.Cq.Poller.Waiter.{
  Mode, Waiter, reading, poll, arm, arrive, after_poll, Reach, here, later, arrives, polls, arms,
  init,
}
use golinker.Cq.Poller.Wakeup.{Reach-wakes}

abbrev eager : Mode
eager = record { smart = true; spin_count = 1 }

-- An empty poll, the arming, another empty poll, and a completion while the waiter goes to its read.
abbrev waiting : Waiter
waiting = arrive (poll eager 0 (arm (poll eager 0 (init eager))))

Reach-waiting : Reach eager waiting
unfolding arrive poll after_poll arm
Reach-waiting =
    later
      (later (later (later here (polls 0 refl (omega arith) (λ e. refl))) (arms refl))
        (polls 0 refl (omega arith) (λ e. refl)))
      arrives

waiting_reads : (waiting.place ≡ reading) × (waiting.failed ≡ false) × (0 < waiting.pending)
unfolding arrive poll after_poll arm
waiting_reads = (refl, refl, omega arith)

Reach-wakes_example : 0 < waiting.events
Reach-wakes_example = Reach-wakes Reach-waiting waiting_reads.0 waiting_reads.1 waiting_reads.2

drop_notification-loses_example :
    (s : Spinner) × Notify.Reach 1024 s
    × (s.place ≡ Notify.blocked)
    × (s.pending ≡ 7)
    × (s.notified ≡ false)
drop_notification-loses_example = drop_notification-loses 1023 7

-- Two completions come with MaxBatchSize 2, and are polled.
abbrev served : Fallback
served =
    Fallback.poll 2 (Fallback.take_notification (Fallback.arrive (Fallback.arrive Fallback.init)))

Reach-served : Fallback.Reach 2 2 served
unfolding Fallback.arrive Fallback.notify Fallback.take_notification
Reach-served =
    Fallback.later
      (Fallback.later
        (Fallback.later (Fallback.later Fallback.here (Fallback.arrives (omega arith)))
          (Fallback.arrives (omega arith)))
        (Fallback.takes refl refl))
      (Fallback.polls 2 refl (omega arith) (omega arith) (λ h. absurd (omega (arith, h))))

Reach-serves_example : served.pending ≡ 0
unfolding Fallback.poll Fallback.take_notification
Reach-serves_example = Reach-serves 2 2 served (omega arith) Reach-served refl refl refl
