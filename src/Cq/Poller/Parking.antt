-- ===== src/Cq/Poller/Parking.antt =====
-- pkg/cq/poller.go: when the waiter of a queue parks on its completion channel.
use golinker.Base.{ℕ, zero, suc, ◌≡◌, refl, arith, ltb, if◌then◌else◌, Bool-cases, inl, inr}
use golinker.Cq.Poller.{
  Poller, Device, CqEntry, Next, spin, park, poll_single_cq, armed, smart_empty, smart_found,
  smart_round, count_cycle, count_empty,
}
use golinker.Errors.{Result, ok, err, panic, diverge}
use golinker.Go.State.{and_then, attempted, put_back}

module _ {W : Type 0} (d : Device W) (entry : CqEntry) where
  -- The last two calls before a waiter parks: the queue was armed, and a poll behind that found
  -- nothing and left the poller as it is.
  abbrev pub IsArmed : Poller W → Type 0
  IsArmed p' =
      (p : Poller W) × (w : W) × (d.req_notify entry.cq p.world ≡ (ok tt, w))
      × (poll_single_cq d entry (record p { world = w }) ≡ (ok 0, p'))

  parked :
      (runs k : ℕ) (p' : Poller W) (r : Result ℕ × Poller W)
      → and_then {B = Next × ℕ} r
          (λ found s. (ok (if ltb 0 found then (spin, 0) else (park, runs)), s))
        ≡ (ok (park, k), p')
      → r ≡ (ok 0, p')
  parked runs k p' (ok zero, q) e = ground arith
  parked runs k p' (ok (suc n), q) e = ground arith
  parked runs k p' (err x, q) e = cc
  parked runs k p' (panic, q) e = cc
  parked runs k p' (diverge, q) e = cc

  armed-parks :
      (runs k : ℕ) (p p' : Poller W) (r : Result (Unit {0}) × W)
      → and_then (attempted (put_back (λ w p. record p { world = w }) p r)) (armed d entry runs)
        ≡ (ok (park, k), p')
      → (w : W) × (r ≡ (ok tt, w)) × (poll_single_cq d entry (record p { world = w }) ≡ (ok 0, p'))
  unfolding armed
  armed-parks runs k p p' (ok u, w) e =
      (w, refl, parked runs k p' (poll_single_cq d entry (record p { world = w })) e)
  armed-parks runs k p p' (err x, w) e = cc
  armed-parks runs k p p' (panic, w) e = cc
  armed-parks runs k p p' (diverge, w) e = cc

  empty-parks :
      (runs k : ℕ) (p p' : Poller W) → smart_empty d entry runs p ≡ (ok (park, k), p') → IsArmed p'
  unfolding smart_empty
  empty-parks runs k p p' e = elim (Bool-cases (ltb runs p.spin_count)) [
    | inl early ↦ absurd (never (rw early at e))
    | inr late ↦
        let (w, n, q) = armed-parks runs k p p' (d.req_notify entry.cq p.world) (rw late at e) in
        (p, w, n, q)
  ]
    where
      never : ◌≡◌ {A = Result (Next × ℕ) × Poller W} (ok (spin, runs), p) (ok (park, k), p') → ⊥
      never h = cc

  -- The waiter of a queue in smart mode parks only behind an empty poll that it made after it armed
  -- the queue: a completion that arrived before the arming was polled, and one after it signals the
  -- channel, so that no wake-up is lost.
  pub smart_round-parks :
      (runs k : ℕ) (p p' : Poller W) → smart_round d entry runs p ≡ (ok (park, k), p') → IsArmed p'
  unfolding smart_round smart_found
  smart_round-parks runs k p p' e = go (poll_single_cq d entry p) e
    where
      go :
          (r : Result ℕ × Poller W)
          → and_then r (λ found s. smart_found d entry runs found (count_cycle s))
            ≡ (ok (park, k), p')
          → IsArmed p'
      go (ok zero, q) h = empty-parks (suc runs) k (count_empty (count_cycle q)) p' h
      go (ok (suc n), q) h = cc
      go (err x, q) h = cc
      go (panic, q) h = cc
      go (diverge, q) h = cc
