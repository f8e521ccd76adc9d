-- ===== src/Cq/Dispatch/Release.antt =====
-- pkg/cq/dispatcher.go over pkg/buffer/send_pool.go: the buffer of a finished send comes back once.
use golinker.Base.{ℕ, ◌≡◌, refl, true, Option, none, some, List}
use golinker.Api.{Buffer, WorkCompletion}
use golinker.Buffer.SendPool.{SendPool, complete_send, is_in_flight}
use golinker.Buffer.SendPool.Inv.{Inv, complete_found, putting}
use golinker.Cq.Dispatch.{Tracker, on_completion}
use golinker.Errors.{ok}
use golinker.Go.State.{Call, on}
use golinker.Go.Dict.{lookup, delete}

-- The send pool beside the state `S` that the callback acts on, as the aggregator behind
-- OnSendComplete.
abbrev pub complete_first : {S : Type 0} → Option Buffer → Call (SendPool × S) (Unit {0})
complete_first b = on (λ w. w.0) (λ sp w. (sp, w.1)) (complete_send b)

abbrev pub lifted :
    {S : Type 0} → Option (Call S (Unit {0})) → Option (Call (SendPool × S) (Unit {0}))
lifted none = none
lifted (some f) = some (on (λ w. w.1) (λ s w. (w.0, s)) f)

-- One call of the callback, if there is one.
abbrev pub called : {S : Type 0} → Option (Call S (Unit {0})) → Call S (Unit {0})
called none s = (ok tt, s)
called (some f) s = f s

module _ (m : List (ℕ × Option Buffer)) (sp : SendPool) (b : Buffer) (wc : WorkCompletion)
    (tracked : lookup wc.wrid m ≡ some (some b)) (valid : Inv sp)
    (in_use : is_in_flight sp b ≡ true) {S : Type 0} (callback : Option (Call S (Unit {0}))) where
  abbrev pub before : S → Tracker (SendPool × S)
  before s = record { wrid_map = m; world = (sp, s) }

  abbrev pub after : S → Tracker (SendPool × S)
  after s = record { wrid_map = delete wc.wrid m; world = (putting sp b, s) }

  completed :
      (s : S)
      → on_completion complete_first (lifted callback) wc (before s)
        ≡ ((called callback s).0, after (called callback s).1)
  unfolding on_completion is_in_flight
  completed s = go callback
    where
      go :
          (c : Option (Call S (Unit {0})))
          → on_completion complete_first (lifted c) wc (before s)
            ≡ ((called c s).0, after (called c s).1)
      go none = rw (tracked, complete_found sp b valid in_use) refl
      go (some f) = rw (tracked, complete_found sp b valid in_use) refl
