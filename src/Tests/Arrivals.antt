-- ===== src/Tests/Arrivals.antt =====
-- internal/rdma/real_cm.go and listener.go at concrete inputs: the events that are to be acknowledged.
use golinker.Api
use golinker.Api.{connect_request, established, disconnected}
use golinker.Base.{ℕ, zero, suc, ◌+◌, ◌-◌, ◌≡◌, refl, true, false, List, [], ◌∷◌, ◌==◌, arith}
use golinker.Errors.{Result, ok, err, external}
use golinker.Go.Dict.{lookup, insert}
use golinker.Rdma.Events.{RdmaCmEvent, RawEvent, Answer, got, timeout, CmLib, get_event}
use golinker.Rdma.Events.Wait.{Polled, CmLaws, Taken, get_event-Taken}
use golinker.Rdma.Listener.{
  Channel, Listener, accept, on_event, on_channel, requested, completed, ack,
}
use golinker.Rdma.Listener.Acks.{Took, Kept, AckLaws, Acked, accept-Acked}
use golinker.Tests.Listening.{event}

-- The context ends after `left` polls; the event comes after `quiet` of them.
record Clock : Type 0 where
  left : ℕ
  quiet : ℕ
  unacked : ℕ

abbrev request : RawEvent
request = record { event = RdmaCmEvent.connect_request; id = 4; at = 7 }

abbrev tick : ℕ → ℕ → ℕ → Answer × Clock
tick left zero n = (got request, record { left = left; quiet = 0; unacked = suc n })
tick left (suc quiet) n = (timeout, record { left = left - 1; quiet = quiet; unacked = n })

abbrev source : CmLib Clock
source = record {
  cancelled = λ w. w.left == 0;
  poll = λ w. tick w.left w.quiet w.unacked;
  ack = λ p w. (true, record w { unacked = w.unacked - 1 });
  disconnect = λ id w. (true, w);
}

ticks :
    (left quiet n : ℕ)
    → (left == 0) ≡ false
    → Polled
        (λ w. w.left)
        (λ w. w.unacked)
        (record { left = left; quiet = quiet; unacked = n })
        (tick left quiet n)
ticks left zero n h = refl
ticks left (suc quiet) n h = (ground arith, refl)

source_laws : CmLaws source (λ w. w.left) (λ w. w.unacked)
source_laws = record {
  ends = λ w h. ground (arith, h);
  polls = λ w h. ticks w.left w.quiet w.unacked h;
}

abbrev calm : Clock
calm = record { left = 5; quiet = 2; unacked = 0 }

get_event-Taken_example : Taken (λ w. w.unacked) calm (get_event source 6 calm)
get_event-Taken_example =
    get_event-Taken source (λ w. w.left) (λ w. w.unacked) source_laws 6 calm (omega arith)

-- The events of a listener, and how many of them are not acknowledged.
record Inbox : Type 0 where
  coming : List Api.CmEvent
  unacked : ℕ

abbrev next_event : List Api.CmEvent → ℕ → Result Api.CmEvent × Inbox
next_event [] n = (err (external 0), record { coming = []; unacked = n })
next_event (e ∷ es) n = (ok e, record { coming = es; unacked = suc n })

abbrev accept_at : ℕ → Inbox → Result ℕ × Inbox
accept_at zero w = (err (external 0), w)
accept_at (suc id) w = (ok (id + 101), w)

-- AcceptConn fails for the id 0.
abbrev counted : Channel Inbox
counted = record {
  get_event = λ w. next_event w.coming w.unacked;
  ack_event = λ e w. record w { unacked = w.unacked - 1 };
  accept_conn = accept_at;
  new_ping_pong = λ qp w. (ok tt, w);
}

takes :
    (es : List Api.CmEvent) (n : ℕ)
    → Took (λ w. w.unacked) (record { coming = es; unacked = n }) (next_event es n)
takes [] n = refl
takes (e ∷ es) n = refl

keeps : (id : ℕ) (w : Inbox) → Kept (λ w. w.unacked) w (accept_at id w)
keeps zero w = refl
keeps (suc id) w = refl

counted_laws : AckLaws counted (λ w. w.unacked)
counted_laws = record {
  gets = λ w. takes w.coming w.unacked;
  acks = λ e w. refl;
  accepts = keeps;
  builds = λ qp w. refl;
}

-- A refused client, one that is accepted and connected, and an event that is not looked at.
abbrev listening : Listener Inbox
listening = record {
  pending = [];
  world = record {
    coming =
        event connect_request 0
        ∷ event connect_request 2
        ∷ event disconnected 3
        ∷ event established 2
        ∷ [];
    unacked = 0;
  };
}

all_acked :
    ((accept counted 9 listening).0 ≡ ok (2, 102))
    × ((accept counted 9 listening).1.world.unacked ≡ 0)
unfolding accept on_event on_channel requested completed ack lookup insert
all_acked = (refl, refl)

accept-Acked_example : Acked counted (λ w. w.unacked) 0 (accept counted 9 listening)
accept-Acked_example = accept-Acked counted (λ w. w.unacked) counted_laws 9 listening
