-- ===== src/Tests/Listening.antt =====
-- internal/rdma/listener.go at concrete inputs: the events come from a list.
use golinker.Api.{CmEvent, CmEventType, connect_request, established, disconnected}
use golinker.Base.{ℕ, ◌+◌, ◌≡◌, refl, sym, ◌∙◌, none, some, List, [], ◌∷◌}
use golinker.Errors.{Result, ok, err, external}
use golinker.Go.Dict.{lookup, insert}
use golinker.Rdma.Listener.{
  Channel, Listener, accept, on_event, on_channel, requested, completed, ack,
}
use golinker.Rdma.Listener.Handout.{Inv, HandedOut, accept-HandedOut}

abbrev next_event : List CmEvent → Result CmEvent × List CmEvent
next_event [] = (err (external 0), [])
next_event (e ∷ es) = (ok e, es)

-- The queue pair of an id has the number of the id and a hundred.
abbrev script : Channel (List CmEvent)
script = record {
  get_event = next_event;
  ack_event = λ e w. w;
  accept_conn = λ id w. (ok (id + 100), w);
  new_ping_pong = λ qp w. (ok tt, w);
}

abbrev pub event : CmEventType → ℕ → CmEvent
event t id = record { type = t; id = id; private_data = [] }

-- Two clients ask, one goes away, and the second is connected first.
abbrev listening : Listener (List CmEvent)
listening = record {
  pending = [];
  world =
      event connect_request 1
      ∷ event connect_request 2
      ∷ event disconnected 3
      ∷ event established 2
      ∷ [];
}

second_first : (accept script 9 listening).0 ≡ ok (2, 102)
unfolding accept on_event on_channel requested completed ack lookup insert
second_first = refl

ok_inj : {a b : ℕ} → ◌≡◌ {A = Result ℕ} (ok a) (ok b) → a ≡ b
ok_inj h = cc

absent : (b : ℕ) → lookup {V = ℕ} b [] ≡ none
unfolding lookup
absent b = refl

none_waits : Inv script (λ id qp. id + 100 ≡ qp) listening
none_waits = record { distinct = tt; given = λ id qp h. absurd (never (sym (absent id) ∙ h)) }
  where
    never : {a : ℕ} → none ≡ some a → ⊥
    never h = cc

accept-HandedOut_example : HandedOut script (λ id qp. id + 100 ≡ qp) (accept script 9 listening)
accept-HandedOut_example =
    accept-HandedOut script (λ id qp. id + 100 ≡ qp) (λ id qp w h. ok_inj h) 9 listening none_waits
