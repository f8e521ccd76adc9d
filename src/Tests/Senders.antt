-- ===== src/Tests/Senders.antt =====
-- pkg/message/aggregator.go at concrete inputs: a transport that keeps one buffer of 64 bytes and
-- delivers at once, and one that refuses every post.
use golinker.Base.{ℕ, refl, true, some, List, [], ◌∷◌, ◌++◌, arith}
use golinker.Api.{Buffer}
use golinker.Errors.{Result, ok, err, panic, diverge, not_connected}
use golinker.Message.Aggregator.{Aggregator, aggregate_send}
use golinker.Message.Aggregator.Flush.{Inv}
use golinker.Message.Aggregator.Stream.{Accepted, aggregate_send-Accepted}
use golinker.Message.Transport.{Transport, Laws}
use golinker.Message.Wire.{unpack_batch}
use golinker.Tests.Wire.{zeros, two_messages}

-- What arrived, and the bytes of the buffer.
abbrev pub Memory : Type 0
Memory = List (List ℕ) × List ℕ

abbrev slot : Buffer
slot = record { addr = some 4096; len = 64; lkey = 1; rkey = 2; pool_id = 1 }

abbrev pub arrive : Result (List (List ℕ)) → Memory → Result (Unit {0}) × Memory
arrive (ok msgs) w = (ok tt, (w.0 ++ msgs, w.1))
arrive (err e) w = (err e, w)
arrive panic w = (err not_connected, w)
arrive diverge w = (err not_connected, w)

abbrev loopback : Transport Memory
loopback = record {
  acquire_for_send = λ w. (ok slot, (w.0, zeros 64));
  complete_send = λ b w. (ok tt, w);
  send = λ m w. arrive (unpack_batch w.1 m.len) w;
  bytes = λ b w. w.1;
  store = λ b bytes w. (w.0, bytes);
  now = λ w. 7;
}

-- Every state is good, and the buffer has 64 bytes after it was acquired.
abbrev Anyhow : Memory → Type 0
Anyhow w = Unit

abbrev AnyBuffer : Buffer → Memory → Type 0
AnyBuffer b w = Unit

abbrev loopback_laws : Laws loopback 64 Anyhow AnyBuffer
loopback_laws = record {
  delivered = λ w. w.0;
  acquires = λ w g. (refl, omega arith, tt, tt);
  stores = λ b out w g h e. record { reads_back = refl; silent = refl; good = tt; held = tt };
  sends = λ b n msgs w g h e r. rw r (refl, tt);
}

-- An aggregator with pending messages.
abbrev pub waiting : {W : Type 0} → List (List ℕ) → ℕ → ℕ → W → Aggregator W
waiting msgs n ongoing w = record {
  pending = msgs;
  pending_size = n;
  ongoing_sends = ongoing;
  is_busy = true;
  buffer_size = 64;
  send_threshold = 48;
  enable_aggregate = true;
  flushed = 0;
  sent = 0;
  world = w;
}

abbrev two_waiting : Aggregator Memory
two_waiting = waiting two_messages 27 1 ([], [])

two_waiting-Inv : Inv 64 Anyhow two_waiting
two_waiting-Inv = record {
  sized = refl;
  fits = omega arith;
  small = (omega arith, (omega arith, tt));
  room = omega arith;
  good = tt;
}

aggregate_send-Accepted_example :
    Accepted loopback 64 loopback_laws
      (1 ∷ 2 ∷ 3 ∷ [])
      two_waiting
      (aggregate_send loopback (1 ∷ 2 ∷ 3 ∷ []) two_waiting)
aggregate_send-Accepted_example =
    aggregate_send-Accepted loopback 64 loopback_laws (1 ∷ 2 ∷ 3 ∷ []) two_waiting two_waiting-Inv
      (omega arith) (omega arith)
