-- ===== src/Tests/Pollers.antt =====
-- pkg/cq/pool.go and poller.go at concrete inputs: three pollers with 2, 1 and 1 queues.
use golinker.Base.{ℕ, ◌+◌, ◌-◌, ◌^◌, ◌≡◌, refl, true, false, none, List, [], ◌∷◌}
use golinker.Api.{WorkCompletion, WcStatus, retry_exc_err, send, smart}
use golinker.Cq.Poller.{
  Poller, Device, CqEntry, park, dispatch_all, polled, poll_single_cq, armed, smart_empty,
  smart_found, smart_round,
}
use golinker.Cq.Poller.Rounds.{HandlersReturn}
use golinker.Go.Word.{inc64}
use golinker.Cq.Pool.{Pool, Pollers, assign}
use golinker.Cq.Pool.LeastLoaded.{IsLeast, assign-IsLeast}
use golinker.Errors.{ok}
use golinker.Go.Dict.{insert}

abbrev pollers : Pollers (List ℕ)
pollers = record {
  loads = λ w. w;
  create_cq = λ channel size w. (ok 5, w);
  remove_cq = λ poller cq w. w;
  close = λ poller w. (none, w);
}

abbrev three : Pool (List ℕ)
three = record {
  cq_size = 4096;
  poll_mode = smart;
  cq_map = [];
  is_closed = false;
  world = 2 ∷ 1 ∷ 1 ∷ [];
}

assign-IsLeast_example :
    (poller : ℕ) × IsLeast (2 ∷ 1 ∷ 1 ∷ []) poller
    × (assign pollers three
        ≡ (ok (poller, 5), record three { cq_map = insert 5 poller []; world = 2 ∷ 1 ∷ 1 ∷ [] }))
assign-IsLeast_example =
    assign-IsLeast pollers three 2 (1 ∷ 1 ∷ []) 5 (2 ∷ 1 ∷ 1 ∷ []) refl refl refl

-- A device that hands out one batch, then nothing; its handlers count their calls.
abbrev completion : WcStatus → WorkCompletion
completion s = record {
  wrid = 1;
  status = s;
  opcode = send;
  byte_len = 0;
  qpn = 1;
  imm = 0;
  has_imm = false;
}

abbrev device : Device ℕ
device = record {
  poll = λ cq n w. (ok [], w);
  on_completion = λ h wc w. (ok tt, w + 1);
  on_error = λ h wc e w. (ok tt, w + 1);
  req_notify = λ cq w. (ok tt, w);
  ack_events = λ cq w. (ok tt, w);
}

device_returns : HandlersReturn device
device_returns = record {
  on_completion = λ h wc w. (w + 1, refl);
  on_error = λ h wc e w. (w + 1, refl);
}

abbrev poller : Poller ℕ
poller = record {
  poll_mode = smart;
  max_batch_size = 32;
  spin_count = 2;
  entries = [];
  poll_cycles = 0;
  completions = 2 ^ 64 - 1;
  empty_polls = 0;
  errors = 0;
  started = true;
  world = 0;
}

abbrev batch : List WorkCompletion
batch = completion WcStatus.success ∷ completion retry_exc_err ∷ completion WcStatus.success ∷ []

abbrev entry : CqEntry
entry = record { cq = 5; handler = 1; has_channel = true }

-- The round of the second empty poll.
abbrev parked_poller : Poller ℕ
parked_poller = record poller { poll_cycles = 1; empty_polls = 1 }

parks : smart_round device entry 1 poller ≡ (ok (park, 2), parked_poller)
unfolding smart_round smart_found smart_empty armed poll_single_cq polled dispatch_all inc64
parks = refl
