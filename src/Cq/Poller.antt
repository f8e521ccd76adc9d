-- ===== src/Cq/Poller.antt =====
-- pkg/cq/poller.go. The poll function, the handlers and the operations on a completion queue are
-- parameters over a state `W`. A queue is a number; the goroutines of the event waiters are started
-- outside this model, and their loops are given round by round.
pub mod Rounds
pub mod Parking
pub mod Waiter
pub mod Wakeup
pub mod Lifecycle
pub mod Hangs
pub mod Notify
pub mod Fallback
use golinker.Base.{
  ℕ, zero, suc, ◌+◌, Bool, true, false, Option, none, some, List, [], ◌∷◌, ltb, ◌==◌, if◌then◌else◌,
  length,
}
use golinker.Api.{WorkCompletion, WcStatus, CqPollerStats, PollMode, busy}
use golinker.Errors.{
  Error, Result, ok, err, panic, diverge, external, nil_handler, cq_registered, cq_not_registered,
  poller_started,
}
use golinker.Go.Dict.{lookup, insert, delete}
use golinker.Go.Int.{ℤ, pos, le_int, to_nat}
use golinker.Go.State.{Call, ◌>>=◌, ◌>>◌, return, fail, gets, modify, lift, attempt, on}
use golinker.Go.Word.{inc64}

pub record PollerConfig : Type 0 where
  pub poll_mode : PollMode
  pub max_batch_size : ℤ
  pub spin_count : ℤ

unfoldable pub default_poller_config : PollerConfig
default_poller_config = record { poll_mode = busy; max_batch_size = pos 32; spin_count = pos 1024 }

-- A registered queue, its handler, and whether it has a completion channel.
pub record CqEntry : Type 0 where
  pub cq : ℕ
  pub handler : ℕ
  pub has_channel : Bool

pub record Poller (W : Type 0) : Type 0 where
  pub poll_mode : PollMode
  pub max_batch_size : ℕ
  pub spin_count : ℕ
  pub entries : List (ℕ × CqEntry)
  pub poll_cycles : ℕ
  pub completions : ℕ
  pub empty_polls : ℕ
  pub errors : ℕ
  pub started : Bool
  pub world : W

-- What a poller calls: the poll function, the handlers, and ReqNotify and AckEvents of a queue.
pub record Device (W : Type 0) : Type 0 where
  pub poll : ℕ → ℕ → Call W (List WorkCompletion)
  pub on_completion : ℕ → WorkCompletion → Call W (Unit {0})
  pub on_error : ℕ → Option WorkCompletion → Error → Call W (Unit {0})
  pub req_notify : ℕ → Call W (Unit {0})
  pub ack_events : ℕ → Call W (Unit {0})

unfoldable pub new_poller : {W : Type 0} → PollerConfig → W → Poller W
new_poller cfg w = record {
  poll_mode = cfg.poll_mode;
  max_batch_size = if le_int cfg.max_batch_size (pos 0) then 32 else to_nat cfg.max_batch_size;
  spin_count = if le_int cfg.spin_count (pos 0) then 1024 else to_nat cfg.spin_count;
  entries = [];
  poll_cycles = 0;
  completions = 0;
  empty_polls = 0;
  errors = 0;
  started = false;
  world = w;
}

abbrev pub is_success : WcStatus → Bool
is_success WcStatus.success = true
is_success _ = false

-- `fmt.Errorf("cq: work completion error status %d", wc.Status)`
abbrev pub status_error : Error
status_error = external 0

-- The entries that a poll round copies: all, or those without a completion channel.
unfoldable pub copied : Bool → List (ℕ × CqEntry) → List CqEntry
copied all [] = []
copied all ((k, e) ∷ es) =
    let rest = copied all es in if all then e ∷ rest else if e.has_channel then rest else e ∷ rest

module _ {W : Type 0} where
  -- `p.started.Swap(true)`; the poll loop that it starts is a goroutine.
  unfoldable pub start : Call (Poller W) (Unit {0})
  start p = if p.started then fail poller_started p else (ok tt, record p { started = true })

  registered : Option CqEntry → ℕ → CqEntry → Call (Poller W) (Unit {0})
  registered (some e) cq entry = fail cq_registered
  registered none cq entry = modify (λ p. record p { entries = insert cq entry p.entries })

  unfoldable pub add_cq : ℕ → Option ℕ → Bool → Call (Poller W) (Unit {0})
  unfolding registered
  add_cq cq none has_channel p = fail nil_handler p
  add_cq cq (some h) has_channel p =
      registered (lookup cq p.entries) cq
        (record { cq = cq; handler = h; has_channel = has_channel }) p

  removed : Option CqEntry → ℕ → Call (Poller W) (Unit {0})
  removed none cq = fail cq_not_registered
  removed (some e) cq = modify (λ p. record p { entries = delete cq p.entries })

  unfoldable pub remove_cq : ℕ → Call (Poller W) (Unit {0})
  unfolding removed
  remove_cq cq p = removed (lookup cq p.entries) cq p

  unfoldable pub num_cqs : Poller W → ℕ
  num_cqs p = length p.entries

  -- The average batch size, a float computed from these, is left out.
  unfoldable pub stats : Poller W → CqPollerStats
  stats p = record {
    poll_cycles = p.poll_cycles;
    completions = p.completions;
    empty_polls = p.empty_polls;
    errors = p.errors;
  }

  abbrev pub on_world : {A : Type 0} → Call W A → Call (Poller W) A
  on_world = on (λ p. p.world) (λ w p. record p { world = w })

  abbrev pub count_completion : Poller W → Poller W
  count_completion p = record p { completions = inc64 p.completions }

  abbrev pub count_error : Poller W → Poller W
  count_error p = record p { errors = inc64 p.errors }

  abbrev pub count_cycle : Poller W → Poller W
  count_cycle p = record p { poll_cycles = inc64 p.poll_cycles }

  abbrev pub count_empty : Poller W → Poller W
  count_empty p = record p { empty_polls = inc64 p.empty_polls }

module _ {W : Type 0} (d : Device W) where
  unfoldable pub dispatch_one : ℕ → WorkCompletion → Call (Poller W) (Unit {0})
  dispatch_one handler wc =
      if is_success wc.status
      then (modify count_completion >> on_world (d.on_completion handler wc))
      else (modify count_error >> on_world (d.on_error handler (some wc) status_error))

  -- The loop over the completions; the result is `found`.
  unfoldable pub dispatch_all : ℕ → List WorkCompletion → Call (Poller W) ℕ
  unfolding dispatch_one
  dispatch_all handler [] = return 0
  dispatch_all handler (wc ∷ wcs) = do
    dispatch_one handler wc
    found ← dispatch_all handler wcs
    return (suc found)

  unfoldable pub polled : CqEntry → Result (List WorkCompletion) → Call (Poller W) ℕ
  unfolding dispatch_all
  polled entry (ok wcs) = dispatch_all entry.handler wcs
  polled entry (err e) = do modify count_error; on_world (d.on_error entry.handler none e); return 0
  polled entry panic = lift panic
  polled entry diverge = lift diverge

  unfoldable pub poll_single_cq : CqEntry → Call (Poller W) ℕ
  unfolding polled
  poll_single_cq entry p =
      (attempt (on_world (d.poll entry.cq p.max_batch_size)) >>= polled entry) p

  unfoldable pub poll_each : List CqEntry → Call (Poller W) ℕ
  unfolding poll_single_cq
  poll_each [] = return 0
  poll_each (e ∷ es) = do found ← poll_single_cq e; more ← poll_each es; return (found + more)

  -- The counters at the end of a round.
  unfoldable pub end_round : ℕ → Call (Poller W) ℕ
  end_round found = do
    modify count_cycle
    modify (λ p. if found == 0 then count_empty p else p)
    return found

  unfoldable pub poll_once : Call (Poller W) ℕ
  unfolding poll_each end_round copied
  poll_once = do es ← gets (λ p. copied true p.entries); found ← poll_each es; end_round found

  unfoldable pub poll_non_event_cqs_count : Call (Poller W) ℕ
  unfolding poll_each end_round copied
  poll_non_event_cqs_count = do
    es ← gets (λ p. copied false p.entries)
    found ← poll_each es
    end_round found

  -- `for p.pollSingleCQ(entry) > 0 {}`; the fuel bounds how many batches a queue may yield.
  unfoldable pub drain : ℕ → CqEntry → Call (Poller W) (Unit {0})
  unfolding poll_single_cq
  drain zero entry p = (diverge, p)
  drain (suc fuel) entry p = (poll_single_cq entry >>= λ found. again found (drain fuel entry)) p
    where
      again : ℕ → Call (Poller W) (Unit {0}) → Call (Poller W) (Unit {0})
      again zero rest = return tt
      again (suc n) rest = rest

-- What a waiter does after a round: poll again, wait on the channel's file, or return.
pub data Next : Type 0 where
  spin park stop : Next

module _ {W : Type 0} (d : Device W) where
  -- The arming of the queue, and the poll behind it.
  unfoldable pub armed : CqEntry → ℕ → Result (Unit {0}) → Call (Poller W) (Next × ℕ)
  armed entry runs (ok u) = do
    found ← poll_single_cq d entry
    return (if ltb 0 found then (spin, 0) else (park, runs))
  armed entry runs (err e) = return (stop, runs)
  armed entry runs panic = lift panic
  armed entry runs diverge = lift diverge

  unfoldable pub smart_empty : CqEntry → ℕ → Call (Poller W) (Next × ℕ)
  unfolding armed
  smart_empty entry runs p =
      if ltb runs p.spin_count
      then return (spin, runs) p
      else (attempt (on_world (d.req_notify entry.cq)) >>= armed entry runs) p

  -- What follows the first poll of a round.
  unfoldable pub smart_found : CqEntry → ℕ → ℕ → Call (Poller W) (Next × ℕ)
  unfolding smart_empty
  smart_found entry runs zero = modify count_empty >> smart_empty entry (suc runs)
  smart_found entry runs (suc found) = return (spin, 0)

  -- A round of smartWaiterLoop up to its read of the channel's file, from `emptyRuns`.
  unfoldable pub smart_round : CqEntry → ℕ → Call (Poller W) (Next × ℕ)
  unfolding smart_found
  smart_round entry runs = do
    found ← poll_single_cq d entry
    modify count_cycle
    smart_found entry runs found

  -- The rest of the round, after the read.
  unfoldable pub smart_wake : ℕ → CqEntry → Call (Poller W) (Next × ℕ)
  smart_wake fuel entry = do
    on_world (d.ack_events entry.cq)
    drain d fuel entry
    modify count_cycle
    return (spin, 0)

  -- A round of eventWaiterLoop up to the read: arm, then drain.
  unfoldable pub event_armed : ℕ → CqEntry → Result (Unit {0}) → Call (Poller W) Next
  event_armed fuel entry (ok u) = do drain d fuel entry; modify count_cycle; return park
  event_armed fuel entry (err e) = return stop
  event_armed fuel entry panic = lift panic
  event_armed fuel entry diverge = lift diverge

  unfoldable pub event_round : ℕ → CqEntry → Call (Poller W) Next
  unfolding event_armed
  event_round fuel entry = do
    r ← attempt (on_world (d.req_notify entry.cq))
    event_armed fuel entry r
