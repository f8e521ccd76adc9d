-- ===== src/Message/Aggregator.antt =====
-- pkg/message/aggregator.go. Each method is a call on the aggregator beside its transport; what a
-- method does under `mu` is one step. `ongoing_sends` is the bit pattern of an int32.
pub mod Flush
pub mod Stream
pub mod Faults
use golinker.Base.{
  ℕ, ◌+◌, ◌%◌, ◌^◌, Bool, true, false, ◌&&◌, not, Option, none, some, List, [], ◌∷◌, ◌++◌, ltb,
  ◌==◌, if◌then◌else◌, length,
}
use golinker.Api.{Buffer}
use golinker.Errors.{Error, Result, ok, err, panic, diverge, buffer_too_small}
use golinker.Go.Int.{ℤ, pos, le_int, to_nat}
use golinker.Go.State.{Call, ◌>>=◌, ◌>>◌, return, fail, gets, modify, lift, attempt, on}
use golinker.Go.Word.{inc32, dec32, inc64, add64}
use golinker.Message.Transport.{Transport, message}
use golinker.Message.Wire.{cmd_header_size, app_header_size, pack_batch, pack_single, framed_size}

pub record AggregatorConfig : Type 0 where
  pub buffer_size : ℤ
  pub send_threshold : ℤ
  pub enable_aggregate : Bool

pub record AggregatorStats : Type 0 where
  pub flushed : ℕ
  pub sent : ℕ
  pub pending_count : ℕ
  pub pending_size : ℕ

-- `is_busy` is the value of the shared signal.
pub record Aggregator (W : Type 0) : Type 0 where
  pub pending : List (List ℕ)
  pub pending_size : ℕ
  pub ongoing_sends : ℕ
  pub is_busy : Bool
  pub buffer_size : ℕ
  pub send_threshold : ℕ
  pub enable_aggregate : Bool
  pub flushed : ℕ
  pub sent : ℕ
  pub world : W

abbrev pub or_default : ℤ → ℕ → ℕ
or_default n d = if le_int n (pos 0) then d else to_nat n

unfoldable pub new_aggregator : {W : Type 0} → AggregatorConfig → W → Aggregator W
new_aggregator cfg w = record {
  pending = [];
  pending_size = 0;
  ongoing_sends = 0;
  is_busy = false;
  buffer_size = or_default cfg.buffer_size 12288;
  send_threshold = or_default cfg.send_threshold 9216;
  enable_aggregate = cfg.enable_aggregate;
  flushed = 0;
  sent = 0;
  world = w;
}

module _ {W : Type 0} where
  unfoldable pub set_busy : Bool → Aggregator W → Aggregator W
  set_busy b a = record a { is_busy = b }

  unfoldable pub stats : Aggregator W → AggregatorStats
  stats a = record {
    flushed = a.flushed;
    sent = a.sent;
    pending_count = length a.pending;
    pending_size = a.pending_size;
  }

  abbrev pub on_world : {A : Type 0} → Call W A → Call (Aggregator W) A
  on_world = on (λ a. a.world) (λ w a. record a { world = w })

  -- `a.pending = messages`, and the sizes summed up again.
  abbrev pub put_pending : List (List ℕ) → Aggregator W → Aggregator W
  put_pending messages a = record a { pending = messages; pending_size = framed_size messages }

  abbrev pub append : List ℕ → Aggregator W → Aggregator W
  append msg a = record a {
    pending = a.pending ++ msg ∷ [];
    pending_size = a.pending_size + (app_header_size + length msg);
  }

  abbrev pub count_batch : ℕ → Aggregator W → Aggregator W
  count_batch n a = record a {
    ongoing_sends = inc32 a.ongoing_sends;
    flushed = inc64 a.flushed;
    sent = add64 a.sent n;
  }

  abbrev pub count_single : Aggregator W → Aggregator W
  count_single a = record a { ongoing_sends = inc32 a.ongoing_sends; sent = inc64 a.sent }

module _ {W : Type 0} (t : Transport W) where
  -- Pack the messages into the buffer and post it.
  unfoldable pub post_batch : List (List ℕ) → Buffer → Call (Aggregator W) (Unit {0})
  post_batch messages b = do
    dest ← on_world (gets (t.bytes b))
    now ← on_world (gets t.now)
    r ← lift (pack_batch now dest messages)
    on_world (modify (t.store b r.0))
    modify (count_batch (length messages))
    on_world (t.send (message b r.1))

  -- The branches on the result of AcquireForSend.
  unfoldable pub flush_with : List (List ℕ) → Result Buffer → Call (Aggregator W) (Unit {0})
  unfolding post_batch
  flush_with messages (ok b) = post_batch messages b
  flush_with messages (err e) = do modify (put_pending messages); fail e
  flush_with messages panic = lift panic
  flush_with messages diverge = lift diverge

  unfoldable pub flush_list : List (List ℕ) → Call (Aggregator W) (Unit {0})
  unfolding flush_with
  flush_list [] = return tt
  flush_list (m ∷ ms) = do
    modify (put_pending [])
    r ← attempt (on_world t.acquire_for_send)
    flush_with (m ∷ ms) r

  unfoldable pub flush_locked : Call (Aggregator W) (Unit {0})
  unfolding flush_list
  flush_locked a = flush_list a.pending a

  unfoldable pub flush : Call (Aggregator W) (Unit {0})
  unfolding flush_locked
  flush = flush_locked

  -- The overflow trigger: the batch with the message would exceed the buffer.
  unfoldable pub overflows : List ℕ → Aggregator W → Bool
  overflows msg a =
      ltb 0 a.pending_size
      && ltb a.buffer_size (cmd_header_size + a.pending_size + (app_header_size + length msg))

  unfoldable pub make_room : List ℕ → Call (Aggregator W) (Unit {0})
  unfolding overflows
  make_room msg a = if overflows msg a then flush_locked a else return tt a

  -- The threshold trigger and the idle trigger.
  unfoldable pub triggered : Aggregator W → Bool
  triggered a =
      if ltb a.send_threshold (cmd_header_size + a.pending_size) then true else a.ongoing_sends == 0

  unfoldable pub maybe_flush : Call (Aggregator W) (Unit {0})
  unfolding triggered
  maybe_flush a = if triggered a then flush_locked a else return tt a

  unfoldable pub aggregate_send : List ℕ → Call (Aggregator W) (Unit {0})
  unfolding make_room maybe_flush
  aggregate_send msg = do make_room msg; modify (append msg); maybe_flush

  unfoldable pub pack_and_send : Buffer → List ℕ → Call (Aggregator W) (Unit {0})
  pack_and_send b msg = do
    dest ← on_world (gets (t.bytes b))
    now ← on_world (gets t.now)
    r ← lift (pack_single now dest msg)
    on_world (modify (t.store b r.0))
    modify count_single
    on_world (t.send (message b r.1))

  unfoldable pub send_in : List ℕ → Buffer → Call (Aggregator W) (Unit {0})
  unfolding pack_and_send
  send_in msg b =
      if ltb b.len (cmd_header_size + app_header_size + length msg)
      then (do on_world (t.complete_send (some b)); fail buffer_too_small)
      else pack_and_send b msg

  unfoldable pub immediate_send : List ℕ → Call (Aggregator W) (Unit {0})
  unfolding send_in
  immediate_send msg = do b ← on_world t.acquire_for_send; send_in msg b

  unfoldable pub send : List ℕ → Call (Aggregator W) (Unit {0})
  unfolding immediate_send aggregate_send
  send msg a =
      if a.enable_aggregate && a.is_busy then aggregate_send msg a else immediate_send msg a

  -- The idle flush, whose error is dropped.
  unfoldable pub idle_flush : Call (Aggregator W) (Unit {0})
  idle_flush = do _ ← attempt flush_locked; return tt

  unfoldable pub on_send_complete : Call (Aggregator W) (Unit {0})
  unfolding idle_flush
  on_send_complete = do
    modify (λ a. record a { ongoing_sends = dec32 a.ongoing_sends })
    idle ← gets (λ a. a.ongoing_sends == 0)
    if idle then idle_flush else return tt
