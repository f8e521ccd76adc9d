-- ===== src/Buffer/SendPool.antt =====
-- pkg/buffer/send_pool.go. The set of addresses in flight is a dictionary without values, and the
-- int64 counter beside it a bit pattern.
pub mod Inv
pub mod Start
use golinker.Base.{
  ℕ, zero, suc, ◌+◌, ◌/◌, Bool, true, false, Option, none, some, List, [], ltb, if◌then◌else◌,
  length,
}
use golinker.Api.{Buffer, BufferPoolStats}
use golinker.Errors.{Error, Result, ok, err, panic, diverge}
use golinker.Go.Dict.{lookup, insert, delete}
use golinker.Go.Word.{inc64, dec64, int64_ge}
use golinker.Go.State.{Call, ◌>>=◌, ◌>>◌, return, fault, modify, on}
use golinker.Buffer.Pool.{Pool, alloc, free, stats}

pub record SendPool : Type 0 where
  pub pool : Pool
  pub in_flight : List (ℕ × Unit {0})
  pub in_flight_n : ℕ

abbrev pub new_send_pool : Pool → SendPool
new_send_pool p = record { pool = p; in_flight = []; in_flight_n = 0 }

-- `unsafeAddr(buf.Addr)`: nil is address 0.
abbrev pub addr_key : Option ℕ → ℕ
addr_key none = 0
addr_key (some a) = a

abbrev pub key : Buffer → ℕ
key b = addr_key b.addr

-- The flag of an address that is in the map.
abbrev pub is_some {ℓ} : {A : Type ℓ} → Option A → Bool
is_some none = false
is_some (some a) = true

abbrev pub mark : Buffer → SendPool → SendPool
mark b sp = record sp {
  in_flight = insert (key b) tt sp.in_flight;
  in_flight_n = inc64 sp.in_flight_n;
}

abbrev pub on_pool : {A : Type 0} → Call Pool A → Call SendPool A
on_pool = on (λ sp. sp.pool) (λ p sp. record sp { pool = p })

-- A nil buffer with a nil error (see `alloc_wait`) is dereferenced: a panic.
marked : Option Buffer → Call SendPool Buffer
marked none = fault
marked (some b) = do modify (mark b); return b

unfoldable pub acquire_for_send : Call SendPool Buffer
unfolding marked
acquire_for_send = do b ← on_pool (alloc 0); marked b

-- LoadAndDelete, and the counter if the address was there.
unfoldable pub unmark : Buffer → SendPool → SendPool
unmark b sp =
    if is_some (lookup (key b) sp.in_flight)
    then record sp { in_flight = delete (key b) sp.in_flight; in_flight_n = dec64 sp.in_flight_n }
    else sp

unfoldable pub complete_send : Option Buffer → Call SendPool (Unit {0})
unfolding unmark
complete_send none = return tt
complete_send (some b) = do modify (unmark b); on_pool (free (some b))

-- `max(BufferCount / 2, 1)`
unfoldable pub busy_threshold : ℕ → ℕ
busy_threshold count = if ltb (count / 2) 1 then 1 else count / 2

unfoldable pub is_busy : SendPool → Bool
unfolding busy_threshold
is_busy sp = int64_ge sp.in_flight_n (busy_threshold sp.pool.buffer_count)

unfoldable pub is_in_flight : SendPool → Buffer → Bool
is_in_flight sp b = is_some (lookup (key b) sp.in_flight)

unfoldable pub send_stats : SendPool → BufferPoolStats
send_stats sp = record (stats sp.pool) { in_flight_buffers = sp.in_flight_n }
