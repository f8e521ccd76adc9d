-- ===== src/Tests/Pools.antt =====
-- pkg/buffer and pkg/cq/dispatcher.go at concrete inputs.
use golinker.Base.{
  ℕ, suc, ◌+◌, ◌*◌, ◌≡◌, ◌≤◌, refl, true, false, Option, none, some, List, [], ◌∷◌, ◌++◌, arith,
  length, ◌==◌, if◌then◌else◌,
}
use golinker.Api.{Buffer, WorkCompletion, RecvWr, success, send}
use golinker.Buffer.Pool.{
  Pool, PoolConfig, new_pool, fill, add_buffer, registered_buffer, keep_buffer, release_all, go_on,
  close_pool, alloc, free,
}
use golinker.Buffer.Pool.Construct.{new_pool-undone}
use golinker.Buffer.Pool.Lifecycle.{allocs, frees, regs, deregs, held, close_pool-releases}
use golinker.Buffer.RecvPool.{Receiver}
use golinker.Buffer.RecvPool.Account.{Usable}
use golinker.Buffer.SendPool.{SendPool, acquire_for_send, complete_send, is_in_flight}
use golinker.Buffer.SendPool.Inv.{
  Inv, acquire_for_send-Inv, complete_send-Inv, acquire_for_send-exclusive,
}
use golinker.Errors.{Error, Result, ok, err, alloc_failed, not_connected}
use golinker.Go.Chan.{try_send, receive}
use golinker.Go.Dict.{lookup}
use golinker.Go.Int.{pos}

abbrev pub slot : ℕ → Buffer
slot i = record { addr = some (4096 + 64 * i); len = 64; lkey = 1; rkey = 2; pool_id = 1 }

-- A pool of two buffers, with the given ones free.
abbrev pub pool_with : List Buffer → Pool
pool_with free = record {
  buffer_size = 64;
  buffer_count = 2;
  numa_node = 0;
  free_ch = record { items = free; cap = 2; is_closed = false };
  all_buffers = slot 0 ∷ slot 1 ∷ [];
  is_closed = false;
  pool_id = 1;
}

abbrev pub all_free : SendPool
all_free = record { pool = pool_with (slot 0 ∷ slot 1 ∷ []); in_flight = []; in_flight_n = 0 }

-- The second buffer is in flight.
abbrev pub one_out : SendPool
one_out = record { pool = pool_with (slot 0 ∷ []); in_flight = (4160, tt) ∷ []; in_flight_n = 1 }

pub one_out-Inv : Inv one_out
unfolding lookup
one_out-Inv = record {
  pool_open = refl;
  channel_open = refl;
  capacity = refl;
  conserved = refl;
  bounded = omega arith;
  counted = refl;
  distinct = (refl, tt);
  separate = (refl, tt, tt);
}

acquire_for_send-Inv_example : Inv (acquire_for_send one_out).1
acquire_for_send-Inv_example = acquire_for_send-Inv one_out one_out-Inv

out : is_in_flight one_out (slot 1) ≡ true
unfolding is_in_flight lookup
out = refl

complete_send-Inv_example :
    ((complete_send (some (slot 1)) one_out).0 ≡ ok tt)
    × Inv (complete_send (some (slot 1)) one_out).1
    × ((complete_send (some (slot 1)) one_out).1.pool.free_ch.items ≡ (slot 0 ∷ []) ++ slot 1 ∷ [])
    × (is_in_flight (complete_send (some (slot 1)) one_out).1 (slot 1) ≡ false)
complete_send-Inv_example = complete_send-Inv one_out (slot 1) one_out-Inv out

got : (acquire_for_send one_out).0 ≡ ok (slot 0)
unfolding acquire_for_send alloc receive
got = refl

acquire_for_send-exclusive_example :
    (is_in_flight one_out (slot 0) ≡ false)
    × (is_in_flight (acquire_for_send one_out).1 (slot 0) ≡ true)
acquire_for_send-exclusive_example = acquire_for_send-exclusive one_out (slot 0) one_out-Inv got

-- Allocations 64 bytes apart, each registered with its own keys.
abbrev spaced : ℕ → Option ℕ
spaced i = some (4096 + 64 * i)

abbrev keyed : ℕ → Result (ℕ × ℕ)
keyed a = ok (1, 2)

abbrev two_buffers : PoolConfig
two_buffers = record { buffer_size = pos 64; buffer_count = pos 2; numa_node = 0 }

filled : (new_pool spaced keyed 1 two_buffers).1 ≡ ok (pool_with (slot 0 ∷ slot 1 ∷ []))
unfolding new_pool fill add_buffer registered_buffer keep_buffer go_on try_send
filled = refl

apart : (i j a : ℕ) → spaced i ≡ some a → spaced j ≡ some a → i ≡ j
apart i j a p q = ground arith

-- The second allocation fails.
abbrev short : ℕ → Option ℕ
short i = if i == 0 then some 4096 else none

undone : (new_pool short keyed 1 two_buffers).1 ≡ err alloc_failed
unfolding new_pool fill add_buffer registered_buffer keep_buffer go_on try_send release_all
undone = refl

new_pool-undone_example :
    (allocs 4096 (new_pool short keyed 1 two_buffers).0
      ≡ frees 4096 (new_pool short keyed 1 two_buffers).0)
    × (regs 4096 (new_pool short keyed 1 two_buffers).0
        ≡ deregs 4096 (new_pool short keyed 1 two_buffers).0)
new_pool-undone_example = new_pool-undone short keyed 1 two_buffers 4096 alloc_failed undone

abbrev no_error : ℕ → Option Error
no_error a = none

close_pool-releases_example :
    (frees 4096 (close_pool no_error (pool_with [])).0 ≡ held 4096 (slot 0 ∷ slot 1 ∷ []))
    × (deregs 4096 (close_pool no_error (pool_with [])).0 ≡ held 4096 (slot 0 ∷ slot 1 ∷ []))
    × (close_pool no_error (close_pool no_error (pool_with [])).2
        ≡ ([], none, (close_pool no_error (pool_with [])).2))
close_pool-releases_example = close_pool-releases no_error (pool_with []) 4096 refl

abbrev pub usable : (free : List Buffer) → length free ≤ 2 → Usable (pool_with free)
usable free h = record { pool_open = refl; channel_open = refl; fits = h }

-- PostRecv keeps the requests and refuses the second one.
abbrev receiver : Receiver (List RecvWr)
receiver = record { pool = pool_with (slot 0 ∷ slot 1 ∷ []); verbs = [] }

abbrev refuse_second : RecvWr → List RecvWr → Result (Unit {0}) × List RecvWr
refuse_second wr [] = (ok tt, wr ∷ [])
refuse_second wr (x ∷ l) = (err not_connected, x ∷ l)

abbrev pub completion : ℕ → WorkCompletion
completion wrid = record {
  wrid = wrid;
  status = success;
  opcode = send;
  byte_len = 0;
  qpn = 1;
  imm = 0;
  has_imm = false;
}

abbrev tracked : List (ℕ × Option Buffer)
tracked = (7, some (slot 1)) ∷ []

-- The callback counts its calls.
abbrev count_calls : ℕ → Result (Unit {0}) × ℕ
count_calls n = (ok tt, suc n)
