-- ===== src/Buffer/Pool.antt =====
-- pkg/buffer/pool.go. The calls are atomic steps. The allocation of memory (`allocBuffer`) and the
-- verbs (`RegMR`, `DeregMR`) are parameters; what is asked of them is kept as a list of effects.
pub mod Lifecycle
pub mod Construct
use golinker.Base.{
  ℕ, zero, suc, ◌+◌, ◌-◌, ◌*◌, Bool, true, false, Option, none, some, List, [], ◌∷◌, ◌++◌, ltb,
  if◌then◌else◌, length,
}
use golinker.Api.{Buffer, BufferPoolStats}
use golinker.Errors.{
  Error, Result, ok, err, panic, diverge, size_not_positive, count_not_positive, alloc_failed,
  pool_closed, buffer_too_large, pool_exhausted,
}
use golinker.Go.Chan.{Chan, Received, value, blocked, drained, make, try_send, receive}
use golinker.Go.State.{Call}
use golinker.Go.Int.{ℤ, pos, le_int, to_nat}

pub record PoolConfig : Type 0 where
  pub buffer_size : ℤ
  pub buffer_count : ℤ
  pub numa_node : ℕ

-- The sizes are the positive ones of a checked configuration.
pub record Pool : Type 0 where
  pub buffer_size : ℕ
  pub buffer_count : ℕ
  pub numa_node : ℕ
  pub free_ch : Chan Buffer
  pub all_buffers : List Buffer
  pub is_closed : Bool
  pub pool_id : ℕ

-- The pool that NewPool fills.
abbrev pub empty_pool : ℕ → PoolConfig → Pool
empty_pool id cfg = record {
  buffer_size = to_nat cfg.buffer_size;
  buffer_count = to_nat cfg.buffer_count;
  numa_node = cfg.numa_node;
  free_ch = make (to_nat cfg.buffer_count);
  all_buffers = [];
  is_closed = false;
  pool_id = id;
}

-- What the pool asked of the memory and of the verbs, by address.
pub data Effect : Type 0 where
  allocated freed registered deregistered : ℕ → Effect

-- `freeBuffer(buf.Addr)` unless the address is nil.
abbrev pub free_addr : Option ℕ → List Effect
free_addr none = []
free_addr (some a) = freed a ∷ []

abbrev pub dereg_addr : Option ℕ → List Effect
dereg_addr none = []
dereg_addr (some a) = deregistered a ∷ []

-- The loop of `cleanup` and of `Close` over all buffers.
unfoldable pub release_all : List Buffer → List Effect
release_all [] = []
release_all (b ∷ bs) = dereg_addr b.addr ++ (free_addr b.addr ++ release_all bs)

module _ (alloc_buffer : ℕ → Option ℕ) (reg_mr : ℕ → Result (ℕ × ℕ)) where
  unfoldable pub registered_buffer : Pool → ℕ → ℕ × ℕ → Buffer
  registered_buffer p a keys = record {
    addr = some a;
    len = p.buffer_size;
    lkey = keys.0;
    rkey = keys.1;
    pool_id = p.pool_id;
  }

  -- `p.allBuffers = append(..)` and `p.freeCh <- buf`; the channel has room for every buffer, and
  -- a send that blocked for ever would be `diverge`.
  unfoldable pub keep_buffer : Pool → Buffer → Result Pool
  keep_buffer p b = elim (try_send p.free_ch b) [
    | ok (true, ch) ↦ ok (record p { all_buffers = p.all_buffers ++ b ∷ []; free_ch = ch })
    | ok (false, ch) ↦ diverge
    | err e ↦ err e
    | panic ↦ panic
    | diverge ↦ diverge
  ]

  -- The rest of an iteration, from the address that `allocBuffer` returned.
  unfoldable pub add_buffer : Pool → Option ℕ → List Effect × Result Pool
  unfolding registered_buffer keep_buffer release_all
  add_buffer p none = (release_all p.all_buffers, err alloc_failed)
  add_buffer p (some a) = elim (reg_mr a) [
    | ok keys ↦ (allocated a ∷ registered a ∷ [], keep_buffer p (registered_buffer p a keys))
    | err e ↦ (allocated a ∷ freed a ∷ release_all p.all_buffers, err e)
    | panic ↦ (allocated a ∷ [], panic)
    | diverge ↦ (allocated a ∷ [], diverge)
  ]

  -- The loop of NewPool, `n` rounds before the end.
  unfoldable pub go_on :
      List Effect × Result Pool → (Pool → List Effect × Result Pool) → List Effect × Result Pool
  go_on (log, ok p) rest = (log ++ (rest p).0, (rest p).1)
  go_on (log, err e) rest = (log, err e)
  go_on (log, panic) rest = (log, panic)
  go_on (log, diverge) rest = (log, diverge)

  unfoldable pub fill : ℕ → ℕ → Pool → List Effect × Result Pool
  unfolding go_on
  fill zero i p = ([], ok p)
  fill (suc n) i p = go_on (add_buffer p (alloc_buffer i)) (fill n (i + 1))

  unfoldable pub new_pool : ℕ → PoolConfig → List Effect × Result Pool
  unfolding fill add_buffer
  new_pool id cfg =
      if le_int cfg.buffer_size (pos 0)
      then ([], err size_not_positive)
      else if le_int cfg.buffer_count (pos 0)
      then ([], err count_not_positive)
      else fill (to_nat cfg.buffer_count) 0 (empty_pool id cfg)

-- The `select` of Alloc. A receive from the closed and drained channel gives Go's zero value, the
-- nil buffer. With nothing to receive, the timer of the `select` fires.
alloc_received : Pool → Received Buffer × Chan Buffer → Result (Option Buffer) × Pool
alloc_received p (value b, ch) = (ok (some b), record p { free_ch = ch })
alloc_received p (blocked, ch) = (err pool_exhausted, p)
alloc_received p (drained, ch) = (ok none, p)

unfoldable pub alloc_wait : Call Pool (Option Buffer)
unfolding alloc_received
alloc_wait p = alloc_received p (receive p.free_ch)

unfoldable pub alloc : ℕ → Call Pool (Option Buffer)
unfolding alloc_wait
alloc size p =
    if p.is_closed
    then (err pool_closed, p)
    else if ltb p.buffer_size size
    then (err buffer_too_large, p)
    else alloc_wait p

-- The non-blocking send of Free: a full channel drops the buffer.
abbrev taken : Pool → Result (Bool × Chan Buffer) → Result (Unit {0}) × Pool
taken p (ok (_, ch)) = (ok tt, record p { free_ch = ch })
taken p (err e) = (err e, p)
taken p panic = (panic, p)
taken p diverge = (diverge, p)

unfoldable pub give_back : Buffer → Call Pool (Unit {0})
give_back b p = taken p (try_send p.free_ch b)

unfoldable pub free : Option Buffer → Call Pool (Unit {0})
unfolding give_back
free none p = (ok tt, p)
free (some b) p = if p.is_closed then (ok tt, p) else give_back b p

unfoldable pub stats : Pool → BufferPoolStats
stats p = record {
  total_buffers = length p.all_buffers;
  free_buffers = length p.free_ch.items;
  in_flight_buffers = length p.all_buffers - length p.free_ch.items;
  allocated_bytes = length p.all_buffers * p.buffer_size;
  numa_node = p.numa_node;
}

-- The first error of DeregMR over all buffers.
unfoldable pub first_dereg_error : (ℕ → Option Error) → List Buffer → Option Error
first_dereg_error dereg_mr [] = none
first_dereg_error dereg_mr (b ∷ bs) = elim b.addr [
  | none ↦ first_dereg_error dereg_mr bs
  | some a ↦ elim (dereg_mr a) [ none ↦ first_dereg_error dereg_mr bs | some e ↦ some e ]
]

-- Close: the effects, the error and the pool, whose channel is closed and drained.
unfoldable pub close_pool : (ℕ → Option Error) → Pool → List Effect × Option Error × Pool
unfolding release_all first_dereg_error
close_pool dereg_mr p = if p.is_closed then ([], none, p) else (
  release_all p.all_buffers,
  first_dereg_error dereg_mr p.all_buffers,
  record p {
    is_closed = true;
    free_ch = record { items = []; cap = p.free_ch.cap; is_closed = true };
    all_buffers = [];
  },
)
