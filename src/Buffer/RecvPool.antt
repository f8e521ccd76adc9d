-- ===== src/Buffer/RecvPool.antt =====
-- pkg/buffer/recv_pool.go. `Verbs.PostRecv` is a parameter over a state `V` of the verbs.
pub mod Account
use golinker.Base.{ℕ, zero, suc, ◌%◌, ◌^◌, Option, none, some, List, [], ◌∷◌}
use golinker.Api.{Buffer, RecvWr}
use golinker.Errors.{Error, Result, ok, err, panic, diverge}
use golinker.Go.State.{Call, ◌>>=◌, ◌>>◌, return, fail, fault, lift, attempt, on}
use golinker.Buffer.Pool.{Pool, alloc, free}
use golinker.Buffer.SendPool.{key}

-- The receive request for a buffer: its address is the WRID.
abbrev pub recv_wr : Buffer → RecvWr
recv_wr b = record {
  wrid = key b;
  sg_list = record { addr = key b; len = b.len % 2 ^ 32; lkey = b.lkey } ∷ [];
}

-- The pool, and the state of the verbs.
pub record Receiver (V : Type 0) : Type 0 where
  pub pool : Pool
  pub verbs : V

module _ {V : Type 0} (post_recv : RecvWr → Call V (Unit {0})) where
  abbrev pub on_pool : {A : Type 0} → Call Pool A → Call (Receiver V) A
  on_pool = on (λ r. r.pool) (λ p r. record r { pool = p })

  abbrev pub on_verbs : {A : Type 0} → Call V A → Call (Receiver V) A
  on_verbs = on (λ r. r.verbs) (λ v r. record r { verbs = v })

  -- `rp.pool.Free(buf)` where PostRecv failed, and the error goes up.
  unfoldable pub post_or_free : Buffer → Result (Unit {0}) → Call (Receiver V) (Unit {0})
  post_or_free b (err e) = do on_pool (free (some b)); fail e
  post_or_free b r = lift r

  -- An iteration: allocate a buffer, and post it. The address of a nil buffer is a panic.
  unfoldable pub post_one : Option Buffer → Call (Receiver V) (Unit {0})
  unfolding post_or_free
  post_one none = fault
  post_one (some b) = do r ← attempt (on_verbs (post_recv (recv_wr b))); post_or_free b r

  unfoldable pub post_recv_buffers : ℕ → Call (Receiver V) (Unit {0})
  unfolding post_one
  post_recv_buffers zero = return tt
  post_recv_buffers (suc n) = do b ← on_pool (alloc 0); post_one b; post_recv_buffers n

  unfoldable pub replenish : ℕ → Call (Receiver V) (Unit {0})
  unfolding post_recv_buffers
  replenish consumed = post_recv_buffers consumed
