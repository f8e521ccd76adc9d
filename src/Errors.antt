-- ===== src/Errors.antt =====
-- Go's ways to end a call: a value, an `error`, a run-time panic. The errors are the package-level
-- variables of pkg/message/wire.go, pkg/buffer/pool.go, pkg/connection/conn.go, manager.go and the
-- `errors.New` and `fmt.Errorf` values of the other files, one constructor each.
use golinker.Base.{ℕ, Bool, true, false}

pub data Error : Type 0 where
  buffer_too_small invalid_batch unknown_command : Error
  pool_exhausted pool_closed buffer_too_large size_not_positive count_not_positive alloc_failed :
      Error
  not_connected conn_closed recv_queue_full unknown_wrid : Error
  manager_closed connection_not_found invalid_address invalid_port : Error
  nil_cq nil_handler cq_registered cq_not_registered cq_not_found poller_started : Error
  cq_pool_closed nil_verbs num_pollers_not_positive : Error
  server_started server_not_started nil_config nil_conn_mgr : Error
  context_done : Error
  external : ℕ → Error

-- `panic` is Go's run-time panic. `diverge` is no Go value: the fuel of a loop ran out.
pub data Result {ℓ} (A : Type ℓ) : Type ℓ where
  ok : A → Result A
  err : Error → Result A
  panic : Result A
  diverge : Result A

infixl 5 ◌>>=◌ ◌>>◌
abbrev pub ◌>>=◌ {ℓ κ} : {A : Type ℓ} {B : Type κ} → Result A → (A → Result B) → Result B
ok a >>= next = next a
err e >>= next = err e
panic >>= next = panic
diverge >>= next = diverge

abbrev pub ◌>>◌ {ℓ} : {B : Type ℓ} → Result (Unit {0}) → Result B → Result B
m >> k = m >>= λ _. k

-- An early return of an error.
abbrev pub require : Bool → Error → Result (Unit {0})
require true e = ok tt
require false e = err e

-- A bounds check of the Go run time.
abbrev pub in_bounds : Bool → Result (Unit {0})
in_bounds true = ok tt
in_bounds false = panic

-- The call came back, with a value or with an error.
abbrev pub Returns {ℓ} : {A : Type ℓ} → Result A → Type 0
Returns (ok a) = Unit
Returns (err e) = Unit
Returns panic = ⊥
Returns diverge = ⊥
