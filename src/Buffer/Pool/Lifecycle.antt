-- ===== src/Buffer/Pool/Lifecycle.antt =====
-- pkg/buffer/pool.go: Close, and the calls that Close overtakes.
use golinker.Base.{
  ℕ, ◌+◌, ◌≡◌, refl, false, Option, none, some, List, [], ◌∷◌, arith, ◌==◌, if◌then◌else◌,
}
use golinker.Api.{Buffer}
use golinker.Errors.{Error, ok, err, panic, pool_closed}
use golinker.Go.Chan.{receive, try_send}
use golinker.Buffer.Pool.{
  Pool, Effect, allocated, freed, registered, deregistered, release_all, alloc, alloc_wait,
  give_back, free, close_pool,
}

-- How often an address was allocated, freed, registered or deregistered.
unfoldable pub allocs : ℕ → List Effect → ℕ
allocs x [] = 0
allocs x (allocated a ∷ log) = (if a == x then 1 else 0) + allocs x log
allocs x (freed a ∷ log) = allocs x log
allocs x (registered a ∷ log) = allocs x log
allocs x (deregistered a ∷ log) = allocs x log

unfoldable pub frees : ℕ → List Effect → ℕ
frees x [] = 0
frees x (freed a ∷ log) = (if a == x then 1 else 0) + frees x log
frees x (allocated a ∷ log) = frees x log
frees x (registered a ∷ log) = frees x log
frees x (deregistered a ∷ log) = frees x log

unfoldable pub regs : ℕ → List Effect → ℕ
regs x [] = 0
regs x (registered a ∷ log) = (if a == x then 1 else 0) + regs x log
regs x (freed a ∷ log) = regs x log
regs x (allocated a ∷ log) = regs x log
regs x (deregistered a ∷ log) = regs x log

unfoldable pub deregs : ℕ → List Effect → ℕ
deregs x [] = 0
deregs x (deregistered a ∷ log) = (if a == x then 1 else 0) + deregs x log
deregs x (freed a ∷ log) = deregs x log
deregs x (allocated a ∷ log) = deregs x log
deregs x (registered a ∷ log) = deregs x log

-- How many of the buffers stand at the address.
unfoldable pub held : ℕ → List Buffer → ℕ
held x [] = 0
held x (b ∷ bs) = elim b.addr [ none ↦ held x bs | some a ↦ (if a == x then 1 else 0) + held x bs ]

pub frees-release_all : (x : ℕ) (bs : List Buffer) → frees x (release_all bs) ≡ held x bs
unfolding frees release_all held
frees-release_all x [] = refl
frees-release_all x (b ∷ bs) = ground (arith, frees-release_all x bs)

pub deregs-release_all : (x : ℕ) (bs : List Buffer) → deregs x (release_all bs) ≡ held x bs
unfolding deregs release_all held
deregs-release_all x [] = refl
deregs-release_all x (b ∷ bs) = ground (arith, deregs-release_all x bs)

-- The first Close frees and deregisters each buffer of the pool once, at every address, those that
-- are out on loan too; a second Close does nothing and reports no error.
pub close_pool-releases :
    (dereg_mr : ℕ → Option Error) (p : Pool) (x : ℕ)
    → p.is_closed ≡ false
    → (frees x (close_pool dereg_mr p).0 ≡ held x p.all_buffers)
      × (deregs x (close_pool dereg_mr p).0 ≡ held x p.all_buffers)
      × (close_pool dereg_mr (close_pool dereg_mr p).2 ≡ ([], none, (close_pool dereg_mr p).2))
unfolding close_pool
close_pool-releases dereg_mr p x h =
    rw h (frees-release_all x p.all_buffers, deregs-release_all x p.all_buffers, refl)

-- After Close, Alloc reports the closed pool and Free does nothing.
pub alloc-free-close_pool :
    (dereg_mr : ℕ → Option Error) (p : Pool) (size : ℕ) (b : Option Buffer)
    → p.is_closed ≡ false
    → (alloc size (close_pool dereg_mr p).2 ≡ (err pool_closed, (close_pool dereg_mr p).2))
      × (free b (close_pool dereg_mr p).2 ≡ (ok tt, (close_pool dereg_mr p).2))
unfolding close_pool alloc free
alloc-free-close_pool dereg_mr p size none h = rw h (refl, refl)
alloc-free-close_pool dereg_mr p size (some b) h = rw h (refl, refl)

-- A call that Close overtakes between its check of `closed` and its use of the channel: the waiting
-- Alloc gets the nil buffer and no error, and the Free panics by its send on the closed channel.
pub close_pool-overtakes :
    (dereg_mr : ℕ → Option Error) (p : Pool) (b : Buffer)
    → p.is_closed ≡ false
    → ((alloc_wait (close_pool dereg_mr p).2).0 ≡ ok none)
      × ((give_back b (close_pool dereg_mr p).2).0 ≡ panic)
unfolding close_pool alloc_wait give_back receive try_send
close_pool-overtakes dereg_mr p b h = rw h (refl, refl)
