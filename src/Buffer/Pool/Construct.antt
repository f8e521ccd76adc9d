-- ===== src/Buffer/Pool/Construct.antt =====
-- pkg/buffer/pool.go: NewPool, and its clean-up on an error.
use golinker.Base.{
  ℕ, zero, suc, ◌+◌, ◌≡◌, refl, Option, none, some, List, [], ◌∷◌, ◌++◌, arith, ◌==◌, if◌then◌else◌,
  Bool-cases, inl, inr,
}
use golinker.Api.{Buffer}
use golinker.Errors.{Error, Result, ok, err, panic, diverge}
use golinker.Go.Chan.{try_send}
use golinker.Go.Int.{pos, le_int, to_nat}
use golinker.Buffer.Pool.{
  Pool, PoolConfig, empty_pool, Effect, allocated, freed, registered, deregistered, release_all,
  new_pool, fill, go_on, add_buffer, keep_buffer, registered_buffer,
}
use golinker.Buffer.Pool.Lifecycle.{
  allocs, frees, regs, deregs, held, frees-release_all, deregs-release_all,
}

allocs-append : (x : ℕ) (a b : List Effect) → allocs x (a ++ b) ≡ allocs x a + allocs x b
unfolding allocs
allocs-append x [] b = omega arith
allocs-append x (allocated y ∷ a) b = omega (arith, allocs-append x a b)
allocs-append x (freed y ∷ a) b = allocs-append x a b
allocs-append x (registered y ∷ a) b = allocs-append x a b
allocs-append x (deregistered y ∷ a) b = allocs-append x a b

frees-append : (x : ℕ) (a b : List Effect) → frees x (a ++ b) ≡ frees x a + frees x b
unfolding frees
frees-append x [] b = omega arith
frees-append x (freed y ∷ a) b = omega (arith, frees-append x a b)
frees-append x (allocated y ∷ a) b = frees-append x a b
frees-append x (registered y ∷ a) b = frees-append x a b
frees-append x (deregistered y ∷ a) b = frees-append x a b

regs-append : (x : ℕ) (a b : List Effect) → regs x (a ++ b) ≡ regs x a + regs x b
unfolding regs
regs-append x [] b = omega arith
regs-append x (registered y ∷ a) b = omega (arith, regs-append x a b)
regs-append x (freed y ∷ a) b = regs-append x a b
regs-append x (allocated y ∷ a) b = regs-append x a b
regs-append x (deregistered y ∷ a) b = regs-append x a b

deregs-append : (x : ℕ) (a b : List Effect) → deregs x (a ++ b) ≡ deregs x a + deregs x b
unfolding deregs
deregs-append x [] b = omega arith
deregs-append x (deregistered y ∷ a) b = omega (arith, deregs-append x a b)
deregs-append x (freed y ∷ a) b = deregs-append x a b
deregs-append x (registered y ∷ a) b = deregs-append x a b
deregs-append x (allocated y ∷ a) b = deregs-append x a b

held-append : (x : ℕ) (a b : List Buffer) → held x (a ++ b) ≡ held x a + held x b
unfolding held
held-append x [] b = omega arith
held-append x (c ∷ a) b = ground (arith, held-append x a b)

allocs-release_all : (x : ℕ) (bs : List Buffer) → allocs x (release_all bs) ≡ 0
unfolding allocs release_all
allocs-release_all x [] = refl
allocs-release_all x (b ∷ bs) = ground (arith, allocs-release_all x bs)

regs-release_all : (x : ℕ) (bs : List Buffer) → regs x (release_all bs) ≡ 0
unfolding regs release_all
regs-release_all x [] = refl
regs-release_all x (b ∷ bs) = ground (arith, regs-release_all x bs)

-- The books at one address, for `k` buffers there before: what a result still owes.
record Books (x k left : ℕ) (log : List Effect) : Type 0 where
  pub memory : allocs x log + k ≡ frees x log + left
  pub regions : regs x log + k ≡ deregs x log + left

abbrev Settled : ℕ → ℕ → List Effect × Result Pool → Type 0
Settled x k (log, ok p) = Books x k (held x p.all_buffers) log
Settled x k (log, err e) = Books x k 0 log
Settled x k (log, panic) = Unit
Settled x k (log, diverge) = Unit

held-snoc :
    (x a : ℕ) (bs : List Buffer) (b : Buffer)
    → b.addr ≡ some a
    → held x (bs ++ b ∷ []) ≡ held x bs + (if a == x then 1 else 0)
unfolding held
held-snoc x a bs b e = ground (arith, held-append x bs (b ∷ []))

module _ (alloc_buffer : ℕ → Option ℕ) (reg_mr : ℕ → Result (ℕ × ℕ)) (x : ℕ) where
  kept-Settled :
      (p : Pool) (a : ℕ) (b : Buffer)
      → b.addr ≡ some a
      → Settled x
          (held x p.all_buffers)
          (allocated a ∷ registered a ∷ [], keep_buffer alloc_buffer reg_mr p b)
  unfolding keep_buffer try_send allocs frees regs deregs
  kept-Settled p a b e = ground (arith, held-snoc x a p.all_buffers b e)

  add_buffer-Settled :
      (p : Pool) (o : Option ℕ)
      → Settled x (held x p.all_buffers) (add_buffer alloc_buffer reg_mr p o)
  unfolding add_buffer allocs frees regs deregs
  add_buffer-Settled p none = record {
    memory = omega (arith, allocs-release_all x p.all_buffers, frees-release_all x p.all_buffers);
    regions = omega (arith, regs-release_all x p.all_buffers, deregs-release_all x p.all_buffers);
  }
  add_buffer-Settled p (some a) = go (reg_mr a)
    where
      go :
          (r : Result (ℕ × ℕ))
          → Settled x (held x p.all_buffers) (elim r [
            | ok keys ↦ (
              allocated a ∷ registered a ∷ [],
              keep_buffer alloc_buffer reg_mr p (registered_buffer alloc_buffer reg_mr p a keys),
            )
            | err e ↦ (allocated a ∷ freed a ∷ release_all p.all_buffers, err e)
            | panic ↦ (allocated a ∷ [], panic)
            | diverge ↦ (allocated a ∷ [], diverge)
          ])
      go (ok keys) = kept-Settled p a (registered_buffer alloc_buffer reg_mr p a keys) refl
      go (err e) = record {
        memory =
            omega (arith, allocs-release_all x p.all_buffers, frees-release_all x p.all_buffers);
        regions =
            omega (arith, regs-release_all x p.all_buffers, deregs-release_all x p.all_buffers);
      }
      go panic = tt
      go diverge = tt

  go_on-Settled :
      (k : ℕ) (r : List Effect × Result Pool) (rest : Pool → List Effect × Result Pool)
      → Settled x k r
      → ((p : Pool) → Settled x (held x p.all_buffers) (rest p))
      → Settled x k (go_on alloc_buffer reg_mr r rest)
  unfolding go_on
  go_on-Settled k (log, ok p) rest s h = add (held x p.all_buffers) (rest p) s (h p)
    where
      add :
          (m : ℕ) (r : List Effect × Result Pool)
          → Books x k m log
          → Settled x m r
          → Settled x k (log ++ r.0, r.1)
      add m (log', ok q) b c = record {
        memory = omega (arith, allocs-append x log log', frees-append x log log');
        regions = omega (arith, regs-append x log log', deregs-append x log log');
      }
      add m (log', err e) b c = record {
        memory = omega (arith, allocs-append x log log', frees-append x log log');
        regions = omega (arith, regs-append x log log', deregs-append x log log');
      }
      add m (log', panic) b c = tt
      add m (log', diverge) b c = tt
  go_on-Settled k (log, err e) rest s h = s
  go_on-Settled k (log, panic) rest s h = tt
  go_on-Settled k (log, diverge) rest s h = tt

  fill-Settled :
      (n i : ℕ) (p : Pool) → Settled x (held x p.all_buffers) (fill alloc_buffer reg_mr n i p)
  unfolding fill allocs frees regs deregs
  fill-Settled zero i p = record { memory = omega arith; regions = omega arith }
  fill-Settled (suc n) i p =
      go_on-Settled (held x p.all_buffers) (add_buffer alloc_buffer reg_mr p (alloc_buffer i))
        (fill alloc_buffer reg_mr n (i + 1)) (add_buffer-Settled p (alloc_buffer i))
        (λ q. fill-Settled n (i + 1) q)

  new_pool-Settled : (id : ℕ) (cfg : PoolConfig) → Settled x 0 (new_pool alloc_buffer reg_mr id cfg)
  unfolding new_pool allocs frees regs deregs held
  new_pool-Settled id cfg = elim (Bool-cases (le_int cfg.buffer_size (pos 0))) [
    | inl bad ↦ rw bad nothing
    | inr good ↦ rw good (elim (Bool-cases (le_int cfg.buffer_count (pos 0))) [
      | inl bad ↦ rw bad nothing
      | inr fine ↦ rw fine (fill-Settled (to_nat cfg.buffer_count) 0 (empty_pool id cfg))
    ])
  ]
    where
      nothing : Books x 0 0 []
      nothing = record { memory = refl; regions = refl }

-- A NewPool that fails gives back all that it took: at every address it freed as often as it
-- allocated and deregistered as often as it registered.
pub new_pool-undone :
    (alloc_buffer : ℕ → Option ℕ) (reg_mr : ℕ → Result (ℕ × ℕ)) (id : ℕ) (cfg : PoolConfig) (x : ℕ)
    (e : Error)
    → (new_pool alloc_buffer reg_mr id cfg).1 ≡ err e
    → (allocs x (new_pool alloc_buffer reg_mr id cfg).0
        ≡ frees x (new_pool alloc_buffer reg_mr id cfg).0)
      × (regs x (new_pool alloc_buffer reg_mr id cfg).0
          ≡ deregs x (new_pool alloc_buffer reg_mr id cfg).0)
new_pool-undone alloc_buffer reg_mr id cfg x e h =
    read (new_pool alloc_buffer reg_mr id cfg) (new_pool-Settled alloc_buffer reg_mr x id cfg) h
  where
    read :
        (r : List Effect × Result Pool)
        → Settled x 0 r
        → r.1 ≡ err e
        → (allocs x r.0 ≡ frees x r.0) × (regs x r.0 ≡ deregs x r.0)
    read (log, ok q) s h = cc
    read (log, err f) s h = (omega arith, omega arith)
    read (log, panic) s h = cc
    read (log, diverge) s h = cc

-- A NewPool that succeeds holds what it took: at every address it allocated and registered once
-- more than it freed and deregistered for each buffer of the pool that stands there.
pub new_pool-balanced :
    (alloc_buffer : ℕ → Option ℕ) (reg_mr : ℕ → Result (ℕ × ℕ)) (id : ℕ) (cfg : PoolConfig) (x : ℕ)
    (p : Pool)
    → (new_pool alloc_buffer reg_mr id cfg).1 ≡ ok p
    → (allocs x (new_pool alloc_buffer reg_mr id cfg).0
        ≡ frees x (new_pool alloc_buffer reg_mr id cfg).0 + held x p.all_buffers)
      × (regs x (new_pool alloc_buffer reg_mr id cfg).0
          ≡ deregs x (new_pool alloc_buffer reg_mr id cfg).0 + held x p.all_buffers)
new_pool-balanced alloc_buffer reg_mr id cfg x p h =
    read (new_pool alloc_buffer reg_mr id cfg) (new_pool-Settled alloc_buffer reg_mr x id cfg) h
  where
    read :
        (r : List Effect × Result Pool)
        → Settled x 0 r
        → r.1 ≡ ok p
        → (allocs x r.0 ≡ frees x r.0 + held x p.all_buffers)
          × (regs x r.0 ≡ deregs x r.0 + held x p.all_buffers)
    read (log, ok q) s h = ground arith
    read (log, err f) s h = cc
    read (log, panic) s h = cc
    read (log, diverge) s h = cc
