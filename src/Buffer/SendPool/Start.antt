-- ===== src/Buffer/SendPool/Start.antt =====
-- pkg/buffer: the send pool over a pool that NewPool made.
use golinker.Base.{
  ℕ, zero, suc, ◌+◌, ◌^◌, ◌<◌, ◌≡◌, refl, ap, ◌∙◌, sym, false, Option, none, some, List, [], ◌∷◌,
  ◌++◌, arith, ◌==◌, length, length-append, All, Bool-cases, inl, inr, ==_iff,
}
use mathlib.Core.Path.{subst}
use golinker.Api.{Buffer}
use golinker.Errors.{Result, ok, err, panic, diverge, Returns}
use golinker.Go.Chan.{try_send}
use golinker.Go.Int.{pos, le_int, to_nat}
use golinker.Go.Dict.{lookup}
use golinker.Buffer.Pool.{
  Pool, PoolConfig, Effect, allocated, registered, freed, release_all, empty_pool, new_pool, fill,
  go_on, add_buffer, keep_buffer, registered_buffer,
}
use golinker.Buffer.SendPool.{key, new_send_pool}
use golinker.Buffer.SendPool.Inv.{Inv, Fresh, Separate}

module _ (alloc_buffer : ℕ → Option ℕ) (reg_mr : ℕ → Result (ℕ × ℕ)) where
  -- Each buffer stands at the address of an earlier allocation.
  abbrev Origin : ℕ → Buffer → Type 0
  Origin i b = (j : ℕ) × (j < i) × (alloc_buffer j ≡ some (key b))

  -- The pool before round `i`, with `n` rounds left.
  record Partial (i n : ℕ) (p : Pool) : Type 0 where
    pool_open : p.is_closed ≡ false
    channel_open : p.free_ch.is_closed ≡ false
    all_free : p.free_ch.items ≡ p.all_buffers
    rounds : length p.all_buffers ≡ i
    capacity : p.free_ch.cap ≡ p.buffer_count
    count : p.buffer_count ≡ i + n
    separate : Separate [] p.all_buffers
    origins : All (Origin i) p.all_buffers

  abbrev PartialResult : ℕ → ℕ → Result Pool → Type 0
  PartialResult i n (ok p) = Partial i n p
  PartialResult i n (err e) = Unit
  PartialResult i n panic = ⊥
  PartialResult i n diverge = ⊥

  Origin-suc : (i : ℕ) (bs : List Buffer) → All (Origin i) bs → All (Origin (i + 1)) bs
  Origin-suc i [] o = tt
  Origin-suc i (b ∷ bs) o = ((o.0.0, omega arith, o.0.2), Origin-suc i bs o.1)

  All-snoc :
      (i : ℕ) (bs : List Buffer) (b : Buffer)
      → All (Origin i) bs
      → Origin i b
      → All (Origin i) (bs ++ b ∷ [])
  All-snoc i [] b o h = (h, tt)
  All-snoc i (c ∷ bs) b o h = (o.0, All-snoc i bs b o.1 h)

  module _
      (distinct : (i j a : ℕ) → alloc_buffer i ≡ some a → alloc_buffer j ≡ some a → i ≡ j) where
    other_key :
        (i : ℕ) (b c : Buffer)
        → alloc_buffer i ≡ some (key b)
        → Origin i c
        → (key b == key c) ≡ false
    other_key i b c e (j, lt, f) = elim (Bool-cases (key b == key c)) [
      | inr no_hit ↦ no_hit
      | inl hit ↦
          let same = (==_iff (key b) (key c)).0 hit in
          let clash = distinct i j (key b) e (f ∙ ap some (sym same)) in absurd (omega arith)
    ]

    Fresh-snoc :
        (k : ℕ) (bs : List Buffer) (b : Buffer)
        → Fresh k bs
        → (key b == k) ≡ false
        → Fresh k (bs ++ b ∷ [])
    Fresh-snoc k [] b f h = (h, tt)
    Fresh-snoc k (c ∷ bs) b f h = (f.0, Fresh-snoc k bs b f.1 h)

    Separate-snoc :
        (i : ℕ) (bs : List Buffer) (b : Buffer)
        → alloc_buffer i ≡ some (key b)
        → All (Origin i) bs
        → Separate [] bs
        → Separate [] (bs ++ b ∷ [])
    unfolding lookup
    Separate-snoc i [] b e o s = (refl, tt, tt)
    Separate-snoc i (c ∷ bs) b e o s =
        (s.0, Fresh-snoc (key c) bs b s.1 (other_key i b c e o.0), Separate-snoc i bs b e o.1 s.2)

    abbrev keeping : Pool → Buffer → Pool
    keeping p b = record p {
      all_buffers = p.all_buffers ++ b ∷ [];
      free_ch = record p.free_ch { items = p.free_ch.items ++ b ∷ [] };
    }

    keep_buffer-keeping :
        (i n : ℕ) (p : Pool) (b : Buffer)
        → Partial i (suc n) p
        → keep_buffer alloc_buffer reg_mr p b ≡ ok (keeping p b)
    unfolding keep_buffer try_send
    keep_buffer-keeping i n p b v =
        let room : length p.free_ch.items ≡ length p.all_buffers = ap length v.all_free in
        ground arith

    keeping-Partial :
        (i n : ℕ) (p : Pool) (b : Buffer)
        → alloc_buffer i ≡ some (key b)
        → Partial i (suc n) p
        → Partial (i + 1) n (keeping p b)
    keeping-Partial i n p b f v = record {
      pool_open = v.pool_open;
      channel_open = v.channel_open;
      all_free = ap (λ l. l ++ b ∷ []) v.all_free;
      rounds = omega (arith, v.rounds, length-append p.all_buffers (b ∷ []));
      capacity = v.capacity;
      count = omega (arith, v.count);
      separate = Separate-snoc i p.all_buffers b f v.origins v.separate;
      origins =
          All-snoc (i + 1) p.all_buffers b (Origin-suc i p.all_buffers v.origins)
            (i, omega arith, f);
    }

    module _ (sound : (a : ℕ) → Returns (reg_mr a)) where
      add_buffer-Partial :
          (i n : ℕ) (p : Pool) (o : Option ℕ)
          → alloc_buffer i ≡ o
          → Partial i (suc n) p
          → PartialResult (i + 1) n (add_buffer alloc_buffer reg_mr p o).1
      unfolding add_buffer registered_buffer
      add_buffer-Partial i n p none f v = tt
      add_buffer-Partial i n p (some a) f v = go (reg_mr a) (sound a)
        where
          go :
              (r : Result (ℕ × ℕ))
              → Returns r
              → PartialResult
                  (i + 1)
                  n
                  (elim r as (λ _. List Effect × Result Pool) [
                    | ok keys ↦ (
                      allocated a ∷ registered a ∷ [],
                      keep_buffer alloc_buffer reg_mr p
                          (registered_buffer alloc_buffer reg_mr p a keys),
                    )
                    | err e ↦ (allocated a ∷ freed a ∷ release_all p.all_buffers, err e)
                    | panic ↦ (allocated a ∷ [], panic)
                    | diverge ↦ (allocated a ∷ [], diverge)
                  ]).1
          go (ok keys) h =
              let b = registered_buffer alloc_buffer reg_mr p a keys in
              rw (keep_buffer-keeping i n p b v) (keeping-Partial i n p b f v)
          go (err e) h = tt
          go panic h = h
          go diverge h = h

      go_on-Partial :
          (i n m : ℕ) (r : List Effect × Result Pool) (rest : Pool → List Effect × Result Pool)
          → PartialResult i n r.1
          → ((p : Pool) → Partial i n p → PartialResult m 0 (rest p).1)
          → PartialResult m 0 (go_on alloc_buffer reg_mr r rest).1
      unfolding go_on
      go_on-Partial i n m (log, ok p) rest v h = h p v
      go_on-Partial i n m (log, err e) rest v h = tt
      go_on-Partial i n m (log, panic) rest v h = v
      go_on-Partial i n m (log, diverge) rest v h = v

      fill-Partial :
          (n i m : ℕ) (p : Pool)
          → i + n ≡ m
          → Partial i n p
          → PartialResult m 0 (fill alloc_buffer reg_mr n i p).1
      unfolding fill
      fill-Partial zero i m p e v = subst (λ k. Partial k 0 p) (omega arith) v
      fill-Partial (suc n) i m p e v =
          go_on-Partial (i + 1) n m (add_buffer alloc_buffer reg_mr p (alloc_buffer i))
            (fill alloc_buffer reg_mr n (i + 1)) (add_buffer-Partial i n p (alloc_buffer i) refl v)
            (λ q w. fill-Partial n (i + 1) m q (omega arith) w)

      empty_pool-Partial :
          (id : ℕ) (cfg : PoolConfig) → Partial 0 (to_nat cfg.buffer_count) (empty_pool id cfg)
      empty_pool-Partial id cfg = record {
        pool_open = refl;
        channel_open = refl;
        all_free = refl;
        rounds = refl;
        capacity = refl;
        count = omega arith;
        separate = tt;
        origins = tt;
      }

  -- What `new_send_pool-Inv` says of the result of NewPool.
  abbrev Started : ℕ → Result Pool → Type 0
  Started n r =
      Returns r × ((p : Pool) → r ≡ ok p → Inv (new_send_pool p) × (length p.free_ch.items ≡ n))

  Partial-Inv :
      (n : ℕ) (p : Pool)
      → n < 2 ^ 63
      → Partial n 0 p
      → Inv (new_send_pool p) × (length p.free_ch.items ≡ n)
  Partial-Inv n p small v =
      let free : length p.free_ch.items ≡ length p.all_buffers = ap length v.all_free in
      (
        record {
          pool_open = v.pool_open;
          channel_open = v.channel_open;
          capacity = v.capacity;
          conserved = omega (arith, v.rounds, v.count);
          bounded = omega (arith, v.count);
          counted = refl;
          distinct = tt;
          separate = subst (Separate []) (sym v.all_free) v.separate;
        },
        free ∙ v.rounds,
      )

  PartialResult-Started : (n : ℕ) (r : Result Pool) → n < 2 ^ 63 → PartialResult n 0 r → Started n r
  PartialResult-Started n (ok q) small v = (
    tt,
    λ p e.
        subst (λ x. Inv (new_send_pool x) × (length x.free_ch.items ≡ n)) (same p e)
          (Partial-Inv n q small v),
  )
    where
      same : (p : Pool) → ok q ≡ ok p → q ≡ p
      same p e = cc
  PartialResult-Started n (err x) small v = (tt, λ p e. cc)
  PartialResult-Started n panic small v = absurd v
  PartialResult-Started n diverge small v = absurd v

started :
    (alloc_buffer : ℕ → Option ℕ) (reg_mr : ℕ → Result (ℕ × ℕ)) (id : ℕ) (cfg : PoolConfig)
    → ((i j a : ℕ) → alloc_buffer i ≡ some a → alloc_buffer j ≡ some a → i ≡ j)
    → ((a : ℕ) → Returns (reg_mr a))
    → to_nat cfg.buffer_count < 2 ^ 63
    → Returns (new_pool alloc_buffer reg_mr id cfg).1
      × ((p : Pool)
          → (new_pool alloc_buffer reg_mr id cfg).1 ≡ ok p
          → Inv (new_send_pool p) × (length p.free_ch.items ≡ to_nat cfg.buffer_count))
unfolding new_pool
started alloc_buffer reg_mr id cfg distinct sound small =
    elim (Bool-cases (le_int cfg.buffer_size (pos 0))) [
      | inl bad ↦ rw bad (tt, λ p e. cc)
      | inr good ↦ rw good (elim (Bool-cases (le_int cfg.buffer_count (pos 0))) [
        | inl bad ↦ rw bad (tt, λ p e. cc)
        | inr fine ↦ rw fine (
            PartialResult-Started alloc_buffer reg_mr (to_nat cfg.buffer_count)
              (fill alloc_buffer reg_mr (to_nat cfg.buffer_count) 0 (empty_pool id cfg)).1 small
              (fill-Partial alloc_buffer reg_mr distinct sound (to_nat cfg.buffer_count) 0
                (to_nat cfg.buffer_count) (empty_pool id cfg) (omega arith)
                (empty_pool-Partial alloc_buffer reg_mr distinct sound id cfg)))
      ])
    ]

-- Where every allocation has its own address and RegMR comes back, NewPool comes back too.
pub new_pool-Returns :
    (alloc_buffer : ℕ → Option ℕ) (reg_mr : ℕ → Result (ℕ × ℕ)) (id : ℕ) (cfg : PoolConfig)
    → ((i j a : ℕ) → alloc_buffer i ≡ some a → alloc_buffer j ≡ some a → i ≡ j)
    → ((a : ℕ) → Returns (reg_mr a))
    → to_nat cfg.buffer_count < 2 ^ 63
    → Returns (new_pool alloc_buffer reg_mr id cfg).1
new_pool-Returns alloc_buffer reg_mr id cfg distinct sound small =
    (started alloc_buffer reg_mr id cfg distinct sound small).0

-- Where every allocation has its own address and RegMR comes back, the send pool over a new pool
-- has all its buffers free, as many as the configuration says, with the invariant of a send pool.
pub new_send_pool-Inv :
    (alloc_buffer : ℕ → Option ℕ) (reg_mr : ℕ → Result (ℕ × ℕ)) (id : ℕ) (cfg : PoolConfig)
    (p : Pool)
    → ((i j a : ℕ) → alloc_buffer i ≡ some a → alloc_buffer j ≡ some a → i ≡ j)
    → ((a : ℕ) → Returns (reg_mr a))
    → to_nat cfg.buffer_count < 2 ^ 63
    → (new_pool alloc_buffer reg_mr id cfg).1 ≡ ok p
    → Inv (new_send_pool p) × (length p.free_ch.items ≡ to_nat cfg.buffer_count)
new_send_pool-Inv alloc_buffer reg_mr id cfg p distinct sound small e =
    (started alloc_buffer reg_mr id cfg distinct sound small).1 p e
