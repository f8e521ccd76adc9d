-- ===== src/Cq/Pool/Start/Undo.antt =====
-- pkg/cq/pool.go: NewPool leaves no poller running where it fails.
use golinker.Base.{
  ℕ, zero, suc, ◌+◌, ◌≡◌, refl, sym, ap, ◌∙◌, Bool, true, false, Option, none, some, List, [], ◌∷◌,
  ◌++◌, length, append_assoc, append-nil, Bool-cases, inl, inr, arith, length-append,
}
use golinker.Api.{PollMode}
use golinker.Cq.Pool.{Pool}
use golinker.Cq.Pool.Start.{Ran, close_started, start_rest, start_all, pooled, new_pool}
use golinker.Errors.{Error, Result, ok, err, panic, diverge}
use mathlib.Core.Path.{subst}
use golinker.Go.Int.{ℤ, pos, negsuc, le_int, to_nat}

module _ {W : Type 0} (start : ℕ → W → Option Error × W) (close : ℕ → W → W) where
  closed_all :
      (is : List ℕ) (s : Ran W)
      → ((close_started start close is s).closed ≡ s.closed ++ is)
        × ((close_started start close is s).started ≡ s.started)
  unfolding close_started
  closed_all [] s = (sym (append-nil s.closed), refl)
  closed_all (i ∷ is) s =
      let (e, f) =
        closed_all is (record s { closed = s.closed ++ i ∷ []; world = close i s.world }) in
      (e ∙ append_assoc s.closed (i ∷ []) is, f)

  -- `pollers` run, and none was closed.
  record Running (pollers : List ℕ) (s : Ran W) : Type 0 where
    all_started : s.started ≡ pollers
    none_closed : s.closed ≡ []

  abbrev StartedOr : ℕ → Result (List ℕ) × Ran W → Type 0
  StartedOr n (ok pollers, s) = Running pollers s × (length pollers ≡ n)
  StartedOr n (err e, s) = s.closed ≡ s.started
  StartedOr n (panic, s) = ⊥
  StartedOr n (diverge, s) = ⊥

  start_all-StartedOr :
      (n i : ℕ) (pollers : List ℕ) (s : Ran W)
      → Running pollers s
      → StartedOr (length pollers + n) (start_all start close n i pollers s)
  unfolding start_all start_rest
  start_all-StartedOr zero i pollers s v = (v, omega arith)
  start_all-StartedOr (suc n) i pollers s v = go (start_all-StartedOr n (suc i)) (start i s.world)
    where
      go :
          ((pollers : List ℕ) (s : Ran W)
            → Running pollers s
            → StartedOr (length pollers + n) (start_all start close n (suc i) pollers s))
          → (q : Option Error × W)
          → StartedOr
              (length pollers + suc n)
              (start_rest start close (start_all start close n (suc i)) pollers i s q)
      go ih (none, w) =
          subst
            (λ k. StartedOr k (
              start_all start close n (suc i) (pollers ++ i ∷ [])
                (record { started = s.started ++ i ∷ []; closed = s.closed; world = w })))
            (omega (arith, length-append pollers (i ∷ [])))
            (ih (pollers ++ i ∷ []) _ (record {
              all_started = ap (λ l. l ++ i ∷ []) v.all_started;
              none_closed = v.none_closed;
            }))
      go ih (some e, w) =
          let (c, f) = closed_all pollers (record s { world = w }) in
          c ∙ ap (λ l. l ++ pollers) v.none_closed ∙ sym (f ∙ v.all_started)

  -- After NewPool: as many pollers run as were asked for, of a pool that is open and has no queues; or
  -- every poller that was started is closed, once and in order.
  abbrev pub StartedAll : ℤ → Result (List ℕ × Pool W) × Ran W → Type 0
  StartedAll num (ok (pollers, p), s) =
      (s.started ≡ pollers)
      × (s.closed ≡ [])
      × (pos (length pollers) ≡ num)
      × (p.cq_map ≡ [])
      × (p.is_closed ≡ false)
  StartedAll num (err e, s) = s.closed ≡ s.started
  StartedAll num (panic, s) = ⊥
  StartedAll num (diverge, s) = ⊥

  pooled-StartedAll :
      (num : ℤ) (mode : PollMode)
      → le_int num (pos 0) ≡ false
      → (q : Result (List ℕ) × Ran W) → StartedOr (0 + to_nat num) q
      → StartedAll num (pooled start close mode q)
  unfolding pooled
  pooled-StartedAll (pos k) mode h (ok pollers, s) (v, l) =
      (v.all_started, v.none_closed, ap pos (omega (arith, l)), refl, refl)
  pooled-StartedAll (negsuc k) mode h (ok pollers, s) v = absurd (never h)
    where
      never : true ≡ false → ⊥
      never h = cc
  pooled-StartedAll num mode h (err e, s) v = v
  pooled-StartedAll num mode h (panic, s) v = v
  pooled-StartedAll num mode h (diverge, s) v = v

  -- NewPool, over any Start and Close of the pollers: where it succeeds, as many pollers run as were
  -- asked for, and the pool is open and without queues; where it fails, by a nil Verbs, a number that
  -- is not positive, or any Start, every poller that was started is closed, once and in order.
  pub new_pool-StartedAll :
      (verbs_nil : Bool) (num : ℤ) (mode : PollMode) (s : Ran W)
      → s.started ≡ []
      → s.closed ≡ []
      → StartedAll num (new_pool start close verbs_nil num mode s)
  unfolding new_pool
  new_pool-StartedAll true num mode s e f = f ∙ sym e
  new_pool-StartedAll false num mode s e f = elim (Bool-cases (le_int num (pos 0))) [
    | inl h ↦ rw h (f ∙ sym e)
    | inr h ↦ rw h (
        pooled-StartedAll num mode h (start_all start close (to_nat num) 0 [] s)
          (start_all-StartedOr (to_nat num) 0 [] s (record { all_started = e; none_closed = f })))
  ]
