-- ===== src/Rdma/Verbs/Close.antt =====
-- internal/rdma/real_verbs.go: Close frees what is open.
use golinker.Base.{ℕ, ◌≡◌, refl, ◌∙◌, Bool, true, false, Option, none, some, List, ◌++◌}
use golinker.Errors.{Result, ok, err, panic, diverge}
use golinker.Go.State.{and_then}
use golinker.Rdma.Verbs.{
  VerbsLib, RealVerbs, new_real_verbs, open_device, alloc_pd, freed_pd, free_pd, closed_ctx,
  close_ctx, close,
}
use golinker.Rdma.Verbs.Laws.{Handle, context, domain, Freed, VerbsLaws, entry, Based, Owned, still}
use golinker.Rdma.Verbs.Owned.{open_device-Owned, alloc_pd-Owned}

module _ {W : Type 0} (lib : VerbsLib W) (held : W → List Handle) (before : List Handle) where
  Based-none : (c : Option ℕ) → Based c none
  Based-none none = refl
  Based-none (some c) = tt

  -- After Close, by what it returned: all that the fields held is freed, or what is left is in them.
  abbrev pub Closed : Result (Unit {0}) × RealVerbs W → Type 0
  Closed (ok _, v) = (held v.world ≡ before) × (v.ctx ≡ none) × (v.pd ≡ none)
  Closed (err e, v) = Owned lib held before v
  Closed (panic, v) = ⊥
  Closed (diverge, v) = ⊥

  closed_ctx-Closed :
      (c : ℕ) (v : RealVerbs W)
      → v.ctx ≡ some c
      → v.pd ≡ none
      → Owned lib held before v
      → (q : Bool × W) → Freed held (context c) v.world q
      → Closed (closed_ctx lib v q)
  unfolding closed_ctx
  closed_ctx-Closed c v e n o (true, w) f = (f before (o.holds ∙ rw (e, n) refl), refl, n)
  closed_ctx-Closed c v e n o (false, w) f = still lib held before v w o f

  close_ctx-Closed :
      (laws : VerbsLaws lib held) (v : RealVerbs W) (c : Option ℕ)
      → v.ctx ≡ c
      → v.pd ≡ none
      → Owned lib held before v
      → Closed (close_ctx lib c v)
  unfolding close_ctx
  close_ctx-Closed laws v none e n o = (o.holds ∙ rw (e, n) refl, e, n)
  close_ctx-Closed laws v (some c) e n o =
      closed_ctx-Closed c v e n o (lib.close_device c v.world) (laws.closes c v.world)

  close-Closed :
      (laws : VerbsLaws lib held) (v : RealVerbs W) → Owned lib held before v → Closed (close lib v)
  unfolding close free_pd freed_pd
  close-Closed laws v o = go v.pd refl
    where
      freed :
          (p : ℕ)
          → v.pd ≡ some p
          → (q : Bool × W) → Freed held (domain p) v.world q
          → Closed (and_then (freed_pd lib v q) (λ _ v. close_ctx lib v.ctx v))
      freed p e (false, w) f = still lib held before v w o f
      freed p e (true, w) f =
          close_ctx-Closed laws (record v { pd = none; world = w }) v.ctx refl refl
            (record {
              holds = f (entry context v.ctx ++ before) (o.holds ∙ rw e refl);
              based = Based-none v.ctx;
            })

      go :
          (p : Option ℕ)
          → v.pd ≡ p
          → Closed (and_then (free_pd lib p v) (λ _ v. close_ctx lib v.ctx v))
      go none e = close_ctx-Closed laws v v.ctx refl e o
      go (some p) e = freed p e (lib.dealloc_pd p v.world) (laws.deallocs p v.world)

  -- The uses of the object: a device is opened where none is open, and a domain allocated where there
  -- is none; Close may come at any time, again and after a failure too.
  pub data Reach (w : W) : RealVerbs W → Type 0 where
    new : Reach w (new_real_verbs w)
    opens :
        (name : List ℕ) (v : RealVerbs W)
        → v.ctx ≡ none
        → Reach w v
        → Reach w ((open_device lib name v).1)
    allocs : (v : RealVerbs W) → v.pd ≡ none → Reach w v → Reach w ((alloc_pd lib v).1)
    closes : (v : RealVerbs W) → Reach w v → Reach w ((close lib v).1)

  Closed-Owned : (q : Result (Unit {0}) × RealVerbs W) → Closed q → Owned lib held before (q.1)
  Closed-Owned (ok u, v) (h, c, p) = record { holds = rw (c, p) h; based = rw (c, p) refl }
  Closed-Owned (err e, v) o = o
  Closed-Owned (panic, v) o = elim o [ ]
  Closed-Owned (diverge, v) o = elim o [ ]

  Reach-Owned :
      (laws : VerbsLaws lib held) (w : W)
      → held w ≡ before
      → (v : RealVerbs W) → Reach w v
      → Owned lib held before v
  Reach-Owned laws w h _ new = record { holds = h; based = refl }
  Reach-Owned laws w h _ (opens name v idle r) =
      open_device-Owned lib held before laws name v idle (Reach-Owned laws w h v r)
  Reach-Owned laws w h _ (allocs v idle r) =
      alloc_pd-Owned lib held before laws v idle (Reach-Owned laws w h v r)
  Reach-Owned laws w h _ (closes v r) =
      Closed-Owned (close lib v) (close-Closed laws v (Reach-Owned laws w h v r))

-- RealVerbs, over a library that does as it is documented, a device opened only where none is and a
-- domain allocated only where there is none: whatever calls went before and failed, Close does not
-- panic; where it returns no error, all that was opened since the object was made is freed and both
-- fields are NULL; where it returns one, what is still open is in the fields, for the next Close.
pub Reach-Closed :
    {W : Type 0} (lib : VerbsLib W) (held : W → List Handle)
    → VerbsLaws lib held
    → (w : W) (v : RealVerbs W) → Reach lib held (held w) w v
    → Closed lib held (held w) (close lib v)
Reach-Closed lib held laws w v r =
    close-Closed lib held (held w) laws v (Reach-Owned lib held (held w) laws w refl v r)
