-- ===== src/Rdma/Verbs/Laws.antt =====
-- What libibverbs documents of the calls that internal/rdma/real_verbs.go makes.
use golinker.Base.{ℕ, ◌≡◌, ◌∙◌, Bool, true, false, Option, none, some, List, [], ◌∷◌, ◌++◌}
use golinker.Errors.{Result}
use golinker.Rdma.Verbs.{VerbsLib, RealVerbs}

pub data Handle : Type 0 where
  context domain channel queue : ℕ → Handle

-- What a call of the library that gives a pointer leaves open, and one that frees.
abbrev pub Gave : {W : Type 0} → (W → List Handle) → (ℕ → Handle) → W → Option ℕ × W → Type 0
Gave held h w (none, w') = held w' ≡ held w
Gave held h w (some n, w') = held w' ≡ h n ∷ held w

abbrev pub Freed : {W : Type 0} → (W → List Handle) → Handle → W → Bool × W → Type 0
Freed held h w (true, w') = (rest : List Handle) → held w ≡ h ∷ rest → held w' ≡ rest
Freed held h w (false, w') = held w' ≡ held w

-- The library as it is documented: `held` is what is open, the latest first. A call that fails
-- changes nothing of it.
pub record VerbsLaws {W : Type 0} (lib : VerbsLib W) (held : W → List Handle) : Type 0 where
  pub lists : (w : W) → held ((lib.device_list w).1) ≡ held w
  pub opens : (i : ℕ) (w : W) → Gave held context w (lib.open_device i w)
  pub allocs : (c : ℕ) (w : W) → Gave held domain w (lib.alloc_pd c w)
  pub deallocs : (p : ℕ) (w : W) → Freed held (domain p) w (lib.dealloc_pd p w)
  pub closes : (c : ℕ) (w : W) → Freed held (context c) w (lib.close_device c w)
  pub channels : (c : ℕ) (w : W) → Gave held channel w (lib.create_channel c w)
  pub queues : (c n : ℕ) (ch : Option ℕ) (w : W) → Gave held queue w (lib.create_cq c n ch w)
  pub destroys :
      (ch : ℕ) (w : W) (rest : List Handle)
      → held w ≡ channel ch ∷ rest
      → held (lib.destroy_channel ch w) ≡ rest

abbrev pub entry : (ℕ → Handle) → Option ℕ → List Handle
entry h none = []
entry h (some n) = h n ∷ []

abbrev pub Based : Option ℕ → Option ℕ → Type 0
Based (some c) pd = Unit
Based none pd = pd ≡ none

module _ {W : Type 0} (lib : VerbsLib W) (held : W → List Handle) (before : List Handle) where
  -- The fields are all that is open besides what was before, and a domain has its device.
  pub record Owned (v : RealVerbs W) : Type 0 where
    pub holds : held v.world ≡ entry domain v.pd ++ entry context v.ctx ++ before
    pub based : Based v.ctx v.pd

  abbrev pub OwnedAfter : {A : Type 0} → Result A × RealVerbs W → Type 0
  OwnedAfter (_, v) = Owned v

  -- A call that failed, or that only looked.
  pub still :
      (v : RealVerbs W) (w : W) → Owned v → held w ≡ held v.world → Owned (record v { world = w })
  still v w o h = record { holds = h ∙ o.holds; based = o.based }
