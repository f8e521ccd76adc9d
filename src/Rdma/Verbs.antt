-- ===== src/Rdma/Verbs.antt =====
-- internal/rdma/real_verbs.go and the functions of verbs.go that it calls, over the C library, which
-- is the argument `lib`. A pointer of the library is a number, and NULL is `none`.
pub mod Laws
pub mod Owned
pub mod Close
pub mod Channel
pub mod Queue
pub mod Agrees
use golinker.Base.{
  ℕ, suc, Bool, true, false, ◌&&◌, Option, none, some, List, [], ◌∷◌, ◌==◌, if◌then◌else◌,
}
use golinker.Errors.{Result, ok, err, panic, external}
use golinker.Go.State.{Call, ◌>>◌}

-- The calls of libibverbs. `device_list` gives the names; a device is opened by its place among them.
-- A size is passed on as it is, below 2^31. A call that frees says whether it returned zero; a channel's failure is not looked at.
pub record VerbsLib (W : Type 0) : Type 0 where
  pub device_list : W → Option (List (List ℕ)) × W
  pub open_device : ℕ → W → Option ℕ × W
  pub close_device : ℕ → W → Bool × W
  pub alloc_pd : ℕ → W → Option ℕ × W
  pub dealloc_pd : ℕ → W → Bool × W
  pub create_channel : ℕ → W → Option ℕ × W
  pub destroy_channel : ℕ → W → W
  pub create_cq : ℕ → ℕ → Option ℕ → W → Option ℕ × W

-- RealVerbs, and the library's own state.
pub record RealVerbs (W : Type 0) : Type 0 where
  pub ctx : Option ℕ
  pub pd : Option ℕ
  pub world : W

-- RealCQ; the file of the channel is the channel's.
pub record RealCq : Type 0 where
  pub cq : ℕ
  pub size : ℕ
  pub channel : Option ℕ

abbrev pub new_real_verbs : {W : Type 0} → W → RealVerbs W
new_real_verbs w = record { ctx = none; pd = none; world = w }

unfoldable pub same_name : List ℕ → List ℕ → Bool
same_name [] [] = true
same_name [] (y ∷ ys) = false
same_name (x ∷ xs) [] = false
same_name (x ∷ xs) (y ∷ ys) = x == y && same_name xs ys

-- The search of OpenDevice, from the place `i` on.
unfoldable pub position : List ℕ → List (List ℕ) → ℕ → Option ℕ
unfolding same_name
position name [] i = none
position name (d ∷ ds) i = if same_name d name then some i else position name ds (suc i)

-- A pointer that a call gave, and what its caller makes of it.
unfoldable pub got :
    {W A : Type 0}
    → ℕ
    → (ℕ → W → Result A × RealVerbs W)
    → RealVerbs W
    → Option ℕ × W
    → Result A × RealVerbs W
got e k v (none, w) = (err (external e), record v { world = w })
got e k v (some h, w) = k h w

module _ {W : Type 0} (lib : VerbsLib W) where
  unfoldable pub opened : RealVerbs W → Option ℕ × W → Result (Unit {0}) × RealVerbs W
  unfolding got
  opened v q = got 9 (λ c w. (ok tt, record v { ctx = some c; world = w })) v q

  unfoldable pub open_found : RealVerbs W → Option ℕ → W → Result (Unit {0}) × RealVerbs W
  unfolding opened
  open_found v none w = (err (external 10), record v { world = w })
  open_found v (some i) w = opened v (lib.open_device i w)

  unfoldable pub open_listed :
      List ℕ → RealVerbs W → Option (List (List ℕ)) × W → Result (Unit {0}) × RealVerbs W
  unfolding open_found position
  open_listed name v (none, w) = (err (external 11), record v { world = w })
  open_listed name v (some ds, w) = open_found v (position name ds 0) w

  -- RealVerbs.OpenDevice.
  unfoldable pub open_device : List ℕ → Call (RealVerbs W) (Unit {0})
  unfolding open_listed
  open_device name v = open_listed name v (lib.device_list v.world)

  unfoldable pub with_ctx :
      {A : Type 0} → (ℕ → Call (RealVerbs W) A) → Option ℕ → Call (RealVerbs W) A
  with_ctx f none v = (panic, v)
  with_ctx f (some c) v = f c v

  -- The calls on the context, which is NULL before OpenDevice: the C library reads through it.
  unfoldable pub on_device : {A : Type 0} → (ℕ → Call (RealVerbs W) A) → Call (RealVerbs W) A
  unfolding with_ctx
  on_device f v = with_ctx f v.ctx v

  -- RealVerbs.AllocPD.
  unfoldable pub alloc_pd : Call (RealVerbs W) ℕ
  unfolding on_device got
  alloc_pd =
      on_device λ c v.
        got 12 (λ p w. (ok p, record v { pd = some p; world = w })) v (lib.alloc_pd c v.world)

  -- RealVerbs.CreateCQ.
  unfoldable pub create_cq : ℕ → Call (RealVerbs W) RealCq
  unfolding on_device got
  create_cq size = on_device λ c v.
      got 13 (λ q w. (ok (record { cq = q; size = size; channel = none }), record v { world = w }))
        v (lib.create_cq c size none v.world)

  -- The queue of CreateCQWithChannel: the channel goes where there is none.
  unfoldable pub bound : ℕ → ℕ → RealVerbs W → Option ℕ × W → Result RealCq × RealVerbs W
  bound ch size v (none, w) = (err (external 14), record v { world = lib.destroy_channel ch w })
  bound ch size v (some q, w) =
      (ok (record { cq = q; size = size; channel = some ch }), record v { world = w })

  -- RealVerbs.CreateCQWithChannel.
  unfoldable pub create_cq_with_channel : ℕ → Call (RealVerbs W) RealCq
  unfolding on_device got bound
  create_cq_with_channel size = on_device λ c v.
      got 15 (λ ch w. bound ch size v (lib.create_cq c size (some ch) w)) v
        (lib.create_channel c v.world)

  unfoldable pub freed_pd : RealVerbs W → Bool × W → Result (Unit {0}) × RealVerbs W
  freed_pd v (true, w) = (ok tt, record v { pd = none; world = w })
  freed_pd v (false, w) = (err (external 16), record v { world = w })

  unfoldable pub free_pd : Option ℕ → Call (RealVerbs W) (Unit {0})
  unfolding freed_pd
  free_pd none v = (ok tt, v)
  free_pd (some p) v = freed_pd v (lib.dealloc_pd p v.world)

  unfoldable pub closed_ctx : RealVerbs W → Bool × W → Result (Unit {0}) × RealVerbs W
  closed_ctx v (true, w) = (ok tt, record v { ctx = none; world = w })
  closed_ctx v (false, w) = (err (external 17), record v { world = w })

  unfoldable pub close_ctx : Option ℕ → Call (RealVerbs W) (Unit {0})
  unfolding closed_ctx
  close_ctx none v = (ok tt, v)
  close_ctx (some c) v = closed_ctx v (lib.close_device c v.world)

  -- RealVerbs.Close.
  unfoldable pub close : Call (RealVerbs W) (Unit {0})
  unfolding free_pd close_ctx
  close = (λ v. free_pd v.pd v) >> (λ v. close_ctx v.ctx v)
