-- ===== src/Rdma/Verbs/Channel.antt =====
-- internal/rdma/real_verbs.go: a completion queue with its channel.
use golinker.Base.{ℕ, ◌≡◌, refl, ◌∙◌, Option, none, some, List, ◌∷◌, ◌++◌}
use golinker.Errors.{Result, ok, err, panic, diverge}
use golinker.Rdma.Verbs.{
  VerbsLib, RealVerbs, got, with_ctx, on_device, RealCq, bound, create_cq_with_channel,
}
use golinker.Rdma.Verbs.Laws.{Handle, channel, queue, Gave, VerbsLaws, entry}

-- What CreateCQWithChannel leaves open: the queue and its channel, or nothing where it fails; it
-- panics only without a device.
abbrev pub Made :
    {W : Type 0} → (W → List Handle) → RealVerbs W → Result RealCq × RealVerbs W → Type 0
Made held v (ok q, u) = held u.world ≡ queue q.cq ∷ entry channel q.channel ++ held v.world
Made held v (err e, u) = held u.world ≡ held v.world
Made held v (panic, u) = v.ctx ≡ none
Made held v (diverge, u) = ⊥

pub create_cq_with_channel-Made :
    {W : Type 0} (lib : VerbsLib W) (held : W → List Handle)
    → VerbsLaws lib held
    → (size : ℕ) (v : RealVerbs W) → Made held v (create_cq_with_channel lib size v)
unfolding create_cq_with_channel on_device with_ctx got bound
create_cq_with_channel-Made {W} lib held laws size v = at v.ctx refl
  where
    with_queue :
        (ch : ℕ) (w : W)
        → held w ≡ channel ch ∷ held v.world
        → (q : Option ℕ × W) → Gave held queue w q
        → Made held v (bound lib ch size v q)
    with_queue ch w h (none, x) g = laws.destroys ch x (held v.world) (g ∙ h)
    with_queue ch w h (some n, x) g = rw (g, h) refl

    with_channel :
        (c : ℕ) (q : Option ℕ × W)
        → Gave held channel v.world q
        → Made held v (got 15 (λ ch w. bound lib ch size v (lib.create_cq c size (some ch) w)) v q)
    with_channel c (none, w) g = g
    with_channel c (some ch, w) g =
        with_queue ch w g (lib.create_cq c size (some ch) w) (laws.queues c size (some ch) w)

    at :
        (c : Option ℕ)
        → v.ctx ≡ c
        → Made held v (
            with_ctx lib
              (λ c v.
                got 15
                  (λ ch w. bound lib ch size v (lib.create_cq c size (some ch) w))
                  v
                  (lib.create_channel c v.world))
              c
              v)
    at none e = e
    at (some c) e = with_channel c (lib.create_channel c v.world) (laws.channels c v.world)
