-- ===== src/Rdma/Verbs/Owned.antt =====
-- internal/rdma/real_verbs.go: OpenDevice and AllocPD leave what is open in the fields.
use golinker.Base.{ℕ, ◌≡◌, refl, ap, ◌∙◌, Option, none, some, List, ◌∷◌}
use golinker.Errors.{ok}
use golinker.Rdma.Verbs.{
  VerbsLib, RealVerbs, position, got, opened, open_found, open_listed, open_device, with_ctx,
  on_device, alloc_pd,
}
use golinker.Rdma.Verbs.Laws.{
  Handle, context, domain, Gave, VerbsLaws, Based, Owned, OwnedAfter, still,
}

module _ {W : Type 0} (lib : VerbsLib W) (held : W → List Handle) (before : List Handle) where
  no_domain : (v : RealVerbs W) → v.ctx ≡ none → Owned lib held before v → v.pd ≡ none
  no_domain v idle o = go v.ctx idle o.based
    where
      go : (c : Option ℕ) → c ≡ none → Based c v.pd → v.pd ≡ none
      go none i b = b
      go (some c) i b = cc

  opened-Owned :
      (v : RealVerbs W)
      → v.ctx ≡ none
      → Owned lib held before v
      → (q : Option ℕ × W) → Gave held context v.world q
      → OwnedAfter lib held before (opened lib v q)
  unfolding opened got
  opened-Owned v idle o (none, w) g = still lib held before v w o g
  opened-Owned v idle o (some c, w) g = record {
    holds = rw (g, o.holds, no_domain v idle o, idle) refl;
    based = tt;
  }

  open_found-Owned :
      (laws : VerbsLaws lib held) (v : RealVerbs W) (w : W) (i : Option ℕ)
      → v.ctx ≡ none
      → Owned lib held before v
      → held w ≡ held v.world
      → OwnedAfter lib held before (open_found lib v i w)
  unfolding open_found opened got
  open_found-Owned laws v w none idle o h = still lib held before v w o h
  open_found-Owned laws v w (some i) idle o h =
      opened-Owned (record v { world = w }) idle (still lib held before v w o h)
        (lib.open_device i w) (laws.opens i w)

  pub open_device-Owned :
      (laws : VerbsLaws lib held) (name : List ℕ) (v : RealVerbs W)
      → v.ctx ≡ none
      → Owned lib held before v
      → OwnedAfter lib held before (open_device lib name v)
  unfolding open_device open_listed
  open_device-Owned laws name v idle o = go (lib.device_list v.world) (laws.lists v.world)
    where
      go :
          (q : Option (List (List ℕ)) × W)
          → held (q.1) ≡ held v.world
          → OwnedAfter lib held before (open_listed lib name v q)
      go (none, w) h = still lib held before v w o h
      go (some ds, w) h = open_found-Owned laws v w (position name ds 0) idle o h

  pub alloc_pd-Owned :
      (laws : VerbsLaws lib held) (v : RealVerbs W)
      → v.pd ≡ none
      → Owned lib held before v
      → OwnedAfter lib held before (alloc_pd lib v)
  unfolding alloc_pd on_device with_ctx got
  alloc_pd-Owned laws v idle o = go v.ctx refl
    where
      given :
          (c : ℕ)
          → v.ctx ≡ some c
          → (q : Option ℕ × W) → Gave held domain v.world q
          → OwnedAfter lib held before
              (got 12 (λ p w. (ok p, record v { pd = some p; world = w })) v q)
      given c e (none, w) g = still lib held before v w o g
      given c e (some p, w) g = record {
        holds = g ∙ ap (λ l. domain p ∷ l) o.holds ∙ rw idle refl;
        based = rw e tt;
      }

      go :
          (c : Option ℕ)
          → v.ctx ≡ c
          → OwnedAfter lib held before (
              with_ctx lib
                (λ c v.
                  got 12
                    (λ p w. (ok p, record v { pd = some p; world = w }))
                    v
                    (lib.alloc_pd c v.world))
                c
                v)
      go none e = o
      go (some c) e = given c e (lib.alloc_pd c v.world) (laws.allocs c v.world)
