-- ===== src/Cq/Pool/LeastLoaded.antt =====
-- pkg/cq/pool.go: the poller that Assign takes.
use golinker.Base.{
  ℕ, zero, suc, ◌+◌, ◌≤◌, ◌≡◌, refl, ap, ◌∙◌, false, Option, none, some, List, [], ◌∷◌, arith, ltb,
  All, Bool-cases, inl, inr,
}
use golinker.Cq.Pool.{least_loop, least_loaded, wants_channel, Pool, Pollers, assign, assign_to}
use golinker.Errors.{ok}
use golinker.Go.Dict.{insert}

-- The load of the poller at a position, if there is one.
abbrev pub get_elem? : List ℕ → ℕ → Option ℕ
get_elem? [] i = none
get_elem? (n ∷ ns) zero = some n
get_elem? (n ∷ ns) (suc i) = get_elem? ns i

-- The poller at position `i` exists, and none has a smaller load.
abbrev pub IsLeast : List ℕ → ℕ → Type 0
IsLeast loads i = (m : ℕ) × (get_elem? loads i ≡ some m) × All (λ n. m ≤ n) loads

All-le : (k m : ℕ) (ns : List ℕ) → k ≤ m → All (λ n. m ≤ n) ns → All (λ n. k ≤ n) ns
All-le k m [] h a = tt
All-le k m (n ∷ ns) h a = (omega (arith, a.0), All-le k m ns h a.1)

least_loop_lem :
    (loads : List ℕ) (best min i : ℕ) (ns : List ℕ)
    → ((j : ℕ) → get_elem? loads (i + j) ≡ get_elem? ns j)
    → get_elem? loads best ≡ some min
    → (m : ℕ) × (get_elem? loads (least_loop best min i ns) ≡ some m)
      × (m ≤ min)
      × All (λ n. m ≤ n) ns
unfolding least_loop
least_loop_lem loads best min i [] h g = (min, g, omega arith, tt)
least_loop_lem loads best min i (n ∷ ns) h g =
    let next : (j : ℕ) → get_elem? loads (suc i + j) ≡ get_elem? ns j =
      λ j. ap (get_elem? loads) (omega arith) ∙ h (suc j) in
    let here : get_elem? loads i ≡ some n = ap (get_elem? loads) (omega arith) ∙ h 0 in
    elim (Bool-cases (ltb n min)) [
      | inl less ↦
          let (m, at, below, all) = least_loop_lem loads i n (suc i) ns next here in
          rw less (m, at, ground arith, (below, all))
      | inr more ↦
          let (m, at, below, all) = least_loop_lem loads best min (suc i) ns next g in
          rw more (m, at, below, (ground arith, all))
    ]

least_loaded-IsLeast : (n : ℕ) (ns : List ℕ) → IsLeast (n ∷ ns) (least_loaded (n ∷ ns))
unfolding least_loaded
least_loaded-IsLeast n ns =
    let next : (j : ℕ) → get_elem? (n ∷ ns) (1 + j) ≡ get_elem? ns j =
      λ j. let one : 1 + j ≡ suc j = omega arith in ap (get_elem? (n ∷ ns)) one in
    let (m, at, below, all) = least_loop_lem (n ∷ ns) 0 n 1 ns next refl in (m, at, (below, all))

module _ {W : Type 0} (ps : Pollers W) where
  -- Assign of an open pool with pollers, where the queue is created, yields the new queue and one
  -- of the pollers that none has fewer queues than, and enters it in the table as the poller of the
  -- queue.
  pub assign-IsLeast :
      (p : Pool W) (n : ℕ) (ns : List ℕ) (cq : ℕ) (w : W)
      → p.is_closed ≡ false
      → ps.loads p.world ≡ n ∷ ns
      → ps.create_cq (wants_channel p.poll_mode) p.cq_size p.world ≡ (ok cq, w)
      → (poller : ℕ) × IsLeast (n ∷ ns) poller
        × (assign ps p
            ≡ (ok (poller, cq), record p { cq_map = insert cq poller p.cq_map; world = w }))
  unfolding assign assign_to
  assign-IsLeast p n ns cq w o l c =
      (least_loaded (n ∷ ns), least_loaded-IsLeast n ns, rw (o, l, c) refl)
