-- ===== src/Tests/Devices.antt =====
-- internal/rdma/real_verbs.go at concrete inputs: a library with one device.
use golinker.Base.{
  ℕ, zero, suc, ◌≡◌, refl, ap, Bool, true, false, Option, none, some, List, [], ◌∷◌,
}
use golinker.Rdma.Verbs.{VerbsLib, RealVerbs, new_real_verbs, open_device, alloc_pd, close}
use golinker.Rdma.Verbs.Laws.{Handle, context, domain, channel, queue, Gave, Freed, VerbsLaws}
use golinker.Rdma.Verbs.Close.{new, opens, allocs, closes, Reach-Closed}

-- What is open, how often a call that frees is refused, and whether queues are.
record Board : Type 0 where
  open_handles : List Handle
  refusals : ℕ
  full : Bool

abbrev rest_of : List Handle → List Handle
rest_of [] = []
rest_of (h ∷ hs) = hs

abbrev give : (ℕ → Handle) → ℕ → Board → Option ℕ × Board
give h n w = (some n, record w { open_handles = h n ∷ w.open_handles })

abbrev free_at : ℕ → Board → Bool × Board
free_at zero w = (true, record w { open_handles = rest_of w.open_handles })
free_at (suc n) w = (false, record w { refusals = n })

abbrev queue_at : Bool → Board → Option ℕ × Board
queue_at true w = (none, w)
queue_at false w = give queue 5 w

abbrev board : VerbsLib Board
board = record {
  device_list = λ w. (some ((1 ∷ 2 ∷ []) ∷ (3 ∷ []) ∷ []), w);
  open_device = λ i w. give context i w;
  close_device = λ c w. free_at w.refusals w;
  alloc_pd = λ c w. give domain 7 w;
  dealloc_pd = λ p w. free_at w.refusals w;
  create_channel = λ c w. give channel 8 w;
  destroy_channel = λ ch w. record w { open_handles = rest_of w.open_handles };
  create_cq = λ c n ch w. queue_at w.full w;
}

abbrev in_use : Board → List Handle
in_use w = w.open_handles

frees : (h : Handle) (w : Board) (n : ℕ) → Freed in_use h w (free_at n w)
frees h w zero = λ rest e. ap rest_of e
frees h w (suc n) = refl

queues : (w : Board) (b : Bool) → Gave in_use queue w (queue_at b w)
queues w true = refl
queues w false = refl

board_laws : VerbsLaws board in_use
board_laws = record {
  lists = λ w. refl;
  opens = λ i w. refl;
  allocs = λ c w. refl;
  deallocs = λ p w. frees (domain p) w w.refusals;
  closes = λ c w. frees (context c) w w.refusals;
  channels = λ c w. refl;
  queues = λ c n ch w. queues w w.full;
  destroys = λ ch w rest e. ap rest_of e;
}

-- The first call that frees is refused.
abbrev first : Board
first = record { open_handles = []; refusals = 1; full = true }

abbrev with_device : RealVerbs Board
with_device = (open_device board (3 ∷ []) (new_real_verbs first)).1

abbrev with_domain : RealVerbs Board
with_domain = (alloc_pd board with_device).1

abbrev refused : RealVerbs Board
refused = (close board with_domain).1

Reach-Closed_example :
    (in_use ((close board refused).1.world) ≡ [])
    × ((close board refused).1.ctx ≡ none)
    × ((close board refused).1.pd ≡ none)
unfolding close open_device alloc_pd
Reach-Closed_example =
    Reach-Closed board in_use board_laws first refused (
      closes with_domain (allocs with_device refl (opens (3 ∷ []) (new_real_verbs first) refl new)))
