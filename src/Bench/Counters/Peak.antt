-- ===== src/Bench/Counters/Peak.antt =====
-- cmd/golinker-bench/resources/resources.go: the peak and the goroutines of a tracker.
use golinker.Base.{
  ℕ, ◌+◌, ◌<◌, ◌%◌, ◌^◌, ◌≡◌, refl, true, some, List, [], ◌∷◌, ◌++◌, leb, arith, inl, inr,
  Bool-cases, if◌then◌else◌,
}
use golinker.Go.Word.{add64}
use golinker.Bench.Counters.{
  RdmaCounters, sub64, delta_counters, Tracker, new_tracker, raise_peak, sample, start, stop, Event,
  starts, ticks, stops, step, run,
}

-- The largest of the samples.
abbrev pub largest : List ℕ → ℕ
largest [] = 0
largest (x ∷ xs) = let m = largest xs in if leb x m then m else x

largest-snoc :
    (x : ℕ) (xs : List ℕ) → largest (xs ++ x ∷ []) ≡ (if leb x (largest xs) then largest xs else x)
largest-snoc x [] = ground arith
largest-snoc x (y ∷ ys) = ground (arith, largest-snoc x ys)

abbrev IsPeak : Tracker → Type 0
IsPeak t = t.peak_rss ≡ largest t.samples

sample-IsPeak : (rss : ℕ) (t : Tracker) → IsPeak t → IsPeak (sample rss t)
unfolding sample raise_peak
sample-IsPeak rss t v = ground (arith, largest-snoc rss t.samples, v)

step-IsPeak : (e : Event) (t : Tracker) → IsPeak t → IsPeak (step e t)
unfolding step start stop
step-IsPeak (starts rss) t v = elim (Bool-cases t.running) [
  | inl on ↦ rw on v
  | inr off ↦ rw off (sample-IsPeak rss (record t { running = true }) v)
]
step-IsPeak (ticks rss) t v = sample-IsPeak rss t v
step-IsPeak stops t v = v

run_from-IsPeak : (es : List Event) (t : Tracker) → IsPeak t → IsPeak (run es t)
unfolding run
run_from-IsPeak [] t v = v
run_from-IsPeak (e ∷ es) t v = run_from-IsPeak es (step e t) (step-IsPeak e t v)

-- Whatever calls and ticks a new tracker sees, its peak is the largest of all its samples.
pub run-IsPeak :
    (es : List Event) → (run es new_tracker).peak_rss ≡ largest (run es new_tracker).samples
unfolding new_tracker
run-IsPeak es = run_from-IsPeak es new_tracker refl

sub64_back : (a b : ℕ) → a < 2 ^ 64 → b < 2 ^ 64 → (b + sub64 a b) % 2 ^ 64 ≡ a
sub64_back a b h k = omega arith

-- Each counter is a uint64.
abbrev pub IsWord : RdmaCounters → Type 0
IsWord c =
    (c.tx_packets < 2 ^ 64)
    × (c.rx_packets < 2 ^ 64)
    × (c.tx_bytes < 2 ^ 64)
    × (c.rx_bytes < 2 ^ 64)

-- DeltaCounters loses nothing where a counter has wrapped between the two snapshots: the first
-- snapshot and the difference give the second one back.
pub delta_counters-exact :
    (b a : RdmaCounters)
    → IsWord b
    → IsWord a
    → let d = delta_counters (some b) (some a) in
      (add64 b.tx_packets d.tx_packets ≡ a.tx_packets)
      × (add64 b.rx_packets d.rx_packets ≡ a.rx_packets)
      × (add64 b.tx_bytes d.tx_bytes ≡ a.tx_bytes)
      × (add64 b.rx_bytes d.rx_bytes ≡ a.rx_bytes)
unfolding delta_counters add64
delta_counters-exact b a (h, i, j, k) (l, m, n, o) = (
  sub64_back a.tx_packets b.tx_packets l h,
  sub64_back a.rx_packets b.rx_packets m i,
  sub64_back a.tx_bytes b.tx_bytes n j,
  sub64_back a.rx_bytes b.rx_bytes o k,
)
