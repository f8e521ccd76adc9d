-- ===== src/Bench/Counters.antt =====
-- cmd/golinker-bench: DeltaCounters of rdma_counters.go, and the Tracker of resources/resources.go.
pub mod Peak
use golinker.Base.{
  ℕ, zero, suc, ◌+◌, ◌-◌, ◌%◌, ◌^◌, Bool, true, false, Option, none, some, List, [], ◌∷◌, ◌++◌, leb,
  if◌then◌else◌,
}

-- Four uint64.
pub record RdmaCounters : Type 0 where
  pub tx_packets : ℕ
  pub rx_packets : ℕ
  pub tx_bytes : ℕ
  pub rx_bytes : ℕ

-- The difference of two uint64, which wraps.
abbrev pub sub64 : ℕ → ℕ → ℕ
sub64 a b = (a + (2 ^ 64 - b)) % 2 ^ 64

unfoldable pub delta_counters : Option RdmaCounters → Option RdmaCounters → RdmaCounters
delta_counters (some b) (some a) = record {
  tx_packets = sub64 a.tx_packets b.tx_packets;
  rx_packets = sub64 a.rx_packets b.rx_packets;
  tx_bytes = sub64 a.tx_bytes b.tx_bytes;
  rx_bytes = sub64 a.rx_bytes b.rx_bytes;
}
delta_counters _ _ = record { tx_packets = 0; rx_packets = 0; tx_bytes = 0; rx_bytes = 0 }

-- The tracker by its samples' RSSKB.
pub record Tracker : Type 0 where
  pub samples : List ℕ
  pub peak_rss : ℕ
  pub running : Bool

unfoldable pub new_tracker : Tracker
new_tracker = record { samples = []; peak_rss = 0; running = false }

-- The loop on the peak, whose CompareAndSwap succeeds where no other goroutine stores.
unfoldable pub raise_peak : ℕ → Tracker → Tracker
raise_peak rss t = if leb rss t.peak_rss then t else record t { peak_rss = rss }

unfoldable pub sample : ℕ → Tracker → Tracker
unfolding raise_peak
sample rss t = raise_peak rss (record t { samples = t.samples ++ rss ∷ [] })

-- Start, with the first sample.
unfoldable pub start : ℕ → Tracker → Tracker
unfolding sample
start rss t = if t.running then t else sample rss (record t { running = true })

unfoldable pub stop : Tracker → Tracker
stop t = record t { running = false }

-- A call, or a tick of a goroutine that Start launched; one may come behind Stop.
pub data Event : Type 0 where
  starts ticks : ℕ → Event
  stops : Event

unfoldable pub step : Event → Tracker → Tracker
unfolding start sample stop
step (starts rss) t = start rss t
step (ticks rss) t = sample rss t
step stops t = stop t

unfoldable pub run : List Event → Tracker → Tracker
unfolding step
run [] t = t
run (e ∷ es) t = run es (step e t)
