-- ===== src/Tests/Clients.antt =====
-- cmd/golinker-bench/client.go and comparison.go at concrete inputs.
use golinker.Base.{
  ℕ, ◌+◌, ◌-◌, ◌*◌, ◌/◌, ltb, ◌&&◌, not, refl, true, false, Bool, List, [], ◌∷◌, ◌==◌,
  if◌then◌else◌,
}
use golinker.Bench.Client.{Client, Bench, ping_pong, run_end_to_end}
use golinker.Bench.Client.Balance.{Ended, ping_pong-Ended}
use golinker.Bench.Client.Release.{Released, run_end_to_end-Released}
use golinker.Bench.Compare.{Metrics}
use golinker.Go.Float.{Float64}
use golinker.Errors.{Result, ok, err, external}
use golinker.Tests.Echoes.{Line, line}

-- The context is done once three messages were answered.
abbrev bench : Bench Line
bench = record { ctx_done = λ w. is_short w.coming; wait = λ w. w; record_latency = λ w. w }
  where
    is_short : List (List ℕ) → Bool
    is_short [] = true
    is_short (m ∷ ms) = false

abbrev fresh : Client Line
fresh = record {
  msgs_sent = 0;
  msgs_recv = 0;
  errors = 0;
  recv_buf = 0 ∷ 0 ∷ 0 ∷ 0 ∷ [];
  world = record {
    coming = (1 ∷ 2 ∷ []) ∷ (1 ∷ 2 ∷ []) ∷ [];
    answered = [];
    recv_bytes = [];
    send_bytes = [];
  };
}

ping_pong-Ended_example : Ended 0 (ping_pong line bench 4096 1 (1 ∷ 2 ∷ []) 5 fresh)
ping_pong-Ended_example =
    ping_pong-Ended line bench 4096 1 (1 ∷ 2 ∷ []) 0 5 fresh (record { even = refl; same = refl })

-- The third dial fails.
abbrev third_fails : ℕ → Result ℕ × ℕ
third_fails n = if n == 2 then (err (external 0), 2) else (ok n, n + 1)

run_end_to_end-Released_example :
    Released third_fails
      (λ c w. w)
      (run_end_to_end third_fails
        (λ c w. w)
        (λ cs w. (ok tt, w))
        4
        (record { opened = []; closed = []; world = 0 }))
run_end_to_end-Released_example =
    run_end_to_end-Released third_fails (λ c w. w) (λ cs w. (ok tt, w)) 4 0

-- A float64 with three decimals: the difference of a pair of thousandths.
abbrev Fixed : Type 0
Fixed = ℕ × ℕ

abbrev plus : Fixed → Fixed → Fixed
plus (a, b) (c, d) = (a + c, b + d)

abbrev minus : Fixed → Fixed
minus (a, b) = (b, a)

abbrev times : Fixed → Fixed → Fixed
times (a, b) (c, d) = ((a * c + b * d) / 1000, (a * d + b * c) / 1000)

-- The quotient by a number that is positive.
abbrev over : Fixed → Fixed → Fixed
over (a, b) (c, d) = (a * 1000 / (c - d), b * 1000 / (c - d))

abbrev size : Fixed → Fixed
size (a, b) = ((a - b) + (b - a), 0)

abbrev below : Fixed → Fixed → Bool
below (a, b) (c, d) = ltb (a + d) (c + b)

abbrev fixed : Float64 Fixed
fixed = record {
  of_nat = λ n. (n * 1000, 0);
  add = plus;
  sub = λ x y. plus x (minus y);
  mul = times;
  div = over;
  abs = size;
  neg = minus;
  lt = below;
  le = λ x y. not (below y x);
  eq = λ x y. not (below x y) && not (below y x);
  six_tenths = (600, 0);
  trunc = λ x. (x.0 - x.1) / 1000;
}

abbrev number : ℕ → Fixed
number n = (n * 1000, 0)

abbrev slow : Metrics Fixed
slow = record {
  p50 = number 100;
  p99 = number 200;
  p999 = number 300;
  messages_per_sec = number 1000;
  cpu_percent = number 50;
  rss_mb = number 0;
}

abbrev quick : Metrics Fixed
quick = record slow { p50 = number 20 }
