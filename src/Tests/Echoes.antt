-- ===== src/Tests/Echoes.antt =====
-- cmd/golinker-bench/server.go at concrete inputs: a peer that sends two messages.
use golinker.Base.{
  ℕ, suc, ◌≡◌, refl, ap, Bool, true, false, List, [], ◌∷◌, ◌++◌, length, take, arith,
}
use golinker.Rdma.DataPath.{Polled, nothing, completed, Nic}
use golinker.Rdma.Echo.{Echo, echo_loop}
use golinker.Rdma.Echo.Answers.{NicLaws, echo_loop-echoes}

-- Every completion comes at the first poll.
pub record Line : Type 0 where
  pub coming : List (List ℕ)
  pub answered : List (List ℕ)
  pub recv_bytes : List ℕ
  pub send_bytes : List ℕ

abbrev next_message : List (List ℕ) → Line → Polled × Line
next_message [] w = (nothing, w)
next_message (m ∷ ms) w = (completed true (length m), record w { coming = ms; recv_bytes = m })

abbrev pub line : Nic Line
line = record {
  recv_mem = λ w. w.recv_bytes;
  write_send = λ bytes w. record w { send_bytes = bytes };
  post_recv = λ n w. (true, w);
  post_send = λ n w. (true, record w { answered = w.answered ++ take n w.send_bytes ∷ [] });
  poll_recv = λ w. next_message w.coming w;
  poll_send = λ w. (completed true 0, w);
}

abbrev is_empty : List (List ℕ) → Bool
is_empty [] = true
is_empty (m ∷ ms) = false

take_all : (m : List ℕ) → take (length m) m ≡ m
take_all [] = refl
take_all (x ∷ m) = ap (λ l. x ∷ l) (take_all m)

not_idle : (n : ℕ) → 0 ≡ suc n → ⊥
not_idle n h = cc

abbrev line_laws : NicLaws line (λ w. is_empty w.coming) 0
line_laws = record {
  boxes = λ w. (w.coming, w.answered);
  send_mem = λ w. w.send_bytes;
  idle_recv = λ w. 0;
  idle_send = λ w. 0;
  patient_recv = λ w. omega arith;
  patient_send = λ w. omega arith;
  continues = λ m ms w h. rw h refl;
  recv_waits = λ n w h. absurd (not_idle n h);
  recv_comes = λ m ms out w i b. (
    record w { coming = ms; recv_bytes = m },
    rw (ap (λ q. q.0) b) refl,
    take_all m,
    ap (λ q. (ms, q.1)) b,
  );
  post_recv = λ n w. (w, refl, refl, refl);
  copies = λ bytes w. (take_all bytes, refl);
  post_send = λ n w. (record w { answered = w.answered ++ take n w.send_bytes ∷ [] }, refl, refl);
  send_waits = λ n w h. absurd (not_idle n h);
  send_ends = λ w i. (w, 0, refl, refl);
}

abbrev two : Echo Line
two = record {
  stats = record {
    messages_received = 0;
    messages_sent = 0;
    bytes_received = 0;
    bytes_sent = 0;
    errors = 0;
  };
  world = record {
    coming = (1 ∷ 2 ∷ []) ∷ (3 ∷ []) ∷ [];
    answered = [];
    recv_bytes = [];
    send_bytes = [];
  };
}

echo_loop-echoes_example :
    (e : Echo Line) × (echo_loop line 4096 1 (λ w. is_empty w.coming) 3 two
      ≡ echo_loop line 4096 1 (λ w. is_empty w.coming) 1 e)
    × (line_laws.boxes e.world ≡ ([], (1 ∷ 2 ∷ []) ∷ (3 ∷ []) ∷ []))
    × (e.stats.errors ≡ 0)
echo_loop-echoes_example =
    echo_loop-echoes line (λ w. is_empty w.coming) 0 4096 line_laws 1 1
      ((1 ∷ 2 ∷ []) ∷ (3 ∷ []) ∷ []) [] two (omega arith) (omega arith)
      (omega arith, (omega arith, tt)) refl
