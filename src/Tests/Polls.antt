-- ===== src/Tests/Polls.antt =====
-- pkg/cq/pollfunc_real.go at concrete inputs: an array of four entries, of which two are filled.
use golinker.Api.{WcStatus, WcOpcode, WorkCompletion}
use golinker.Base.{ℕ, ◌≡◌, refl, true, List, [], ◌∷◌, ◌++◌, map, arith}
use golinker.Errors.{ok}
use golinker.Rdma.Completions.{CWc, Filled, count, default_poll}
use golinker.Rdma.Completions.Codes.{reported, expected, default_poll-reports}

abbrev received : WorkCompletion
received = record {
  wrid = 4;
  status = WcStatus.success;
  opcode = WcOpcode.recv_rdma_with_imm;
  byte_len = 64;
  qpn = 9;
  imm = 1;
  has_imm = true;
}

abbrev flushed : WorkCompletion
flushed = record received {
  wrid = 5;
  status = WcStatus.wr_flush_err;
  opcode = WcOpcode.send;
  imm = 0;
}

abbrev both : List WorkCompletion
both = received ∷ flushed ∷ []

abbrev blank : CWc
blank = record { wrid = 0; status = 0; opcode = 0; byte_len = 0; qpn = 0; imm_data = 0 }

abbrev fill : ℕ → ℕ → List CWc × Filled × ℕ
fill n w = (map reported both ++ blank ∷ blank ∷ [], count 2, w)

default_poll-reports_example : default_poll fill 4 0 ≡ (ok (map expected both), 0)
default_poll-reports_example =
    default_poll-reports fill 4 both (blank ∷ blank ∷ []) 0 0 (omega arith) refl
