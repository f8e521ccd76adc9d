-- ===== src/Rdma/Completions/Codes.antt =====
-- pkg/cq/pollfunc_real.go: the completions arrive as the device reported them.
use golinker.Api.{WcStatus, WcOpcode, WorkCompletion}
use golinker.Base.{
  ℕ, zero, suc, ◌<◌, ◌≡◌, ◌↔◌, refl, ap, not, List, [], ◌∷◌, ◌++◌, ◌==◌, map, take, length, arith,
}
use golinker.Errors.{ok}
use golinker.Rdma.Completions.{
  ibv_status, ibv_opcode, api_status, api_opcode, convert_opcode, convert_status, CWc, ApiWc,
  convert, Filled, count, filled, poll_cq, converted, default_poll,
}

status_back : (s : WcStatus) → convert_status (ibv_status s) ≡ api_status s
unfolding convert_status
status_back s = ground arith

opcode_back : (o : WcOpcode) → convert_opcode (ibv_opcode o) ≡ api_opcode o
unfolding convert_opcode
opcode_back o = ground arith

-- No failure passes for a success: convertStatus yields success for IBV_WC_SUCCESS only, also among
-- the numbers that have no name.
pub convert_status_iff : (n : ℕ) → (convert_status n ≡ api_status WcStatus.success) ↔ (n ≡ 0)
unfolding convert_status
convert_status_iff n = ground arith

-- An opcode that has no name keeps its number, and is then taken for another: IBV_WC_COMP_SWAP,
-- which is 3, for a receive.
pub convert_opcode_collides : convert_opcode 3 ≡ api_opcode WcOpcode.recv
unfolding convert_opcode
convert_opcode_collides = refl

-- The device's report of a completion, and the completion that the program is to get; it has an
-- immediate only where this is not zero.
abbrev pub reported : WorkCompletion → CWc
reported wc = record {
  wrid = wc.wrid;
  status = ibv_status wc.status;
  opcode = ibv_opcode wc.opcode;
  byte_len = wc.byte_len;
  qpn = wc.qpn;
  imm_data = wc.imm;
}

abbrev pub expected : WorkCompletion → ApiWc
expected wc = record {
  wrid = wc.wrid;
  status = api_status wc.status;
  opcode = api_opcode wc.opcode;
  byte_len = wc.byte_len;
  qpn = wc.qpn;
  imm = wc.imm;
  has_imm = not (wc.imm == 0);
}

convert-reported : (wc : WorkCompletion) → convert (reported wc) ≡ expected wc
unfolding convert
convert-reported wc = rw (status_back wc.status, opcode_back wc.opcode) refl

converts : (wcs : List WorkCompletion) → map convert (map reported wcs) ≡ map expected wcs
converts [] = refl
converts (wc ∷ wcs) = rw (convert-reported wc, converts wcs) refl

take-reported :
    (wcs : List WorkCompletion) (rest : List CWc)
    → take (length wcs) (map reported wcs ++ rest) ≡ map reported wcs
take-reported [] rest = refl
take-reported (wc ∷ wcs) rest = ap (λ l. reported wc ∷ l) (take-reported wcs rest)

filled-reported :
    {W : Type 0} (wcs : List WorkCompletion) (rest : List CWc) (w : W)
    → filled (map reported wcs ++ rest) (count (length wcs)) w ≡ (ok (map reported wcs), w)
unfolding filled
filled-reported [] rest w = refl
filled-reported (wc ∷ wcs) rest w = rw (take-reported wcs rest) refl

-- Where the C call fills its array with the reports of some completions, and says how many they are,
-- the poll function yields these completions in order, each with its status, opcode, length, queue
-- pair and immediate, and nothing of the rest of the array.
pub default_poll-reports :
    {W : Type 0}
    → (poll : ℕ → W → List CWc × Filled × W) (max : ℕ) (wcs : List WorkCompletion) (rest : List CWc)
      (w v : W)
    → 0 < max
    → ◌≡◌ {A = List CWc × Filled × W} (poll max w) (map reported wcs ++ rest, count (length wcs), v)
    → default_poll poll max w ≡ (ok (map expected wcs), v)
unfolding default_poll converted poll_cq
default_poll-reports poll zero wcs rest w v pos h = absurd (omega (arith, pos))
default_poll-reports poll (suc n) wcs rest w v pos h =
    rw (h, filled-reported wcs rest v, converts wcs) refl
