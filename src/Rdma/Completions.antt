-- ===== src/Rdma/Completions.antt =====
-- internal/rdma/verbs.go (PollCQ) and pkg/cq/pollfunc_real.go: from the completions of the C library
-- to those of the program. A status or an opcode is its number.
pub mod Codes
use golinker.Api.{WcStatus, WcOpcode}
use golinker.Base.{
  ℕ, zero, suc, ◌-◌, Bool, true, false, not, List, [], ◌∷◌, ◌==◌, leb, if◌then◌else◌, map, take,
}
use golinker.Errors.{Error, Result, ok, err, panic, diverge, external}
use golinker.Go.State.{Call}

-- The constants IBV_WC_* of types.go.
abbrev pub ibv_status : WcStatus → ℕ
ibv_status WcStatus.success = 0
ibv_status WcStatus.loc_len_err = 1
ibv_status WcStatus.loc_qp_op_err = 2
ibv_status WcStatus.loc_prot_err = 4
ibv_status WcStatus.wr_flush_err = 5
ibv_status WcStatus.mw_bind_err = 6
ibv_status WcStatus.bad_resp_err = 7
ibv_status WcStatus.loc_access_err = 8
ibv_status WcStatus.rem_inv_req_err = 9
ibv_status WcStatus.rem_access_err = 10
ibv_status WcStatus.rem_op_err = 11
ibv_status WcStatus.retry_exc_err = 12
ibv_status WcStatus.rnr_retry_err = 13

-- The constants ibvWC* of pollfunc_real.go.
abbrev pub ibv_opcode : WcOpcode → ℕ
ibv_opcode WcOpcode.send = 0
ibv_opcode WcOpcode.rdma_write = 1
ibv_opcode WcOpcode.rdma_read = 2
ibv_opcode WcOpcode.recv = 128
ibv_opcode WcOpcode.recv_rdma_with_imm = 129

-- The values that `iota` gives in api/rdma.go.
abbrev pub api_status : WcStatus → ℕ
api_status WcStatus.success = 0
api_status WcStatus.loc_len_err = 1
api_status WcStatus.loc_qp_op_err = 2
api_status WcStatus.loc_prot_err = 3
api_status WcStatus.wr_flush_err = 4
api_status WcStatus.mw_bind_err = 5
api_status WcStatus.bad_resp_err = 6
api_status WcStatus.loc_access_err = 7
api_status WcStatus.rem_inv_req_err = 8
api_status WcStatus.rem_access_err = 9
api_status WcStatus.rem_op_err = 10
api_status WcStatus.retry_exc_err = 11
api_status WcStatus.rnr_retry_err = 12

abbrev pub api_opcode : WcOpcode → ℕ
api_opcode WcOpcode.send = 0
api_opcode WcOpcode.rdma_write = 1
api_opcode WcOpcode.rdma_read = 2
api_opcode WcOpcode.recv = 3
api_opcode WcOpcode.recv_rdma_with_imm = 4

unfoldable pub convert_opcode : ℕ → ℕ
convert_opcode cop =
    if cop == 0
    then 0
    else if cop == 1
    then 1
    else if cop == 2
    then 2
    else if cop == 128
    then 3
    else if cop == 129
    then 4
    else cop

unfoldable pub convert_status : ℕ → ℕ
convert_status cst = if leb cst 2 then cst else if cst == 3 then 2 else cst - 1

-- ibv_wc, and WorkCompletion of types.go.
pub record CWc : Type 0 where
  pub wrid : ℕ
  pub status : ℕ
  pub opcode : ℕ
  pub byte_len : ℕ
  pub qpn : ℕ
  pub imm_data : ℕ

-- WorkCompletion of api/cq.go, with numbers for the enumerations.
pub record ApiWc : Type 0 where
  pub wrid : ℕ
  pub status : ℕ
  pub opcode : ℕ
  pub byte_len : ℕ
  pub qpn : ℕ
  pub imm : ℕ
  pub has_imm : Bool

unfoldable pub convert : CWc → ApiWc
unfolding convert_status convert_opcode
convert c = record {
  wrid = c.wrid;
  status = convert_status c.status;
  opcode = convert_opcode c.opcode;
  byte_len = c.byte_len;
  qpn = c.qpn;
  imm = c.imm_data;
  has_imm = not (c.imm_data == 0);
}

-- What golinker_poll_and_repost returns: a negative number, or how many of the entries it filled.
pub data Filled : Type 0 where
  failure : Filled
  count : ℕ → Filled

-- The branches on it, without reposts.
unfoldable pub filled : {W : Type 0} → List CWc → Filled → W → Result (List CWc) × W
filled wcs failure w = (err (external 7), w)
filled wcs (count zero) w = (ok [], w)
filled wcs (count (suc n)) w = (ok (take (suc n) wcs), w)

-- PollCQ; `&wcs[0]` panics where no entry was asked for. `poll` fills entries and says how many.
unfoldable pub poll_cq : {W : Type 0} → (ℕ → W → List CWc × Filled × W) → ℕ → Call W (List CWc)
unfolding filled
poll_cq poll zero w = (panic, w)
poll_cq poll (suc n) w = let (wcs, r, w') = poll (suc n) w in filled wcs r w'

unfoldable pub converted : {W : Type 0} → Result (List CWc) × W → Result (List ApiWc) × W
unfolding convert
converted (ok wcs, w) = (ok (map convert wcs), w)
converted (err e, w) = (err e, w)
converted (panic, w) = (panic, w)
converted (diverge, w) = (diverge, w)

-- The poll function that DefaultPollFunc returns.
unfoldable pub default_poll :
    {W : Type 0} → (ℕ → W → List CWc × Filled × W) → ℕ → Call W (List ApiWc)
unfolding converted poll_cq
default_poll poll max w = converted (poll_cq poll max w)
