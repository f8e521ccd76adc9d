-- ===== src/Rdma/Verbs/Queue.antt =====
-- internal/rdma/real_verbs.go: a queue pair, RealQP, and what is posted on it.
use golinker.Api.{Sge, SendWr, RecvWr}
use golinker.Base.{
  ℕ, ◌^◌, ◌%◌, Bool, true, false, not, Option, none, some, List, [], ◌∷◌, ◌==◌, if◌then◌else◌,
  length,
}
use golinker.Errors.{Result, ok, err, external}
use golinker.Go.State.{Call}

-- QueuePairState of api/rdma.go; the code sets the first four.
pub data QpState : Type 0 where
  reset init rtr rts sqd sq_err err_state : QpState

-- The bits of attr_mask that the code names.
pub data AttrMask : Type 0 where
  state pkey_index port access_flags av path_mtu dest_qpn rq_psn max_dest_rd_atomic : AttrMask
  min_rnr_timer timeout retry_cnt rnr_retry sq_psn max_qp_rd_atomic : AttrMask

-- The bits of qp_access_flags that it names.
pub data Access : Type 0 where
  local_write remote_write remote_read : Access

-- The global route of an address: the destination's GID, and the hop limit.
pub record Route : Type 0 where
  pub dgid : List ℕ
  pub hop_limit : ℕ

-- The fields of ibv_qp_attr that are set to other than zero; `mtu` in bytes, and `route` is none where
-- is_global is 0.
pub record QpAttr : Type 0 where
  pub qp_state : QpState
  pub port_num : ℕ
  pub access : List Access
  pub mtu : ℕ
  pub dest_qp_num : ℕ
  pub dlid : ℕ
  pub route : Option Route
  pub max_dest_rd_atomic : ℕ
  pub min_rnr_timer : ℕ
  pub timeout : ℕ
  pub retry_cnt : ℕ
  pub rnr_retry : ℕ
  pub max_rd_atomic : ℕ

abbrev pub zeroed : QpState → QpAttr
zeroed s = record {
  qp_state = s;
  port_num = 0;
  access = [];
  mtu = 0;
  dest_qp_num = 0;
  dlid = 0;
  route = none;
  max_dest_rd_atomic = 0;
  min_rnr_timer = 0;
  timeout = 0;
  retry_cnt = 0;
  rnr_retry = 0;
  max_rd_atomic = 0;
}

abbrev pub init_attr : QpAttr
init_attr = record (zeroed init) {
  port_num = 1;
  access = local_write ∷ remote_write ∷ remote_read ∷ [];
}

abbrev pub init_mask : List AttrMask
init_mask = state ∷ pkey_index ∷ port ∷ access_flags ∷ []

unfoldable pub has_gid : List ℕ → Bool
has_gid [] = false
has_gid (b ∷ bs) = if not (b == 0) then true else has_gid bs

abbrev pub gid_route : List ℕ → Option Route
unfolding has_gid
gid_route gid = if has_gid gid then some (record { dgid = gid; hop_limit = 64 }) else none

abbrev pub rtr_attr : ℕ → ℕ → List ℕ → QpAttr
rtr_attr qpn lid gid = record (zeroed rtr) {
  dest_qp_num = qpn;
  dlid = lid;
  mtu = 4096;
  port_num = 1;
  route = gid_route gid;
  max_dest_rd_atomic = 1;
  min_rnr_timer = 12;
}

abbrev pub rtr_mask : List AttrMask
rtr_mask =
    state ∷ av ∷ path_mtu ∷ dest_qpn ∷ rq_psn ∷ AttrMask.max_dest_rd_atomic ∷ AttrMask.min_rnr_timer
    ∷ []

abbrev pub rts_attr : QpAttr
rts_attr = record (zeroed rts) { timeout = 14; retry_cnt = 7; rnr_retry = 7; max_rd_atomic = 1 }

abbrev pub rts_mask : List AttrMask
rts_mask =
    state ∷ AttrMask.timeout ∷ AttrMask.retry_cnt ∷ AttrMask.rnr_retry ∷ sq_psn ∷ max_qp_rd_atomic
    ∷ []

-- The work requests of the C library: num_sge beside the list, and sg_list NULL where it is empty.
pub record CSendWr : Type 0 where
  pub wr_id : ℕ
  pub sg_list : Option (List Sge)
  pub num_sge : ℕ
  pub opcode : ℕ
  pub send_flags : ℕ
  pub imm_data : ℕ

pub record CRecvWr : Type 0 where
  pub wr_id : ℕ
  pub sg_list : Option (List Sge)
  pub num_sge : ℕ

-- RealQP, and the device's own state.
pub record RealQp (W : Type 0) : Type 0 where
  pub qp : ℕ
  pub state : QpState
  pub world : W

-- ibv_modify_qp, ibv_post_send and ibv_post_recv; whether each returned zero.
pub record QpLib (W : Type 0) : Type 0 where
  pub modify_qp : ℕ → QpAttr → List AttrMask → W → Bool × W
  pub post_send : ℕ → CSendWr → W → Bool × W
  pub post_recv : ℕ → CRecvWr → W → Bool × W

abbrev pub list_or_null : List Sge → Option (List Sge)
list_or_null [] = none
list_or_null (s ∷ ss) = some (s ∷ ss)

abbrev pub c_send_wr : SendWr → CSendWr
c_send_wr wr = record {
  wr_id = wr.wrid;
  sg_list = list_or_null wr.sg_list;
  num_sge = length wr.sg_list;
  opcode = wr.opcode % 2 ^ 32;
  send_flags = wr.send_flags % 2 ^ 32;
  imm_data = wr.imm_data;
}

abbrev pub c_recv_wr : RecvWr → CRecvWr
c_recv_wr wr = record {
  wr_id = wr.wrid;
  sg_list = list_or_null wr.sg_list;
  num_sge = length wr.sg_list;
}

unfoldable pub modified :
    {W : Type 0} → RealQp W → QpState → Bool × W → Result (Unit {0}) × RealQp W
modified q s (true, w) = (ok tt, record q { state = s; world = w })
modified q s (false, w) = (err (external 18), record q { world = w })

abbrev pub posted : {W : Type 0} → RealQp W → Bool × W → Result (Unit {0}) × RealQp W
posted q (true, w) = (ok tt, record q { world = w })
posted q (false, w) = (err (external 19), record q { world = w })

module _ {W : Type 0} (lib : QpLib W) where
  -- RealQP.ModifyToInit.
  unfoldable pub modify_to_init : Call (RealQp W) (Unit {0})
  unfolding modified
  modify_to_init q = modified q init (lib.modify_qp q.qp init_attr init_mask q.world)

  -- RealQP.ModifyToRTR.
  unfoldable pub modify_to_rtr : ℕ → ℕ → List ℕ → Call (RealQp W) (Unit {0})
  unfolding modified
  modify_to_rtr qpn lid gid q =
      modified q rtr (lib.modify_qp q.qp (rtr_attr qpn lid gid) rtr_mask q.world)

  -- RealQP.ModifyToRTS.
  unfoldable pub modify_to_rts : Call (RealQp W) (Unit {0})
  unfolding modified
  modify_to_rts q = modified q rts (lib.modify_qp q.qp rts_attr rts_mask q.world)

  -- RealVerbs.PostSend.
  unfoldable pub post_send : SendWr → Call (RealQp W) (Unit {0})
  post_send wr q = posted q (lib.post_send q.qp (c_send_wr wr) q.world)

  -- RealVerbs.PostRecv.
  unfoldable pub post_recv : RecvWr → Call (RealQp W) (Unit {0})
  post_recv wr q = posted q (lib.post_recv q.qp (c_recv_wr wr) q.world)
