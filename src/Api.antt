-- ===== src/Api.antt =====
-- The data types of api/buffer.go, api/connection.go, api/cq.go and api/rdma.go, and of the poll
-- mode in pkg/config/config.go. A pointer that the program only compares or passes on is a number.
use golinker.Base.{ℕ, Bool, Option, List}

-- `Addr` is `none` after the pool released the memory. The memory region is carried by its keys.
pub record Buffer : Type 0 where
  pub addr : Option ℕ
  pub len : ℕ
  pub lkey : ℕ
  pub rkey : ℕ
  pub pool_id : ℕ

pub record BufferPoolStats : Type 0 where
  pub total_buffers : ℕ
  pub free_buffers : ℕ
  pub in_flight_buffers : ℕ
  pub allocated_bytes : ℕ
  pub numa_node : ℕ

pub data ConnectionState : Type 0 where
  init connecting connected draining closed error : ConnectionState

-- A posted message: the buffer that it stands in, and how many of its bytes count.
pub record Message : Type 0 where
  pub buffer : Option Buffer
  pub len : ℕ
  pub flags : ℕ
  pub imm_data : ℕ

pub data WcStatus : Type 0 where
  success loc_len_err loc_qp_op_err loc_prot_err wr_flush_err mw_bind_err bad_resp_err : WcStatus
  loc_access_err rem_inv_req_err rem_access_err rem_op_err retry_exc_err rnr_retry_err : WcStatus

pub data WcOpcode : Type 0 where
  send rdma_write rdma_read recv recv_rdma_with_imm : WcOpcode

pub record WorkCompletion : Type 0 where
  pub wrid : ℕ
  pub status : WcStatus
  pub opcode : WcOpcode
  pub byte_len : ℕ
  pub qpn : ℕ
  pub imm : ℕ
  pub has_imm : Bool

pub record CqPollerStats : Type 0 where
  pub poll_cycles : ℕ
  pub completions : ℕ
  pub empty_polls : ℕ
  pub errors : ℕ

pub record Sge : Type 0 where
  pub addr : ℕ
  pub len : ℕ
  pub lkey : ℕ

pub record SendWr : Type 0 where
  pub wrid : ℕ
  pub sg_list : List Sge
  pub opcode : ℕ
  pub send_flags : ℕ
  pub imm_data : ℕ

pub record RecvWr : Type 0 where
  pub wrid : ℕ
  pub sg_list : List Sge

pub data CmEventType : Type 0 where
  addr_resolved route_resolved connect_request established disconnected rejected : CmEventType
  device_removal : CmEventType

-- `id` is the rdma_cm_id of the event.
pub record CmEvent : Type 0 where
  pub type : CmEventType
  pub id : ℕ
  pub private_data : List ℕ

pub data PollMode : Type 0 where
  busy event smart user : PollMode

-- `1 << 0`, IBV_SEND_SIGNALED.
abbrev pub send_signaled : ℕ
send_signaled = 1
