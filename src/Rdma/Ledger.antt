-- ===== src/Rdma/Ledger.antt =====
-- internal/rdma: the calls of librdmacm, libibverbs and libc, which are parameters over a state `W`,
-- and the record of what was taken and for what a cleanup function was called.
use golinker.Base.{ℕ, Bool, Option, none, some, List, [], ◌∷◌, ◌++◌, ◌==◌, if◌then◌else◌}
use golinker.Errors.{Error, external}
use golinker.Go.State.{Call, ◌>>◌, return, fail, modify}

-- What one connection holds.
pub data Resource : Type 0 where
  channel cm_id pd send_cq recv_cq qp send_buf recv_buf send_mr recv_mr : Resource

-- QueuePairConfig of api/rdma.go.
pub record QpConfig : Type 0 where
  pub max_send_wr : ℕ
  pub max_recv_wr : ℕ
  pub max_send_sge : ℕ
  pub max_recv_sge : ℕ
  pub max_inline_data : ℕ
  pub sq_sig_all : Bool

-- A C call that can fail, with the capacity of a completion queue and the limits of a QP.
pub data Op : Type 0 where
  create_channel create_id bind_addr listen resolve_addr resolve_route connect accept : Op
  alloc_pd : Op
  create_send_cq create_recv_cq : ℕ → Op
  create_qp : QpConfig → Op
  malloc_send malloc_recv reg_send reg_recv post_recv : Op

pub data Action : Type 0 where
  took cleanup_called : Resource → Action

-- CMEventType of cm.go.
pub data CmType : Type 0 where
  addr_resolved route_resolved connect_request established disconnected rejected : CmType
  device_removal addr_error route_error connect_error unreachable timewait_exit : CmType
  addr_change multicast_join multicast_error unknown : CmType

-- The value that `iota` gives.
abbrev pub type_code : CmType → ℕ
type_code addr_resolved = 0
type_code route_resolved = 1
type_code connect_request = 2
type_code established = 3
type_code disconnected = 4
type_code rejected = 5
type_code device_removal = 6
type_code addr_error = 7
type_code route_error = 8
type_code connect_error = 9
type_code unreachable = 10
type_code timewait_exit = 11
type_code addr_change = 12
type_code multicast_join = 13
type_code multicast_error = 14
type_code unknown = 15

-- The libraries: a call that succeeds or fails, and getCMEvent, which yields the next event or an
-- error.
pub record Lib (W : Type 0) : Type 0 where
  pub run : Op → W → Bool × W
  pub next_event : W → Option CmType × W

-- The log, and the ids and channels that the dialer keeps for its Close.
pub record Fabric (W : Type 0) : Type 0 where
  pub log : List Action
  pub ids : ℕ
  pub channels : ℕ
  pub world : W

-- The error of a failed call.
abbrev pub op_error : Op → Error
op_error op = external 1

abbrev pub event_error : Error
event_error = external 2

module _ {W : Type 0} where
  unfoldable pub record_action : Action → Fabric W → Fabric W
  record_action a f = record f { log = f.log ++ a ∷ [] }

  -- The cleanup calls of an error path, in their order. The source looks at no result of them, and
  -- the log says that the call was made, not that the library carried it out.
  unfoldable pub call_cleanups : List Resource → Fabric W → Fabric W
  unfolding record_action
  call_cleanups [] f = f
  call_cleanups (r ∷ rs) f = call_cleanups rs (record_action (cleanup_called r) f)

module _ {W : Type 0} (lib : Lib W) where
  -- A call with its error path.
  unfoldable pub attempt_op : Op → List Resource → Call (Fabric W) (Unit {0})
  unfolding call_cleanups
  attempt_op op undo f =
      let (done, w) = lib.run op f.world in
      let after : Fabric W = record f { world = w } in
      if done then return tt after else fail (op_error op) (call_cleanups undo after)

  -- A call that takes a resource.
  unfoldable pub acquire : Op → Resource → List Resource → Call (Fabric W) (Unit {0})
  unfolding attempt_op record_action
  acquire op r undo = do attempt_op op undo; modify (record_action (took r))

  -- The branches on an event: it is acknowledged, and must have the expected type.
  unfoldable pub expected : CmType → List Resource → Option CmType → Call (Fabric W) (Unit {0})
  unfolding call_cleanups
  expected t undo none f = fail event_error (call_cleanups undo f)
  expected t undo (some e) f =
      if type_code e == type_code t then return tt f else fail event_error (call_cleanups undo f)

  unfoldable pub await_event : CmType → List Resource → Call (Fabric W) (Unit {0})
  unfolding expected
  await_event t undo f =
      let (e, w) = lib.next_event f.world in expected t undo e (record f { world = w })
