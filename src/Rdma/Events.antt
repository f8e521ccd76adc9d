-- ===== src/Rdma/Events.antt =====
-- internal/rdma/real_cm.go and cm.go: getCMEvent, GetEvent, AckEvent and Disconnect, over the C calls.
pub mod Wait
use golinker.Base.{ℕ, zero, suc, Bool, true, false, if◌then◌else◌}
use golinker.Errors.{Error, Result, ok, err, diverge, context_done, external}
use golinker.Go.State.{Call}
use golinker.Rdma.Ledger.{CmType, type_code}

-- The values of rdma_cm_event_type for which mapCMEventType has a case, and any other.
pub data RdmaCmEvent : Type 0 where
  addr_resolved route_resolved connect_request established disconnected rejected : RdmaCmEvent
  device_removal addr_error route_error connect_error unreachable timewait_exit : RdmaCmEvent
  addr_change multicast_join multicast_error other : RdmaCmEvent

unfoldable pub map_cm_event_type : RdmaCmEvent → CmType
map_cm_event_type addr_resolved = CmType.addr_resolved
map_cm_event_type route_resolved = CmType.route_resolved
map_cm_event_type connect_request = CmType.connect_request
map_cm_event_type established = CmType.established
map_cm_event_type disconnected = CmType.disconnected
map_cm_event_type rejected = CmType.rejected
map_cm_event_type device_removal = CmType.device_removal
map_cm_event_type addr_error = CmType.addr_error
map_cm_event_type route_error = CmType.route_error
map_cm_event_type connect_error = CmType.connect_error
map_cm_event_type unreachable = CmType.unreachable
map_cm_event_type timewait_exit = CmType.timewait_exit
map_cm_event_type addr_change = CmType.addr_change
map_cm_event_type multicast_join = CmType.multicast_join
map_cm_event_type multicast_error = CmType.multicast_error
map_cm_event_type other = CmType.unknown

-- rdma_cm_event: its type, its id and where it lies.
pub record RawEvent : Type 0 where
  pub event : RdmaCmEvent
  pub id : ℕ
  pub at : ℕ

-- CMEvent of api/rdma.go, its type as a number, since `api.CMEventType(...)` converts any.
pub record CmEvent : Type 0 where
  pub type : ℕ
  pub id : ℕ
  pub opaque : ℕ

-- What golinker_get_cm_event_timeout returns: 0 and an event, 1, or another number.
pub data Answer : Type 0 where
  got : RawEvent → Answer
  timeout failed : Answer

-- The end of the context, and the C calls; those that return a number by whether it is zero.
pub record CmLib (W : Type 0) : Type 0 where
  pub cancelled : W → Bool
  pub poll : W → Answer × W
  pub ack : ℕ → W → Bool × W
  pub disconnect : ℕ → W → Bool × W

abbrev pub answered : {W : Type 0} → Call W RawEvent → Answer × W → Result RawEvent × W
answered rest (got e, w) = (ok e, w)
answered rest (timeout, w) = rest w
answered rest (failed, w) = (err (external 20), w)

abbrev pub checked : {W : Type 0} → ℕ → Bool × W → Result (Unit {0}) × W
checked e (true, w) = (ok tt, w)
checked e (false, w) = (err (external e), w)

abbrev pub mapped : {W : Type 0} → Result RawEvent × W → Result CmEvent × W
unfolding map_cm_event_type
mapped (ok e, w) =
    (ok (record { type = type_code (map_cm_event_type e.event); id = e.id; opaque = e.at }), w)
mapped (err x, w) = (err x, w)
mapped (Result.panic, w) = (Result.panic, w)
mapped (diverge, w) = (diverge, w)

module _ {W : Type 0} (lib : CmLib W) where
  -- getCMEvent, with a bound on its polls.
  unfoldable pub get_cm_event : ℕ → Call W RawEvent
  get_cm_event zero w = (diverge, w)
  get_cm_event (suc fuel) w =
      let rest : Call W RawEvent = get_cm_event fuel in
      if lib.cancelled w then (err context_done, w) else answered rest (lib.poll w)

  -- RealCMEventChannel.GetEvent.
  unfoldable pub get_event : ℕ → Call W CmEvent
  unfolding get_cm_event
  get_event fuel w = mapped (get_cm_event fuel w)

  -- RealCMEventChannel.AckEvent.
  unfoldable pub ack_event : CmEvent → Call W (Unit {0})
  ack_event e w = checked 21 (lib.ack e.opaque w)

  -- RealCMDialer.Disconnect.
  unfoldable pub disconnect : ℕ → Call W (Unit {0})
  disconnect id w = checked 22 (lib.disconnect id w)
