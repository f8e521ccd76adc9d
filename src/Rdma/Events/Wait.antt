-- ===== src/Rdma/Events/Wait.antt =====
-- internal/rdma/real_cm.go: GetEvent returns, and every event that it took can be acknowledged.
use golinker.Api.{CmEventType}
use golinker.Base.{ℕ, zero, suc, ◌<◌, ◌≡◌, ◌↔◌, refl, true, false, arith, Bool-cases, inl, inr}
use golinker.Errors.{Result, ok, err, panic, diverge}
use golinker.Rdma.Ledger.{type_code}
use golinker.Rdma.Events.{
  RdmaCmEvent, map_cm_event_type, RawEvent, Answer, got, timeout, failed, CmLib, answered, mapped,
  get_cm_event, get_event,
}

-- A poll that times out has used up some of what is left of the context, `left`, and the events that
-- are not acknowledged are one more exactly where a poll gives one.
abbrev pub Polled : {W : Type 0} → (W → ℕ) → (W → ℕ) → W → Answer × W → Type 0
Polled left unacked w (got e, v) = unacked v ≡ suc (unacked w)
Polled left unacked w (timeout, v) = (left v < left w) × (unacked v ≡ unacked w)
Polled left unacked w (failed, v) = unacked v ≡ unacked w

pub record CmLaws {W : Type 0} (lib : CmLib W) (left unacked : W → ℕ) : Type 0 where
  pub ends : (w : W) → left w ≡ 0 → lib.cancelled w ≡ true
  pub polls : (w : W) → lib.cancelled w ≡ false → Polled left unacked w (lib.poll w)

-- An event that is to be acknowledged, or an error and none.
abbrev pub Taken : {W A : Type 0} → (W → ℕ) → W → Result A × W → Type 0
Taken unacked w (ok e, v) = unacked v ≡ suc (unacked w)
Taken unacked w (err x, v) = unacked v ≡ unacked w
Taken unacked w (panic, v) = ⊥
Taken unacked w (diverge, v) = ⊥

module _ {W : Type 0} (lib : CmLib W) (left unacked : W → ℕ) where
  get_cm_event-Taken :
      CmLaws lib left unacked
      → (fuel : ℕ) (w : W) → left w < fuel
      → Taken unacked w (get_cm_event lib fuel w)
  unfolding get_cm_event
  get_cm_event-Taken laws zero w h = absurd (omega (arith, h))
  get_cm_event-Taken laws (suc fuel) w h = elim (Bool-cases (lib.cancelled w)) [
    | inl c ↦ rw c refl
    | inr c ↦ rw c (go (get_cm_event-Taken laws fuel) (lib.poll w) (laws.polls w c))
  ]
    where
      weaken :
          (v : W)
          → unacked v ≡ unacked w
          → (r : Result RawEvent × W) → Taken unacked v r
          → Taken unacked w r
      weaken v e (ok x, u) t = omega (arith, t, e)
      weaken v e (err x, u) t = omega (arith, t, e)
      weaken v e (panic, u) t = t
      weaken v e (diverge, u) t = t

      go :
          ((v : W) → left v < fuel → Taken unacked v (get_cm_event lib fuel v))
          → (q : Answer × W) → Polled left unacked w q
          → Taken unacked w (answered (get_cm_event lib fuel) q)
      go ih (got e, v) p = p
      go ih (timeout, v) (l, k) = weaken v k _ (ih v (omega (arith, l, h)))
      go ih (failed, v) p = p

-- GetEvent under a context that ends: it returns within as many polls as the context has left and one,
-- with an event that is then to be acknowledged, or with an error and no event taken.
pub get_event-Taken :
    {W : Type 0} (lib : CmLib W) (left unacked : W → ℕ)
    → CmLaws lib left unacked
    → (fuel : ℕ) (w : W) → left w < fuel
    → Taken unacked w (get_event lib fuel w)
unfolding get_event mapped
get_event-Taken lib left unacked laws fuel w h =
    go (get_cm_event lib fuel w) (get_cm_event-Taken lib left unacked laws fuel w h)
  where
    go : (r : Result RawEvent × _) → Taken unacked w r → Taken unacked w (mapped r)
    go (ok e, v) t = t
    go (err x, v) t = t
    go (panic, v) t = elim t [ ]
    go (diverge, v) t = elim t [ ]

-- The values of `iota` in api/rdma.go, and the C event of each.
abbrev pub api_code : CmEventType → ℕ
api_code CmEventType.addr_resolved = 0
api_code CmEventType.route_resolved = 1
api_code CmEventType.connect_request = 2
api_code CmEventType.established = 3
api_code CmEventType.disconnected = 4
api_code CmEventType.rejected = 5
api_code CmEventType.device_removal = 6

abbrev pub raw : CmEventType → RdmaCmEvent
raw CmEventType.addr_resolved = RdmaCmEvent.addr_resolved
raw CmEventType.route_resolved = RdmaCmEvent.route_resolved
raw CmEventType.connect_request = RdmaCmEvent.connect_request
raw CmEventType.established = RdmaCmEvent.established
raw CmEventType.disconnected = RdmaCmEvent.disconnected
raw CmEventType.rejected = RdmaCmEvent.rejected
raw CmEventType.device_removal = RdmaCmEvent.device_removal

-- The type of an event names one of api/rdma.go exactly where the C library's event is that one: no
-- error event passes for another.
pub map_cm_event_type_iff :
    (e : RdmaCmEvent) (t : CmEventType)
    → (type_code (map_cm_event_type e) ≡ api_code t) ↔ (e ≡ raw t)
unfolding map_cm_event_type
map_cm_event_type_iff e t = ground arith
