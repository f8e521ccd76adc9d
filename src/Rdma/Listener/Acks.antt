-- ===== src/Rdma/Listener/Acks.antt =====
-- internal/rdma/listener.go: Accept acknowledges the events that it takes.
use golinker.Api.{
  CmEvent, CmEventType, addr_resolved, route_resolved, connect_request, established, disconnected,
  rejected, device_removal,
}
use golinker.Base.{ℕ, zero, suc, ◌-◌, ◌≤◌, ◌≡◌, ◌∙◌, Option, none, some, arith}
use golinker.Errors.{Result, ok, err, panic, diverge}
use golinker.Go.Dict.{lookup, delete}
use golinker.Go.State.{Call, and_then, attempted, put_back}
use golinker.Rdma.Listener.{
  Channel, Listener, accept, on_event, on_channel, requested, completed, ack,
}
use mathlib.Core.Path.{subst}

-- A call that gives an event that is to be acknowledged, and one that leaves the events alone.
abbrev pub Took : {W A : Type 0} → (W → ℕ) → W → Result A × W → Type 0
Took unacked w (ok e, v) = unacked v ≡ suc (unacked w)
Took unacked w (_, v) = unacked v ≡ unacked w

abbrev pub Kept : {W A : Type 0} → (W → ℕ) → W → Result A × W → Type 0
Kept unacked w (_, v) = unacked v ≡ unacked w

pub record AckLaws {W : Type 0} (ch : Channel W) (unacked : W → ℕ) : Type 0 where
  pub gets : (w : W) → Took unacked w (ch.get_event w)
  pub acks : (e : CmEvent) (w : W) → unacked (ch.ack_event e w) ≡ unacked w - 1
  pub accepts : (id : ℕ) (w : W) → Kept unacked w (ch.accept_conn id w)
  pub builds : (qp : ℕ) (w : W) → Kept unacked w (ch.new_ping_pong qp w)

module _ {W : Type 0} (ch : Channel W) (unacked : W → ℕ) where
  -- The events that are not acknowledged are `n` at the end; where a call panics or the bound on the
  -- events is reached, they may be one more.
  abbrev pub Acked : {A : Type 0} → ℕ → Result A × Listener W → Type 0
  Acked n (panic, ln) = unacked ln.world ≤ suc n
  Acked n (diverge, ln) = unacked ln.world ≤ suc n
  Acked n (_, ln) = unacked ln.world ≡ n

  module _ (laws : AckLaws ch unacked) (again : Call (Listener W) (ℕ × ℕ))
      (ih : (ln : Listener W) → Acked (unacked ln.world) (again ln)) where
    next : (n : ℕ) (ln : Listener W) → unacked ln.world ≡ n → Acked n (again ln)
    next n ln h = subst (λ k. Acked k (again ln)) h (ih ln)

    acked_one :
        (n : ℕ) (e : CmEvent) (ln : Listener W)
        → unacked ln.world ≡ suc n
        → unacked (ch.ack_event e ln.world) ≡ n
    acked_one n e ln h = omega (arith, laws.acks e ln.world, h)

    requested-Acked :
        (n : ℕ) (e : CmEvent) (r : Result ℕ) (ln : Listener W)
        → unacked ln.world ≡ suc n
        → Acked n (requested ch again e r ln)
    unfolding requested ack
    requested-Acked n e (ok qp) ln h = next n _ (acked_one n e ln h)
    requested-Acked n e (err x) ln h = next n _ (acked_one n e ln h)
    requested-Acked n e panic ln h = omega (arith, h)
    requested-Acked n e diverge ln h = omega (arith, h)

    completed-Acked :
        (n id : ℕ) (o : Option ℕ) (ln : Listener W)
        → unacked ln.world ≡ n
        → Acked n (completed ch again id o ln)
    unfolding completed on_channel
    completed-Acked n id none ln h = next n ln h
    completed-Acked n id (some qp) ln h =
        go (ch.new_ping_pong qp ln.world) (laws.builds qp ln.world)
      where
        go :
            (r : Result (Unit {0}) × W)
            → Kept unacked ln.world r
            → Acked {A = ℕ × ℕ} n (
                and_then
                  (put_back
                    (λ w ln. record ln { world = w })
                    (record ln { pending = delete id ln.pending })
                    r)
                  (λ _ s. (ok (id, qp), s)))
        go (ok u, w) k = k ∙ h
        go (err x, w) k = k ∙ h
        go (panic, w) k = omega (arith, h, k)
        go (diverge, w) k = omega (arith, h, k)

    on_event-Acked :
        (n : ℕ) (t : CmEventType) (e : CmEvent) (ln : Listener W)
        → unacked ln.world ≡ suc n
        → Acked n (on_event ch again t e ln)
    unfolding on_event on_channel ack
    on_event-Acked n connect_request e ln h =
        go (ch.accept_conn e.id ln.world) (laws.accepts e.id ln.world)
      where
        go :
            (r : Result ℕ × W)
            → Kept unacked ln.world r
            → Acked n (
                and_then
                  (attempted (put_back (λ w ln. record ln { world = w }) ln r))
                  (requested ch again e))
        go (ok qp, w) k = requested-Acked n e (ok qp) _ (k ∙ h)
        go (err x, w) k = requested-Acked n e (err x) _ (k ∙ h)
        go (panic, w) k = omega (arith, h, k)
        go (diverge, w) k = omega (arith, h, k)
    on_event-Acked n established e ln h =
        completed-Acked n e.id (lookup e.id ln.pending) _ (acked_one n e ln h)
    on_event-Acked n addr_resolved e ln h = next n _ (acked_one n e ln h)
    on_event-Acked n route_resolved e ln h = next n _ (acked_one n e ln h)
    on_event-Acked n disconnected e ln h = next n _ (acked_one n e ln h)
    on_event-Acked n rejected e ln h = next n _ (acked_one n e ln h)
    on_event-Acked n device_removal e ln h = next n _ (acked_one n e ln h)

  -- Whatever the events, their order and the results of AcceptConn and NewPingPongFromQP are: where
  -- Accept returns, with a connection or an error, it has acknowledged every event that it took, so
  -- that there are as many unacknowledged ones as before.
  pub accept-Acked :
      AckLaws ch unacked
      → (fuel : ℕ) (ln : Listener W) → Acked (unacked ln.world) (accept ch fuel ln)
  unfolding accept on_channel
  accept-Acked laws zero ln = omega arith
  accept-Acked laws (suc fuel) ln =
      go (accept-Acked laws fuel) (ch.get_event ln.world) (laws.gets ln.world)
    where
      go :
          ((ln : Listener W) → Acked (unacked ln.world) (accept ch fuel ln))
          → (r : Result CmEvent × W) → Took unacked ln.world r
          → Acked {A = ℕ × ℕ} (unacked ln.world) (
              and_then
                (put_back (λ w ln. record ln { world = w }) ln r)
                (λ e. on_event ch (accept ch fuel) e.type e))
      go ih (ok e, w) t = on_event-Acked laws (accept ch fuel) ih (unacked ln.world) e.type e _ t
      go ih (err x, w) t = t
      go ih (panic, w) t = omega (arith, t)
      go ih (diverge, w) t = omega (arith, t)
