-- ===== src/Rdma/Listener/Handout.antt =====
-- internal/rdma/listener.go: which connections Accept hands out.
use golinker.Api.{
  CmEvent, CmEventType, addr_resolved, route_resolved, connect_request, established, disconnected,
  rejected, device_removal,
}
use golinker.Base.{
  ℕ, zero, suc, ◌≡◌, refl, sym, ap, ◌∙◌, Option, none, some, ◌==◌, arith, Bool-cases, inl, inr,
}
use golinker.Errors.{Result, ok, err, panic, diverge}
use golinker.Go.Dict.{
  lookup, insert, delete, Distinct, Distinct-insert, Distinct-delete, lookup-insert,
  lookup-delete_ne, lookup-delete_self,
}
use golinker.Go.State.{Call, and_then, attempted, put_back}
use mathlib.Core.Path.{subst}
use golinker.Rdma.Listener.{
  Channel, Listener, on_channel, ack, requested, completed, on_event, accept,
}

some_inj : {a b : ℕ} → some a ≡ some b → a ≡ b
some_inj h = cc

pair : {a b c d : ℕ} → a ≡ b → c ≡ d → ◌≡◌ {A = ℕ × ℕ} (a, c) (b, d)
pair h k = cc

absent : {a : ℕ} → none ≡ some a → ⊥
absent h = cc

module _ {W : Type 0} (ch : Channel W) (Given : ℕ → ℕ → Type 0) where
  -- Each id waits once, and with a queue pair that AcceptConn gave for it.
  pub record Inv (ln : Listener W) : Type 0 where
    pub distinct : Distinct ln.pending
    pub given : (id qp : ℕ) → lookup id ln.pending ≡ some qp → Given id qp

  abbrev pub HandedOut : Result (ℕ × ℕ) × Listener W → Type 0
  HandedOut (ok (id, qp), ln) = Given id qp × (lookup id ln.pending ≡ none) × Inv ln
  HandedOut (err e, ln) = Inv ln
  HandedOut (panic, ln) = Inv ln
  HandedOut (diverge, ln) = Inv ln

  kept : (w : W) (ln : Listener W) → Inv ln → Inv (record ln { world = w })
  kept w ln v = record { distinct = v.distinct; given = v.given }

  entered :
      (id qp : ℕ) (ln : Listener W)
      → Given id qp
      → Inv ln
      → Inv (record ln { pending = insert id qp ln.pending })
  entered id qp ln g v = record {
    distinct = Distinct-insert id qp ln.pending v.distinct;
    given = λ j q h. elim (Bool-cases (id == j)) [
      | inl same ↦
          let e : id ≡ j = ground arith in
          let f : some qp ≡ some q = sym (lookup-insert id j qp ln.pending ∙ rw same refl) ∙ h in
          subst (λ p. Given p.0 p.1) (pair e (some_inj f)) g
      | inr other ↦ v.given j q (sym (lookup-insert id j qp ln.pending ∙ rw other refl) ∙ h)
    ];
  }

  removed : (id : ℕ) (ln : Listener W) → Inv ln → Inv (record ln { pending = delete id ln.pending })
  removed id ln v = record {
    distinct = Distinct-delete id ln.pending v.distinct;
    given = λ j q h. elim (Bool-cases (id == j)) [
      | inl same ↦
          let e : id ≡ j = ground arith in
          absurd (
            absent (
              sym (lookup-delete_self id ln.pending v.distinct)
              ∙ ap (λ i. lookup i (delete id ln.pending)) e
              ∙ h))
      | inr other ↦ v.given j q (sym (lookup-delete_ne id j ln.pending other) ∙ h)
    ];
  }

  module _ (again : Call (Listener W) (ℕ × ℕ))
      (ih : (ln : Listener W) → Inv ln → HandedOut (again ln)) where
    requested-HandedOut :
        (e : CmEvent) (r : Result ℕ) (ln : Listener W)
        → ((qp : ℕ) → r ≡ ok qp → Given e.id qp)
        → Inv ln
        → HandedOut (requested ch again e r ln)
    unfolding requested ack
    requested-HandedOut e (ok qp) ln g v = ih _ (kept _ _ (entered e.id qp ln (g qp refl) v))
    requested-HandedOut e (err x) ln g v = ih _ (kept _ ln v)
    requested-HandedOut e panic ln g v = v
    requested-HandedOut e diverge ln g v = v

    completed-HandedOut :
        (id : ℕ) (o : Option ℕ) (ln : Listener W)
        → lookup id ln.pending ≡ o
        → Inv ln
        → HandedOut (completed ch again id o ln)
    unfolding completed on_channel
    completed-HandedOut id none ln h v = ih ln v
    completed-HandedOut id (some qp) ln h v = go (ch.new_ping_pong qp ln.world)
      where
        go :
            (r : Result (Unit {0}) × W)
            → HandedOut (
                and_then
                  (put_back
                    (λ w ln. record ln { world = w })
                    (record ln { pending = delete id ln.pending })
                    r)
                  (λ _ s. (ok (id, qp), s)))
        go (ok u, w) = (
          v.given id qp h,
          lookup-delete_self id ln.pending v.distinct,
          kept w _ (removed id ln v),
        )
        go (err x, w) = kept w _ (removed id ln v)
        go (panic, w) = kept w _ (removed id ln v)
        go (diverge, w) = kept w _ (removed id ln v)

    module _ (gives : (id qp : ℕ) (w : W) → (ch.accept_conn id w).0 ≡ ok qp → Given id qp) where
      on_event-HandedOut :
          (t : CmEventType) (e : CmEvent) (ln : Listener W)
          → Inv ln
          → HandedOut (on_event ch again t e ln)
      unfolding on_event on_channel ack
      on_event-HandedOut connect_request e ln v =
          go (ch.accept_conn e.id ln.world) (λ qp h. gives e.id qp ln.world h)
        where
          go :
              (r : Result ℕ × W)
              → ((qp : ℕ) → r.0 ≡ ok qp → Given e.id qp)
              → HandedOut (
                  and_then
                    (attempted (put_back (λ w ln. record ln { world = w }) ln r))
                    (requested ch again e))
          go (ok qp, w) g = requested-HandedOut e (ok qp) _ g (kept w ln v)
          go (err x, w) g = requested-HandedOut e (err x) _ g (kept w ln v)
          go (panic, w) g = kept w ln v
          go (diverge, w) g = kept w ln v
      on_event-HandedOut established e ln v =
          completed-HandedOut e.id (lookup e.id ln.pending) _ refl (kept _ ln v)
      on_event-HandedOut addr_resolved e ln v = ih _ (kept _ ln v)
      on_event-HandedOut route_resolved e ln v = ih _ (kept _ ln v)
      on_event-HandedOut disconnected e ln v = ih _ (kept _ ln v)
      on_event-HandedOut rejected e ln v = ih _ (kept _ ln v)
      on_event-HandedOut device_removal e ln v = ih _ (kept _ ln v)

  -- Whatever the events and their order are, and however the calls end: the connection that Accept
  -- hands out has a queue pair that AcceptConn gave for its CM id, the id waits no more, so that a
  -- second Established event does not hand it out again, and what still waits keeps the invariant.
  pub accept-HandedOut :
      ((id qp : ℕ) (w : W) → (ch.accept_conn id w).0 ≡ ok qp → Given id qp)
      → (fuel : ℕ) (ln : Listener W) → Inv ln
      → HandedOut (accept ch fuel ln)
  unfolding accept on_channel
  accept-HandedOut gives zero ln v = v
  accept-HandedOut gives (suc fuel) ln v = go (accept-HandedOut gives fuel) (ch.get_event ln.world)
    where
      go :
          ((ln : Listener W) → Inv ln → HandedOut (accept ch fuel ln))
          → (r : Result CmEvent × W)
          → HandedOut (
              and_then
                (put_back (λ w ln. record ln { world = w }) ln r)
                (λ e. on_event ch (accept ch fuel) e.type e))
      go ih (ok e, w) = on_event-HandedOut (accept ch fuel) ih gives e.type e _ (kept w ln v)
      go ih (err x, w) = kept w ln v
      go ih (panic, w) = kept w ln v
      go ih (diverge, w) = kept w ln v
