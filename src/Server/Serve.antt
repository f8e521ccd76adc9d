-- ===== src/Server/Serve.antt =====
-- pkg/server/handler.go: the loop of handleConn, over the connection and the registered handler as
-- parameters on a state `W`.
use golinker.Base.{
  ℕ, zero, suc, ◌≡◌, refl, sym, Bool, Option, none, some, List, [], ◌∷◌, ◌++◌, if◌then◌else◌,
  append-nil,
}
use golinker.Api.{Message}
use golinker.Connection.Conn.{Incoming}
use golinker.Errors.{Error, Result, ok, err, panic, diverge, Returns}
use golinker.Go.State.{Call, ◌>>=◌, ◌>>◌, return, lift, attempt, and_then, attempted}

-- Recv and Send of the connection, and the handler.
pub record Peer (W : Type 0) : Type 0 where
  pub recv : Call W Incoming
  pub send : Message → Call W (Unit {0})
  pub handle : Incoming → Call W (Option Message)

module _ {W : Type 0} (p : Peer W) where
  -- `if resp != nil { _ = conn.Send(resp) }`
  unfoldable pub respond : Option Message → Call W (Unit {0})
  respond none = return tt
  respond (some m) = do _ ← attempt (p.send m); return tt

  -- The result of the handler: an error goes on with the next message.
  unfoldable pub handled : Result (Option Message) → Call W (Unit {0})
  unfolding respond
  handled (ok r) = respond r
  handled (err e) = return tt
  handled panic = lift panic
  handled diverge = lift diverge

  unfoldable pub process : Bool → Incoming → Call W (Unit {0})
  unfolding handled
  process has_handler m w =
      if has_handler then (attempt (p.handle m) >>= handled) w else return tt w

  -- The result of Recv: an error ends the loop.
  unfoldable pub received : Bool → Call W (Unit {0}) → Result Incoming → Call W (Unit {0})
  unfolding process
  received has_handler again (ok m) = do process has_handler m; again
  received has_handler again (err e) = return tt
  received has_handler again panic = lift panic
  received has_handler again diverge = lift diverge

  -- The loop; the fuel bounds the messages.
  unfoldable pub serve : ℕ → Bool → Call W (Unit {0})
  unfolding received
  serve zero has_handler w = (diverge, w)
  serve (suc fuel) has_handler w =
      (attempt p.recv >>= received has_handler (serve fuel has_handler)) w

-- The responses that are sent for the result of the handler.
abbrev pub answer : Result (Option Message) → List Message
answer (ok (some r)) = r ∷ []
answer _ = []

-- The responses to the messages, in order.
abbrev pub responses : (Incoming → Result (Option Message)) → List Incoming → List Message
responses reply [] = []
responses reply (m ∷ ms) = answer (reply m) ++ responses reply ms

-- A connection with an inbox, whose Recv fails when it is empty, and a handler that replies by a
-- function, with a response, with none, or with an error. `outbox` are the responses that were given
-- to Send, whatever it returned.
pub record PeerLaws {W : Type 0} (p : Peer W) (reply : Incoming → Result (Option Message))
    : Type 0 where
  pub inbox : W → List Incoming
  pub outbox : W → List Message
  pub recv_next :
      (m : Incoming) (ms : List Incoming) (w : W)
      → inbox w ≡ m ∷ ms
      → (w' : W) × (p.recv w ≡ (ok m, w')) × (inbox w' ≡ ms) × (outbox w' ≡ outbox w)
  pub recv_end :
      (w : W)
      → inbox w ≡ []
      → (e : Error) × (w' : W) × (p.recv w ≡ (err e, w')) × (outbox w' ≡ outbox w)
  pub returns : (m : Incoming) → Returns (reply m)
  pub handles :
      (m : Incoming) (w : W)
      → (w' : W) × (p.handle m w ≡ (reply m, w')) × (inbox w' ≡ inbox w) × (outbox w' ≡ outbox w)
  pub sends :
      (r : Message) (w : W)
      → Returns (p.send r w).0
        × (inbox (p.send r w).1 ≡ inbox w)
        × (outbox (p.send r w).1 ≡ outbox w ++ r ∷ [])

module _ {W : Type 0} (p : Peer W) (reply : Incoming → Result (Option Message))
    (laws : PeerLaws p reply) where
  responded :
      (r : Option Message) (w : W)
      → (w' : W) × (respond p r w ≡ (ok tt, w'))
        × (laws.inbox w' ≡ laws.inbox w)
        × (laws.outbox w' ≡ laws.outbox w ++ answer (ok r))
  unfolding respond
  responded none w = (w, refl, refl, sym (append-nil (laws.outbox w)))
  responded (some r) w =
      let (s, i, o) = laws.sends r w in ((p.send r w).1, ignored (p.send r w) s, i, o)
    where
      ignored :
          (q : Result (Unit {0}) × W)
          → Returns q.0
          → ◌≡◌ {A = Result (Unit {0}) × W}
              (and_then (attempted q) (λ _ x. (ok tt, x)))
              (ok tt, q.1)
      ignored (ok u, w) h = refl
      ignored (err e, w) h = refl
      ignored (panic, w) h = absurd h
      ignored (diverge, w) h = absurd h

  settled :
      (r : Result (Option Message)) (w : W)
      → Returns r
      → (w' : W) × (and_then (attempted (r, w)) (handled p) ≡ (ok tt, w'))
        × (laws.inbox w' ≡ laws.inbox w)
        × (laws.outbox w' ≡ laws.outbox w ++ answer r)
  unfolding handled
  settled (ok r) w h = responded r w
  settled (err e) w h = (w, refl, refl, sym (append-nil (laws.outbox w)))
  settled panic w h = absurd h
  settled diverge w h = absurd h
