-- ===== src/Connection/Conn/State.antt =====
-- pkg/connection/conn.go: Close and the state machine.
use golinker.Base.{
  ℕ, ◌≡◌, refl, Bool, true, false, ◌||◌, Option, none, some, List, ◌++◌, map, arith, if◌then◌else◌,
}
use golinker.Api.{Message, ConnectionState, draining, closed}
use golinker.Connection.Conn.{
  Conn, Link, Verbs, Notified, same_state, transition, shut, cm_disconnect, close, send_msg,
}
use golinker.Errors.{Result, ok, err, panic, diverge, Returns, not_connected}
use golinker.Go.State.{and_then, attempted, put_back}

-- The calls of the registered callbacks for one change of state.
abbrev pub notes : Conn → ConnectionState → ConnectionState → List Notified
notes c old new = map (λ f. record { callback = f; old = old; new = new }) c.callbacks

-- A connection that Close would act on.
abbrev pub open_state : ConnectionState → Bool
open_state s = if same_state s closed || same_state s draining then false else true

pub record Closes (c c' : Conn) : Type 0 where
  pub is_closed : c'.state ≡ closed
  pub is_done : c'.done ≡ true
  pub told : c'.notified ≡ (c.notified ++ notes c c.state draining) ++ notes c draining closed

shut-Closes : (c : Conn) → open_state c.state ≡ true → Closes c (shut c)
unfolding shut transition
shut-Closes c h = ground arith

-- The verbs after the disconnect: with a dialer and a CM id, those that the dialer's Disconnect of
-- this id leaves.
abbrev pub hung_up : {V : Type 0} → Verbs V → Bool → Option ℕ → V → V
hung_up verbs true (some id) v = (verbs.disconnect id v).1
hung_up verbs true none v = v
hung_up verbs false id v = v

module _ {V : Type 0} (verbs : Verbs V) where
  module _ (sound : (id : ℕ) (v : V) → Returns (verbs.disconnect id v).0) where
    -- The disconnect touches nothing but the verbs, and comes back.
    disconnected :
        (d : Bool) (id : Option ℕ) (l : Link V)
        → cm_disconnect verbs d id l ≡ (ok tt, record l { verbs = hung_up verbs d id l.verbs })
    unfolding cm_disconnect
    disconnected true (some id) l = go (verbs.disconnect id l.verbs) (sound id l.verbs)
      where
        go :
            (r : Result (Unit {0}) × V)
            → Returns r.0
            → ◌≡◌ {A = Result (Unit {0}) × Link V}
                (and_then
                  (attempted (put_back (λ v l. record l { verbs = v }) l r))
                  (λ _ s. (ok tt, s)))
                (ok tt, record l { verbs = r.1 })
        go (ok u, v) h = refl
        go (err e, v) h = refl
        go (panic, v) h = absurd h
        go (diverge, v) h = absurd h
    disconnected true none l = refl
    disconnected false id l = refl

    -- Close of a connection that is neither closed nor draining comes back without an error,
    -- whatever the disconnect reports: the connection is closed, its `done` channel too, every
    -- callback has heard of the change to draining and then of the change to closed, in the order
    -- of registration, the dialer has disconnected the CM id where there are both, and the pools are
    -- untouched. After it, another Close does nothing, and a
    -- Send is refused.
    pub close-Closes :
        (l : Link V) (msg : Message)
        → open_state l.conn.state ≡ true
        → ((close verbs l).0 ≡ ok tt)
          × Closes l.conn (close verbs l).1.conn
          × ((close verbs l).1.send_pool ≡ l.send_pool)
          × ((close verbs l).1.recv_pool ≡ l.recv_pool)
          × ((close verbs l).1.verbs ≡ hung_up verbs l.conn.has_dialer l.conn.cm_id l.verbs)
          × (close verbs (close verbs l).1 ≡ (ok tt, (close verbs l).1))
          × (send_msg verbs msg (close verbs l).1 ≡ (err not_connected, (close verbs l).1))
    unfolding close send_msg
    close-Closes l msg h =
        let e = disconnected l.conn.has_dialer l.conn.cm_id l in
        let cl = (shut-Closes l.conn h).is_closed in
        rw (opens l.conn.state h, e)
          (refl, shut-Closes l.conn h, refl, refl, refl, rw cl refl, rw cl refl)
      where
        opens :
            (s : ConnectionState)
            → open_state s ≡ true
            → (same_state s closed || same_state s draining) ≡ false
        opens s h = ground arith
