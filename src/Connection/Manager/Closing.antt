-- ===== src/Connection/Manager/Closing.antt =====
-- pkg/connection/manager.go: Close shuts every connection of the table.
use golinker.Base.{
  ℕ, ◌≡◌, refl, ap, ◌∙◌, true, false, ◌||◌, none, some, List, [], ◌∷◌, arith, ◌==◌, Bool-cases, inl,
  inr, All, ◌⊎◌, Bool, sym, not_both,
}
use golinker.Api.{Message, ConnectionState, closed, draining}
use golinker.Connection.Conn
use golinker.Connection.Conn.{Conn, Link, Verbs, same_state}
use golinker.Connection.Conn.State.{open_state, close-Closes}
use golinker.Connection.Manager.{
  Manager, Cm, method, method_at, link, put_link, close_conn, close_accept, close_all, close,
}
use golinker.Errors.{ok, Returns}
use golinker.Go.Chan
use golinker.Go.Chan.{Chan}
use mathlib.Core.Path.{subst}
use golinker.Go.Dict.{lookup, insert, delete, lookup-insert, lookup-insert_self}

-- The pointer leads to a connection.
abbrev pub Stands : {V : Type 0} → Manager V → ℕ × ℕ → Type 0
Stands m e = (c : Conn) × (lookup e.1 m.heap ≡ some c)

-- What Close makes of a connection: one that was neither closed nor draining is closed, with its
-- `done` channel; another Close of a draining one is under way, and it is left as it was.
pub record ShutConn (c c' : Conn) : Type 0 where
  pub if_open : open_state c.state ≡ true → (c'.state ≡ closed) × (c'.done ≡ true)
  pub if_shut : open_state c.state ≡ false → c' ≡ c

-- The connection of the pointer in the first manager, and what it is in the second.
abbrev pub Shut : {V : Type 0} → Manager V → Manager V → ℕ × ℕ → Type 0
Shut m m' e =
    (c : Conn) × (c' : Conn) × (lookup e.1 m.heap ≡ some c)
    × (lookup e.1 m'.heap ≡ some c')
    × ShutConn c c'

abbrev Touched : {V : Type 0} → Manager V → Manager V → ℕ × ℕ → Type 0
Touched m m' e =
    (c : Conn) × (c' : Conn) × (lookup e.1 m.heap ≡ some c)
    × (lookup e.1 m'.heap ≡ some c')
    × ((c' ≡ c) ⊎ ShutConn c c')

on_off : {b : Bool} → b ≡ true → b ≡ false → ⊥
on_off h k = not_both (sym h ∙ k)

ShutConn-closed : (c c' : Conn) → ShutConn c c' → open_state c'.state ≡ false
ShutConn-closed c c' s = elim (Bool-cases (open_state c.state)) [
  | inl o ↦ ap open_state (s.if_open o).0
  | inr k ↦ ap (λ x. open_state x.state) (s.if_shut k) ∙ k
]

-- A second Close changes nothing more.
ShutConn-again : (c c' c'' : Conn) → (c' ≡ c) ⊎ ShutConn c c' → ShutConn c' c'' → ShutConn c c''
ShutConn-again c c' c'' (inl e) t = subst (λ x. ShutConn x c'') e t
ShutConn-again c c' c'' (inr s) t =
    subst (λ x. ShutConn c x) (sym (t.if_shut (ShutConn-closed c c' s))) s

some_inj : {a b : Conn} → some a ≡ some b → a ≡ b
some_inj h = cc

module _ {V : Type 0} (verbs : Verbs V) (cm : Cm V)
    (sound : (id : ℕ) (v : V) → Returns (verbs.disconnect id v).0) where
  no_message : Message
  no_message = record { buffer = none; len = 0; flags = 0; imm_data = 0 }

  closes_any :
      (l : Link V) → (l' : Link V) × (Conn.close verbs l ≡ (ok tt, l')) × ShutConn l.conn l'.conn
  unfolding Conn.close
  closes_any l = elim (Bool-cases (open_state l.conn.state)) [
    | inl o ↦
        let all = close-Closes verbs sound l no_message o in
        (
          (Conn.close verbs l).1,
          ap (λ r. (r, (Conn.close verbs l).1)) all.0,
          record {
            if_open = λ h. (all.1.is_closed, all.1.is_done);
            if_shut = λ h. absurd (on_off o h);
          },
        )
    | inr c ↦ (
      l,
      rw (shut_already l.conn.state c) refl,
      record { if_open = λ h. absurd (on_off h c); if_shut = λ h. refl },
    )
  ]
    where
      shut_already :
          (s : ConnectionState)
          → open_state s ≡ false
          → (same_state s closed || same_state s draining) ≡ true
      shut_already s h = ground arith

  -- What closing one connection does to the manager.
  record ClosedOne (id : ℕ) (m m' : Manager V) : Type 0 where
    old : Conn
    conn : Conn
    found : lookup id m.heap ≡ some old
    shut : ShutConn old conn
    heap : m'.heap ≡ insert id conn m.heap
    connections : m'.connections ≡ m.connections
    accept_ch : m'.accept_ch ≡ m.accept_ch
    is_closed : m'.is_closed ≡ m.is_closed

  close_conn-ClosedOne :
      (id : ℕ) (m : Manager V)
      → (c : Conn) × (lookup id m.heap ≡ some c)
      → (m' : Manager V) × (close_conn verbs cm id m ≡ (ok tt, m')) × ClosedOne id m m'
  unfolding close_conn method method_at
  close_conn-ClosedOne id m (c, h) =
      let (l, e, o) = closes_any (link c m) in
      (
        put_link id l m,
        rw (h, e) refl,
        record {
          old = c;
          conn = l.conn;
          found = h;
          shut = o;
          heap = refl;
          connections = refl;
          accept_ch = refl;
          is_closed = refl;
        },
      )

  -- The connection of the pointer after a Close of the one of `id`.
  Shut-later' :
      (e : ℕ × ℕ) (id : ℕ) (m0 m m' : Manager V)
      → ClosedOne id m m'
      → (c c' : Conn) → lookup e.1 m0.heap ≡ some c
      → lookup e.1 m.heap ≡ some c'
      → (c' ≡ c) ⊎ ShutConn c c'
      → Shut m0 m' e ⊎ (lookup e.1 m'.heap ≡ some c')
  Shut-later' e id m0 m m' v c c' h0 h r = elim (Bool-cases (id == e.1)) [
    | inl same ↦
        let eq : id ≡ e.1 = ground arith in
        let was : v.old ≡ c' = some_inj (sym v.found ∙ ap (λ k. lookup k m.heap) eq ∙ h) in
        inl (
          c,
          v.conn,
          h0,
          ap (lookup e.1) v.heap ∙ lookup-insert id e.1 v.conn m.heap ∙ rw same refl,
          ShutConn-again c c' v.conn r (subst (λ x. ShutConn x v.conn) was v.shut),
        )
    | inr other ↦ inr (ap (lookup e.1) v.heap ∙ lookup-insert id e.1 v.conn m.heap ∙ rw other h)
  ]

  Touched-later :
      (id : ℕ) (m0 m m' : Manager V)
      → ClosedOne id m m'
      → (e : ℕ × ℕ) → Touched m0 m e
      → Touched m0 m' e
  Touched-later id m0 m m' v e (c, c', h0, h, r) = elim (Shut-later' e id m0 m m' v c c' h0 h r) [
    | inl (d, d', g0, g, s) ↦ (d, d', g0, g, inr s)
    | inr g ↦ (c, c', h0, g, r)
  ]

  Shut-later :
      (id : ℕ) (m0 m m' : Manager V) → ClosedOne id m m' → (e : ℕ × ℕ) → Shut m0 m e → Shut m0 m' e
  Shut-later id m0 m m' v e (c, c', h0, h, r) =
      elim (Shut-later' e id m0 m m' v c c' h0 h (inr r)) [ inl s ↦ s | inr g ↦ (c, c', h0, g, r) ]

  All-each :
      {P Q : ℕ × ℕ → Type 0} → ((e : ℕ × ℕ) → P e → Q e) → (es : List (ℕ × ℕ)) → All P es → All Q es
  All-each f [] a = tt
  All-each f (e ∷ es) a = (f e a.0, All-each f es a.1)

  delete_first : (k id : ℕ) (rest : List (ℕ × ℕ)) → delete k ((k, id) ∷ rest) ≡ rest
  unfolding delete
  delete_first k id rest = ground arith

  -- The manager after the loop of Close over the table.
  record Emptied (es gone : List (ℕ × ℕ)) (m0 m m' : Manager V) : Type 0 where
    runs : close_all verbs cm es m ≡ (ok tt, m')
    empty : m'.connections ≡ []
    all_shut : All (Shut m0 m') es
    still_shut : All (Shut m0 m') gone
    accept_ch : m'.accept_ch ≡ m.accept_ch
    is_closed : m'.is_closed ≡ m.is_closed

  loop-Emptied :
      (es gone : List (ℕ × ℕ)) (m0 m : Manager V)
      → m.connections ≡ es
      → All (Touched m0 m) es
      → All (Shut m0 m) gone
      → (m' : Manager V) × Emptied es gone m0 m m'
  unfolding close_all
  loop-Emptied [] gone m0 m c a s = (
    m,
    record {
      runs = refl;
      empty = c;
      all_shut = tt;
      still_shut = s;
      accept_ch = refl;
      is_closed = refl;
    },
  )
  loop-Emptied ((k, id) ∷ rest) gone m0 m c a s =
      let (c0, c1, h0, h1, r) = a.0 in
      let (m1, e, v) = close_conn-ClosedOne id m (c1, h1) in
      let m2 : Manager V = record m1 { connections = delete k m1.connections } in
      let was : v.old ≡ c1 = some_inj (sym v.found ∙ h1) in
      let here : Shut m0 m1 (k, id) = (
        c0,
        v.conn,
        h0,
        ap (lookup id) v.heap ∙ lookup-insert_self id v.conn m.heap,
        ShutConn-again c0 c1 v.conn r (subst (λ x. ShutConn x v.conn) was v.shut),
      ) in
      let (m3, w) =
        loop-Emptied rest ((k, id) ∷ gone) m0 m2
          (ap (delete k) (v.connections ∙ c) ∙ delete_first k id rest)
          (All-each (Touched-later id m0 m m1 v) rest a.1)
          (here, All-each (Shut-later id m0 m m1 v) gone s) in
      (
        m3,
        record {
          runs = rw e w.runs;
          empty = w.empty;
          all_shut = (w.still_shut.0, w.all_shut);
          still_shut = w.still_shut.1;
          accept_ch = w.accept_ch ∙ v.accept_ch;
          is_closed = w.is_closed ∙ v.is_closed;
        },
      )

  -- The manager before the loop.
  abbrev closing : Manager V → Manager V
  closing m = record m { is_closed = true; accept_ch = record m.accept_ch { is_closed = true } }

  close_runs :
      (m m' : Manager V)
      → m.is_closed ≡ false
      → m.accept_ch.is_closed ≡ false
      → close_all verbs cm m.connections (closing m) ≡ (ok tt, m')
      → close verbs cm m ≡ (ok tt, record m' { close_done = true })
  unfolding close close_accept Chan.close
  close_runs m m' o a r = rw (o, a, r) refl

  -- Close of an open manager comes back without an error, whatever the disconnects report: no
  -- connection is left in its table; each that stood there is closed, its `done` channel too, if it
  -- was neither closed nor draining, and is left as it was otherwise; the accept channel and
  -- `closeDone` are closed, and a second Close does nothing.
  pub close-Shut :
      (m : Manager V)
      → m.is_closed ≡ false
      → m.accept_ch.is_closed ≡ false
      → All (Stands m) m.connections
      → (m' : Manager V) × (close verbs cm m ≡ (ok tt, m'))
        × (m'.connections ≡ [])
        × All (Shut m m') m.connections
        × (m'.accept_ch.is_closed ≡ true)
        × (m'.close_done ≡ true)
        × (close verbs cm m' ≡ (ok tt, m'))
  unfolding close close_accept Chan.close
  close-Shut m o a s =
      let start : Manager V = record m {
        is_closed = true;
        accept_ch = record m.accept_ch { is_closed = true };
      } in
      let untouched : All (Touched m (closing m)) m.connections =
        All-each {P = Stands m} {Q = Touched m (closing m)} (λ e p. (p.0, p.0, p.1, p.1, inl refl))
          m.connections s in
      let (m', w) = loop-Emptied m.connections [] m (closing m) refl untouched tt in
      (
        record m' { close_done = true },
        close_runs m m' o a w.runs,
        w.empty,
        w.all_shut,
        ap (λ c. c.is_closed) w.accept_ch,
        refl,
        rw w.is_closed refl,
      )
