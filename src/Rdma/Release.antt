-- ===== src/Rdma/Release.antt =====
-- internal/rdma/real_cm.go: what Dial and AcceptConn hold when they fail, and what stays when a
-- connection is closed.
pub mod Listen
use golinker.Base.{ℕ, zero, suc, ◌+◌, ◌≡◌, refl, ◌∙◌, false, List, [], ◌∷◌, arith, ◌==◌}
use golinker.Errors.{Error, Result, ok, err, panic, diverge}
use golinker.Rdma.Cm.{
  with_id, with_pd, with_send, with_recv, listen_on, dial_address, dial_queues, dial_connect, dial,
  accept_conn, close_dialer, repeated, cq_size,
}
use golinker.Rdma.Ledger.{
  Resource, channel, cm_id, pd, send_cq, recv_cq, qp, Action, QpConfig, Lib, Fabric, cleanup_called,
  record_action, call_cleanups, acquire, attempt_op, await_event, create_channel, create_id,
  bind_addr, listen, resolve_addr, resolve_route, connect, accept, alloc_pd, create_send_cq,
  create_recv_cq, create_qp, addr_resolved, route_resolved, established,
}
use golinker.Rdma.Undo.{
  code, taken, released, taken-append, released-append, among, Holds, After, drop_qp, bind-After,
  attempt_op-After, acquire-After, await_event-After,
}

-- The cleanup function was called as often as one was taken since `start`.
abbrev pub IsUndone : List Action → List Action → Type 0
IsUndone start log =
    (r : Resource)
    → (code r == 5) ≡ false
    → taken r log + released r start ≡ released r log + taken r start

-- One more of the resource was taken than its cleanup function was called since `start`.
abbrev pub IsLeaked : List Action → Resource → List Action → Type 0
IsLeaked start r log = taken r log + released r start ≡ released r log + taken r start + 1

pub After-Undone :
    {W : Type 0} (start : List Action) (held : List Resource) (q : Result (Unit {0}) × Fabric W)
    (e : Error)
    → After start held q
    → q.0 ≡ err e
    → IsUndone start q.1.log
After-Undone start held (ok u, f) e a h = cc
After-Undone start held (err x, f) e a h = λ r n. omega (arith, a r n)
After-Undone start held (panic, f) e a h = absurd a
After-Undone start held (diverge, f) e a h = absurd a

-- To free `n` times one resource leaves the counts of the others.
cleanup_called-other :
    {W : Type 0} (x r : Resource) (f : Fabric W)
    → (code x == code r) ≡ false
    → (taken r (record_action (cleanup_called x) f).log ≡ taken r f.log)
      × (released r (record_action (cleanup_called x) f).log ≡ released r f.log)
unfolding record_action
cleanup_called-other x r f h = (
  ground (arith, taken-append r f.log (cleanup_called x ∷ [])),
  ground (arith, released-append r f.log (cleanup_called x ∷ [])),
)

free-other :
    {W : Type 0} (n : ℕ) (x r : Resource) (f : Fabric W)
    → (code x == code r) ≡ false
    → (taken r (call_cleanups (repeated n x) f).log ≡ taken r f.log)
      × (released r (call_cleanups (repeated n x) f).log ≡ released r f.log)
unfolding call_cleanups repeated
free-other zero x r f h = (refl, refl)
free-other (suc n) x r f h =
    let (t, d) = free-other n x r (record_action (cleanup_called x) f) h in
    let (t', d') = cleanup_called-other x r f h in (t ∙ t', d ∙ d')

pub close_dialer-other :
    {W : Type 0} (r : Resource) (f : Fabric W)
    → (code cm_id == code r) ≡ false
    → (code channel == code r) ≡ false
    → (taken r (close_dialer f).log ≡ taken r f.log)
      × (released r (close_dialer f).log ≡ released r f.log)
unfolding close_dialer
close_dialer-other r f i c =
    let (t, d) = free-other f.ids cm_id r f i in
    let (t', d') = free-other f.channels channel r (call_cleanups (repeated f.ids cm_id) f) c in
    (t' ∙ t, d' ∙ d)

module _ {W : Type 0} (lib : Lib W) where
  pub start-Holds : (f : Fabric W) → Holds f.log [] f.log
  start-Holds f r n = omega arith

  dial_address-After :
      (s : List Action) (f : Fabric W) → Holds s [] f.log → After s with_id (dial_address lib f)
  unfolding dial_address
  dial_address-After s f h =
      bind-After s (channel ∷ []) with_id (acquire lib create_channel channel [] f) _
        (acquire-After s lib create_channel channel [] f h)
        λ f h.
          bind-After s with_id with_id (acquire lib create_id cm_id (channel ∷ []) f) _
            (acquire-After s lib create_id cm_id (channel ∷ []) f h)
            λ f h.
              bind-After s with_id with_id (attempt_op lib resolve_addr with_id f) _
                (attempt_op-After s lib resolve_addr with_id f h)
                λ f h. await_event-After s lib addr_resolved with_id f h

  dial_queues-After :
      (cfg : QpConfig) (s : List Action) (f : Fabric W)
      → Holds s with_id f.log
      → After s with_recv (dial_queues lib cfg f)
  unfolding dial_queues
  dial_queues-After cfg s f h =
      bind-After s with_pd with_recv (acquire lib alloc_pd pd with_id f) _
        (acquire-After s lib alloc_pd pd with_id f h)
        λ f h.
          bind-After s with_send with_recv
            (acquire lib (create_send_cq (cq_size cfg)) send_cq with_pd f) _
            (acquire-After s lib (create_send_cq (cq_size cfg)) send_cq with_pd f h)
            λ f h. acquire-After s lib (create_recv_cq (cq_size cfg)) recv_cq with_send f h

  dial_connect-After :
      (cfg : QpConfig) (s : List Action) (f : Fabric W)
      → Holds s with_recv f.log
      → After s with_recv (dial_connect lib cfg f)
  unfolding dial_connect
  dial_connect-After cfg s f h =
      bind-After s with_recv with_recv (attempt_op lib resolve_route with_recv f) _
        (attempt_op-After s lib resolve_route with_recv f h)
        λ f h.
          bind-After s with_recv with_recv (await_event lib route_resolved with_recv f) _
            (await_event-After s lib route_resolved with_recv f h)
            λ f h.
              bind-After s (qp ∷ with_recv) with_recv (acquire lib (create_qp cfg) qp with_recv f) _
                (acquire-After s lib (create_qp cfg) qp with_recv f h)
                λ f h.
                  bind-After s with_recv with_recv (attempt_op lib connect with_recv f) _
                    (attempt_op-After s lib connect with_recv f (drop_qp s with_recv f.log h))
                    λ f h. await_event-After s lib established with_recv f h

  dial-After : (cfg : QpConfig) (f : Fabric W) → After f.log with_recv (dial lib cfg f)
  unfolding dial
  dial-After cfg f =
      let s = f.log in
      bind-After s with_id with_recv (dial_address lib f) _ (dial_address-After s f (start-Holds f))
        λ f h.
          bind-After s with_recv with_recv (dial_queues lib cfg f) _ (dial_queues-After cfg s f h)
            λ f h.
              bind-After s with_recv with_recv (dial_connect lib cfg f) _
                (dial_connect-After cfg s f h) λ f h. h

  -- A Dial that fails, at whichever of its steps, calls the cleanup function of every channel, id,
  -- protection domain and completion queue as often as it took one, whatever the calls return. It
  -- never destroys a QP.
  pub dial-IsUndone :
      (cfg : QpConfig) (f : Fabric W) (e : Error)
      → (dial lib cfg f).0 ≡ err e
      → IsUndone f.log (dial lib cfg f).1.log
  dial-IsUndone cfg f e h = After-Undone f.log with_recv (dial lib cfg f) e (dial-After cfg f) h

  accept_conn-After :
      (cfg : QpConfig) (f : Fabric W)
      → After f.log (recv_cq ∷ send_cq ∷ pd ∷ []) (accept_conn lib cfg f)
  unfolding accept_conn
  accept_conn-After cfg f =
      let s = f.log in
      let held = recv_cq ∷ send_cq ∷ pd ∷ [] in
      bind-After s (pd ∷ []) held (acquire lib alloc_pd pd [] f) _
        (acquire-After s lib alloc_pd pd [] f (start-Holds f))
        λ f h.
          bind-After s (send_cq ∷ pd ∷ []) held
            (acquire lib (create_send_cq (cq_size cfg)) send_cq (pd ∷ []) f) _
            (acquire-After s lib (create_send_cq (cq_size cfg)) send_cq (pd ∷ []) f h)
            λ f h.
              bind-After s held held
                (acquire lib (create_recv_cq (cq_size cfg)) recv_cq (send_cq ∷ pd ∷ []) f) _
                (acquire-After s lib (create_recv_cq (cq_size cfg)) recv_cq (send_cq ∷ pd ∷ []) f h)
                λ f h.
                  bind-After s (qp ∷ held) held (acquire lib (create_qp cfg) qp held f) _
                    (acquire-After s lib (create_qp cfg) qp held f h)
                    λ f h. attempt_op-After s lib accept held f (drop_qp s held f.log h)

  pub accept_conn-IsUndone :
      (cfg : QpConfig) (f : Fabric W) (e : Error)
      → (accept_conn lib cfg f).0 ≡ err e
      → IsUndone f.log (accept_conn lib cfg f).1.log
  accept_conn-IsUndone cfg f e h =
      After-Undone f.log (recv_cq ∷ send_cq ∷ pd ∷ []) (accept_conn lib cfg f) e
        (accept_conn-After cfg f) h

  pub kept :
      (cfg : QpConfig) (f : Fabric W)
      → (dial lib cfg f).0 ≡ ok tt
      → Holds f.log with_recv (dial lib cfg f).1.log
  kept cfg f h = read (dial lib cfg f) (dial-After cfg f) h
    where
      read :
          (q : Result (Unit {0}) × Fabric W)
          → After f.log with_recv q
          → q.0 ≡ ok tt
          → Holds f.log with_recv q.1.log
      read (ok u, g) a h = a
      read (err e, g) a h = cc
      read (panic, g) a h = absurd a
      read (diverge, g) a h = absurd a

  leaked :
      (cfg : QpConfig) (f : Fabric W) (r : Resource)
      → (dial lib cfg f).0 ≡ ok tt
      → (code r == 5) ≡ false
      → (code cm_id == code r) ≡ false
      → (code channel == code r) ≡ false
      → among r with_recv ≡ 1
      → IsLeaked f.log r (close_dialer (dial lib cfg f).1).log
  leaked cfg f r h n i c a =
      let (t, d) = close_dialer-other r (dial lib cfg f).1 i c in
      omega (arith, kept cfg f h r n, t, d, a)

  -- A connection that Dial established is not given back whole: after the dialer's Close its
  -- protection domain and both its completion queues are still held, for Dial keeps only the id and
  -- the channel.
  pub close_dialer-IsLeaked :
      (cfg : QpConfig) (f : Fabric W)
      → (dial lib cfg f).0 ≡ ok tt
      → IsLeaked f.log pd (close_dialer (dial lib cfg f).1).log
        × IsLeaked f.log send_cq (close_dialer (dial lib cfg f).1).log
        × IsLeaked f.log recv_cq (close_dialer (dial lib cfg f).1).log
  close_dialer-IsLeaked cfg f h = (
    leaked cfg f pd h refl refl refl refl,
    leaked cfg f send_cq h refl refl refl refl,
    leaked cfg f recv_cq h refl refl refl refl,
  )
