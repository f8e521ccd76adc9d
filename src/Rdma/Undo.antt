-- ===== src/Rdma/Undo.antt =====
-- internal/rdma: what is held after a chain of calls with cleanup paths. The QP is left out, since
-- no error path frees it.
use golinker.Base.{
  ℕ, ◌+◌, ◌≡◌, Bool, true, false, Option, none, some, List, [], ◌∷◌, ◌++◌, ◌==◌, arith, Bool-cases,
  inl, inr,
}
use golinker.Errors.{Result, ok, err, panic, diverge}
use golinker.Go.State.{and_then}
use golinker.Rdma.Ledger.{
  Resource, channel, cm_id, pd, send_cq, recv_cq, qp, send_buf, recv_buf, send_mr, recv_mr, Action,
  took, cleanup_called, Op, CmType, type_code, Lib, Fabric, record_action, call_cleanups,
  attempt_op, acquire, expected, await_event,
}

abbrev pub code : Resource → ℕ
code channel = 0
code cm_id = 1
code pd = 2
code send_cq = 3
code recv_cq = 4
code qp = 5
code send_buf = 6
code recv_buf = 7
code send_mr = 8
code recv_mr = 9

abbrev pub one_if : Bool → ℕ
one_if true = 1
one_if false = 0

-- How often the resource was taken and its cleanup function called, and how often it stands in a list.
abbrev pub taken : Resource → List Action → ℕ
taken r [] = 0
taken r (took x ∷ log) = one_if (code x == code r) + taken r log
taken r (cleanup_called x ∷ log) = taken r log

abbrev pub released : Resource → List Action → ℕ
released r [] = 0
released r (took x ∷ log) = released r log
released r (cleanup_called x ∷ log) = one_if (code x == code r) + released r log

abbrev pub among : Resource → List Resource → ℕ
among r [] = 0
among r (x ∷ xs) = one_if (code x == code r) + among r xs

pub taken-append :
    (r : Resource) (log log' : List Action) → taken r (log ++ log') ≡ taken r log + taken r log'
taken-append r [] log' = omega arith
taken-append r (took x ∷ log) log' = omega (arith, taken-append r log log')
taken-append r (cleanup_called x ∷ log) log' = taken-append r log log'

pub released-append :
    (r : Resource) (log log' : List Action)
    → released r (log ++ log') ≡ released r log + released r log'
released-append r [] log' = omega arith
released-append r (took x ∷ log) log' = released-append r log log'
released-append r (cleanup_called x ∷ log) log' = omega (arith, released-append r log log')

-- Since the log `start`, what was taken and had no cleanup call is `held`.
abbrev pub Holds : List Action → List Resource → List Action → Type 0
Holds start held log =
    (r : Resource)
    → (code r == 5) ≡ false
    → taken r log + released r start ≡ released r log + taken r start + among r held

-- A call leaves `held` where it succeeds, and nothing where it fails.
abbrev pub After :
    {W : Type 0} → List Action → List Resource → Result (Unit {0}) × Fabric W → Type 0
After start held (ok u, f) = Holds start held f.log
After start held (err e, f) = Holds start [] f.log
After start held (panic, f) = ⊥
After start held (diverge, f) = ⊥

pub drop_qp :
    (start : List Action) (held : List Resource) (log : List Action)
    → Holds start (qp ∷ held) log
    → Holds start held log
drop_qp start held log h r n = ground (arith, h r n)

module _ {W : Type 0} (start : List Action) where
  pub cleanup_called-Holds :
      (x : Resource) (xs : List Resource) (f : Fabric W)
      → Holds start (x ∷ xs) f.log
      → Holds start xs (record_action (cleanup_called x) f).log
  unfolding record_action
  cleanup_called-Holds x xs f h r n = omega (
    arith,
    h r n,
    taken-append r f.log (cleanup_called x ∷ []),
    released-append r f.log (cleanup_called x ∷ []),
  )

  pub took-Holds :
      (x : Resource) (xs : List Resource) (f : Fabric W)
      → Holds start xs f.log
      → Holds start (x ∷ xs) (record_action (took x) f).log
  unfolding record_action
  took-Holds x xs f h r n =
      omega
        (arith, h r n, taken-append r f.log (took x ∷ []), released-append r f.log (took x ∷ []))

  pub call_cleanups-Holds :
      (held : List Resource) (f : Fabric W)
      → Holds start held f.log
      → Holds start [] (call_cleanups held f).log
  unfolding call_cleanups
  call_cleanups-Holds [] f h = h
  call_cleanups-Holds (x ∷ xs) f h =
      call_cleanups-Holds xs (record_action (cleanup_called x) f) (cleanup_called-Holds x xs f h)

  pub bind-After :
      (held held' : List Resource) (q : Result (Unit {0}) × Fabric W)
      (k : Fabric W → Result (Unit {0}) × Fabric W)
      → After start held q
      → ((f : Fabric W) → Holds start held f.log → After start held' (k f))
      → After start held' (and_then q (λ _. k))
  bind-After held held' (ok u, f) k a h = h f a
  bind-After held held' (err e, f) k a h = a
  bind-After held held' (panic, f) k a h = a
  bind-After held held' (diverge, f) k a h = a

  module _ (lib : Lib W) where
    pub attempt_op-After :
        (op : Op) (held : List Resource) (f : Fabric W)
        → Holds start held f.log
        → After start held (attempt_op lib op held f)
    unfolding attempt_op
    attempt_op-After op held f h = elim (Bool-cases (lib.run op f.world).0) [
      | inl done ↦ rw done h
      | inr failed ↦
          rw failed (call_cleanups-Holds held (record f { world = (lib.run op f.world).1 }) h)
    ]

    pub acquire-After :
        (op : Op) (r : Resource) (held : List Resource) (f : Fabric W)
        → Holds start held f.log
        → After start (r ∷ held) (acquire lib op r held f)
    unfolding acquire
    acquire-After op r held f h =
        bind-After held (r ∷ held) (attempt_op lib op held f) _ (attempt_op-After op held f h)
          (λ g a. took-Holds r held g a)

    pub await_event-After :
        (t : CmType) (held : List Resource) (f : Fabric W)
        → Holds start held f.log
        → After start held (await_event lib t held f)
    unfolding await_event
    await_event-After t held f h =
        go (lib.next_event f.world).0 (record f { world = (lib.next_event f.world).1 }) h
      where
        go :
            (e : Option CmType) (g : Fabric W)
            → Holds start held g.log
            → After start held (expected lib t held e g)
        go none g a = call_cleanups-Holds held g a
        go (some e) g a = elim (Bool-cases (type_code e == type_code t)) [
          | inl same ↦ rw same a
          | inr other ↦ rw other (call_cleanups-Holds held g a)
        ]
