-- ===== src/Rdma/Release/Listen.antt =====
-- internal/rdma/real_cm.go: what Listen holds, and Close of the event channel.
use golinker.Base.{◌≡◌, refl, false, true, [], ◌∷◌, arith}
use golinker.Errors.{Error, Result, ok, err, panic, diverge}
use golinker.Rdma.Cm.{with_id, listen_on, close_channel}
use golinker.Rdma.Ledger.{
  channel, cm_id, Lib, Fabric, call_cleanups, acquire, attempt_op, create_channel, create_id,
  bind_addr, listen,
}
use golinker.Rdma.Release.{IsUndone, After-Undone, start-Holds}
use golinker.Rdma.Undo.{After, bind-After, attempt_op-After, acquire-After, call_cleanups-Holds}

module _ {W : Type 0} (lib : Lib W) where
  listen_on-After : (f : Fabric W) → After f.log with_id (listen_on lib f)
  unfolding listen_on
  listen_on-After f =
      let s = f.log in
      bind-After s (channel ∷ []) with_id (acquire lib create_channel channel [] f) _
        (acquire-After s lib create_channel channel [] f (start-Holds lib f))
        λ f h.
          bind-After s with_id with_id (acquire lib create_id cm_id (channel ∷ []) f) _
            (acquire-After s lib create_id cm_id (channel ∷ []) f h)
            λ f h.
              bind-After s with_id with_id (attempt_op lib bind_addr with_id f) _
                (attempt_op-After s lib bind_addr with_id f h)
                λ f h. attempt_op-After s lib listen with_id f h

  pub listen_on-IsUndone :
      (f : Fabric W) (e : Error)
      → (listen_on lib f).0 ≡ err e
      → IsUndone f.log (listen_on lib f).1.log
  listen_on-IsUndone f e h = After-Undone f.log with_id (listen_on lib f) e (listen_on-After f) h

  -- Close after a Listen that succeeded gives back the id and the channel, and a second Close frees
  -- nothing more.
  pub listen_on-close_channel :
      (f : Fabric W)
      → (listen_on lib f).0 ≡ ok tt
      → IsUndone f.log (close_channel false with_id (listen_on lib f).1).2.log
        × (close_channel true [] (close_channel false with_id (listen_on lib f).1).2
            ≡ close_channel false with_id (listen_on lib f).1)
  unfolding close_channel
  listen_on-close_channel f h = (go (listen_on lib f) (listen_on-After f) h, refl)
    where
      go :
          (q : Result (Unit {0}) × Fabric W)
          → After f.log with_id q
          → q.0 ≡ ok tt
          → IsUndone f.log (call_cleanups with_id q.1).log
      go (ok u, g) a e = λ r n. omega (arith, call_cleanups-Holds f.log with_id g a r n)
      go (err x, g) a e = cc
      go (panic, g) a e = absurd a
      go (diverge, g) a e = absurd a
