-- ===== src/Rdma/Verbs/Agrees.antt =====
-- internal/rdma/real_verbs.go: the state that RealQP keeps and the device's.
use golinker.Base.{ℕ, ◌≡◌, ◌∙◌, Bool, true, false, List, [], ◌∷◌}
use golinker.Errors.{Result}
use golinker.Rdma.Verbs.Queue.{
  QpState, AttrMask, QpAttr, init_attr, rtr_attr, rts_attr, init_mask, rtr_mask, rts_mask, RealQp,
  QpLib, modified, modify_to_init, modify_to_rtr, modify_to_rts,
}

-- What ibv_modify_qp does to the state that the device keeps.
abbrev pub Moved : {W : Type 0} → (W → QpState) → QpAttr → W → Bool × W → Type 0
Moved st a w (true, w') = st w' ≡ a.qp_state
Moved st a w (false, w') = st w' ≡ st w

pub record QpLaws {W : Type 0} (lib : QpLib W) (st : W → QpState) : Type 0 where
  pub modifies :
      (n : ℕ) (a : QpAttr) (m : List AttrMask) (w : W) → Moved st a w (lib.modify_qp n a m w)

pub data Change : Type 0 where
  to_init to_rts : Change
  to_rtr : ℕ → ℕ → List ℕ → Change

module _ {W : Type 0} (lib : QpLib W) where
  abbrev change : Change → RealQp W → Result (Unit {0}) × RealQp W
  change to_init q = modify_to_init lib q
  change to_rts q = modify_to_rts lib q
  change (to_rtr qpn lid gid) q = modify_to_rtr lib qpn lid gid q

  -- The calls one after the other, whatever each returns.
  abbrev pub change_all : List Change → RealQp W → RealQp W
  change_all [] q = q
  change_all (c ∷ cs) q = change_all cs ((change c q).1)

  module _ (st : W → QpState) (laws : QpLaws lib st) where
    modified-Agrees :
        (q : RealQp W) (a : QpAttr) (p : Bool × W)
        → st q.world ≡ q.state
        → Moved st a q.world p
        → st ((modified q a.qp_state p).1.world) ≡ (modified q a.qp_state p).1.state
    unfolding modified
    modified-Agrees q a (true, w) e m = m
    modified-Agrees q a (false, w) e m = m ∙ e

    change-Agrees :
        (c : Change) (q : RealQp W)
        → st q.world ≡ q.state
        → st ((change c q).1.world) ≡ (change c q).1.state
    unfolding modify_to_init modify_to_rtr modify_to_rts
    change-Agrees to_init q e =
        modified-Agrees q init_attr (lib.modify_qp q.qp init_attr init_mask q.world) e
          (laws.modifies q.qp init_attr init_mask q.world)
    change-Agrees to_rts q e =
        modified-Agrees q rts_attr (lib.modify_qp q.qp rts_attr rts_mask q.world) e
          (laws.modifies q.qp rts_attr rts_mask q.world)
    change-Agrees (to_rtr qpn lid gid) q e =
        modified-Agrees q (rtr_attr qpn lid gid)
          (lib.modify_qp q.qp (rtr_attr qpn lid gid) rtr_mask q.world) e
          (laws.modifies q.qp (rtr_attr qpn lid gid) rtr_mask q.world)

    -- After any calls of ModifyToInit, ModifyToRTR and ModifyToRTS, in any order and whichever the
    -- device refuses, State() is the state that the device was last moved to.
    pub change_all-Agrees :
        (cs : List Change) (q : RealQp W)
        → st q.world ≡ q.state
        → st ((change_all cs q).world) ≡ (change_all cs q).state
    change_all-Agrees [] q e = e
    change_all-Agrees (c ∷ cs) q e = change_all-Agrees cs ((change c q).1) (change-Agrees c q e)
