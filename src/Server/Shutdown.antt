-- ===== src/Server/Shutdown.antt =====
-- pkg/server/server.go: what Stop closes.
use golinker.Base.{
  ℕ, suc, ◌≡◌, ◌≢◌, ◌⊎◌, inl, inr, refl, sym, ap, ◌∙◌, true, false, some, List, [], ◌∷◌, ◌++◌, ◌==◌,
  ◌<◌, arith, length, Bool-cases,
}
use mathlib.Core.Path.{subst}
use golinker.Go.Dict.{
  lookup, insert, Distinct, lookup-insert, lookup-delete_ne, lookup-delete_self, Distinct-insert,
  Distinct-delete,
}
use golinker.Server.{track_conn, remove_conn, close_tracked}
use golinker.Server.Steps.{
  System, waiting, tracked, drained, stopped, wg, elem, remove, accept_conn, spawn, quit, leave,
  done, cancel, wait_done, deadline, sweep, Step, accepts, retries, spawns, quits, leaves, finishes,
  cancels, drains, expires, sweeps_drained, sweeps_expired, init, Reach, here, later,
}

-- A goroutine that will remove the connection from the table.
abbrev pub IsOwned : ℕ → System → Type 0
IsOwned id s = (elem id s.serving ≡ true) ⊎ (s.acceptor ≡ tracked id)

pub record Inv (s : System) : Type 0 where
  pub distinct : Distinct s.server.conns
  pub owned : (id c : ℕ) → lookup id s.server.conns ≡ some c → IsOwned id s
  pub quiet : s.stopper ≡ drained → wg s ≡ 0
  pub unclosed : s.stopper ≢ stopped → s.closed ≡ []

elem-remove : (k j : ℕ) (js : List ℕ) → (k == j) ≡ false → elem j (remove k js) ≡ elem j js
elem-remove k j [] h = refl
elem-remove k j (i ∷ js) h = ground (arith, elem-remove k j js)

length-remove : (k : ℕ) (js : List ℕ) → elem k js ≡ true → suc (length (remove k js)) ≡ length js
length-remove k [] h = cc
length-remove k (j ∷ js) h = ground (arith, length-remove k js)

accept_conn-Inv : (id : ℕ) (s : System) → s.acceptor ≡ waiting → Inv s → Inv (accept_conn id s)
unfolding accept_conn track_conn
accept_conn-Inv id s e v = record {
  distinct = Distinct-insert id id s.server.conns v.distinct;
  owned = λ j c h. ground (arith, lookup-insert id j id s.server.conns, v.owned j c);
  quiet = λ d. ground (arith, v.quiet d);
  unclosed = v.unclosed;
}

spawn-Inv : (id : ℕ) (s : System) → s.acceptor ≡ tracked id → Inv s → Inv (spawn id s)
unfolding spawn
spawn-Inv id s e v = record {
  distinct = v.distinct;
  owned = λ j c h. ground (arith, v.owned j c h);
  quiet = λ d. ground (arith, v.quiet d);
  unclosed = v.unclosed;
}

quit-Inv : (s : System) → s.acceptor ≡ waiting → Inv s → Inv (quit s)
unfolding quit
quit-Inv s e v = record {
  distinct = v.distinct;
  owned = λ j c h. ground (arith, v.owned j c h);
  quiet = λ d. ground (arith, v.quiet d);
  unclosed = v.unclosed;
}

leave-Inv : (id : ℕ) (s : System) → elem id s.serving ≡ true → Inv s → Inv (leave id s)
unfolding leave remove_conn
leave-Inv id s e v = record {
  distinct = Distinct-delete id s.server.conns v.distinct;
  owned = λ j c h. elim (Bool-cases (id == j)) [
    | inl same ↦ ground (arith, lookup-delete_self id s.server.conns v.distinct)
    | inr other ↦ ground (
      arith,
      lookup-delete_ne id j s.server.conns other,
      elem-remove id j s.serving other,
      v.owned j c,
    )
  ];
  quiet = λ d. ground (arith, v.quiet d, length-remove id s.serving e);
  unclosed = v.unclosed;
}

-- The steps of Stop and the end of a goroutine leave the tables alone.
settled-Inv :
    (s t : System)
    → t.server.conns ≡ s.server.conns
    → t.serving ≡ s.serving
    → t.acceptor ≡ s.acceptor
    → t.closed ≡ s.closed
    → s.stopper ≢ stopped
    → (t.stopper ≡ drained → wg t ≡ 0)
    → Inv s
    → Inv t
settled-Inv s t c e a k n q v = record {
  distinct = subst Distinct (sym c) v.distinct;
  owned = λ j d h. ground (arith, v.owned j d);
  quiet = q;
  unclosed = λ x. k ∙ v.unclosed n;
}

sweep-Inv : (s : System) → Inv s → Inv (sweep s)
unfolding sweep close_tracked lookup
sweep-Inv s v = record {
  distinct = tt;
  owned = λ j c h. cc;
  quiet = λ d. cc;
  unclosed = λ n. absurd (n refl);
}

-- A goroutine that ends its `wg.Done()`; the wait group counts it.
done-Inv : (s : System) → 0 < s.leaving → Inv s → Inv (done s)
unfolding done
done-Inv s p v = record {
  distinct = v.distinct;
  owned = λ j c h. ground (arith, v.owned j c h);
  quiet = λ d. ground (arith, v.quiet d);
  unclosed = v.unclosed;
}

Step-Inv : {s t : System} → Step s t → Inv s → Inv t
unfolding cancel wait_done deadline
Step-Inv {s} (accepts id e) v = accept_conn-Inv id s e v
Step-Inv (retries e c) v = v
Step-Inv {s} (spawns id e) v = spawn-Inv id s e v
Step-Inv {s} (quits e c) v = quit-Inv s e v
Step-Inv {s} (leaves id e) v = leave-Inv id s e v
Step-Inv {s} (finishes p) v = done-Inv s p v
Step-Inv {s} (cancels e) v = settled-Inv s (cancel s) refl refl refl refl (λ x. cc) (λ d. cc) v
Step-Inv {s} (drains e w) v = settled-Inv s (wait_done s) refl refl refl refl (λ x. cc) (λ d. w) v
Step-Inv {s} (expires e) v = settled-Inv s (deadline s) refl refl refl refl (λ x. cc) (λ d. cc) v
Step-Inv {s} (sweeps_drained e) v = sweep-Inv s v
Step-Inv {s} (sweeps_expired e) v = sweep-Inv s v

init-Inv : Inv init
unfolding lookup
init-Inv = record { distinct = tt; owned = λ j c h. cc; quiet = λ d. cc; unclosed = λ n. refl }

-- In every state that the goroutines of a started server can reach, each connection in the table
-- belongs to a goroutine that will take it out, and once the wait of Stop found the goroutines done
-- they stay done.
pub Reach-Inv : {s : System} → Reach s → Inv s
Reach-Inv here = init-Inv
Reach-Inv (later r st) = Step-Inv st (Reach-Inv r)

length-elem : (id : ℕ) (js : List ℕ) → elem id js ≡ true → 0 < length js
length-elem id [] h = cc
length-elem id (j ∷ js) h = omega arith

no_entries : (m : List (ℕ × ℕ)) → ((id c : ℕ) → lookup id m ≡ some c → ⊥) → m ≡ []
unfolding lookup
no_entries [] h = refl
no_entries ((k, c) ∷ m) h = absurd (h k c (ground arith))

-- A graceful Stop closes no connection: when its wait found all goroutines done, every handler has
-- taken its connection out of the table and left it open, so that the loop that closes the tracked
-- connections finds none.
pub sweep-drained : {s : System} → Reach s → s.stopper ≡ drained → (sweep s).closed ≡ []
unfolding sweep close_tracked
sweep-drained {s} r d =
    let v = Reach-Inv r in
    let none_left : s.server.conns ≡ [] =
      no_entries s.server.conns
        (λ id c h. ground (arith, v.owned id c h, v.quiet d, length-elem id s.serving)) in
    rw none_left (ap (λ l. l ++ []) (v.unclosed (λ e. cc)))

-- A Stop whose deadline comes first can return before the accept loop has: every connection that
-- Accept hands out after that is entered in the table and served by a goroutine of the stopped
-- server, and is not closed.
pub sweep-overtaken :
    (id : ℕ)
    → (s : System) × Reach s
      × (s.stopper ≡ stopped)
      × (s.server.started ≡ false)
      × (lookup id s.server.conns ≡ some id)
      × (elem id s.serving ≡ true)
      × (s.closed ≡ [])
unfolding cancel deadline sweep close_tracked accept_conn track_conn spawn insert lookup
sweep-overtaken id =
    let s1 = cancel init in
    let s2 = deadline s1 in
    let s3 = sweep s2 in
    let s4 = accept_conn id s3 in
    let s5 = spawn id s4 in
    (
      s5,
      later {s = s4}
          (later {s = s3}
            (later {s = s2} (later {s = s1} (later {s = init} here (cancels refl)) (expires refl))
              (sweeps_expired refl))
            (accepts id refl))
          (spawns id refl),
      refl,
      refl,
      ground arith,
      ground arith,
      refl,
    )
