-- ===== src/Bench/Client/Release.antt =====
-- cmd/golinker-bench/client.go: the connections of runEndToEnd are closed.
use golinker.Base.{
  ℕ, zero, suc, ◌≡◌, refl, sym, ap, ◌∙◌, List, [], ◌∷◌, ◌++◌, append_assoc, append-nil,
}
use golinker.Bench.Client.{
  Conns, close_conn, close_conns, dial_one, dialled, dial_all, finished, run_end_to_end,
}
use golinker.Errors.{Result, ok, err, panic, diverge}
use golinker.Go.State.{Call, and_then, attempted, put_back}

module _ {W : Type 0} (dial : Call W ℕ) (close : ℕ → W → W) where
  closed_all :
      (cs : List ℕ) (s : Conns W)
      → ((close_conns dial close cs s).closed ≡ s.closed ++ cs)
        × ((close_conns dial close cs s).opened ≡ s.opened)
  unfolding close_conns close_conn
  closed_all [] s = (sym (append-nil s.closed), refl)
  closed_all (c ∷ cs) s =
      let (e, f) = closed_all cs (close_conn dial close c s) in
      (e ∙ append_assoc s.closed (c ∷ []) cs, f)

  -- What is held was opened and nothing was closed.
  pub record Holds (held : List ℕ) (s : Conns W) : Type 0 where
    pub all_opened : s.opened ≡ held
    pub none_closed : s.closed ≡ []

  abbrev Dialled : Result (List ℕ) × Conns W → Type 0
  Dialled (ok cs, s) = Holds cs s
  Dialled (err e, s) = s.closed ≡ s.opened
  Dialled (panic, s) = Unit
  Dialled (diverge, s) = Unit

  -- Every connection that was opened was closed, once and in order.
  abbrev pub Released : Result (Unit {0}) × Conns W → Type 0
  Released (panic, s) = Unit
  Released (diverge, s) = Unit
  Released (_, s) = s.closed ≡ s.opened

  closed-Holds :
      (cs : List ℕ) (s : Conns W)
      → Holds cs s
      → (close_conns dial close cs s).closed ≡ (close_conns dial close cs s).opened
  closed-Holds cs s v =
      let (e, f) = closed_all cs s in e ∙ ap (λ l. l ++ cs) v.none_closed ∙ sym (f ∙ v.all_opened)

  dial_all-Dialled :
      (n : ℕ) (held : List ℕ) (s : Conns W) → Holds held s → Dialled (dial_all dial close n held s)
  unfolding dial_all dial_one dialled
  dial_all-Dialled zero held s v = v
  dial_all-Dialled (suc n) held s v = go (dial_all-Dialled n) (dial s.world)
    where
      go :
          ((held : List ℕ) (s : Conns W) → Holds held s → Dialled (dial_all dial close n held s))
          → (q : Result ℕ × W)
          → Dialled (
              and_then
                (attempted (
                  and_then
                    (put_back (λ w s. record s { world = w }) s q)
                    (λ c s. (ok c, record s { opened = s.opened ++ c ∷ [] }))))
                (dialled dial close (dial_all dial close n) held))
      go ih (ok c, w) =
          ih _ _ (record {
            all_opened = ap (λ l. l ++ c ∷ []) v.all_opened;
            none_closed = v.none_closed;
          })
      go ih (err e, w) =
          closed-Holds held _ (record { all_opened = v.all_opened; none_closed = v.none_closed })
      go ih (panic, w) = tt
      go ih (diverge, w) = tt

  finished-Released :
      (run : List ℕ → Call W (Unit {0})) (q : Result (List ℕ) × Conns W)
      → Dialled q
      → Released (finished dial close run q)
  unfolding finished
  finished-Released run (ok cs, s) v = go (run cs s.world)
    where
      go :
          (r : Result (Unit {0}) × W)
          → Released (r.0, close_conns dial close cs (record s { world = r.1 }))
      go (ok u, w) =
          closed-Holds cs _ (record { all_opened = v.all_opened; none_closed = v.none_closed })
      go (err e, w) =
          closed-Holds cs _ (record { all_opened = v.all_opened; none_closed = v.none_closed })
      go (panic, w) = tt
      go (diverge, w) = tt
  finished-Released run (err e, s) v = v
  finished-Released run (panic, s) v = tt
  finished-Released run (diverge, s) v = tt

  -- However many connections runEndToEnd asks for, whichever Dial fails and whatever the benchmark
  -- returns: when it returns, it has closed every connection that it opened, once and in order.
  pub run_end_to_end-Released :
      (run : List ℕ → Call W (Unit {0})) (n : ℕ) (w : W)
      → Released (run_end_to_end dial close run n (record { opened = []; closed = []; world = w }))
  unfolding run_end_to_end
  run_end_to_end-Released run n w =
      finished-Released run _
        (dial_all-Dialled n [] _ (record { all_opened = refl; none_closed = refl }))
