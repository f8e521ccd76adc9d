-- ===== src/Buffer/RecvPool/Account.antt =====
-- pkg/buffer/recv_pool.go: where the buffers are after PostRecvBuffers.
use golinker.Base.{ℕ, ◌<◌, ◌≤◌, ◌≡◌, false, some, List, [], ◌∷◌, ◌++◌, arith, length, map}
use golinker.Api.{Buffer, RecvWr}
use golinker.Errors.{Result, ok, err, panic, diverge, pool_exhausted}
use golinker.Go.Chan.{receive}
use golinker.Buffer.Pool.{Pool, alloc}
use golinker.Buffer.RecvPool.{Receiver, recv_wr}

-- An open pool whose channel has room for all free buffers.
pub record Usable (p : Pool) : Type 0 where
  pub pool_open : p.is_closed ≡ false
  pub channel_open : p.free_ch.is_closed ≡ false
  pub fits : length p.free_ch.items ≤ p.free_ch.cap

abbrev pub free_count : Pool → ℕ
free_count p = length p.free_ch.items

abbrev pub free_items : {V : Type 0} → Receiver V → List Buffer
free_items r = r.pool.free_ch.items

-- PostRecv comes back; `posted` are the requests that it accepted, one more where it reports no error.
abbrev pub Posts : {V : Type 0} → (V → List RecvWr) → RecvWr → V → Result (Unit {0}) × V → Type 0
Posts posted wr v (ok u, v') = posted v' ≡ posted v ++ wr ∷ []
Posts posted wr v (err e, v') = posted v' ≡ posted v
Posts posted wr v (panic, v') = ⊥
Posts posted wr v (diverge, v') = ⊥

-- After a call that was to post `n` buffers: the first `n` free ones are gone from the pool and a
-- request for each is posted, in order; or the call failed, this holds of fewer than `n`, and the
-- pool has as many free buffers as were behind them.
abbrev pub Accounted :
    {V : Type 0} → (V → List RecvWr) → ℕ → Receiver V → Result (Unit {0}) × Receiver V → Type 0
Accounted posted n r (ok u, r') =
    Usable r'.pool
    × ((bs : List Buffer) × (length bs ≡ n)
        × (free_items r ≡ bs ++ free_items r')
        × (posted r'.verbs ≡ posted r.verbs ++ map recv_wr bs))
Accounted posted n r (err e, r') =
    Usable r'.pool
    × ((bs : List Buffer) × (rest : List Buffer) × (length bs < n)
        × (free_items r ≡ bs ++ rest)
        × (length (free_items r') ≡ length rest)
        × (posted r'.verbs ≡ posted r.verbs ++ map recv_wr bs))
Accounted posted n r (panic, r') = ⊥
Accounted posted n r (diverge, r') = ⊥

abbrev pub without : Pool → List Buffer → Pool
without p rest = record p { free_ch = record p.free_ch { items = rest } }

pub alloc_next :
    (p : Pool) (b : Buffer) (rest : List Buffer)
    → Usable p
    → p.free_ch.items ≡ b ∷ rest
    → alloc 0 p ≡ (ok (some b), without p rest)
unfolding alloc receive
alloc_next p b rest u e = ground arith

pub alloc_empty : (p : Pool) → Usable p → p.free_ch.items ≡ [] → alloc 0 p ≡ (err pool_exhausted, p)
unfolding alloc receive
alloc_empty p u e = ground arith

abbrev with_one : Pool → List Buffer → Buffer → Pool
with_one p rest b = without p (rest ++ b ∷ [])
