-- ===== src/Buffer/SendPool/Inv.antt =====
-- pkg/buffer/send_pool.go: the ownership of the send buffers.
use golinker.Base.{
  ℕ, suc, ◌+◌, ◌/◌, ◌^◌, ◌<◌, ◌≤◌, ◌≡◌, ◌↔◌, refl, ap, true, false, Option, none, some, List, [],
  ◌∷◌, ◌++◌, arith, ◌==◌, length, length-append, inl, inr, ◌⊎◌,
}
use golinker.Api.{Buffer}
use golinker.Errors.{ok, err, pool_exhausted}
use golinker.Go.Chan.{receive, try_send}
use golinker.Go.Dict.{
  lookup, insert, delete, Absent, Distinct, lookup-insert, lookup-delete_ne, lookup-delete_self,
  Distinct-insert, Distinct-delete, length-insert_new, length-delete_found,
}
use golinker.Go.Word.{dec64, inc64_small, dec64_pos, int64_ge}
use golinker.Buffer.Pool.{alloc, free}
use golinker.Buffer.SendPool.{
  SendPool, key, is_some, mark, acquire_for_send, complete_send, is_busy, is_in_flight,
}

-- The address occurs in no buffer of the list.
abbrev pub Fresh : ℕ → List Buffer → Type 0
Fresh k [] = Unit
Fresh k (b ∷ bs) = ((key b == k) ≡ false) × Fresh k bs

-- The free buffers have different addresses, none of them in flight.
abbrev pub Separate : List (ℕ × Unit {0}) → List Buffer → Type 0
Separate m [] = Unit
Separate m (b ∷ bs) = Absent (key b) m × Fresh (key b) bs × Separate m bs

-- An open send pool whose buffers are free or in flight, never both, and all accounted for.
pub record Inv (sp : SendPool) : Type 0 where
  pub pool_open : sp.pool.is_closed ≡ false
  pub channel_open : sp.pool.free_ch.is_closed ≡ false
  pub capacity : sp.pool.free_ch.cap ≡ sp.pool.buffer_count
  pub conserved : length sp.pool.free_ch.items + length sp.in_flight ≡ sp.pool.buffer_count
  pub bounded : sp.pool.buffer_count < 2 ^ 63
  pub counted : sp.in_flight_n ≡ length sp.in_flight
  pub distinct : Distinct sp.in_flight
  pub separate : Separate sp.in_flight sp.pool.free_ch.items

Separate-insert :
    (k : ℕ) (m : List (ℕ × Unit {0})) (bs : List Buffer)
    → Fresh k bs
    → Separate m bs
    → Separate (insert k tt m) bs
Separate-insert k m [] f s = tt
Separate-insert k m (b ∷ bs) f s =
    ground (arith, lookup-insert k (key b) tt m, Separate-insert k m bs)

Fresh-append :
    (k : ℕ) (bs : List Buffer) (b : Buffer)
    → Fresh k bs
    → (key b == k) ≡ false
    → Fresh k (bs ++ b ∷ [])
Fresh-append k [] b f h = (h, tt)
Fresh-append k (c ∷ bs) b f h = (f.0, Fresh-append k bs b f.1 h)

Separate-delete :
    (b : Buffer) (m : List (ℕ × Unit {0})) (bs : List Buffer)
    → Distinct m
    → is_some (lookup (key b) m) ≡ true
    → Separate m bs
    → Separate (delete (key b) m) (bs ++ b ∷ [])
Separate-delete b m [] d h s = (lookup-delete_self (key b) m d, tt, tt)
Separate-delete b m (c ∷ bs) d h s = ground (
  arith,
  Separate-delete b m bs d h,
  lookup-delete_ne (key b) (key c) m,
  Fresh-append (key c) bs b,
)

-- The pool after a buffer was taken.
abbrev pub taking : SendPool → Buffer → List Buffer → SendPool
taking sp b rest =
    mark b
      (record sp { pool = record sp.pool { free_ch = record sp.pool.free_ch { items = rest } } })

pub acquire_empty :
    (sp : SendPool)
    → Inv sp
    → sp.pool.free_ch.items ≡ []
    → acquire_for_send sp ≡ (err pool_exhausted, sp)
unfolding acquire_for_send alloc receive
acquire_empty sp v e = ground arith

pub acquire_next :
    (sp : SendPool) (b : Buffer) (rest : List Buffer)
    → Inv sp
    → sp.pool.free_ch.items ≡ b ∷ rest
    → acquire_for_send sp ≡ (ok b, taking sp b rest)
unfolding acquire_for_send alloc receive
acquire_next sp b rest v e = ground arith

pub list_cases {ℓ} :
    {A : Type ℓ} (xs : List A) → (xs ≡ []) ⊎ ((a : A) × (rest : List A) × (xs ≡ a ∷ rest))
list_cases [] = inl refl
list_cases (a ∷ rest) = inr (a, rest, refl)

pub taking-Inv :
    (sp : SendPool) (b : Buffer) (rest : List Buffer)
    → Inv sp
    → sp.pool.free_ch.items ≡ b ∷ rest
    → Inv (taking sp b rest)
taking-Inv sp b rest v e =
    let sep : Separate sp.in_flight (b ∷ rest) = rw e at v.separate in
    let grown = length-insert_new (key b) tt sp.in_flight sep.0 in
    let fewer : length sp.pool.free_ch.items ≡ suc (length rest) = ap length e in
    record {
      pool_open = v.pool_open;
      channel_open = v.channel_open;
      capacity = v.capacity;
      conserved = omega arith;
      bounded = v.bounded;
      counted = omega (arith, inc64_small sp.in_flight_n);
      distinct = Distinct-insert (key b) tt sp.in_flight v.distinct;
      separate = Separate-insert (key b) sp.in_flight rest sep.1 sep.2;
    }

-- AcquireForSend keeps every buffer of an open send pool free or in flight, never both, and the
-- counter equal to the number of buffers in flight, whether or not a buffer is left.
pub acquire_for_send-Inv : (sp : SendPool) → Inv sp → Inv (acquire_for_send sp).1
acquire_for_send-Inv sp v = elim (list_cases sp.pool.free_ch.items) [
  | inl e ↦ rw (acquire_empty sp v e) v
  | inr (b, rest, e) ↦ rw (acquire_next sp b rest v e) (taking-Inv sp b rest v e)
]

-- The pool after a buffer in flight came back.
abbrev pub putting : SendPool → Buffer → SendPool
putting sp b = record {
  pool = record sp.pool {
    free_ch = record sp.pool.free_ch { items = sp.pool.free_ch.items ++ b ∷ [] };
  };
  in_flight = delete (key b) sp.in_flight;
  in_flight_n = dec64 sp.in_flight_n;
}

found : (o : Option (Unit {0})) → is_some o ≡ true → o ≡ some tt
found none h = cc
found (some u) h = refl

fewer_in_flight :
    (sp : SendPool) (b : Buffer)
    → is_some (lookup (key b) sp.in_flight) ≡ true
    → suc (length (delete (key b) sp.in_flight)) ≡ length sp.in_flight
fewer_in_flight sp b h = length-delete_found (key b) tt sp.in_flight (found _ h)

pub complete_found :
    (sp : SendPool) (b : Buffer)
    → Inv sp
    → is_some (lookup (key b) sp.in_flight) ≡ true
    → complete_send (some b) sp ≡ (ok tt, putting sp b)
unfolding complete_send free try_send
complete_found sp b v h = ground (arith, fewer_in_flight sp b h)

pub putting-Inv :
    (sp : SendPool) (b : Buffer)
    → Inv sp
    → is_some (lookup (key b) sp.in_flight) ≡ true
    → Inv (putting sp b)
putting-Inv sp b v h =
    let fewer = fewer_in_flight sp b h in
    let longer = length-append sp.pool.free_ch.items (b ∷ []) in
    record {
      pool_open = v.pool_open;
      channel_open = v.channel_open;
      capacity = v.capacity;
      conserved = omega arith;
      bounded = v.bounded;
      counted = omega (arith, dec64_pos sp.in_flight_n);
      distinct = Distinct-delete (key b) sp.in_flight v.distinct;
      separate = Separate-delete b sp.in_flight sp.pool.free_ch.items v.distinct h v.separate;
    }

-- CompleteSend of a buffer in flight keeps this too: it comes back with no error, the buffer is no
-- longer in flight and is the last of the free ones.
pub complete_send-Inv :
    (sp : SendPool) (b : Buffer)
    → Inv sp
    → is_in_flight sp b ≡ true
    → ((complete_send (some b) sp).0 ≡ ok tt)
      × Inv (complete_send (some b) sp).1
      × ((complete_send (some b) sp).1.pool.free_ch.items ≡ sp.pool.free_ch.items ++ b ∷ [])
      × (is_in_flight (complete_send (some b) sp).1 b ≡ false)
unfolding is_in_flight
complete_send-Inv sp b v h = rw (complete_found sp b v h) (
  refl,
  putting-Inv sp b v h,
  refl,
  ap is_some (lookup-delete_self (key b) sp.in_flight v.distinct),
)

-- A buffer is handed to one sender at a time: what AcquireForSend returns was not in flight before
-- the call, and is in flight after it.
pub acquire_for_send-exclusive :
    (sp : SendPool) (b : Buffer)
    → Inv sp
    → (acquire_for_send sp).0 ≡ ok b
    → (is_in_flight sp b ≡ false) × (is_in_flight (acquire_for_send sp).1 b ≡ true)
unfolding is_in_flight
acquire_for_send-exclusive sp b v h = elim (list_cases sp.pool.free_ch.items) [
  | inl e ↦ absurd (no_buffer (rw (acquire_empty sp v e) at h))
  | inr (c, rest, e) ↦
      let sep : Separate sp.in_flight (c ∷ rest) = rw e at v.separate in
      let same : b ≡ c = got (rw (acquire_next sp c rest v e) at h) in
      rw (same, acquire_next sp c rest v e)
        (ap is_some sep.0, ground (arith, lookup-insert (key c) (key c) tt sp.in_flight))
]
  where
    no_buffer : err pool_exhausted ≡ ok b → ⊥
    no_buffer p = cc

    got : {c : Buffer} → ok c ≡ ok b → b ≡ c
    got p = cc

-- IsBusy answers as its threshold says: at least half of the buffers, rounded down, and at least
-- one, are in flight.
pub is_busy_iff :
    (sp : SendPool)
    → Inv sp
    → (is_busy sp ≡ true)
      ↔ ((1 ≤ length sp.in_flight) × (sp.pool.buffer_count / 2 ≤ length sp.in_flight))
unfolding is_busy int64_ge
is_busy_iff sp v = (λ h. ground arith, λ h. ground arith)
