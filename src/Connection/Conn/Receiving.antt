-- ===== src/Connection/Conn/Receiving.antt =====
-- pkg/connection/conn.go: from the completion of a receive to the queue of messages.
use golinker.Base.{
  ℕ, suc, ◌+◌, ◌≤◌, ◌<◌, ◌≡◌, ◌≢◌, refl, ap, ◌∙◌, sym, true, false, ◌&&◌, some, List, [], ◌∷◌, ◌++◌,
  map, arith, leb, ◌==◌, if◌then◌else◌, length, take, All, Bool-cases, inl, inr, append_assoc,
  append-nil, le→leb, length-append, take-append_self,
}
use golinker.Api.{Buffer, WorkCompletion}
use golinker.Buffer.Pool.{free}
use golinker.Buffer.RecvPool.{recv_wr}
use golinker.Buffer.RecvPool.Account.{Usable, alloc_next, alloc_empty}
use golinker.Buffer.SendPool.{key}
use golinker.Connection.Conn.{
  Conn, Link, Verbs, Incoming, deliver_recv, deliver_all, is_recv, on_completion, received, filled,
  unpacked, replenish_recv, post_recv_buffers, post_loop, post_recv_one, recv_posted,
  track_recv_buffer,
}
use golinker.Errors.{ok, panic}
use golinker.Go.Chan.{try_send}
use golinker.Go.Dict.{lookup, insert, delete, length-delete_found}
use golinker.Message.Encoding.{Small, encoding, length-frames}
use golinker.Message.RoundTrip.{unpack_batch-encoding}
use golinker.Message.Wire.{unpack_batch, batch_size}

abbrev pub NonEmpty : List (List ℕ) → Type 0
NonEmpty = All (λ m. m ≢ [])

abbrev pub incoming : ℕ → List (List ℕ) → List Incoming
incoming imm = map (λ m. record { payload = m; imm_data = imm })

abbrev pub enqueue : List Incoming → Conn → Conn
enqueue ms c = record c { recv_ch = record c.recv_ch { items = c.recv_ch.items ++ ms } }

deliver_one :
    (m : Incoming) (c : Conn)
    → c.recv_ch.is_closed ≡ false
    → length c.recv_ch.items < c.recv_ch.cap
    → deliver_recv m c ≡ (ok tt, enqueue (m ∷ []) c)
unfolding deliver_recv try_send
deliver_one m c o h = ground arith

-- With room in the queue, the payloads arrive in order.
deliver_all_fits :
    (imm : ℕ) (msgs : List (List ℕ)) (c : Conn)
    → c.recv_ch.is_closed ≡ false
    → length c.recv_ch.items + length msgs ≤ c.recv_ch.cap
    → NonEmpty msgs
    → deliver_all imm msgs c ≡ (ok tt, enqueue (incoming imm msgs) c)
unfolding deliver_all
deliver_all_fits imm [] c o h n =
    ap (λ l. (ok tt, record c { recv_ch = record c.recv_ch { items = l } }))
      (sym (append-nil c.recv_ch.items))
deliver_all_fits imm ([] ∷ msgs) c o h n = absurd (n.0 refl)
deliver_all_fits imm ((x ∷ xs) ∷ msgs) c o h n =
    let m : Incoming = record { payload = x ∷ xs; imm_data = imm } in
    rw (deliver_one m c o (omega arith)) (
      deliver_all_fits imm msgs (enqueue (m ∷ []) c) o
        (omega (arith, length-append c.recv_ch.items (m ∷ []))) n.1
      ∙ ap (λ l. (ok tt, record c { recv_ch = record c.recv_ch { items = l } }))
          (append_assoc c.recv_ch.items (m ∷ []) (incoming imm msgs)))

-- The first `n` bytes of a buffer that begins with the encoding of a batch, read as a batch.
read_batch :
    (now : ℕ) (msgs : List (List ℕ)) (rest : List ℕ) (n : ℕ)
    → n ≡ batch_size msgs
    → Small msgs
    → (leb n (length (encoding now msgs ++ rest)) ≡ true)
      × (unpack_batch (take n (encoding now msgs ++ rest)) n ≡ ok msgs)
read_batch now msgs rest n e s =
    let whole = encoding now msgs in
    let measured : length whole ≡ batch_size msgs = omega (arith, length-frames now msgs) in
    let cut : take n (whole ++ rest) ≡ whole =
      ap (λ k. take k (whole ++ rest)) (e ∙ sym measured) ∙ take-append_self whole rest in
    (
      le→leb n (length (whole ++ rest)) (omega (arith, length-append whole rest)),
      ap (λ d. unpack_batch d n) (cut ∙ sym (append-nil whole))
          ∙ ap (unpack_batch (whole ++ [])) e
          ∙ unpack_batch-encoding now msgs [] s,
    )

module _ {V : Type 0} (verbs : Verbs V) where
  -- The link after the completion `wc` of buffer `b` delivered `msgs`, before the replenishment.
  abbrev pub delivered : WorkCompletion → List (List ℕ) → Link V → Link V
  delivered wc msgs l = record l {
    conn =
        enqueue (incoming (if wc.has_imm then wc.imm else 0) msgs)
          (record l.conn { recv_bufs = delete wc.wrid l.conn.recv_bufs });
  }

  received_batch :
      (wc : WorkCompletion) (l : Link V) (b : Buffer) (now : ℕ) (msgs : List (List ℕ))
      (rest : List ℕ)
      → lookup wc.wrid l.conn.recv_bufs ≡ some b
      → verbs.bytes b l.verbs ≡ encoding now msgs ++ rest
      → wc.byte_len ≡ batch_size msgs
      → Small msgs
      → NonEmpty msgs
      → l.conn.recv_ch.is_closed ≡ false
      → length l.conn.recv_ch.items + length msgs ≤ l.conn.recv_ch.cap
      → received verbs wc l ≡ replenish_recv verbs (delivered wc msgs l)
  unfolding received filled unpacked
  received_batch wc l b now msgs rest t m n s e o h =
      let (fits, read) = read_batch now msgs rest wc.byte_len n s in
      rw (
        t,
        m,
        fits,
        read,
        deliver_all_fits (if wc.has_imm then wc.imm else 0) msgs
            (record l.conn { recv_bufs = delete wc.wrid l.conn.recv_bufs }) o h e,
      )

  -- The link after one more receive buffer was tracked and posted.
  abbrev pub replenished : Link V → Buffer → List Buffer → V → Link V
  replenished l b free v = record l {
    conn = record l.conn { recv_bufs = insert (key b) b l.conn.recv_bufs };
    recv_pool = record l.recv_pool { free_ch = record l.recv_pool.free_ch { items = free } };
    verbs = v;
  }

  replenish_next :
      (l : Link V) (b : Buffer) (free : List Buffer) (v : V)
      → (l.conn.has_recv_pool && l.conn.has_qp) ≡ true
      → Usable l.recv_pool
      → l.recv_pool.free_ch.items ≡ b ∷ free
      → verbs.post_recv (recv_wr b) l.verbs ≡ (ok tt, v)
      → replenish_recv verbs l ≡ (ok tt, replenished l b free v)
  unfolding replenish_recv post_recv_buffers post_loop post_recv_one recv_posted track_recv_buffer
  replenish_next l b free v q u e p = rw (q, alloc_next l.recv_pool b free u e, p)

  replenish_empty :
      (l : Link V)
      → Usable l.recv_pool
      → l.recv_pool.free_ch.items ≡ []
      → replenish_recv verbs l ≡ (ok tt, l)
  unfolding replenish_recv post_recv_buffers post_loop
  replenish_empty l u e = elim (Bool-cases (l.conn.has_recv_pool && l.conn.has_qp)) [
    | inl on ↦ rw (on, alloc_empty l.recv_pool u e)
    | inr off ↦ rw off
  ]

  module _ (wc : WorkCompletion) (l : Link V) (b : Buffer) (now : ℕ) (msgs : List (List ℕ))
      (rest : List ℕ) (kind : is_recv wc.opcode ≡ true)
      (tracked : lookup wc.wrid l.conn.recv_bufs ≡ some b)
      (filled_by : verbs.bytes b l.verbs ≡ encoding now msgs ++ rest)
      (length_of : wc.byte_len ≡ batch_size msgs) (small : Small msgs)
      (usable : Usable l.recv_pool) where
    completes : on_completion verbs wc l ≡ received verbs wc l
    unfolding on_completion
    completes = rw kind (ground arith)

    -- The completion of a receive whose buffer holds a packed batch, at its length: with room in
    -- the queue and no empty message, exactly the messages of the batch are queued, in order and
    -- behind the earlier ones, and the next free buffer of the pool is tracked and posted. The
    -- consumed buffer is no longer tracked and does not go back to the pool, which has one free
    -- buffer less.
    pub on_completion-delivers :
        (b' : Buffer) (free : List Buffer) (v : V)
        → NonEmpty msgs
        → l.conn.recv_ch.is_closed ≡ false
        → length l.conn.recv_ch.items + length msgs ≤ l.conn.recv_ch.cap
        → (l.conn.has_recv_pool && l.conn.has_qp) ≡ true
        → l.recv_pool.free_ch.items ≡ b' ∷ free
        → verbs.post_recv (recv_wr b') l.verbs ≡ (ok tt, v)
        → on_completion verbs wc l ≡ (ok tt, replenished (delivered wc msgs l) b' free v)
    on_completion-delivers b' free v e o h q next p =
        completes
        ∙ received_batch wc l b now msgs rest tracked filled_by length_of small e o h
        ∙ replenish_next (delivered wc msgs l) b' free v q usable next p

    -- With no free buffer left in the pool the messages still arrive, but nothing is posted: the
    -- connection is left with one receive buffer less, for good.
    pub on_completion-starves :
        NonEmpty msgs
        → l.conn.recv_ch.is_closed ≡ false
        → length l.conn.recv_ch.items + length msgs ≤ l.conn.recv_ch.cap
        → l.recv_pool.free_ch.items ≡ []
        → (on_completion verbs wc l ≡ (ok tt, delivered wc msgs l))
          × (suc (length (delivered wc msgs l).conn.recv_bufs) ≡ length l.conn.recv_bufs)
    on_completion-starves e o h none_free = (
      completes
          ∙ received_batch wc l b now msgs rest tracked filled_by length_of small e o h
          ∙ replenish_empty (delivered wc msgs l) usable none_free,
      length-delete_found wc.wrid b l.conn.recv_bufs tracked,
    )

  -- The completion of a batch that begins with an empty message panics: `&msgBuf[0]` of an empty
  -- slice is out of range.
  pub on_completion_empty :
      (wc : WorkCompletion) (l : Link V) (b : Buffer) (now : ℕ) (msgs : List (List ℕ))
      (rest : List ℕ)
      → is_recv wc.opcode ≡ true
      → lookup wc.wrid l.conn.recv_bufs ≡ some b
      → verbs.bytes b l.verbs ≡ encoding now ([] ∷ msgs) ++ rest
      → wc.byte_len ≡ batch_size ([] ∷ msgs)
      → Small msgs
      → (on_completion verbs wc l).0 ≡ panic
  unfolding on_completion received filled unpacked deliver_all
  on_completion_empty wc l b now msgs rest k t m n s =
      let (fits, read) = read_batch now ([] ∷ msgs) rest wc.byte_len n (omega arith, s) in
      let nonzero : (wc.byte_len == 0) ≡ false = ground arith in rw (k, nonzero, t, m, fits, read)
