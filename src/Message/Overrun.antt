-- ===== src/Message/Overrun.antt =====
-- pkg/message/wire.go: PackBatch over a buffer of any size.
use golinker.Base.{
  ℕ, ◌+◌, ◌^◌, ◌%◌, ◌≡◌, refl, List, [], ◌∷◌, arith, leb, length, Bool-cases, inl, inr, ◌∙◌,
}
use golinker.Errors.{Result, ok, err, panic, diverge, ◌>>=◌, ◌>>◌, in_bounds}
use golinker.Go.Slice.{write_at, length-write_at}
use golinker.Message.Bytes.{be32, be64, put_uint32, put_uint64}
use golinker.Message.Wire.{
  encode_cmd_header, encode_app_header, pack_messages, pack_batch, framed_size, batch_size,
}

-- The bytes of the buffer stay as many, or the call panics.
abbrev Keeps : ℕ → Result (List ℕ) → Type 0
Keeps n (ok buf) = length buf ≡ n
Keeps n (err e) = ⊥
Keeps n panic = Unit
Keeps n diverge = ⊥

Keeps-bind :
    (n : ℕ) (r : Result (List ℕ)) (f : List ℕ → Result (List ℕ))
    → Keeps n r
    → ((buf : List ℕ) → length buf ≡ n → Keeps n (f buf))
    → Keeps n (r >>= f)
Keeps-bind n (ok buf) f p g = g buf p
Keeps-bind n (err e) f p g = p
Keeps-bind n panic f p g = tt
Keeps-bind n diverge f p g = p

put_uint32-Keeps : (n off v : ℕ) (buf : List ℕ) → length buf ≡ n → Keeps n (put_uint32 buf off v)
unfolding put_uint32
put_uint32-Keeps n off v buf e = elim (Bool-cases (leb (off + 4) (length buf))) [
  | inl fits ↦ rw fits (length-write_at off (be32 v) buf ∙ e)
  | inr over ↦ rw over tt
]

put_uint64-Keeps : (n off v : ℕ) (buf : List ℕ) → length buf ≡ n → Keeps n (put_uint64 buf off v)
unfolding put_uint64
put_uint64-Keeps n off v buf e = elim (Bool-cases (leb (off + 8) (length buf))) [
  | inl fits ↦ rw fits (length-write_at off (be64 v) buf ∙ e)
  | inr over ↦ rw over tt
]

encode_app_header-Keeps :
    (n off ts size : ℕ) (buf : List ℕ)
    → length buf ≡ n
    → Keeps n (encode_app_header buf off ts size)
unfolding encode_app_header
encode_app_header-Keeps n off ts size buf e =
    Keeps-bind n (put_uint64 buf off ts) _ (put_uint64-Keeps n off ts buf e)
      (λ b p. put_uint32-Keeps n (off + 8) size b p)

encode_cmd_header-Keeps :
    (n off cmd : ℕ) (buf : List ℕ) → length buf ≡ n → Keeps n (encode_cmd_header buf off cmd)
unfolding encode_cmd_header
encode_cmd_header-Keeps n off cmd buf e =
    Keeps-bind n (put_uint32 buf off cmd) _ (put_uint32-Keeps n off cmd buf e) λ b p.
      Keeps-bind n (put_uint32 b (off + 4) 0) _ (put_uint32-Keeps n (off + 4) 0 b p)
        (λ b p. put_uint32-Keeps n (off + 8) 0 b p)

-- What PackBatch may do: panic, or report a number of bytes.
abbrev Reports : ℕ → ℕ → Result (List ℕ × ℕ) → Type 0
Reports n k (ok (buf, m)) = (length buf ≡ n) × (m ≡ k)
Reports n k (err e) = ⊥
Reports n k panic = Unit
Reports n k diverge = ⊥

Reports-bind :
    (n k : ℕ) (r : Result (List ℕ)) (f : List ℕ → Result (List ℕ × ℕ))
    → Keeps n r
    → ((buf : List ℕ) → length buf ≡ n → Reports n k (f buf))
    → Reports n k (r >>= f)
Reports-bind n k (ok buf) f p g = g buf p
Reports-bind n k (err e) f p g = p
Reports-bind n k panic f p g = tt
Reports-bind n k diverge f p g = p

pack_messages-Reports :
    (now n k off : ℕ) (msgs : List (List ℕ)) (buf : List ℕ)
    → length buf ≡ n
    → k ≡ off + framed_size msgs
    → Reports n k (pack_messages now msgs buf off)
unfolding pack_messages
pack_messages-Reports now n k off [] buf e h = (e, omega arith)
pack_messages-Reports now n k off (msg ∷ msgs) buf e h = elim (Bool-cases (leb off (length buf))) [
  | inr over ↦ rw over tt
  | inl fits ↦ rw fits (
      Reports-bind n k (encode_app_header buf off now (length msg % 2 ^ 32)) _
        (encode_app_header-Keeps n off now (length msg % 2 ^ 32) buf e)
        λ b p. copied b p (
          pack_messages-Reports now n k (off + 12 + length msg) msgs (write_at (off + 12) msg b)
            (length-write_at (off + 12) msg b ∙ p) (omega arith)))
]
  where
    copied :
        (b : List ℕ)
        → length b ≡ n
        → Reports n k (pack_messages now msgs (write_at (off + 12) msg b) (off + 12 + length msg))
        → Reports n k (
            in_bounds (leb (off + 12) (length b))
            >> pack_messages now msgs (write_at (off + 12) msg b) (off + 12 + length msg))
    copied b p r = elim (Bool-cases (leb (off + 12) (length b))) [
      | inl fits ↦ rw fits r
      | inr over ↦ rw over tt
    ]

pack_batch-Reports :
    (now : ℕ) (msgs : List (List ℕ)) (buf : List ℕ)
    → Reports (length buf) (batch_size msgs) (pack_batch now buf msgs)
unfolding pack_batch
pack_batch-Reports now msgs buf =
    Reports-bind (length buf) (batch_size msgs) (encode_cmd_header buf 0 230) _
      (encode_cmd_header-Keeps (length buf) 0 230 buf refl)
      (λ b p. pack_messages-Reports now (length buf) (batch_size msgs) 12 msgs b p refl)

Reports-eq :
    (n k : ℕ) (r : Result (List ℕ × ℕ)) (buf : List ℕ) (m : ℕ)
    → Reports n k r
    → r ≡ ok (buf, m)
    → (length buf ≡ n) × (m ≡ k)
Reports-eq n k (ok (b, j)) buf m p e = ground arith
Reports-eq n k (err x) buf m p e = absurd p
Reports-eq n k panic buf m p e = cc
Reports-eq n k diverge buf m p e = absurd p

-- Whatever the buffer's size, a PackBatch that comes back keeps the size of the buffer and reports
-- the size of the whole batch, also where the batch is longer than the buffer.
pub pack_batch-length :
    (now : ℕ) (msgs : List (List ℕ)) (buf out : List ℕ) (n : ℕ)
    → pack_batch now buf msgs ≡ ok (out, n)
    → (length out ≡ length buf) × (n ≡ batch_size msgs)
pack_batch-length now msgs buf out n e =
    Reports-eq (length buf) (batch_size msgs) (pack_batch now buf msgs) out n
      (pack_batch-Reports now msgs buf) e
