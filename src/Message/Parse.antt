-- ===== src/Message/Parse.antt =====
-- pkg/message/wire.go: what UnpackBatch does on any bytes, and PackBatch on any buffer.
use golinker.Base.{
  ℕ, zero, suc, ◌+◌, ◌-◌, ◌*◌, ◌^◌, ◌≤◌, ◌≡◌, refl, ◌∙◌, inl, inr, List, ◌∷◌, arith, leb, ltb, ◌==◌,
  length, drop, length-take_le, length-drop, leb→le, le→leb, Bool-cases,
}
use golinker.Errors.{
  Result, ok, err, panic, diverge, ◌>>=◌, ◌>>◌, Returns, invalid_batch, unknown_command, require,
  in_bounds,
}
use golinker.Go.Slice.{slice}
use golinker.Message.Bytes.{uint32}
use golinker.Message.Wire.{
  decode_cmd_header, decode_app_header, unpack_one, unpack_loop, unpack_batch, framed_size,
  batch_size,
}

-- Four bytes are enough for a word.
uint32-ok : (buf : List ℕ) → 4 ≤ length buf → (v : ℕ) × (uint32 buf ≡ ok v)
unfolding uint32
uint32-ok (a ∷ b ∷ c ∷ d ∷ rest) h = (_, refl)
uint32-ok _ h = absurd (omega arith)

decode_app_header-ok :
    (buf : List ℕ) → 12 ≤ length buf → (r : ℕ × ℕ) × (decode_app_header buf ≡ ok r)
unfolding decode_app_header
decode_app_header-ok buf h =
    let (a, p) = uint32-ok buf (omega arith) in
    let (b, q) = uint32-ok (drop 4 buf) (omega (arith, length-drop 4 buf)) in
    let (c, r) = uint32-ok (drop 8 buf) (omega (arith, length-drop 8 buf)) in
    ((a * 2 ^ 32 + b, c), rw (le→leb 12 (length buf) h, p, q, r))

-- A round of the loop: an error, or a payload and the offset behind it, within the length.
abbrev Round : ℕ → ℕ → Result (ℕ × List ℕ) → Type 0
Round len offset (ok (next, msg)) = (next ≡ offset + 12 + length msg) × (next ≤ len)
Round len offset (err e) = Unit
Round len offset panic = ⊥
Round len offset diverge = ⊥

unpack_one-Round :
    (bytes : List ℕ) (len offset : ℕ)
    → len ≤ length bytes
    → Round len offset (unpack_one bytes len offset)
unfolding unpack_one
unpack_one-Round bytes len offset h = elim (Bool-cases (leb (offset + 12) len)) [
  | inr short ↦ rw short tt
  | inl long ↦
      let fits = leb→le (offset + 12) len long in
      let (r, e) =
        decode_app_header-ok (drop offset bytes) (omega (arith, length-drop offset bytes)) in
      rw (long, le→leb offset (length bytes) (omega arith), e) (rest r.1)
]
  where
    rest :
        (size : ℕ)
        → Round len offset (
            require (leb (offset + 12 + size) len) invalid_batch
            >> (in_bounds (leb (offset + 12 + size) (length bytes))
                >> ok (offset + 12 + size, slice bytes (offset + 12) (offset + 12 + size))))
    rest size = elim (Bool-cases (leb (offset + 12 + size) len)) [
      | inr short ↦ rw short tt
      | inl long ↦
          let fits = leb→le (offset + 12 + size) len long in
          rw (long, le→leb (offset + 12 + size) (length bytes) (omega arith))
            (
              omega (
                arith,
                length-take_le (offset + 12 + size - (offset + 12)) (drop (offset + 12) bytes)
                    (omega (arith, length-drop (offset + 12) bytes)),
              ),
              fits,
            )
    ]

-- A parse of the frames between two offsets, or an error.
abbrev Parsed : ℕ → Result (List (List ℕ)) → Type 0
Parsed n (ok msgs) = framed_size msgs ≡ n
Parsed n (err e) = Unit
Parsed n panic = ⊥
Parsed n diverge = ⊥

unpack_loop-Parsed :
    (fuel : ℕ) (bytes : List ℕ) (len offset : ℕ)
    → len ≤ length bytes
    → offset ≤ len
    → len ≤ offset + fuel
    → Parsed (len - offset) (unpack_loop fuel bytes len offset)
unfolding unpack_loop
unpack_loop-Parsed zero bytes len offset h k f = ground arith
unpack_loop-Parsed (suc fuel) bytes len offset h k f = elim (Bool-cases (ltb offset len)) [
  | inr done ↦ rw done (ground arith)
  | inl more ↦ rw more (
      go (unpack_one bytes len offset) (unpack_one-Round bytes len offset h)
        (unpack_loop-Parsed fuel bytes len))
]
  where
    add :
        (n m : ℕ) (msg : List ℕ) (r : Result (List (List ℕ)))
        → m ≡ 12 + length msg + n
        → Parsed n r
        → Parsed m (r >>= λ msgs. ok (msg ∷ msgs))
    add n m msg (ok msgs) e p = omega arith
    add n m msg (err x) e p = tt
    add n m msg panic e p = p
    add n m msg diverge e p = p

    go :
        (r : Result (ℕ × List ℕ))
        → Round len offset r
        → ((next : ℕ)
            → len ≤ length bytes
            → next ≤ len
            → len ≤ next + fuel
            → Parsed (len - next) (unpack_loop fuel bytes len next))
        → Parsed
            (len - offset)
            (r >>= λ p. unpack_loop fuel bytes len p.0 >>= λ msgs. ok (p.1 ∷ msgs))
    go (ok (next, msg)) p ih =
        add (len - next) (len - offset) msg (unpack_loop fuel bytes len next) (omega arith)
          (ih next h p.1 (omega arith))
    go (err e) p ih = tt
    go panic p ih = p
    go diverge p ih = p

-- A parse of a whole batch of `len` bytes.
abbrev Exact : ℕ → Result (List (List ℕ)) → Type 0
Exact len (ok msgs) = batch_size msgs ≡ len
Exact len (err e) = Unit
Exact len panic = ⊥
Exact len diverge = ⊥

Exact-Parsed : (n : ℕ) (r : Result (List (List ℕ))) → 12 ≤ n → Parsed (n - 12) r → Exact n r
Exact-Parsed n (ok msgs) h p = omega arith
Exact-Parsed n (err e) h p = tt
Exact-Parsed n panic h p = p
Exact-Parsed n diverge h p = p

Exact-Returns :
    (n : ℕ) (r : Result (List (List ℕ)))
    → Exact n r
    → Returns r × ((msgs : List (List ℕ)) → r ≡ ok msgs → batch_size msgs ≡ n)
Exact-Returns n (ok msgs) p = (tt, λ ms e. same ms e ∙ p)
  where
    same : (ms : List (List ℕ)) → ok msgs ≡ ok ms → batch_size ms ≡ batch_size msgs
    same ms e = cc
Exact-Returns n (err x) p = (tt, λ ms e. cc)
Exact-Returns n panic p = absurd p
Exact-Returns n diverge p = absurd p

unpack_batch-Exact :
    (bytes : List ℕ) (len : ℕ) → len ≤ length bytes → Exact len (unpack_batch bytes len)
unfolding unpack_batch decode_cmd_header
unpack_batch-Exact bytes len h = elim (Bool-cases (leb 12 len)) [
  | inr short ↦ rw short tt
  | inl long ↦
      let fits = leb→le 12 len long in
      let (cmd, e) = uint32-ok bytes (omega arith) in
      rw (long, le→leb 12 (length bytes) (omega arith), e) (body cmd fits)
]
  where
    body :
        (cmd : ℕ)
        → 12 ≤ len
        → Exact len (require (cmd == 230) unknown_command >> unpack_loop len bytes len 12)
    body cmd fits = elim (Bool-cases (cmd == 230)) [
      | inr other ↦ rw other tt
      | inl post ↦ rw post (
          Exact-Parsed len (unpack_loop len bytes len 12) fits
            (unpack_loop-Parsed len bytes len 12 h fits (omega arith)))
    ]

-- On every byte sequence, and for every length that it holds, UnpackBatch comes back: it neither
-- panics nor loops.
pub unpack_batch-Returns :
    (bytes : List ℕ) (len : ℕ) → len ≤ length bytes → Returns (unpack_batch bytes len)
unpack_batch-Returns bytes len h =
    (Exact-Returns len (unpack_batch bytes len) (unpack_batch-Exact bytes len h)).0

-- Where UnpackBatch yields messages, their batch takes exactly `len` bytes: no byte is skipped and
-- none is read twice.
pub unpack_batch-exact :
    (bytes : List ℕ) (len : ℕ) (msgs : List (List ℕ))
    → len ≤ length bytes
    → unpack_batch bytes len ≡ ok msgs
    → batch_size msgs ≡ len
unpack_batch-exact bytes len msgs h e =
    (Exact-Returns len (unpack_batch bytes len) (unpack_batch-Exact bytes len h)).1 msgs e
