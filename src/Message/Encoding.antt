-- ===== src/Message/Encoding.antt =====
-- pkg/message/wire.go: the bytes that PackBatch writes, as a reference encoding.
use golinker.Base.{
  ℕ, ◌+◌, ◌%◌, ◌^◌, ◌<◌, ◌≤◌, ◌≡◌, refl, sym, ap, ◌∙◌, List, [], ◌∷◌, ◌++◌, arith, length, take,
  drop, All, length-append, take-append-drop, length-take_le, length-drop, le→leb, append_assoc,
}
use golinker.Errors.{Result, ok, ◌>>=◌}
use golinker.Go.Slice.{write_at, write_at-append, write_at_mid}
use golinker.Message.Bytes.{be32, be64, put_uint32, put_uint64}
use golinker.Message.Wire.{
  cmd_header_size, cmd_post_send, encode_cmd_header, encode_app_header, pack_messages, pack_batch,
  framed_size, batch_size,
}

-- One framed message: 8 bytes of timestamp, 4 of size, the payload.
abbrev pub frame : ℕ → List ℕ → List ℕ
frame now msg = be64 now ++ (be32 (length msg % 2 ^ 32) ++ msg)

abbrev pub frames : ℕ → List (List ℕ) → List ℕ
frames now [] = []
frames now (msg ∷ msgs) = frame now msg ++ frames now msgs

abbrev pub header : List ℕ
header = be32 cmd_post_send ++ (be32 0 ++ be32 0)

-- The bytes that a batch stands for.
abbrev pub encoding : ℕ → List (List ℕ) → List ℕ
encoding now msgs = header ++ frames now msgs

abbrev pub Small : List (List ℕ) → Type 0
Small = All (λ msg. length msg < 2 ^ 32)

pub length-frames : (now : ℕ) (msgs : List (List ℕ)) → length (frames now msgs) ≡ framed_size msgs
length-frames now [] = refl
length-frames now (msg ∷ msgs) =
    omega (arith, length-append msg (frames now msgs), length-frames now msgs)

-- Writing `bs` at the end of `pre`, over the bytes `mid`.
put_mid :
    (pre bs mid rest : List ℕ) (n : ℕ)
    → n ≡ length pre
    → length mid ≡ length bs
    → write_at n bs (pre ++ (mid ++ rest)) ≡ pre ++ (bs ++ rest)
put_mid pre bs mid rest n e h =
    rw (e, write_at-append pre bs (mid ++ rest), write_at_mid bs mid rest h)

put_uint32_lem :
    (pre mid rest : List ℕ) (n v : ℕ)
    → n ≡ length pre
    → length mid ≡ 4
    → put_uint32 (pre ++ (mid ++ rest)) n v ≡ ok (pre ++ (be32 v ++ rest))
unfolding put_uint32
put_uint32_lem pre mid rest n v e h = rw (
  le→leb (n + 4) (length (pre ++ (mid ++ rest)))
      (omega (arith, length-append pre (mid ++ rest), length-append mid rest)),
  put_mid pre (be32 v) mid rest n e h,
)

put_uint64_lem :
    (pre mid rest : List ℕ) (n v : ℕ)
    → n ≡ length pre
    → length mid ≡ 8
    → put_uint64 (pre ++ (mid ++ rest)) n v ≡ ok (pre ++ (be64 v ++ rest))
unfolding put_uint64
put_uint64_lem pre mid rest n v e h = rw (
  le→leb (n + 8) (length (pre ++ (mid ++ rest)))
      (omega (arith, length-append pre (mid ++ rest), length-append mid rest)),
  put_mid pre (be64 v) mid rest n e h,
)

encode_app_header_lem :
    (pre m1 m2 rest : List ℕ) (n ts size : ℕ)
    → n ≡ length pre
    → length m1 ≡ 8
    → length m2 ≡ 4
    → encode_app_header (pre ++ (m1 ++ (m2 ++ rest))) n ts size
      ≡ ok (pre ++ (be64 ts ++ (be32 size ++ rest)))
unfolding encode_app_header
encode_app_header_lem pre m1 m2 rest n ts size e h1 h2 =
    rw (put_uint64_lem pre m1 (m2 ++ rest) n ts e h1, ← append_assoc pre (be64 ts) (m2 ++ rest))
      (rw (
        put_uint32_lem (pre ++ be64 ts) m2 rest (n + 8) size
            (omega (arith, length-append pre (be64 ts))) h2,
        append_assoc pre (be64 ts) (be32 size ++ rest),
      ))

encode_cmd_header_lem :
    (m1 m2 m3 rest : List ℕ) (cmd : ℕ)
    → length m1 ≡ 4
    → length m2 ≡ 4
    → length m3 ≡ 4
    → encode_cmd_header (m1 ++ (m2 ++ (m3 ++ rest))) 0 cmd
      ≡ ok (be32 cmd ++ (be32 0 ++ (be32 0 ++ rest)))
unfolding encode_cmd_header
encode_cmd_header_lem m1 m2 m3 rest cmd h1 h2 h3 = rw (
  put_uint32_lem [] m1 (m2 ++ (m3 ++ rest)) 0 cmd refl h1,
  put_uint32_lem (be32 cmd) m2 (m3 ++ rest) (0 + 4) 0 refl h2,
  put_uint32_lem (be32 cmd ++ be32 0) m3 rest (0 + 8) 0 refl h3,
)

-- A prefix of a list split off.
abbrev Split : ℕ → List ℕ → Type 0
Split n xs =
    (a : List ℕ) × (b : List ℕ) × (xs ≡ a ++ b) × (length a ≡ n) × (length b + n ≡ length xs)

split : (n : ℕ) (xs : List ℕ) → n ≤ length xs → Split n xs
split n xs h = (
  take n xs,
  drop n xs,
  sym (take-append-drop n xs),
  length-take_le n xs h,
  omega (arith, length-drop n xs),
)

-- Three fields split off.
abbrev Split₃ : ℕ → ℕ → ℕ → List ℕ → Type 0
Split₃ i j k xs =
    (a : List ℕ) × (b : List ℕ) × (c : List ℕ) × (d : List ℕ) × (xs ≡ a ++ (b ++ (c ++ d)))
    × (length a ≡ i)
    × (length b ≡ j)
    × (length c ≡ k)
    × (length d + (i + j + k) ≡ length xs)

split₃ : (i j k : ℕ) (xs : List ℕ) → i + j + k ≤ length xs → Split₃ i j k xs
split₃ i j k xs h =
    let (a, r, e, l, m) = split i xs (omega arith) in
    let (b, r', e', l', m') = split j r (omega arith) in
    let (c, d, e'', l'', m'') = split k r' (omega arith) in
    (a, b, c, d, e ∙ ap (◌++◌ a) (e' ∙ ap (◌++◌ b) e''), l, l', l'', omega arith)

-- One round of the loop of PackBatch over room for the frame.
pack_messages_step :
    (now : ℕ) (msg : List ℕ) (msgs : List (List ℕ)) (pre m1 m2 m3 rest : List ℕ) (n : ℕ)
    → n ≡ length pre
    → length m1 ≡ 8
    → length m2 ≡ 4
    → length m3 ≡ length msg
    → pack_messages now (msg ∷ msgs) (pre ++ (m1 ++ (m2 ++ (m3 ++ rest)))) n
      ≡ pack_messages now msgs ((pre ++ frame now msg) ++ rest) (n + 12 + length msg)
unfolding pack_messages
pack_messages_step now msg msgs pre m1 m2 m3 rest n e h1 h2 h3 =
    rw
      (
        le→leb n (length (pre ++ (m1 ++ (m2 ++ (m3 ++ rest)))))
            (omega (arith, length-append pre (m1 ++ (m2 ++ (m3 ++ rest))))),
        encode_app_header_lem pre m1 m2 (m3 ++ rest) n now (length msg % 2 ^ 32) e h1 h2,
      )
      (rw (
        le→leb (n + 12) (length (pre ++ (be64 now ++ (be32 (length msg % 2 ^ 32) ++ (m3 ++ rest)))))
            (omega (
              arith,
              length-append pre (be64 now ++ (be32 (length msg % 2 ^ 32) ++ (m3 ++ rest))),
            )),
        written,
      ))
  where
    front : List ℕ
    front = be64 now ++ be32 (length msg % 2 ^ 32)

    written :
        write_at (n + 12) msg (pre ++ (be64 now ++ (be32 (length msg % 2 ^ 32) ++ (m3 ++ rest))))
        ≡ (pre ++ frame now msg) ++ rest
    written = rw (← append_assoc pre front (m3 ++ rest)) (
        rw (
          put_mid (pre ++ front) msg m3 rest (n + 12) (omega (arith, length-append pre front)) h3,
          append_assoc pre front (msg ++ rest),
          append_assoc pre (frame now msg) rest,
        ))

ok_pair :
    {a a' : List ℕ} {n n' : ℕ}
    → a ≡ a'
    → n ≡ n'
    → ◌≡◌ {A = Result (List ℕ × ℕ)} (ok (a, n)) (ok (a', n'))
ok_pair p q = cc

regroup :
    (pre m1 m2 m3 m4 rest : List ℕ)
    → pre ++ ((m1 ++ (m2 ++ (m3 ++ m4))) ++ rest) ≡ pre ++ (m1 ++ (m2 ++ (m3 ++ (m4 ++ rest))))
regroup pre m1 m2 m3 m4 rest = simp append_assoc

pack_messages_lem :
    (now : ℕ) (msgs : List (List ℕ)) (pre mid rest : List ℕ) (n : ℕ)
    → n ≡ length pre
    → length mid ≡ framed_size msgs
    → pack_messages now msgs (pre ++ (mid ++ rest)) n
      ≡ ok (pre ++ (frames now msgs ++ rest), n + framed_size msgs)
pack_messages_lem now [] pre [] rest n e h =
    unfold pack_messages in ok_pair {a = pre ++ rest} refl (omega arith)
pack_messages_lem now [] pre (x ∷ mid) rest n e h = absurd (omega arith)
pack_messages_lem now (msg ∷ msgs) pre mid rest n e h =
    let (m1, m2, m3, m4, parts, l1, l2, l3, k) = split₃ 8 4 (length msg) mid (omega arith) in
    let ih =
      pack_messages_lem now msgs (pre ++ frame now msg) m4 rest (n + 12 + length msg)
        (omega (arith, length-append pre (frame now msg))) (omega arith) in
    ap (λ m. pack_messages now (msg ∷ msgs) (pre ++ (m ++ rest)) n) parts
    ∙ ap (λ b. pack_messages now (msg ∷ msgs) b n) (regroup pre m1 m2 m3 m4 rest)
    ∙ pack_messages_step now msg msgs pre m1 m2 m3 (m4 ++ rest) n e l1 l2 l3
    ∙ ih
    ∙ ok_pair (simp append_assoc) (omega arith)

-- PackBatch fills exactly the first `batch_size` bytes of a buffer that has room for them with the
-- encoding of the messages, leaves the bytes behind them alone, and returns that size.
pub pack_batch-eq-encoding :
    (now : ℕ) (msgs : List (List ℕ)) (buf : List ℕ)
    → batch_size msgs ≤ length buf
    → pack_batch now buf msgs
      ≡ ok (encoding now msgs ++ drop (batch_size msgs) buf, batch_size msgs)
unfolding pack_batch
pack_batch-eq-encoding now msgs buf h =
    let rest = drop (batch_size msgs) buf in
    let l = length-take_le (batch_size msgs) buf h in
    let (m1, m2, m3, m4, parts, l1, l2, l3, k) =
      split₃ 4 4 4 (take (batch_size msgs) buf) (omega arith) in
    let whole : buf ≡ m1 ++ (m2 ++ (m3 ++ (m4 ++ rest))) =
      sym (take-append-drop (batch_size msgs) buf)
      ∙ ap (λ m. m ++ rest) parts
      ∙ simp append_assoc in
    ap (λ b. pack_batch now b msgs) whole
    ∙ ap (λ r. r >>= λ b. pack_messages now msgs b cmd_header_size)
        (encode_cmd_header_lem m1 m2 m3 (m4 ++ rest) cmd_post_send l1 l2 l3)
    ∙ pack_messages_lem now msgs header m4 rest 12 refl (omega arith)
