-- ===== src/Message/RoundTrip.antt =====
-- pkg/message/wire.go: UnpackBatch after PackBatch.
use golinker.Base.{
  ℕ, zero, suc, ◌+◌, ◌*◌, ◌/◌, ◌%◌, ◌^◌, ◌<◌, ◌≤◌, ◌≡◌, refl, sym, ap, ◌∙◌, List, [], ◌∷◌, ◌++◌,
  arith, length, drop, length-append, drop-append_self, le→leb, lt→ltb, ltb-false, append_assoc,
}
use golinker.Errors.{Result, ok, ◌>>=◌}
use golinker.Go.Slice.{slice, slice_mid}
use golinker.Message.Bytes.{be32, be64, uint32-be32}
use golinker.Message.Wire.{
  cmd_post_send, decode_cmd_header, decode_app_header, pack_batch, unpack_one, unpack_loop,
  unpack_batch, framed_size, batch_size,
}
use golinker.Message.Encoding.{frame, frames, header, encoding, Small, pack_batch-eq-encoding}

ok_size : (t : ℕ) {m n : ℕ} → m ≡ n → ◌≡◌ {A = Result (ℕ × ℕ)} (ok (t, m)) (ok (t, n))
ok_size t p = cc

decode_app_header_lem :
    (now : ℕ) (msg rest : List ℕ)
    → length msg < 2 ^ 32
    → decode_app_header (be64 now ++ (be32 (length msg % 2 ^ 32) ++ rest))
      ≡ ok (now / 2 ^ 32 % 2 ^ 32 * 2 ^ 32 + now % 2 ^ 32, length msg)
unfolding decode_app_header
decode_app_header_lem now msg rest h =
    rw
      (
        le→leb 12 (length (be64 now ++ (be32 (length msg % 2 ^ 32) ++ rest))) (omega arith),
        uint32-be32 (now / 2 ^ 32) (be32 now ++ (be32 (length msg % 2 ^ 32) ++ rest)),
        uint32-be32 now (be32 (length msg % 2 ^ 32) ++ rest),
        uint32-be32 (length msg % 2 ^ 32) rest,
      )
      (ok_size _ (omega arith))

ok_payload :
    {m n : ℕ} {a b : List ℕ} → m ≡ n → a ≡ b → ◌≡◌ {A = Result (ℕ × List ℕ)} (ok (m, a)) (ok (n, b))
ok_payload p q = cc

unpack_one_lem :
    (now : ℕ) (pre msg rest : List ℕ) (len offset : ℕ)
    → length msg < 2 ^ 32
    → offset ≡ length pre
    → offset + 12 + length msg ≤ len
    → unpack_one (pre ++ (frame now msg ++ rest)) len offset ≡ ok (offset + 12 + length msg, msg)
unfolding unpack_one
unpack_one_lem now pre msg rest len offset small e fits =
    rw
      (
        le→leb (offset + 12) len (omega arith),
        le→leb offset (length bytes) (omega (arith, total)),
        tail1,
        decode_app_header_lem now msg (msg ++ rest) small,
      )
      (rw
        (
          le→leb (offset + 12 + length msg) len fits,
          le→leb (offset + 12 + length msg) (length bytes) (omega (arith, total)),
        )
        (ok_payload (omega arith) payload))
  where
    bytes : List ℕ
    bytes = pre ++ (frame now msg ++ rest)

    total : length bytes ≡ length pre + 12 + length msg + length rest
    total = omega (arith, length-append pre (frame now msg ++ rest), length-append msg rest)

    front : List ℕ
    front = be64 now ++ be32 (length msg % 2 ^ 32)

    payload : slice bytes (offset + 12) (offset + 12 + length msg) ≡ msg
    payload =
        ap (λ b. slice b (offset + 12) (offset + 12 + length msg))
          (sym (append_assoc pre front (msg ++ rest)))
        ∙ slice_mid (pre ++ front) msg rest (offset + 12) (offset + 12 + length msg)
            (omega (arith, length-append pre front)) refl

    tail1 : drop offset bytes ≡ be64 now ++ (be32 (length msg % 2 ^ 32) ++ (msg ++ rest))
    tail1 = rw e (drop-append_self pre (frame now msg ++ rest))

unpack_loop_lem :
    (now fuel : ℕ) (msgs : List (List ℕ)) (pre rest : List ℕ) (len offset : ℕ)
    → Small msgs
    → offset ≡ length pre
    → offset + framed_size msgs ≡ len
    → framed_size msgs ≤ fuel
    → unpack_loop fuel (pre ++ (frames now msgs ++ rest)) len offset ≡ ok msgs
unfolding unpack_loop
unpack_loop_lem now zero [] pre rest len offset s e l f = rw (ltb-false offset len (omega arith))
unpack_loop_lem now (suc fuel) [] pre rest len offset s e l f =
    rw (ltb-false offset len (omega arith))
unpack_loop_lem now zero (msg ∷ msgs) pre rest len offset s e l f = absurd (omega arith)
unpack_loop_lem now (suc fuel) (msg ∷ msgs) pre rest len offset s e l f =
    let ih =
      unpack_loop_lem now fuel msgs (pre ++ frame now msg) rest len (offset + 12 + length msg) s.1
        (omega (arith, length-append pre (frame now msg))) (omega arith) (omega arith) in
    rw
      (
        lt→ltb offset len (omega arith),
        append_assoc (frame now msg) (frames now msgs) rest,
        unpack_one_lem now pre msg (frames now msgs ++ rest) len offset s.0 e (omega arith),
      )
      (rw (← append_assoc pre (frame now msg) (frames now msgs ++ rest), ih))

-- UnpackBatch gives back the messages of an encoding, whatever the clock said and whatever stands
-- behind the encoding in the buffer.
pub unpack_batch-encoding :
    (now : ℕ) (msgs : List (List ℕ)) (rest : List ℕ)
    → Small msgs
    → unpack_batch (encoding now msgs ++ rest) (batch_size msgs) ≡ ok msgs
unfolding unpack_batch decode_cmd_header
unpack_batch-encoding now msgs rest s = rw (
  le→leb 12 (batch_size msgs) (omega arith),
  le→leb 12 (length (encoding now msgs ++ rest)) (omega arith),
  uint32-be32 cmd_post_send (be32 0 ++ (be32 0 ++ (frames now msgs ++ rest))),
  unpack_loop_lem now (batch_size msgs) msgs header rest (batch_size msgs) 12 s refl refl
      (omega arith),
)

-- The round trip of the wire format: for messages shorter than 2 ^ 32 bytes and a buffer with room
-- for the batch, PackBatch succeeds, and UnpackBatch of the buffer that it filled, with the length
-- that it returned, gives exactly these messages in their order.
pub unpack_batch-pack_batch :
    (now : ℕ) (msgs : List (List ℕ)) (buf : List ℕ)
    → batch_size msgs ≤ length buf
    → Small msgs
    → (pack_batch now buf msgs >>= λ r. unpack_batch r.0 r.1) ≡ ok msgs
unpack_batch-pack_batch now msgs buf h s =
    rw (pack_batch-eq-encoding now msgs buf h)
      (unpack_batch-encoding now msgs (drop (batch_size msgs) buf) s)
