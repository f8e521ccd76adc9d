-- ===== src/Message/Wire.antt =====
-- pkg/message/wire.go. `now` is the clock's reading, `uint64(time.Now().UnixNano())`. A slice
-- expression that Go would refuse at run time is `panic`.
use golinker.Base.{
  ℕ, zero, suc, ◌+◌, ◌*◌, ◌%◌, ◌^◌, List, [], ◌∷◌, leb, ltb, ◌==◌, if◌then◌else◌, length, drop,
}
use golinker.Errors.{
  Result, ok, diverge, in_bounds, require, ◌>>=◌, ◌>>◌, invalid_batch, unknown_command,
}
use golinker.Go.Slice.{write_at, slice}
use golinker.Message.Bytes.{put_uint32, put_uint64, uint32}

abbrev pub cmd_header_size : ℕ
cmd_header_size = 12

abbrev pub app_header_size : ℕ
app_header_size = 12

abbrev pub cmd_post_send : ℕ
cmd_post_send = 230

-- The header at `buf[off:]`: the command, and 8 reserved bytes that are cleared.
unfoldable pub encode_cmd_header : List ℕ → ℕ → ℕ → Result (List ℕ)
encode_cmd_header buf off cmd = do
  buf ← put_uint32 buf off cmd
  buf ← put_uint32 buf (off + 4) 0
  put_uint32 buf (off + 8) 0

unfoldable pub decode_cmd_header : List ℕ → Result ℕ
decode_cmd_header buf = do require (leb cmd_header_size (length buf)) invalid_batch; uint32 buf

unfoldable pub encode_app_header : List ℕ → ℕ → ℕ → ℕ → Result (List ℕ)
encode_app_header buf off timestamp size = do
  buf ← put_uint64 buf off timestamp
  put_uint32 buf (off + 8) size

-- The timestamp is `binary.BigEndian.Uint64(buf[0:8])`: its two halves.
unfoldable pub decode_app_header : List ℕ → Result (ℕ × ℕ)
decode_app_header buf = do
  require (leb app_header_size (length buf)) invalid_batch
  high ← uint32 buf
  low ← uint32 (drop 4 buf)
  size ← uint32 (drop 8 buf)
  ok (high * 2 ^ 32 + low, size)

-- The loop of PackBatch: the buffer and the offset after the messages. `uint32(len(msg))` wraps.
unfoldable pub pack_messages : ℕ → List (List ℕ) → List ℕ → ℕ → Result (List ℕ × ℕ)
pack_messages now [] buf offset = ok (buf, offset)
pack_messages now (msg ∷ msgs) buf offset = do
  in_bounds (leb offset (length buf))
  buf ← encode_app_header buf offset now (length msg % 2 ^ 32)
  in_bounds (leb (offset + app_header_size) (length buf))
  pack_messages now msgs (write_at (offset + app_header_size) msg buf)
      (offset + app_header_size + length msg)

unfoldable pub pack_batch : ℕ → List ℕ → List (List ℕ) → Result (List ℕ × ℕ)
pack_batch now buf messages = do
  buf ← encode_cmd_header buf 0 cmd_post_send
  pack_messages now messages buf cmd_header_size

unfoldable pub pack_single : ℕ → List ℕ → List ℕ → Result (List ℕ × ℕ)
unfolding pack_batch
pack_single now buf msg = pack_batch now buf (msg ∷ [])

-- One round of the loop of UnpackBatch: the next offset and the payload.
unfoldable pub unpack_one : List ℕ → ℕ → ℕ → Result (ℕ × List ℕ)
unpack_one bytes len offset = do
  require (leb (offset + app_header_size) len) invalid_batch
  in_bounds (leb offset (length bytes))
  (_, size) ← decode_app_header (drop offset bytes)
  require (leb (offset + app_header_size + size) len) invalid_batch
  in_bounds (leb (offset + app_header_size + size) (length bytes))
  ok (
    offset + app_header_size + size,
    slice bytes (offset + app_header_size) (offset + app_header_size + size),
  )

-- `for offset < length`. A round advances by 12 at least, so `length` rounds are enough.
unfoldable pub unpack_loop : ℕ → List ℕ → ℕ → ℕ → Result (List (List ℕ))
unpack_loop zero bytes len offset = if ltb offset len then diverge else ok []
unpack_loop (suc fuel) bytes len offset =
    let more = unpack_one bytes len offset >>= λ r.
    unpack_loop fuel bytes len r.0 >>= λ msgs. ok (r.1 ∷ msgs) in
    if ltb offset len then more else ok []

unfoldable pub unpack_batch : List ℕ → ℕ → Result (List (List ℕ))
unpack_batch bytes len = do
  require (leb cmd_header_size len) invalid_batch
  cmd ← decode_cmd_header bytes
  require (cmd == cmd_post_send) unknown_command
  unpack_loop len bytes len cmd_header_size

-- The loop of BatchSize.
abbrev pub framed_size : List (List ℕ) → ℕ
framed_size [] = 0
framed_size (msg ∷ msgs) = app_header_size + length msg + framed_size msgs

abbrev pub batch_size : List (List ℕ) → ℕ
batch_size messages = cmd_header_size + framed_size messages
