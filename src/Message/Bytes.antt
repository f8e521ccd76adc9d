-- ===== src/Message/Bytes.antt =====
-- `encoding/binary`'s BigEndian as pkg/message/wire.go uses it: the documented big-endian layout of
-- 32-bit and 64-bit words, with the bounds checks of the slice expressions around the calls.
use golinker.Base.{ℕ, ◌+◌, ◌*◌, ◌/◌, ◌%◌, ◌^◌, ◌≡◌, List, [], ◌∷◌, ◌++◌, arith, leb, length}
use golinker.Errors.{Result, ok, panic, in_bounds, ◌>>◌}
use golinker.Go.Slice.{write_at}

-- The four bytes of a 32-bit word.
abbrev pub be32 : ℕ → List ℕ
be32 v = (v / 2 ^ 24 % 256) ∷ (v / 2 ^ 16 % 256) ∷ (v / 2 ^ 8 % 256) ∷ (v % 256) ∷ []

-- The eight bytes of a 64-bit word, its high half first.
abbrev pub be64 : ℕ → List ℕ
be64 v = be32 (v / 2 ^ 32) ++ be32 v

-- `binary.BigEndian.PutUint32(buf[off:][0:4], v)`
unfoldable pub put_uint32 : List ℕ → ℕ → ℕ → Result (List ℕ)
put_uint32 buf off v = do in_bounds (leb (off + 4) (length buf)); ok (write_at off (be32 v) buf)

-- `binary.BigEndian.PutUint64(buf[off:][0:8], v)`
unfoldable pub put_uint64 : List ℕ → ℕ → ℕ → Result (List ℕ)
put_uint64 buf off v = do in_bounds (leb (off + 8) (length buf)); ok (write_at off (be64 v) buf)

-- `binary.BigEndian.Uint32(buf)` reads `buf[0] .. buf[3]`.
unfoldable pub uint32 : List ℕ → Result ℕ
uint32 (a ∷ b ∷ c ∷ d ∷ rest) = ok (a * 2 ^ 24 + b * 2 ^ 16 + c * 2 ^ 8 + d)
uint32 _ = panic

ok_ap : {a b : ℕ} → a ≡ b → ok a ≡ ok b
ok_ap p = cc

-- Reading back what was written, modulo the width of the word.
pub uint32-be32 : (v : ℕ) (rest : List ℕ) → uint32 (be32 v ++ rest) ≡ ok (v % 2 ^ 32)
unfolding uint32
uint32-be32 v rest = ok_ap (omega arith)
