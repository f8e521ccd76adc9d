-- ===== src/Go/Slice.antt =====
-- Byte slices as lists of numbers below 256, with Go's bounds checks. A slice made by `unsafe.Slice`
-- or `make` has its length for its capacity.
use golinker.Base.{
  ℕ, zero, suc, ◌+◌, ◌-◌, ◌≡◌, refl, ap, ◌∙◌, List, [], ◌∷◌, ◌++◌, arith, length, take, drop,
  drop-append_self, take-append_self,
}

-- `copy(buf[off:], src)` for an offset within the slice: it stops at the end of the slice.
unfoldable pub write_at : ℕ → List ℕ → List ℕ → List ℕ
write_at off src [] = []
write_at zero [] (x ∷ buf) = x ∷ buf
write_at zero (b ∷ src) (x ∷ buf) = b ∷ write_at zero src buf
write_at (suc off) src (x ∷ buf) = x ∷ write_at off src buf

-- `s[from:to]` for bounds that were checked.
abbrev pub slice : List ℕ → ℕ → ℕ → List ℕ
slice s from to = take (to - from) (drop from s)

pub length-write_at : (off : ℕ) (src buf : List ℕ) → length (write_at off src buf) ≡ length buf
unfolding write_at
length-write_at off src [] = refl
length-write_at zero [] (x ∷ buf) = refl
length-write_at zero (b ∷ src) (x ∷ buf) = ap suc (length-write_at zero src buf)
length-write_at (suc off) src (x ∷ buf) = ap suc (length-write_at off src buf)

pub write_at-append :
    (pre src rest : List ℕ) → write_at (length pre) src (pre ++ rest) ≡ pre ++ write_at 0 src rest
unfolding write_at
write_at-append [] src rest = refl
write_at-append (x ∷ pre) src rest = ap (◌∷◌ x) (write_at-append pre src rest)

write_at-nil : (buf : List ℕ) → write_at 0 [] buf ≡ buf
unfolding write_at
write_at-nil [] = refl
write_at-nil (x ∷ buf) = refl

-- A write of as many bytes as `mid` holds replaces `mid`.
pub write_at_mid :
    (src mid rest : List ℕ) → length mid ≡ length src → write_at 0 src (mid ++ rest) ≡ src ++ rest
unfolding write_at
write_at_mid [] [] rest h = write_at-nil rest
write_at_mid [] (x ∷ mid) rest h = absurd (omega arith)
write_at_mid (b ∷ src) [] rest h = absurd (omega arith)
write_at_mid (b ∷ src) (x ∷ mid) rest h = ap (◌∷◌ b) (write_at_mid src mid rest (omega arith))

pub slice_mid :
    (pre mid rest : List ℕ) (i j : ℕ)
    → i ≡ length pre
    → j ≡ i + length mid
    → slice (pre ++ (mid ++ rest)) i j ≡ mid
slice_mid pre mid rest i j e h =
    ap (λ n. take n (drop i (pre ++ (mid ++ rest)))) count
    ∙ ap (λ n. take (length mid) (drop n (pre ++ (mid ++ rest)))) e
    ∙ ap (take (length mid)) (drop-append_self pre (mid ++ rest))
    ∙ take-append_self mid rest
  where
    count : j - i ≡ length mid
    count = omega arith
