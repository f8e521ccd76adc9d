-- ===== src/Go/Word.antt =====
-- Machine words as bit patterns: an `int32`, `int64` or `uint64` of Go is a number below 2 ^ 32 or
-- 2 ^ 64, in two's complement where it is signed.
use golinker.Base.{ℕ, ◌+◌, ◌-◌, ◌%◌, ◌^◌, ◌<◌, ◌≡◌, Bool, ◌&&◌, arith, ltb, leb}

-- `x.Add(1)` and `x.Add(-1)` on an atomic.Int32.
unfoldable pub inc32 : ℕ → ℕ
inc32 n = (n + 1) % 2 ^ 32

unfoldable pub dec32 : ℕ → ℕ
dec32 n = (n + 2 ^ 32 - 1) % 2 ^ 32

-- On an int64 counter or an atomic.Uint64.
unfoldable pub inc64 : ℕ → ℕ
inc64 n = (n + 1) % 2 ^ 64

unfoldable pub dec64 : ℕ → ℕ
dec64 n = (n + 2 ^ 64 - 1) % 2 ^ 64

unfoldable pub add64 : ℕ → ℕ → ℕ
add64 n k = (n + k) % 2 ^ 64

-- `x >= t` for an int64 x and a threshold t that is not negative.
unfoldable pub int64_ge : ℕ → ℕ → Bool
int64_ge x t = ltb x (2 ^ 63) && leb t x

pub dec32-inc32 : (n : ℕ) → n < 2 ^ 32 → dec32 (inc32 n) ≡ n
unfolding dec32 inc32
dec32-inc32 n h = omega arith

pub dec64-inc64 : (n : ℕ) → n < 2 ^ 64 → dec64 (inc64 n) ≡ n
unfolding dec64 inc64
dec64-inc64 n h = omega arith

pub inc64_small : (n : ℕ) → n + 1 < 2 ^ 64 → inc64 n ≡ n + 1
unfolding inc64
inc64_small n h = omega arith

pub dec64_pos : (n : ℕ) → 0 < n → n < 2 ^ 64 → dec64 n ≡ n - 1
unfolding dec64
dec64_pos n p h = omega arith

pub inc32_small : (n : ℕ) → n + 1 < 2 ^ 32 → inc32 n ≡ n + 1
unfolding inc32
inc32_small n h = omega arith

pub dec32_pos : (n : ℕ) → 0 < n → n < 2 ^ 32 → dec32 n ≡ n - 1
unfolding dec32
dec32_pos n p h = omega arith
