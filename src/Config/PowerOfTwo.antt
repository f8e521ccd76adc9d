-- ===== src/Config/PowerOfTwo.antt =====
-- The test `n & (n-1) == 0` of pkg/config/config.go, for every n.
use Prim.Native.Nat.{bit_and, digits, bit_and-bitwise}
use golinker.Base.{
  ℕ, zero, suc, ◌+◌, ◌-◌, ◌*◌, ◌/◌, ◌%◌, ◌^◌, ◌≤◌, ◌<◌, min, ◌≡◌, ◌↔◌, refl, ap, ◌∙◌, sym, arith,
  ◌⊎◌, inl, inr,
}
use native.Mathlib.Decide.{ℕ_discrete}
use native.Mathlib.Nat.{pow-suc}

-- `bit_and` by its digits, with any sufficient number of rounds.
rounds : ℕ → ℕ → ℕ → ℕ
rounds n a b = digits (λ b. zero) min n a b

rounds-eq : (i j a b : ℕ) → a ≤ i → a ≤ j → rounds i a b ≡ rounds j a b
unfolding rounds
rounds-eq zero zero a b p q = refl
rounds-eq (suc i) (suc j) (suc a) b p q =
    omega (arith, rounds-eq i j (suc a / 2) (b / 2) (omega arith) (omega arith))
rounds-eq (suc i) (suc j) zero b p q = refl
rounds-eq zero (suc j) zero b p q = refl
rounds-eq zero (suc j) (suc a) b p q = absurd (omega arith)
rounds-eq (suc i) zero zero b p q = refl
rounds-eq (suc i) zero (suc a) b p q = absurd (omega arith)

-- The lowest digit split off.
low_digit : (a b : ℕ) → bit_and a b ≡ bit_and (a / 2) (b / 2) * 2 + min (a % 2) (b % 2)
unfolding rounds
low_digit zero b = omega (arith, bit_and-bitwise 0 b, bit_and-bitwise 0 (b / 2))
low_digit (suc a) b = omega (
  arith,
  bit_and-bitwise (suc a) b,
  bit_and-bitwise (suc a / 2) (b / 2),
  rounds-eq a (suc a / 2) (suc a / 2) (b / 2) (omega arith) (omega arith),
)

bit_and_self : (fuel n : ℕ) → n ≤ fuel → bit_and n n ≡ n
bit_and_self fuel zero h = refl
bit_and_self zero (suc n) h = absurd (omega arith)
bit_and_self (suc fuel) (suc n) h =
    omega (arith, low_digit (suc n) (suc n), bit_and_self fuel (suc n / 2) (omega arith))

even_step : (m : ℕ) → 0 < m → bit_and (2 * m) (2 * m - 1) ≡ bit_and m (m - 1) * 2
even_step m h =
    let left : 2 * m / 2 ≡ m = omega arith in
    let right : (2 * m - 1) / 2 ≡ m - 1 = omega arith in
    low_digit (2 * m) (2 * m - 1)
    ∙ ap (λ k. bit_and k ((2 * m - 1) / 2) * 2 + min (2 * m % 2) ((2 * m - 1) % 2)) left
    ∙ ap (λ k. bit_and m k * 2 + min (2 * m % 2) ((2 * m - 1) % 2)) right
    ∙ omega arith

odd_step : (m : ℕ) → bit_and (2 * m + 1) (2 * m) ≡ m * 2
odd_step m =
    let left : (2 * m + 1) / 2 ≡ m = omega arith in
    let right : 2 * m / 2 ≡ m = omega arith in
    low_digit (2 * m + 1) (2 * m)
    ∙ ap (λ k. bit_and k (2 * m / 2) * 2 + min ((2 * m + 1) % 2) (2 * m % 2)) left
    ∙ ap (λ k. bit_and m k * 2 + min ((2 * m + 1) % 2) (2 * m % 2)) right
    ∙ omega (arith, bit_and_self m m (omega arith))

pub pow-pos : (k : ℕ) → 0 < 2 ^ k
pow-pos zero = omega arith
pow-pos (suc k) = omega (arith, pow-suc 2 k, pow-pos k)

double : (k : ℕ) → 2 ^ suc k ≡ 2 * 2 ^ k
double k = omega (arith, pow-suc 2 k)

pow_passes : (k : ℕ) → bit_and (2 ^ k) (2 ^ k - 1) ≡ 0
pow_passes zero = refl
pow_passes (suc k) =
    rw (double k) (even_step (2 ^ k) (pow-pos k) ∙ ap (λ n. n * 2) (pow_passes k) ∙ omega arith)

parity : (n : ℕ) → (n ≡ 2 * (n / 2)) ⊎ (n ≡ 2 * (n / 2) + 1)
parity n = elim (ℕ_discrete (n % 2) 0) [ yes e ↦ inl (omega arith) | no e ↦ inr (omega arith) ]

passes_pow : (fuel n : ℕ) → n ≤ fuel → 0 < n → bit_and n (n - 1) ≡ 0 → (k : ℕ) × (n ≡ 2 ^ k)
passes_pow zero n h p e = absurd (omega arith)
passes_pow (suc fuel) n h p e = elim (parity n) [
  | inl even ↦
      let half : bit_and (n / 2) (n / 2 - 1) * 2 ≡ 0 =
        sym (even_step (n / 2) (omega arith)) ∙ ap (λ m. bit_and m (m - 1)) (sym even) ∙ e in
      let (k, q) = passes_pow fuel (n / 2) (omega arith) (omega arith) (omega arith) in
      (suc k, omega (arith, double k))
  | inr odd ↦
      let back : 2 * (n / 2) + 1 - 1 ≡ 2 * (n / 2) = omega arith in
      let none_left : n / 2 * 2 ≡ 0 =
        sym (odd_step (n / 2))
        ∙ ap (bit_and (2 * (n / 2) + 1)) (sym back)
        ∙ ap (λ m. bit_and m (m - 1)) (sym odd)
        ∙ e in
      (0, omega arith)
]

-- A positive number passes the test exactly when it is a power of two.
pub power_of_two_iff : (n : ℕ) → 0 < n → (bit_and n (n - 1) ≡ 0) ↔ ((k : ℕ) × (n ≡ 2 ^ k))
power_of_two_iff n p =
    (passes_pow n n (omega arith) p, λ w. ap (λ m. bit_and m (m - 1)) w.1 ∙ pow_passes w.0)
