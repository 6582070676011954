-- ===== src/Common/Bits.antt =====
-- The bit operations of the language at variables: their bounds, and `|` of disjoint digits.
use Prim.Native.Nat.{
  min, max, bit_and, bit_or, bit_xor, digits, differ, bit_and-bitwise, bit_or-bitwise,
  bit_xor-bitwise,
}
use native.Mathlib.Nat.{pow-suc}
use ptx_frontend.Common.{ℕ, zero, suc, ◌+◌, ◌*◌, ◌/◌, ◌%◌, ◌^◌, ◌≤◌, ◌<◌, ◌≡◌, ◌∙◌, arith}

pub double : (k : ℕ) → 2 ^ suc k ≡ 2 * 2 ^ k
double k = rw pow-suc (omega arith)

pub pow_pos : (k : ℕ) → 0 < 2 ^ k
pow_pos zero = omega arith
pow_pos (suc k) = omega (arith, double k, pow_pos k)

module _ (z : ℕ → ℕ) (f : ℕ → ℕ → ℕ) (z-le : (b : ℕ) → z b ≤ b)
    (f-le : (x y : ℕ) → x ≤ 1 → y ≤ 1 → f x y ≤ 1) where
  digits-lt : (k n a b : ℕ) → a < 2 ^ k → b < 2 ^ k → digits z f n a b < 2 ^ k
  digits-lt k zero a b p q = omega (arith, z-le b)
  digits-lt k (suc n) zero b p q = omega (arith, z-le b)
  digits-lt zero (suc n) (suc a) b p q = absurd (omega arith)
  digits-lt (suc k) (suc n) (suc a) b p q =
      let twice = double k in
      let high = digits-lt k n (suc a / 2) (b / 2) (omega arith) (omega arith) in
      omega (arith, f-le (suc a % 2) (b % 2) (omega arith) (omega arith))

pub bit_and-lt : (k a b : ℕ) → a < 2 ^ k → b < 2 ^ k → bit_and a b < 2 ^ k
bit_and-lt k a b p q =
    rw bit_and-bitwise
      (digits-lt (λ b. zero) min (λ b. omega arith) (λ x y h k. omega arith) k a a b p q)

pub bit_or-lt : (k a b : ℕ) → a < 2 ^ k → b < 2 ^ k → bit_or a b < 2 ^ k
bit_or-lt k a b p q =
    rw bit_or-bitwise
      (digits-lt (λ b. b) max (λ b. omega arith) (λ x y h k. omega arith) k a a b p q)

differ-le : (x y : ℕ) → x ≤ 1 → y ≤ 1 → differ x y ≤ 1
differ-le zero y h k = k
differ-le (suc x) zero h k = h
differ-le (suc x) (suc y) h k = differ-le x y (omega arith) (omega arith)

pub bit_xor-lt : (k a b : ℕ) → a < 2 ^ k → b < 2 ^ k → bit_xor a b < 2 ^ k
bit_xor-lt k a b p q =
    rw bit_xor-bitwise (digits-lt (λ b. b) differ (λ b. omega arith) differ-le k a a b p q)

digits-or : (k n a c : ℕ) → a < 2 ^ k → a ≤ n → digits (λ b. b) max n a (c * 2 ^ k) ≡ a + c * 2 ^ k
digits-or k zero a c p q = omega arith
digits-or k (suc n) zero c p q = omega arith
digits-or zero (suc n) (suc a) c p q = absurd (omega arith)
digits-or (suc k) (suc n) (suc a) c p q =
    let twice : c * 2 ^ suc k ≡ 2 * (c * 2 ^ k) = rw (double k) (omega arith) in
    let below = double k in
    let half : 2 * (c * 2 ^ k) / 2 ≡ c * 2 ^ k = omega arith in
    let even : 2 * (c * 2 ^ k) % 2 ≡ 0 = omega arith in
    let high = digits-or k n (suc a / 2) c (omega arith) (omega arith) in
    rw (twice, half, even, high) (omega arith)

-- The digits below the k-th, and multiples of 2 ^ k, are joined by `|`.
pub bit_or-eq-add : (k a c : ℕ) → a < 2 ^ k → bit_or a (c * 2 ^ k) ≡ a + c * 2 ^ k
bit_or-eq-add k a c h = bit_or-bitwise a (c * 2 ^ k) ∙ digits-or k a a c h (omega arith)
