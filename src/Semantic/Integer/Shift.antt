-- ===== src/Semantic/Integer/Shift.antt =====
-- The shift to the right is division by a power of two, rounded toward minus infinity.
use Prim.Native.Nat.{bit_or}
use native.Mathlib.Nat.{zero-add, suc-add, div-eq_of_lt-le, div-add-mod, mod-lt}
use ptx_frontend.Common.{
  ℕ, zero, suc, ◌+◌, ◌-◌, ◌*◌, ◌/◌, ◌%◌, ◌^◌, ◌≤◌, ◌<◌, ◌≡◌, refl, sym, ap, subst, ◌∙◌, inl, inr,
  some, arith, ltb, Bool-cases,
}
use ptx_frontend.Common.Bits.{bit_or-eq-add, pow_pos, double}
use ptx_frontend.Common.Int.{ℤ, pos, negsuc}
use ptx_frontend.Semantic.Integer.{
  IntegerType, signed, unsigned, IntegerValue, integer, shift_right, signed_of, as_signed,
  is_negative, ones_above, shift_right_value, evaluate_shift, evaluate_integer_binary,
}
use ptx_frontend.Semantic.Integer.Range.{IsWord}
use ptx_frontend.Semantic.Integer.Order.{value}

-- Division by `d`, rounded down.
abbrev pub floor_div : ℤ → ℕ → ℤ
floor_div (pos n) d = pos (n / d)
floor_div (negsuc n) d = negsuc (n / d)

power_split : (a b : ℕ) → 2 ^ (a + b) ≡ 2 ^ a * 2 ^ b
power_split zero b = rw zero-add (omega arith)
power_split (suc a) b =
    let twice = ap (λ (t : ℕ). t * 2 ^ b) (double a) in
    rw suc-add (omega (arith, double (a + b), power_split a b))

word_split : (k : ℕ) → k ≤ 64 → 2 ^ k * 2 ^ (64 - k) ≡ 2 ^ 64
word_split k h =
    let all : k + (64 - k) ≡ 64 = omega arith in
    sym (power_split k (64 - k)) ∙ ap (λ (n : ℕ). 2 ^ n) all

-- With P * Q = 2 ^ 64 and P = m + 1: the high bits that are filled in, and what the result stands for.
module _ (m q b : ℕ) (split : m * q + q ≡ 2 ^ 64) (q_pos : 0 < q) (hb : b < 2 ^ 64) where
  divided : b ≡ m * (b / suc m) + b / suc m + b % suc m
  divided = let h : suc m * (b / suc m) + b % suc m ≡ b = div-add-mod b (suc m) in omega (arith, h)

  modulus_split : q * suc m ≡ 2 ^ 64
  modulus_split = omega arith

  quotient-lt : b / suc m < q
  quotient-lt = let d : suc m * q ≡ 2 ^ 64 = omega arith in grind (arith, d)

  ones : (2 ^ 64 - 1) * q % 2 ^ 64 ≡ m * q
  ones = omega arith

  negated : (2 ^ 64 - b - 1) / suc m ≡ 2 ^ 64 - (b / suc m + m * q) - 1
  negated =
      let r : b % suc m < suc m = mod-lt b (omega arith) in
      let u = q - b / suc m - 1 in
      let sum : q ≡ b / suc m + u + 1 = omega (arith, quotient-lt) in
      let mq : m * q ≡ m * (b / suc m) + m * u + m = ap (λ (x : ℕ). m * x) sum ∙ omega arith in
      let here : 2 ^ 64 - (b / suc m + m * q) - 1 ≡ u = omega arith in
      let lo : u * suc m ≤ 2 ^ 64 - b - 1 = omega (arith, divided) in
      let hi : 2 ^ 64 - b - 1 < (u + 1) * suc m = omega (arith, divided) in
      div-eq_of_lt-le (suc m) lo hi ∙ sym here

pow_suc : (k : ℕ) → 2 ^ k ≡ suc (2 ^ k - 1)
pow_suc k = omega (arith, pow_pos k)

mul_ge : (m q : ℕ) → 0 < m → q ≤ m * q
mul_ge (suc m) q h = omega arith
mul_ge zero q h = absurd (omega arith)

-- What a shift of a negative word leaves, for an amount that is not zero.
module _ (k b : ℕ) (hk : k < 64) (k_pos : 0 < k) (hb : b < 2 ^ 64) where
  split_here : (2 ^ k - 1) * 2 ^ (64 - k) + 2 ^ (64 - k) ≡ 2 ^ 64
  split_here =
      let all : suc (2 ^ k - 1) * 2 ^ (64 - k) ≡ 2 ^ 64 =
        subst (λ (n : ℕ). n * 2 ^ (64 - k) ≡ 2 ^ 64) (pow_suc k) (word_split k (omega arith)) in
      omega arith

  filled : bit_or (b / 2 ^ k) (ones_above (64 - k)) ≡ b / 2 ^ k + (2 ^ k - 1) * 2 ^ (64 - k)
  filled =
      let small : b / 2 ^ k < 2 ^ (64 - k) =
        subst (λ (n : ℕ). b / n < 2 ^ (64 - k)) (sym (pow_suc k))
          (quotient-lt (2 ^ k - 1) (2 ^ (64 - k)) b split_here (pow_pos (64 - k)) hb) in
      ap (bit_or (b / 2 ^ k)) (ones (2 ^ k - 1) (2 ^ (64 - k)) b split_here (pow_pos (64 - k)) hb)
      ∙ bit_or-eq-add (64 - k) (b / 2 ^ k) (2 ^ k - 1) small

  floored : (2 ^ 64 - b - 1) / 2 ^ k ≡ 2 ^ 64 - bit_or (b / 2 ^ k) (ones_above (64 - k)) - 1
  floored =
      let here = negated (2 ^ k - 1) (2 ^ (64 - k)) b split_here (pow_pos (64 - k)) hb in
      subst (λ (n : ℕ). (2 ^ 64 - b - 1) / n ≡ 2 ^ 64 - (b / n + (2 ^ k - 1) * 2 ^ (64 - k)) - 1)
        (sym (pow_suc k)) here
      ∙ ap (λ (n : ℕ). 2 ^ 64 - n - 1) (sym filled)

  stays_negative : 2 ^ 63 ≤ bit_or (b / 2 ^ k) (ones_above (64 - k))
  stays_negative =
      let back : k ≡ suc (k - 1) = omega arith in
      let two : 2 ≤ 2 ^ k =
        subst (λ (n : ℕ). 2 ≤ 2 ^ n) (sym back) (omega (arith, double (k - 1), pow_pos (k - 1))) in
      let more : 2 ^ (64 - k) ≤ (2 ^ k - 1) * 2 ^ (64 - k) =
        mul_ge (2 ^ k - 1) (2 ^ (64 - k)) (omega arith) in
      rw filled (omega (arith, split_here))

pub signed_small : (b : ℕ) → b < 2 ^ 63 → signed_of b ≡ pos b
signed_small b h = ground arith

pub signed_large : (b : ℕ) → 2 ^ 63 ≤ b → signed_of b ≡ negsuc (2 ^ 64 - b - 1)
signed_large b h = ground arith

shift_small :
    (t : IntegerType) (k b : ℕ) → b < 2 ^ 63 → shift_right_value (integer b t) k ≡ b / 2 ^ k
unfolding shift_right_value is_negative as_signed
shift_small t k b h = ground arith

shift_unsigned : (k b : ℕ) → shift_right_value (integer b unsigned) k ≡ b / 2 ^ k
unfolding shift_right_value
shift_unsigned k b = refl

shift_large :
    (k b : ℕ)
    → 2 ^ 63 ≤ b
    → b < 2 ^ 64
    → shift_right_value (integer b signed) (suc k)
      ≡ bit_or (b / 2 ^ suc k) (ones_above (64 - suc k))
unfolding shift_right_value is_negative as_signed
shift_large k b h w = ground arith

shift_zero : (t : IntegerType) (b : ℕ) → shift_right_value (integer b t) 0 ≡ b
unfolding shift_right_value
shift_zero unsigned b = omega arith
shift_zero signed b = omega arith

large_shifted :
    (k b : ℕ)
    → k < 64
    → 2 ^ 63 ≤ b
    → b < 2 ^ 64
    → signed_of (shift_right_value (integer b signed) k) ≡ floor_div (signed_of b) (2 ^ k)
large_shifted zero b hk large hb =
    rw (shift_zero signed b, signed_large b large) (ap negsuc (omega arith))
large_shifted (suc k) b hk large hb =
    let n = stays_negative (suc k) b hk (omega arith) hb in
    rw
      (
        shift_large k b large hb,
        signed_large b large,
        signed_large (bit_or (b / 2 ^ suc k) (ones_above (64 - suc k))) n,
      )
      (ap negsuc (sym (floored (suc k) b hk (omega arith) hb)))

small_shifted :
    (k b : ℕ)
    → b < 2 ^ 63
    → signed_of (shift_right_value (integer b signed) k) ≡ floor_div (signed_of b) (2 ^ k)
small_shifted k b small =
    let less : b / 2 ^ k < 2 ^ 63 = omega arith in
    rw (shift_small signed k b small, signed_small b small, signed_small (b / 2 ^ k) less) refl

shifted_signed :
    (k b : ℕ)
    → k < 64
    → b < 2 ^ 64
    → signed_of (shift_right_value (integer b signed) k) ≡ floor_div (signed_of b) (2 ^ k)
shifted_signed k b hk hb = elim (Bool-cases (ltb b (2 ^ 63))) [
  | inl e ↦ small_shifted k b (ground arith)
  | inr e ↦ large_shifted k b hk (ground arith) hb
]

shifted :
    (t : IntegerType) (k b : ℕ)
    → k < 64
    → b < 2 ^ 64
    → value t (shift_right_value (integer b t) k) ≡ floor_div (value t b) (2 ^ k)
shifted signed k b hk hb = shifted_signed k b hk hb
shifted unsigned k b hk hb = ap pos (shift_unsigned k b)

-- For an amount below 64 the shift to the right of a word of either type succeeds, keeps the type of
-- the left operand, and its result stands for the left integer divided by the power of two, rounded
-- toward minus infinity.
pub evaluate_integer_binary-shift_right :
    (left right : IntegerValue)
    → IsWord left.bits
    → right.bits < 64
    → (v : IntegerValue) × (evaluate_integer_binary shift_right left right ≡ some v)
      × (v.type ≡ left.type)
      × (value v.type v.bits ≡ floor_div (value left.type left.bits) (2 ^ right.bits))
unfolding evaluate_integer_binary evaluate_shift
evaluate_integer_binary-shift_right left right w h = (
  integer (shift_right_value left right.bits) left.type,
  ground arith,
  refl,
  shifted left.type right.bits left.bits h w,
)
