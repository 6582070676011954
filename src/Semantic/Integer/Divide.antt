-- ===== src/Semantic/Integer/Divide.antt =====
-- Division truncates toward zero, and the headline statement on the four arithmetic operators.
use ptx_frontend.Common.{
  ℕ, suc, ◌-◌, ◌/◌, ◌%◌, ◌^◌, ◌≡◌, ◌≢◌, ◌⊎◌, inl, inr, refl, ap, ◌∙◌, true, false, some, arith, ltb,
  ◌==◌, Bool-cases,
}
use ptx_frontend.Common.Int.{ℤ, pos, negsuc, sub_ℕ, ◌+ℤ◌, ◌-ℤ◌, ◌*ℤ◌}
use ptx_frontend.Semantic.Integer.{
  IntegerType, signed, unsigned, IntegerValue, integer, BinaryOperator, add, subtract, multiply,
  divide, signed_of, is_negative_bits, magnitude, divide_bits, evaluate_integer_binary,
  usual_integer_type,
}
use ptx_frontend.Semantic.Integer.Range.{IsWord}
use ptx_frontend.Semantic.Integer.Order.{value}
use ptx_frontend.Semantic.Integer.Exact.{add_exact, subtract_exact, multiply_exact}

-- The quotient rounded toward zero.
unfoldable pub quotient : ℤ → ℤ → ℤ
quotient (pos a) (pos b) = pos (a / b)
quotient (pos a) (negsuc b) = sub_ℕ 0 (a / suc b)
quotient (negsuc a) (pos b) = sub_ℕ 0 (suc a / b)
quotient (negsuc a) (negsuc b) = pos (suc a / suc b)

-- The sign and the magnitude of a word, read as a signed number.
record Positive (b : ℕ) : Type 0 where
  sign : is_negative_bits b ≡ false
  size : magnitude b ≡ b
  stands : signed_of b ≡ pos b

record Negative (b : ℕ) : Type 0 where
  below : ℕ
  size_is : suc below ≡ 2 ^ 64 - b
  sign : is_negative_bits b ≡ true
  size : magnitude b ≡ suc below
  stands : signed_of b ≡ negsuc below

sign_cases : (b : ℕ) → IsWord b → Positive b ⊎ Negative b
sign_cases b h = elim (Bool-cases (ltb b (2 ^ 63))) [
  | inl e ↦ inl (record { sign = ground arith; size = ground arith; stands = rw e })
  | inr e ↦ inr (record {
    below = 2 ^ 64 - b - 1;
    size_is = omega arith;
    sign = ground arith;
    size = ground arith;
    stands = rw e;
  })
]

bits_of_pos : (b x : ℕ) → signed_of b ≡ pos x → x ≡ b
bits_of_pos b x e = ground arith

bits_of_neg : (b x : ℕ) → IsWord b → signed_of b ≡ sub_ℕ 0 x → (2 ^ 64 - x) % 2 ^ 64 ≡ b
bits_of_neg b x h e = ground arith

module _ (l r b : ℕ) (hb : IsWord b) (nz : r ≢ 0) where
  divide_signed :
      (Positive l ⊎ Negative l)
      → (Positive r ⊎ Negative r)
      → signed_of b ≡ quotient (signed_of l) (signed_of r)
      → divide_bits signed l r ≡ b
  unfolding divide_bits quotient
  divide_signed (inl p) (inl q) e =
      let exact = bits_of_pos b (l / r) (e ∙ rw (p.stands, q.stands)) in
      rw (p.size, q.size, p.sign, q.sign) exact
  divide_signed (inl p) (inr q) e =
      let exact = bits_of_neg b (l / suc q.below) hb (e ∙ rw (p.stands, q.stands)) in
      rw (p.size, q.size, p.sign, q.sign) exact
  divide_signed (inr p) (inl q) e =
      let exact = bits_of_neg b (suc p.below / r) hb (e ∙ rw (p.stands, q.stands)) in
      rw (p.size, q.size, p.sign, q.sign) exact
  divide_signed (inr p) (inr q) e =
      let exact = bits_of_pos b (suc p.below / suc q.below) (e ∙ rw (p.stands, q.stands)) in
      rw (p.size, q.size, p.sign, q.sign) exact

divide_exact :
    (t : IntegerType) (l r b : ℕ)
    → IsWord l
    → IsWord r
    → IsWord b
    → r ≢ 0
    → value t b ≡ quotient (value t l) (value t r)
    → divide_bits t l r ≡ b
unfolding divide_bits quotient
divide_exact unsigned l r b hl hr hb nz e = ground arith
divide_exact signed l r b hl hr hb nz e =
    divide_signed l r b hb nz (sign_cases l hl) (sign_cases r hr) e

-- The exact result of an arithmetic operator on integers.
abbrev pub IsExact : BinaryOperator → ℤ → ℤ → ℤ → Type 0
IsExact add a b c = c ≡ a +ℤ b
IsExact subtract a b c = c ≡ a -ℤ b
IsExact multiply a b c = c ≡ a *ℤ b
IsExact divide a b c = (b ≢ pos 0) × (c ≡ quotient a b)
IsExact _ a b c = ⊥

value-zero : (t : IntegerType) (r : ℕ) → value t r ≢ pos 0 → r ≢ 0
value-zero unsigned r h e = h (ap pos e)
value-zero signed r h e = h (rw e refl)

-- If a word represents the exact sum, difference, product or truncated quotient of the integers that
-- the operands stand for in their usual type, the evaluation gives that word in that type.
pub evaluate_integer_binary-exact :
    (op : BinaryOperator) (l r : IntegerValue) (b : ℕ)
    → IsWord l.bits
    → IsWord r.bits
    → IsWord b
    → (let t = usual_integer_type l r in IsExact op (value t l.bits) (value t r.bits) (value t b))
    → evaluate_integer_binary op l r ≡ some (integer b (usual_integer_type l r))
unfolding evaluate_integer_binary
evaluate_integer_binary-exact add l r b hl hr hb e =
    rw (add_exact (usual_integer_type l r) l.bits r.bits b hl hr hb e)
evaluate_integer_binary-exact subtract l r b hl hr hb e =
    rw (subtract_exact (usual_integer_type l r) l.bits r.bits b hl hr hb e)
evaluate_integer_binary-exact multiply l r b hl hr hb e =
    rw (multiply_exact (usual_integer_type l r) l.bits r.bits b hl hr hb e)
evaluate_integer_binary-exact divide l r b hl hr hb e =
    let t = usual_integer_type l r in
    let nz = value-zero t r.bits e.0 in
    let test : (r.bits == 0) ≡ false = ground arith in
    rw (test, divide_exact t l.bits r.bits b hl hr hb nz e.1)
evaluate_integer_binary-exact _ l r b hl hr hb e = absurd e
