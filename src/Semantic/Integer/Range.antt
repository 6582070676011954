-- ===== src/Semantic/Integer/Range.antt =====
-- Results stay in 64 bits, and which operands have no result.
use ptx_frontend.Common.{
  ℕ, ◌-◌, ◌/◌, ◌^◌, ◌≤◌, ◌<◌, ◌≡◌, ◌↔◌, subst, Bool, true, false, not, ◌&&◌, inl, inr, Option, none,
  some, arith, leb, ◌==◌, Bool-cases,
}
use ptx_frontend.Common.Bits.{bit_and-lt, bit_or-lt, bit_xor-lt}
use ptx_frontend.Semantic.Integer.{
  IntegerType, signed, unsigned, IntegerValue, BinaryOperator, multiply, divide, remainder, add,
  subtract, shift_left, shift_right, bitwise_and, bitwise_xor, bitwise_or, is_negative_bits,
  magnitude, negate_bits, xor, to_nat, is_unsigned, is_negative, ones_above, shift_right_value,
  evaluate_shift, divide_bits, evaluate_converted, evaluate_integer_binary, usual_integer_type,
}

abbrev pub IsWord : ℕ → Type 0
IsWord b = b < 2 ^ 64

to_nat-le : (b : Bool) → to_nat b ≤ 1
to_nat-le b = ground arith

div-le : (a b : ℕ) → a / b ≤ a
div-le a b = grind arith

pub negate_bits-IsWord : (b : ℕ) → IsWord (negate_bits b)
negate_bits-IsWord b = omega arith

magnitude-IsWord : (b : ℕ) → IsWord b → IsWord (magnitude b)
magnitude-IsWord b h = ground arith

divide_bits-IsWord : (t : IntegerType) (l r : ℕ) → IsWord l → IsWord (divide_bits t l r)
unfolding divide_bits
divide_bits-IsWord unsigned l r h = omega (arith, div-le l r)
divide_bits-IsWord signed l r h =
    let q = magnitude l / magnitude r in
    let small : q < 2 ^ 64 =
      omega (arith, div-le (magnitude l) (magnitude r), magnitude-IsWord l h) in
    elim (Bool-cases (xor (is_negative_bits l) (is_negative_bits r))) [
      | inl e ↦ rw e (negate_bits-IsWord q)
      | inr e ↦ rw e small
    ]

shift_right_value-IsWord :
    (v : IntegerValue) (k : ℕ) → IsWord v.bits → IsWord (shift_right_value v k)
unfolding shift_right_value
shift_right_value-IsWord v k h =
    let small : v.bits / 2 ^ k < 2 ^ 64 = omega (arith, div-le v.bits (2 ^ k)) in
    elim (Bool-cases (not (is_unsigned v.type) && (not (k == 0) && is_negative v))) [
      | inl e ↦ rw e (bit_or-lt 64 (v.bits / 2 ^ k) (ones_above (64 - k)) small (omega arith))
      | inr e ↦ rw e small
    ]

abbrev WordOption : Option IntegerValue → Type 0
WordOption none = Unit {0}
WordOption (some v) = IsWord v.bits

evaluate_shift-IsWord :
    (left : Bool) (l r : IntegerValue) → IsWord l.bits → WordOption (evaluate_shift left l r)
unfolding evaluate_shift
evaluate_shift-IsWord left l r h = elim (Bool-cases (leb 64 r.bits)) [
  | inl e ↦ rw e tt
  | inr e ↦ elim (Bool-cases left) [
    | inl f ↦ rw (e, f) (omega arith)
    | inr f ↦ rw (e, f) (shift_right_value-IsWord l r.bits h)
  ]
]

evaluate_converted-IsWord :
    (op : BinaryOperator) (t : IntegerType) (l r : ℕ)
    → IsWord l
    → IsWord r
    → WordOption (evaluate_converted op t l r)
unfolding evaluate_converted
evaluate_converted-IsWord bitwise_and t l r h k = bit_and-lt 64 l r h k
evaluate_converted-IsWord bitwise_or t l r h k = bit_or-lt 64 l r h k
evaluate_converted-IsWord bitwise_xor t l r h k = bit_xor-lt 64 l r h k
evaluate_converted-IsWord remainder t l r h k = ground arith
evaluate_converted-IsWord divide t l r h k = elim (Bool-cases (r == 0)) [
  | inl e ↦ rw e tt
  | inr e ↦ rw e (divide_bits-IsWord t l r h)
]
evaluate_converted-IsWord shift_left t l r h k = tt
evaluate_converted-IsWord shift_right t l r h k = tt
evaluate_converted-IsWord add t l r h k = omega arith
evaluate_converted-IsWord subtract t l r h k = omega arith
evaluate_converted-IsWord multiply t l r h k = omega arith
evaluate_converted-IsWord _ t l r h k = omega (arith, to_nat-le _)

-- The evaluation of words gives words.
pub evaluate_integer_binary-IsWord :
    (op : BinaryOperator) (l r v : IntegerValue)
    → IsWord l.bits
    → IsWord r.bits
    → evaluate_integer_binary op l r ≡ some v
    → IsWord v.bits
unfolding evaluate_integer_binary
evaluate_integer_binary-IsWord shift_left l r v h k e =
    subst WordOption e (evaluate_shift-IsWord true l r h)
evaluate_integer_binary-IsWord shift_right l r v h k e =
    subst WordOption e (evaluate_shift-IsWord false l r h)
evaluate_integer_binary-IsWord op l r v h k e =
    subst WordOption e (evaluate_converted-IsWord op (usual_integer_type l r) l.bits r.bits h k)

-- The operands for which an operator has no result.
abbrev pub HasNoResult : BinaryOperator → ℕ → Type 0
HasNoResult shift_left r = 64 ≤ r
HasNoResult shift_right r = 64 ≤ r
HasNoResult divide r = r ≡ 0
HasNoResult remainder r = r ≡ 0
HasNoResult _ r = ⊥

-- Evaluation fails exactly on a shift by 64 or more and on a division or remainder by zero.
pub evaluate_integer_binary-none :
    (op : BinaryOperator) (l r : IntegerValue)
    → (evaluate_integer_binary op l r ≡ none) ↔ HasNoResult op r.bits
unfolding evaluate_integer_binary
evaluate_integer_binary-none shift_left l r = ground arith
evaluate_integer_binary-none shift_right l r = ground arith
evaluate_integer_binary-none divide l r = ground arith
evaluate_integer_binary-none remainder l r = ground arith
evaluate_integer_binary-none _ l r = (λ h. cc h, λ h. absurd h)
