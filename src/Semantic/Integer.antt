-- ===== src/Semantic/Integer.antt =====
-- submod/semantic/src/ptx_declaration_semantics.cpp: 64-bit integers of constant expressions. A
-- `uint64_t` is a number below 2 ^ 64, its wrap-around written out; an `int64_t` is the integer that
-- its bits stand for.
pub mod Range
pub mod Order
pub mod Exact
pub mod Shift
pub mod Divide
use Prim.Native.Nat.{bit_and, bit_or, bit_xor}
use ptx_frontend.Common.{
  ℕ, zero, suc, ◌+◌, ◌-◌, ◌*◌, ◌/◌, ◌%◌, ◌^◌, ◌≡◌, Bool, true, false, not, ◌&&◌, ◌||◌, Option, none,
  some, Text, ltb, leb, ◌==◌, if◌then◌else◌,
}
use ptx_frontend.Common.Int.{ℤ, pos, negsuc, ltb_ℤ}

pub data IntegerType : Type 0 where
  signed unsigned : IntegerType

pub record IntegerValue : Type 0 where
  pub bits : ℕ
  pub type : IntegerType

abbrev pub integer : ℕ → IntegerType → IntegerValue
integer b t = record { bits = b; type = t }

pub data BinaryOperator : Type 0 where
  multiply divide remainder add subtract shift_left shift_right : BinaryOperator
  less less_equal greater greater_equal equal not_equal : BinaryOperator
  bitwise_and bitwise_xor bitwise_or logical_and logical_or : BinaryOperator

abbrev pub modulus : ℕ
modulus = 2 ^ 64

-- `std::bit_cast<int64_t>`
abbrev pub signed_of : ℕ → ℤ
signed_of b = if ltb b (2 ^ 63) then pos b else negsuc (modulus - b - 1)

unfoldable pub as_signed : IntegerValue → ℤ
as_signed v = signed_of v.bits

unfoldable pub is_negative : IntegerValue → Bool
unfolding as_signed
is_negative v = ltb_ℤ (as_signed v) (pos 0)

abbrev pub to_nat : Bool → ℕ
to_nat true = 1
to_nat false = 0

unfoldable pub signed_boolean : Bool → IntegerValue
signed_boolean b = integer (to_nat b) signed

abbrev pub is_unsigned : IntegerType → Bool
is_unsigned unsigned = true
is_unsigned signed = false

unfoldable pub usual_integer_type : IntegerValue → IntegerValue → IntegerType
usual_integer_type left right =
    if is_unsigned left.type || is_unsigned right.type then unsigned else signed

-- `uint64_t{0} - b`
abbrev pub negate_bits : ℕ → ℕ
negate_bits b = (modulus - b) % modulus

-- `~uint64_t{0} << n`
abbrev ones_above : ℕ → ℕ
ones_above n = (modulus - 1) * 2 ^ n % modulus

unfoldable pub shift_right_value : IntegerValue → ℕ → ℕ
unfolding is_negative
shift_right_value left amount =
    let result = left.bits / 2 ^ amount in
    if not (is_unsigned left.type) && (not (amount == 0) && is_negative left)
    then bit_or result (ones_above (64 - amount))
    else result

-- The two shifts, before the operands are converted.
unfoldable pub evaluate_shift : Bool → IntegerValue → IntegerValue → Option IntegerValue
unfolding shift_right_value
evaluate_shift is_left left right =
    if leb 64 right.bits
    then none
    else if is_left
    then some (integer (left.bits * 2 ^ right.bits % modulus) left.type)
    else some (integer (shift_right_value left right.bits) left.type)

-- The comparisons of converted operands; `false` for the other operators.
unfoldable pub compare_integers : BinaryOperator → IntegerType → ℕ → ℕ → Bool
compare_integers equal t l r = l == r
compare_integers not_equal t l r = not (l == r)
compare_integers less unsigned l r = ltb l r
compare_integers less_equal unsigned l r = leb l r
compare_integers greater unsigned l r = ltb r l
compare_integers greater_equal unsigned l r = leb r l
compare_integers less signed l r = ltb_ℤ (signed_of l) (signed_of r)
compare_integers less_equal signed l r = not (ltb_ℤ (signed_of r) (signed_of l))
compare_integers greater signed l r = ltb_ℤ (signed_of r) (signed_of l)
compare_integers greater_equal signed l r = not (ltb_ℤ (signed_of l) (signed_of r))
compare_integers _ t l r = false

abbrev pub is_negative_bits : ℕ → Bool
is_negative_bits b = ltb_ℤ (signed_of b) (pos 0)

abbrev pub magnitude : ℕ → ℕ
magnitude b = if is_negative_bits b then negate_bits b else b

abbrev pub xor : Bool → Bool → Bool
xor true b = not b
xor false b = b

-- Division of converted operands with a divisor other than zero.
unfoldable pub divide_bits : IntegerType → ℕ → ℕ → ℕ
divide_bits unsigned l r = l / r
divide_bits signed l r =
    let quotient = magnitude l / magnitude r in
    if xor (is_negative_bits l) (is_negative_bits r) then negate_bits quotient else quotient

-- The switch over the operators, on operands converted to `t`. The shifts have returned before it.
unfoldable pub evaluate_converted : BinaryOperator → IntegerType → ℕ → ℕ → Option IntegerValue
unfolding compare_integers signed_boolean divide_bits
evaluate_converted logical_and t l r = some (signed_boolean (not (l == 0) && not (r == 0)))
evaluate_converted logical_or t l r = some (signed_boolean (not (l == 0) || not (r == 0)))
evaluate_converted bitwise_and t l r = some (integer (bit_and l r) t)
evaluate_converted bitwise_xor t l r = some (integer (bit_xor l r) t)
evaluate_converted bitwise_or t l r = some (integer (bit_or l r) t)
evaluate_converted remainder t l r = if r == 0 then none else some (integer (l % r) signed)
evaluate_converted shift_left t l r = none
evaluate_converted shift_right t l r = none
evaluate_converted add t l r = some (integer ((l + r) % modulus) t)
evaluate_converted subtract t l r = some (integer ((l + modulus - r) % modulus) t)
evaluate_converted multiply t l r = some (integer (l * r % modulus) t)
evaluate_converted divide t l r = if r == 0 then none else some (integer (divide_bits t l r) t)
evaluate_converted less t l r = some (signed_boolean (compare_integers less t l r))
evaluate_converted less_equal t l r = some (signed_boolean (compare_integers less_equal t l r))
evaluate_converted greater t l r = some (signed_boolean (compare_integers greater t l r))
evaluate_converted greater_equal t l r =
    some (signed_boolean (compare_integers greater_equal t l r))
evaluate_converted equal t l r = some (signed_boolean (compare_integers equal t l r))
evaluate_converted not_equal t l r = some (signed_boolean (compare_integers not_equal t l r))

-- `evaluateIntegerBinary`: the value of a result of category `Integer`, `none` for `Invalid`.
unfoldable pub evaluate_integer_binary :
    BinaryOperator → IntegerValue → IntegerValue → Option IntegerValue
unfolding evaluate_shift evaluate_converted usual_integer_type
evaluate_integer_binary shift_left left right = evaluate_shift true left right
evaluate_integer_binary shift_right left right = evaluate_shift false left right
evaluate_integer_binary op left right =
    evaluate_converted op (usual_integer_type left right) left.bits right.bits
