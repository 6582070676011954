-- ===== src/Semantic/Constant/Binary.antt =====
-- submod/semantic/src/ptx_declaration_semantics.cpp: the promotion of operands, and `classifyBinary`.
use ptx_frontend.Common.{
  ℕ, Bool, false, not, ◌&&◌, ◌||◌, Option, none, some, Text, codes, leb, ◌==◌, if◌then◌else◌,
}
use ptx_frontend.Syntax.{SourceRange}
use ptx_frontend.Semantic.Integer.{
  IntegerValue, BinaryOperator, multiply, divide, add, subtract, less, less_equal, greater,
  greater_equal, equal, not_equal, as_signed, is_unsigned, signed_boolean, evaluate_integer_binary,
}
use ptx_frontend.Semantic.Constant.{
  Binary64, ExpressionCategory, integral, floating, address, same_category, ExpressionInfo, Sinks,
  fail, invalid_info, integer_info, floating_info, address_info, evaluated, Step,
}
use ptx_frontend.Semantic.Constant.Operators.{
  is_comparison, is_add, is_add_or_subtract, is_arithmetic, is_division, is_shift,
}

abbrev pub floating_zero_message : Text
floating_zero_message = codes "Constant expression has division by zero."

abbrev pub zero_message : Text
zero_message = codes "Constant expression has division or remainder by zero."

abbrev pub shift_message : Text
shift_message = codes "Constant expression shift count must be in 0..63."

-- The range from the start of one operand to the end of another.
abbrev pub across : SourceRange → SourceRange → SourceRange
across l r = record { start = l.start; end = r.end }

-- The tests of `classifyBinary` on the categories of its operands: an address plus or minus an integer,
-- an integer plus an address, a comparison of addresses, and, after the promotion, operands that are
-- neither two integers nor two floating values.
abbrev pub moves_address : BinaryOperator → ExpressionCategory → ExpressionCategory → Bool
moves_address op left right =
    is_add_or_subtract op && (same_category left address && same_category right integral)

abbrev pub adds_address : BinaryOperator → ExpressionCategory → ExpressionCategory → Bool
adds_address op left right =
    is_add op && (same_category left integral && same_category right address)

abbrev pub compares_addresses : BinaryOperator → ExpressionCategory → ExpressionCategory → Bool
compares_addresses op left right =
    is_comparison op && (same_category left address && same_category right address)

abbrev pub not_numeric : ExpressionCategory → ExpressionCategory → Bool
not_numeric left right =
    not (same_category left right)
    || (not (same_category left integral) && not (same_category left floating))

module _ {F : Type 0} (float : Binary64 F) where
  unfoldable pub converted : Option IntegerValue → Option F → Option F
  unfolding as_signed
  converted none x = x
  converted (some v) x =
      some (if is_unsigned v.type then float.of_unsigned v.bits else float.of_signed (as_signed v))

  unfoldable pub promote : ExpressionInfo F → ExpressionInfo F
  unfolding converted
  promote i = record i {
    category = floating;
    integer_value = none;
    floating_value = converted i.integer_value i.floating_value;
  }

  unfoldable pub promote_floating_operands :
      ExpressionInfo F → ExpressionInfo F → ExpressionInfo F × ExpressionInfo F
  unfolding promote
  promote_floating_operands left right =
      if same_category left.category floating && same_category right.category integral
      then (left, promote right)
      else if same_category right.category floating && same_category left.category integral
      then (promote left, right)
      else (left, right)

  unfoldable pub compare_floats : BinaryOperator → F → F → Bool
  compare_floats less l r = float.is_less l r
  compare_floats less_equal l r = float.is_at_most l r
  compare_floats greater l r = float.is_less r l
  compare_floats greater_equal l r = float.is_at_most r l
  compare_floats equal l r = float.is_equal l r
  compare_floats not_equal l r = not (float.is_equal l r)
  compare_floats _ l r = false

  unfoldable pub floating_arithmetic : BinaryOperator → SourceRange → F → F → Sinks → Step F
  floating_arithmetic multiply at l r s = (floating_info (some (float.product l r)), s)
  floating_arithmetic divide at l r s =
      if float.is_equal r float.zero_value
      then (invalid_info, fail at floating_zero_message s)
      else (floating_info (some (float.quotient l r)), s)
  floating_arithmetic add at l r s = (floating_info (some (float.sum l r)), s)
  floating_arithmetic subtract at l r s = (floating_info (some (float.difference l r)), s)
  floating_arithmetic _ at l r s = (invalid_info, s)

  -- Floating operands of which one has no value.
  unfoldable pub floating_unknown : BinaryOperator → ExpressionInfo F
  floating_unknown op =
      if is_comparison op
      then integer_info none
      else if is_arithmetic op
      then floating_info none
      else invalid_info

  unfoldable pub floating_binary :
      BinaryOperator → SourceRange → Option F → Option F → Sinks → Step F
  unfolding compare_floats floating_arithmetic floating_unknown
  floating_binary op at (some l) (some r) s =
      if is_comparison op
      then (integer_info (some (signed_boolean (compare_floats op l r))), s)
      else floating_arithmetic op at l r s
  floating_binary op at none r s = (floating_unknown op, s)
  floating_binary op at (some l) none s = (floating_unknown op, s)

  unfoldable pub integer_failure : BinaryOperator → SourceRange → SourceRange → ℕ → Sinks → Sinks
  integer_failure op left_at right_at b s =
      if is_division op && (b == 0)
      then fail (across left_at right_at) zero_message s
      else if is_shift op && leb 64 b
      then fail right_at shift_message s
      else s

  unfoldable pub integer_binary :
      BinaryOperator
      → SourceRange
      → SourceRange
      → Option IntegerValue
      → Option IntegerValue
      → Sinks
      → Step F
  unfolding integer_failure evaluate_integer_binary
  integer_binary op left_at right_at (some l) (some r) s =
      (evaluated (evaluate_integer_binary op l r), integer_failure op left_at right_at r.bits s)
  integer_binary op left_at right_at none r s = (integer_info none, s)
  integer_binary op left_at right_at (some l) none s = (integer_info none, s)

  unfoldable pub numeric_binary :
      BinaryOperator
      → SourceRange
      → SourceRange
      → ExpressionInfo F
      → ExpressionInfo F
      → Sinks
      → Step F
  unfolding floating_binary integer_binary
  numeric_binary op left_at right_at left right s =
      if not_numeric left.category right.category
      then (invalid_info, s)
      else if same_category left.category floating
      then floating_binary op (across left_at right_at) left.floating_value right.floating_value s
      else integer_binary op left_at right_at left.integer_value right.integer_value s

  -- `classifyBinary`, from the results of its operands
  unfoldable pub classify_binary :
      BinaryOperator
      → SourceRange
      → SourceRange
      → ExpressionInfo F
      → ExpressionInfo F
      → Sinks
      → Step F
  unfolding promote_floating_operands numeric_binary
  classify_binary op left_at right_at left right s =
      if moves_address op left.category right.category
      then (address_info, s)
      else if adds_address op left.category right.category
      then (address_info, s)
      else if compares_addresses op left.category right.category
      then (integer_info none, s)
      else let p = promote_floating_operands left right in
        numeric_binary op left_at right_at p.0 p.1 s
