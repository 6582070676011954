-- ===== src/Semantic/Constant/Result.antt =====
-- submod/semantic/src/ptx_declaration_semantics.cpp: what a call, a cast, a unary operator and a conditional make of
-- the results of their operands.
use ptx_frontend.Common.{
  ◌-◌, Bool, true, false, not, ◌&&◌, ◌||◌, Option, none, some, Text, codes, same_text, is_some,
  ◌==◌, if◌then◌else◌,
}
use ptx_frontend.Base.Scalar.{f64}
use ptx_frontend.Syntax.Constant.{
  AstConstantExpression, literal, symbol, AstConstantUnaryOperator, plus, minus, logical_not,
  bitwise_not,
}
use ptx_frontend.Semantic.Integer.{
  IntegerType, signed, unsigned, IntegerValue, integer, modulus, negate_bits, is_unsigned,
  signed_boolean, usual_integer_type,
}
use ptx_frontend.Semantic.Constant.{
  Binary64, integral, floating, address, same_category, ExpressionInfo, invalid_info, integer_info,
  address_info, with_integer, with_floating, retype,
}
use ptx_frontend.Semantic.Constant.Binary.{promote_floating_operands}

abbrev pub is_generic : AstConstantExpression → Bool
is_generic (symbol n r) = same_text n.text (codes "generic")
is_generic _ = false

abbrev pub is_literal : AstConstantExpression → Bool
is_literal (literal i r) = true
is_literal _ = false

module _ {F : Type 0} (float : Binary64 F) where
  unfoldable pub call_result : Bool → Bool → ExpressionInfo F → ExpressionInfo F → ExpressionInfo F
  call_result generic mask callee argument =
      if generic
      then (if same_category argument.category address then address_info else invalid_info)
      else if (mask && is_some callee.integer_value)
          && (same_category callee.category integral
              && (same_category argument.category integral
                  || same_category argument.category address))
      then integer_info none
      else invalid_info

  unfoldable pub retyped : IntegerType → Option IntegerValue → Option IntegerValue
  retyped t none = none
  retyped t (some v) = some (retype t v)

  unfoldable pub cast_result : Text → ExpressionInfo F → ExpressionInfo F
  unfolding retyped
  cast_result t operand =
      if not (same_category operand.category integral)
      then invalid_info
      else with_integer operand
          (retyped (if same_text t (codes ".u64") then unsigned else signed) operand.integer_value)

  unfoldable pub negated_integer : Option IntegerValue → Option IntegerValue
  negated_integer none = none
  negated_integer (some v) = some (integer (negate_bits v.bits) v.type)

  unfoldable pub negated_floating : Option F → Option F
  negated_floating none = none
  negated_floating (some x) = some (float.negated x)

  unfoldable pub logical_integer : Option IntegerValue → Option IntegerValue
  unfolding signed_boolean
  logical_integer none = none
  logical_integer (some v) = some (signed_boolean (v.bits == 0))

  unfoldable pub complement_integer : Option IntegerValue → Option IntegerValue
  complement_integer none = none
  complement_integer (some v) = some (integer (modulus - 1 - v.bits) unsigned)

  unfoldable pub unary_result : AstConstantUnaryOperator → ExpressionInfo F → ExpressionInfo F
  unfolding negated_integer negated_floating logical_integer complement_integer
  unary_result plus operand =
      if not (same_category operand.category integral)
        && not (same_category operand.category floating)
      then invalid_info
      else operand
  unary_result minus operand =
      if not (same_category operand.category integral)
        && not (same_category operand.category floating)
      then invalid_info
      else with_floating (with_integer operand (negated_integer operand.integer_value))
          (negated_floating operand.floating_value)
  unary_result logical_not operand =
      if not (same_category operand.category integral)
      then invalid_info
      else with_integer operand (logical_integer operand.integer_value)
  unary_result bitwise_not operand =
      if not (same_category operand.category integral)
      then invalid_info
      else with_integer operand (complement_integer operand.integer_value)

  unfoldable pub same_integer : IntegerValue → IntegerValue → Bool
  same_integer a b =
      (a.bits == b.bits)
      && (if is_unsigned a.type then is_unsigned b.type else not (is_unsigned b.type))

  unfoldable pub common_integer : Option IntegerValue → Option IntegerValue → Option IntegerValue
  unfolding same_integer
  common_integer (some a) (some b) = if same_integer a b then some a else none
  common_integer none b = none
  common_integer (some a) none = none

  -- The value of the condition chooses; without one only an integer that both branches share is known.
  unfoldable pub chosen :
      Option IntegerValue → ExpressionInfo F → ExpressionInfo F → ExpressionInfo F
  unfolding common_integer
  chosen (some c) true_value false_value = if not (c.bits == 0) then true_value else false_value
  chosen none true_value false_value = record {
    category = true_value.category;
    integer_value = common_integer true_value.integer_value false_value.integer_value;
    floating_value = none;
    floating_type = f64;
  }

  unfoldable pub integer_branches :
      Option IntegerValue
      → Option IntegerValue
      → Option IntegerValue
      → ExpressionInfo F
      → ExpressionInfo F
      → ExpressionInfo F
  unfolding chosen usual_integer_type
  integer_branches c (some a) (some b) true_value false_value =
      chosen c (with_integer true_value (some (retype (usual_integer_type a b) a)))
        (with_integer false_value (some (retype (usual_integer_type a b) b)))
  integer_branches c none b true_value false_value = integer_info none
  integer_branches c (some a) none true_value false_value = integer_info none

  unfoldable pub promoted_branches :
      ExpressionInfo F → ExpressionInfo F → ExpressionInfo F → ExpressionInfo F
  unfolding chosen integer_branches
  promoted_branches condition true_value false_value =
      if not (same_category condition.category integral)
        || not (same_category true_value.category false_value.category)
      then invalid_info
      else if same_category true_value.category integral
      then integer_branches condition.integer_value true_value.integer_value
          false_value.integer_value true_value false_value
      else chosen condition.integer_value true_value false_value

  unfoldable pub conditional_result :
      ExpressionInfo F → ExpressionInfo F → ExpressionInfo F → ExpressionInfo F
  unfolding promote_floating_operands promoted_branches
  conditional_result condition true_value false_value =
      let p = promote_floating_operands float true_value false_value in
      promoted_branches condition p.0 p.1
