-- ===== src/Semantic/Constant/Operators.antt =====
-- submod/semantic/src/ptx_declaration_semantics.cpp: the kinds of operators that `classifyBinary` tells
-- apart.
use ptx_frontend.Common.{Bool, true, false}
use ptx_frontend.Semantic.Integer.{
  BinaryOperator, multiply, divide, remainder, add, subtract, shift_left, shift_right, less,
  less_equal, greater, greater_equal, equal, not_equal,
}

abbrev pub is_comparison : BinaryOperator → Bool
is_comparison less = true
is_comparison less_equal = true
is_comparison greater = true
is_comparison greater_equal = true
is_comparison equal = true
is_comparison not_equal = true
is_comparison _ = false

abbrev pub is_add : BinaryOperator → Bool
is_add add = true
is_add _ = false

abbrev pub is_add_or_subtract : BinaryOperator → Bool
is_add_or_subtract add = true
is_add_or_subtract subtract = true
is_add_or_subtract _ = false

-- The operators that the switch over floating operands without a value names.
abbrev pub is_arithmetic : BinaryOperator → Bool
is_arithmetic multiply = true
is_arithmetic divide = true
is_arithmetic add = true
is_arithmetic subtract = true
is_arithmetic _ = false

abbrev pub is_division : BinaryOperator → Bool
is_division divide = true
is_division remainder = true
is_division _ = false

abbrev pub is_shift : BinaryOperator → Bool
is_shift shift_left = true
is_shift shift_right = true
is_shift _ = false
