-- ===== src/Tests/Semantic.antt =====
-- Runs of submod/semantic, and instances of its theorems. The parameter for `double` is instantiated by
-- integers.
use ptx_frontend.Common.{
  ℕ, ◌+◌, ◌-◌, ◌*◌, ◌/◌, ◌^◌, ◌<◌, ◌≤◌, ◌≡◌, ◌↔◌, refl, sym, Bool, true, false, Option, none, some,
  List, [], ◌∷◌, Text, codes, arith, ◌==◌, ltb, leb, get_elem?, ◌⊎◌,
}
use ptx_frontend.Common.Int.{pos, negsuc}
use ptx_frontend.Base.Integer.{parse_integer_magnitude, explicitly_unsigned}
use ptx_frontend.Semantic.Language.{language_code, lower}
use ptx_frontend.Semantic.Language.Codes.{language_code_iff, quoted, row}
use ptx_frontend.Semantic.Constant.Values.{
  NumericConstantValue, no_sinks, failure_sink, numeric_constant_value, constant_integer_value,
  constant_array_extent, expected, integer_constant, integer_constant_of,
}
use ptx_frontend.Semantic.Constant.Settled.Total.{numeric_constant_value_total}
use ptx_frontend.Semantic.Constant.Literal.Value.{parse_integer_literal-value}
use ptx_frontend.Syntax.{SourceRange, decimal_integer}
use ptx_frontend.Syntax.Constant.{AstConstantExpression, literal, binary, conditional}
use ptx_frontend.Semantic.Integer.{
  IntegerValue, integer, signed, unsigned, BinaryOperator, divide, add, shift_right, multiply,
  modulus, evaluate_integer_binary, less,
}
use ptx_frontend.Semantic.Integer.Range.{evaluate_integer_binary-none}
use ptx_frontend.Semantic.Integer.Order.{value, Compares, compare_integers-Compares}
use ptx_frontend.Semantic.Integer.Shift.{evaluate_integer_binary-shift_right}
use ptx_frontend.Semantic.Integer.Divide.{evaluate_integer_binary-exact}
use ptx_frontend.Semantic.Constant.{parse_integer_literal, Binary64, Sinks, DeclarationDiagnostic}
use ptx_frontend.Semantic.Constant.Classify.{classify_expression}
use ptx_frontend.Semantic.Constant.Formed.{IsFormed}
use ptx_frontend.Semantic.Constant.Formed.Expression.{classify_expression-IsFormed}
use ptx_frontend.Semantic.Constant.Independence.{classify_expression-independent}
use ptx_frontend.Semantic.Constant.Failures.{Moves, has_invalid}
use ptx_frontend.Semantic.Constant.Failures.Expression.{classify_expression-Moves}
use ptx_frontend.Semantic.Constant.Diagnostics.{
  appended, literal_reports, classify_expression-literal_reports,
}
use ptx_frontend.Semantic.Constant.Values.Outcome.{IsError, numeric_constant_value-Outcome}
use ptx_frontend.Semantic.Constant.Values.Readers.{
  numeric_constant_value-iff-constant_integer_value, constant_array_extent_iff,
}

-- -7 / 2 is -3.
evaluate_integer_binary-exact_example :
    evaluate_integer_binary divide (integer (2 ^ 64 - 7) signed) (integer 2 signed)
    ≡ some (integer (2 ^ 64 - 3) signed)
unfolding ptx_frontend.Semantic.Integer.usual_integer_type
    ptx_frontend.Semantic.Integer.Divide.quotient
evaluate_integer_binary-exact_example =
    evaluate_integer_binary-exact divide (integer (2 ^ 64 - 7) signed) (integer 2 signed)
      (2 ^ 64 - 3) (omega arith) (omega arith) (omega arith) (λ h. cc h, refl)

-- -7 >> 1 is -4.
evaluate_integer_binary-shift_right_example :
    (v : IntegerValue) × (evaluate_integer_binary shift_right
        (integer (2 ^ 64 - 7) signed)
        (integer 1 signed)
      ≡ some v)
    × (v.type ≡ signed)
    × (value v.type v.bits ≡ negsuc 3)
evaluate_integer_binary-shift_right_example =
    evaluate_integer_binary-shift_right (integer (2 ^ 64 - 7) signed) (integer 1 signed)
      (omega arith) (omega arith)

wrapped :
    evaluate_integer_binary multiply (integer (2 ^ 63) unsigned) (integer 3 signed)
    ≡ some (integer (2 ^ 63) unsigned)
unfolding evaluate_integer_binary
wrapped = refl

evaluate_integer_binary-none_example :
    evaluate_integer_binary divide (integer 1 signed) (integer 0 signed) ≡ none
evaluate_integer_binary-none_example =
    (evaluate_integer_binary-none divide (integer 1 signed) (integer 0 signed)).1 refl

compare_integers-Compares_example : Compares signed (2 ^ 64 - 1) 1
compare_integers-Compares_example =
    compare_integers-Compares signed (2 ^ 64 - 1) 1 (omega arith) (omega arith)

abbrev whole_numbers : Binary64 ℕ
whole_numbers = record {
  of_bits = λ b. b;
  of_unsigned = λ b. b;
  of_signed = λ z. 0;
  decimal = λ t. none;
  negated = λ x. x;
  product = λ x y. x * y;
  quotient = λ x y. x / y;
  sum = λ x y. x + y;
  difference = λ x y. x - y;
  is_less = ltb;
  is_at_most = leb;
  is_equal = λ x y. x == y;
  zero_value = 0;
}

abbrev here : SourceRange
here = record {
  start = record { line = pos 1; column = pos 1 };
  end = record { line = pos 1; column = pos 2 };
}

abbrev number : Text → AstConstantExpression
number t =
    literal (record { syntax = record { text = t; range = here }; kind = decimal_integer }) here

-- `1 ? 6 * 7 : 2`
abbrev answer : AstConstantExpression
answer =
    conditional (number (codes "1"))
      (binary (number (codes "6")) multiply (number (codes "7")) here) (number (codes "2")) here

-- `1 ? 2 : 1 / 0`
abbrev unselected_division : AstConstantExpression
unselected_division =
    conditional (number (codes "1")) (number (codes "2"))
      (binary (number (codes "1")) divide (number (codes "0")) here) here

-- `18446744073709551616`
abbrev too_large_literal : AstConstantExpression
too_large_literal = number (codes "18446744073709551616")

classify_expression-IsFormed_example :
    IsFormed (classify_expression whole_numbers false answer no_sinks).0
classify_expression-IsFormed_example = classify_expression-IsFormed whole_numbers answer no_sinks

classify_expression-independent_example :
    (classify_expression whole_numbers false unselected_division failure_sink).0
    ≡ (classify_expression whole_numbers false unselected_division no_sinks).0
classify_expression-independent_example =
    classify_expression-independent whole_numbers false unselected_division failure_sink no_sinks

classify_expression-Moves_example :
    Moves failure_sink.failure
      (classify_expression whole_numbers false unselected_division failure_sink).1.failure
      true
      false
unfolding ptx_frontend.Semantic.Constant.Classify.classify_expression
    ptx_frontend.Semantic.Constant.Classify.finish
    ptx_frontend.Semantic.Constant.Literal.classify_literal
    ptx_frontend.Semantic.Constant.Literal.integer_literal
    ptx_frontend.Semantic.Constant.parse_integer_literal
    ptx_frontend.Base.Integer.parse_integer_magnitude ptx_frontend.Base.Integer.explicitly_unsigned
    ptx_frontend.Common.FromChars.from_chars ptx_frontend.Common.Digits.number_from
    ptx_frontend.Semantic.Constant.Binary.classify_binary
    ptx_frontend.Semantic.Constant.Binary.promote_floating_operands
    ptx_frontend.Semantic.Constant.Binary.numeric_binary
    ptx_frontend.Semantic.Constant.Binary.integer_binary
    ptx_frontend.Semantic.Constant.Binary.integer_failure
    ptx_frontend.Semantic.Integer.evaluate_integer_binary
    ptx_frontend.Semantic.Integer.usual_integer_type
    ptx_frontend.Semantic.Constant.Result.conditional_result
    ptx_frontend.Semantic.Constant.Result.promoted_branches
    ptx_frontend.Semantic.Constant.Result.integer_branches
    ptx_frontend.Semantic.Constant.Result.chosen
classify_expression-Moves_example =
    classify_expression-Moves whole_numbers false unselected_division failure_sink

abbrev reporting : Sinks
reporting = record { diagnostics = some []; failure = none }

classify_expression-literal_reports_example :
    (classify_expression whole_numbers false too_large_literal reporting).1.diagnostics
    ≡ appended (some []) (literal_reports too_large_literal)
classify_expression-literal_reports_example =
    classify_expression-literal_reports whole_numbers false too_large_literal reporting

division_is_invalid : has_invalid whole_numbers false unselected_division ≡ true
unfolding ptx_frontend.Semantic.Constant.Classify.classify_expression
    ptx_frontend.Semantic.Constant.Classify.finish
    ptx_frontend.Semantic.Constant.Literal.classify_literal
    ptx_frontend.Semantic.Constant.Literal.integer_literal
    ptx_frontend.Semantic.Constant.parse_integer_literal
    ptx_frontend.Base.Integer.parse_integer_magnitude ptx_frontend.Base.Integer.explicitly_unsigned
    ptx_frontend.Common.FromChars.from_chars ptx_frontend.Common.Digits.number_from
    ptx_frontend.Semantic.Constant.Binary.classify_binary
    ptx_frontend.Semantic.Constant.Binary.promote_floating_operands
    ptx_frontend.Semantic.Constant.Binary.numeric_binary
    ptx_frontend.Semantic.Constant.Binary.integer_binary
    ptx_frontend.Semantic.Constant.Binary.integer_failure
    ptx_frontend.Semantic.Integer.evaluate_integer_binary
    ptx_frontend.Semantic.Integer.usual_integer_type
    ptx_frontend.Semantic.Constant.Result.conditional_result
    ptx_frontend.Semantic.Constant.Result.promoted_branches
    ptx_frontend.Semantic.Constant.Result.integer_branches
    ptx_frontend.Semantic.Constant.Result.chosen
division_is_invalid = refl

numeric_constant_value-Outcome_example :
    IsError false (numeric_constant_value whole_numbers unselected_division)
numeric_constant_value-Outcome_example =
    (numeric_constant_value-Outcome whole_numbers unselected_division).when_invalid
      division_is_invalid

answer_read :
    constant_integer_value whole_numbers answer ≡ some (integer_constant_of (integer 42 signed))
unfolding constant_integer_value ptx_frontend.Semantic.Constant.Classify.classify_expression
    ptx_frontend.Semantic.Constant.Classify.finish
    ptx_frontend.Semantic.Constant.Literal.classify_literal
    ptx_frontend.Semantic.Constant.Literal.integer_literal
    ptx_frontend.Semantic.Constant.parse_integer_literal
    ptx_frontend.Base.Integer.parse_integer_magnitude ptx_frontend.Base.Integer.explicitly_unsigned
    ptx_frontend.Common.FromChars.from_chars ptx_frontend.Common.Digits.number_from
    ptx_frontend.Semantic.Constant.Binary.classify_binary
    ptx_frontend.Semantic.Constant.Binary.promote_floating_operands
    ptx_frontend.Semantic.Constant.Binary.numeric_binary
    ptx_frontend.Semantic.Constant.Binary.integer_binary
    ptx_frontend.Semantic.Constant.Binary.integer_failure
    ptx_frontend.Semantic.Integer.evaluate_integer_binary
    ptx_frontend.Semantic.Integer.usual_integer_type
    ptx_frontend.Semantic.Constant.Result.conditional_result
    ptx_frontend.Semantic.Constant.Result.promoted_branches
    ptx_frontend.Semantic.Constant.Result.integer_branches
    ptx_frontend.Semantic.Constant.Result.chosen
answer_read = refl

answer_is_valid : has_invalid whole_numbers false answer ≡ false
unfolding ptx_frontend.Semantic.Constant.Classify.classify_expression
    ptx_frontend.Semantic.Constant.Classify.finish
    ptx_frontend.Semantic.Constant.Literal.classify_literal
    ptx_frontend.Semantic.Constant.Literal.integer_literal
    ptx_frontend.Semantic.Constant.parse_integer_literal
    ptx_frontend.Base.Integer.parse_integer_magnitude ptx_frontend.Base.Integer.explicitly_unsigned
    ptx_frontend.Common.FromChars.from_chars ptx_frontend.Common.Digits.number_from
    ptx_frontend.Semantic.Constant.Binary.classify_binary
    ptx_frontend.Semantic.Constant.Binary.promote_floating_operands
    ptx_frontend.Semantic.Constant.Binary.numeric_binary
    ptx_frontend.Semantic.Constant.Binary.integer_binary
    ptx_frontend.Semantic.Constant.Binary.integer_failure
    ptx_frontend.Semantic.Integer.evaluate_integer_binary
    ptx_frontend.Semantic.Integer.usual_integer_type
    ptx_frontend.Semantic.Constant.Result.conditional_result
    ptx_frontend.Semantic.Constant.Result.promoted_branches
    ptx_frontend.Semantic.Constant.Result.integer_branches
    ptx_frontend.Semantic.Constant.Result.chosen
answer_is_valid = refl

numeric_constant_value_total_example :
    (v : NumericConstantValue ℕ) × (numeric_constant_value whole_numbers answer ≡ expected v)
numeric_constant_value_total_example =
    numeric_constant_value_total whole_numbers answer (tt, (tt, tt), tt) answer_is_valid

numeric_constant_value-iff-constant_integer_value_example :
    numeric_constant_value whole_numbers answer
    ≡ expected (integer_constant (integer_constant_of (integer 42 signed)))
numeric_constant_value-iff-constant_integer_value_example =
    (numeric_constant_value-iff-constant_integer_value whole_numbers answer
        (integer_constant_of (integer 42 signed))).1
      (answer_read, answer_is_valid, refl)

constant_array_extent_iff_example : constant_array_extent whole_numbers answer ≡ some 42
constant_array_extent_iff_example =
    (constant_array_extent_iff whole_numbers answer 42).1 (integer 42 signed, answer_read, refl)

in_capitals : language_code (codes "\"CUDA C++\"") ≡ some 5
unfolding language_code ptx_frontend.Semantic.Language.names
in_capitals = refl

language_code_iff_example :
    ((body : Text) × (codes "\"CUDA C++\"" ≡ quoted body)
      × (k : ℕ) × (get_elem? ptx_frontend.Semantic.Language.names k ≡ some (row (lower body) 5)))
    ⊎ ((parse_integer_magnitude (codes "\"CUDA C++\"") ≡ some 5) × (5 ≤ 10))
language_code_iff_example = (language_code_iff (codes "\"CUDA C++\"") 5).0 in_capitals

largest_signed :
    parse_integer_literal (codes "0x7fffffffffffffff") ≡ some (integer (2 ^ 63 - 1) signed)
unfolding parse_integer_literal parse_integer_magnitude
    ptx_frontend.Base.Integer.explicitly_unsigned ptx_frontend.Common.FromChars.from_chars
    ptx_frontend.Common.Digits.number_from
largest_signed = refl

parse_integer_literal-value_example :
    (parse_integer_magnitude (codes "0x7fffffffffffffff") ≡ some (2 ^ 63 - 1))
    × (value signed (2 ^ 63 - 1) ≡ pos (2 ^ 63 - 1))
    × (explicitly_unsigned (codes "0x7fffffffffffffff") ≡ true → signed ≡ unsigned)
parse_integer_literal-value_example =
    parse_integer_literal-value (codes "0x7fffffffffffffff") (integer (2 ^ 63 - 1) signed)
      largest_signed
