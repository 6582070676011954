-- ===== src/Semantic/Constant.antt =====
-- submod/semantic/src/ptx_declaration_semantics.cpp: the state and the results of the evaluation of
-- constant expressions, and what a node makes of the results of its operands. The type of `double`
-- and its operations are a parameter, `Binary64`.
pub mod Operators
pub mod Literal
pub mod Binary
pub mod Result
pub mod Classify
pub mod Formed
pub mod Effects
pub mod Independence
pub mod Failures
pub mod Diagnostics
pub mod Settled
pub mod Values
use ptx_frontend.Common.{
  ℕ, ◌+◌, ◌-◌, ◌^◌, ◌≡◌, Bool, true, false, not, ◌&&◌, ◌||◌, Option, none, some, List, [], ◌∷◌,
  ◌++◌, Text, codes, same_text, is_empty, is_some, ltb, leb, ◌==◌, if◌then◌else◌,
}
use ptx_frontend.Common.Int.{ℤ, pos}
use ptx_frontend.Base.Integer.{parse_integer_magnitude, explicitly_unsigned}
use ptx_frontend.Base.Scalar.{ScalarType, f32, f64}
use ptx_frontend.Syntax.{SourceRange, SourcePos, AstSyntax, AstImmediate}
use ptx_frontend.Syntax.Constant.{AstConstantUnaryOperator, plus, minus, logical_not, bitwise_not}
use ptx_frontend.Semantic.Integer.{
  IntegerType, signed, unsigned, IntegerValue, integer, BinaryOperator, multiply, divide, remainder,
  add, subtract, shift_left, shift_right, less, less_equal, greater, greater_equal, equal,
  not_equal, modulus, negate_bits, as_signed, is_negative, is_unsigned, signed_boolean,
  usual_integer_type, evaluate_integer_binary,
}

-- The operations of `double` that the evaluation uses. `decimal` is `std::from_chars` with
-- `chars_format::general` on a text that it must read to its end.
pub record Binary64 (F : Type 0) : Type 0 where
  pub of_bits : ℕ → F
  pub of_unsigned : ℕ → F
  pub of_signed : ℤ → F
  pub decimal : Text → Option F
  pub negated : F → F
  pub product : F → F → F
  pub quotient : F → F → F
  pub sum : F → F → F
  pub difference : F → F → F
  pub is_less : F → F → Bool
  pub is_at_most : F → F → Bool
  pub is_equal : F → F → Bool
  pub zero_value : F

pub data ExpressionCategory : Type 0 where
  invalid integral floating address : ExpressionCategory

abbrev pub same_category : ExpressionCategory → ExpressionCategory → Bool
same_category invalid invalid = true
same_category integral integral = true
same_category floating floating = true
same_category address address = true
same_category _ _ = false

pub record ExpressionInfo (F : Type 0) : Type 0 where
  pub category : ExpressionCategory
  pub integer_value : Option IntegerValue
  pub floating_value : Option F
  pub floating_type : ScalarType

pub data DeclarationDiagnosticKind : Type 0 where
  invalid_array_dimension unsized_array_dimension initializer_shape_mismatch :
      DeclarationDiagnosticKind
  excess_initializer_elements initializer_type_mismatch invalid_initializer_expression :
      DeclarationDiagnosticKind
  incompatible_redeclaration multiple_definitions invalid_linkage : DeclarationDiagnosticKind
  invalid_alignment module_scope_parameter duplicate_metadata_target : DeclarationDiagnosticKind
  unresolved_metadata_target invalid_metadata_target incompatible_call_target_signature :
      DeclarationDiagnosticKind
  invalid_call_prototype unsupported_kernel_resource_ptx_version
        incompatible_kernel_resource_directive :
      DeclarationDiagnosticKind
  unsupported_directive_ptx_version invalid_declaration_directive invalid_function_alias :
      DeclarationDiagnosticKind
  storage_extent_overflow unsupported_storage_declaration unsupported_storage_initializer :
      DeclarationDiagnosticKind
  unsupported_parameter_declaration invalid_integer_literal function_address_before_declaration :
      DeclarationDiagnosticKind
  unknown_register_declaration_type unsupported_register_declaration_type
        invalid_register_declaration_shape :
      DeclarationDiagnosticKind
  unsupported_directive_target invalid_identifier invalid_declaration_placement :
      DeclarationDiagnosticKind

pub record DeclarationDiagnostic : Type 0 where
  pub kind : DeclarationDiagnosticKind
  pub range : SourceRange
  pub previous_range : Option SourceRange
  pub message : Text

pub record ConstantEvaluationDiagnostic : Type 0 where
  pub range : SourceRange
  pub message : Text
  pub deferred : Bool

-- What the two pointers `diagnostics` and `failure` point to, `none` for `nullptr`.
pub record Sinks : Type 0 where
  pub diagnostics : Option (List DeclarationDiagnostic)
  pub failure : Option ConstantEvaluationDiagnostic

-- The result of an expression and the sinks after it.
abbrev pub Step : Type 0 → Type 0
Step F = ExpressionInfo F × Sinks

-- `failure && (failure->message.empty() || failure->deferred)`, and the assignment under it
abbrev pub replace_failure :
    ConstantEvaluationDiagnostic
    → Option ConstantEvaluationDiagnostic
    → Option ConstantEvaluationDiagnostic
replace_failure d none = none
replace_failure d (some f) = if is_empty f.message || f.deferred then some d else some f

abbrev pub fail : SourceRange → Text → Sinks → Sinks
fail at why s = record s {
  failure = replace_failure (record { range = at; message = why; deferred = false }) s.failure;
}

-- `if (failure && failure->message.empty())`, and the assignment under it
abbrev pub defer_failure :
    ConstantEvaluationDiagnostic
    → Option ConstantEvaluationDiagnostic
    → Option ConstantEvaluationDiagnostic
defer_failure d none = none
defer_failure d (some f) = if is_empty f.message then some d else some f

abbrev pub defer : SourceRange → Text → Sinks → Sinks
defer at why s = record s {
  failure = defer_failure (record { range = at; message = why; deferred = true }) s.failure;
}

abbrev pub typed_literal : Bool → Option ℕ → Option IntegerValue
typed_literal explicit none = none
typed_literal explicit (some v) =
    some (integer v (if explicit || ltb (2 ^ 63 - 1) v then unsigned else signed))

unfoldable pub parse_integer_literal : Text → Option IntegerValue
unfolding parse_integer_magnitude explicitly_unsigned
parse_integer_literal t = typed_literal (explicitly_unsigned t) (parse_integer_magnitude t)

abbrev pub literal_message : Text → Text
literal_message t =
    codes "Integer literal '" ++ (t ++ codes "' is not representable as a uint64_t value.")

abbrev pub invalid_literal : AstImmediate → DeclarationDiagnostic
invalid_literal i = record {
  kind = invalid_integer_literal;
  range = i.syntax.range;
  previous_range = none;
  message = literal_message i.syntax.text;
}

abbrev pub push_back :
    DeclarationDiagnostic
    → Option (List DeclarationDiagnostic)
    → Option (List DeclarationDiagnostic)
push_back d none = none
push_back d (some ds) = some (ds ++ (d ∷ []))

abbrev pub report_invalid_integer_literal : AstImmediate → Sinks → Sinks
report_invalid_integer_literal i s = record s {
  diagnostics = push_back (invalid_literal i) s.diagnostics;
}

unfoldable pub nonnegative : Option IntegerValue → Option ℕ
unfolding is_negative
nonnegative none = none
nonnegative (some v) =
    if is_unsigned v.type then some v.bits else if is_negative v then none else some v.bits

module _ {F : Type 0} where
  abbrev pub invalid_info : ExpressionInfo F
  invalid_info = record {
    category = invalid;
    integer_value = none;
    floating_value = none;
    floating_type = f64;
  }

  abbrev pub integer_info : Option IntegerValue → ExpressionInfo F
  integer_info v = record {
    category = integral;
    integer_value = v;
    floating_value = none;
    floating_type = f64;
  }

  abbrev pub floating_info : Option F → ExpressionInfo F
  floating_info x = record {
    category = floating;
    integer_value = none;
    floating_value = x;
    floating_type = f64;
  }

  abbrev pub address_info : ExpressionInfo F
  address_info = record {
    category = address;
    integer_value = none;
    floating_value = none;
    floating_type = f64;
  }

  -- `evaluateIntegerBinary` answers with an `ExpressionInfo`.
  abbrev pub evaluated : Option IntegerValue → ExpressionInfo F
  evaluated none = invalid_info
  evaluated (some v) = integer_info (some v)

  abbrev pub with_integer : ExpressionInfo F → Option IntegerValue → ExpressionInfo F
  with_integer i v = record i { integer_value = v }

  abbrev pub with_floating : ExpressionInfo F → Option F → ExpressionInfo F
  with_floating i x = record i { floating_value = x }

  unfoldable pub nonnegative_integer_value : ExpressionInfo F → Option ℕ
  unfolding nonnegative
  nonnegative_integer_value i =
      if same_category i.category integral then nonnegative i.integer_value else none

abbrev pub retype : IntegerType → IntegerValue → IntegerValue
retype t v = record v { type = t }
