-- ===== src/Semantic/Constant/Literal.antt =====
-- submod/semantic/src/ptx_declaration_semantics.cpp: the literals.
pub mod Value
use ptx_frontend.Common.{
  ℕ, Bool, not, ◌&&◌, ◌||◌, Option, none, some, Text, codes, starts_with, length, drop, ltb,
  if◌then◌else◌,
}
use ptx_frontend.Common.FromChars.{from_chars, whole}
use ptx_frontend.Base.Scalar.{f32}
use ptx_frontend.Syntax.{
  AstImmediate, AstImmediateKind, decimal_integer, hex_integer, f32_hex, f64_hex, decimal_float,
  warp_size, binary_integer,
}
use ptx_frontend.Semantic.Integer.{signed, IntegerValue, integer}
use ptx_frontend.Semantic.Constant.{
  Binary64, floating, ExpressionInfo, Sinks, fail, parse_integer_literal,
  report_invalid_integer_literal, invalid_info, integer_info, floating_info, Step,
}

abbrev pub integer_message : Text
integer_message = codes "Integer literal is not representable in the 64-bit source domain."

abbrev pub single_message : Text
single_message =
    codes "Exact single-precision bit patterns cannot participate in constant expressions."

abbrev pub has_sign : Text → Bool
has_sign t = starts_with (codes "+") t || starts_with (codes "-") t

-- The text without a sign.
abbrev pub unsigned_text : Text → Text
unsigned_text t = if has_sign t then drop 1 t else t

module _ {F : Type 0} (float : Binary64 F) where
  unfoldable pub integer_literal : AstImmediate → Option IntegerValue → Sinks → Step F
  integer_literal i none s =
      (invalid_info, fail i.syntax.range integer_message (report_invalid_integer_literal i s))
  integer_literal i (some v) s = (integer_info (some v), s)

  unfoldable pub single_literal : Bool → AstImmediate → Sinks → Step F
  single_literal allow i s =
      if allow && not (has_sign i.syntax.text)
      then (
        record {
          category = floating;
          integer_value = none;
          floating_value = none;
          floating_type = f32;
        },
        s,
      )
      else (invalid_info, fail i.syntax.range single_message s)

  unfoldable pub double_of : Bool → Option ℕ → ExpressionInfo F
  double_of negative none = invalid_info
  double_of negative (some bits) =
      floating_info
        (some (if negative then float.negated (float.of_bits bits) else float.of_bits bits))

  unfoldable pub double_literal : Text → ExpressionInfo F
  unfolding double_of
  double_literal t =
      let rest = unsigned_text t in
      if ltb (length rest) 2
      then invalid_info
      else double_of (starts_with (codes "-") t) (whole (from_chars 64 16 (drop 2 rest)))

  unfoldable pub decimal_literal : Option F → ExpressionInfo F
  decimal_literal none = invalid_info
  decimal_literal (some x) = floating_info (some x)

  unfoldable pub classify_literal : Bool → AstImmediate → AstImmediateKind → Sinks → Step F
  unfolding parse_integer_literal integer_literal single_literal double_literal decimal_literal
  classify_literal allow i decimal_integer s =
      integer_literal i (parse_integer_literal i.syntax.text) s
  classify_literal allow i binary_integer s =
      integer_literal i (parse_integer_literal i.syntax.text) s
  classify_literal allow i hex_integer s = integer_literal i (parse_integer_literal i.syntax.text) s
  classify_literal allow i warp_size s = (integer_info (some (integer 32 signed)), s)
  classify_literal allow i f32_hex s = single_literal allow i s
  classify_literal allow i f64_hex s = (double_literal i.syntax.text, s)
  classify_literal allow i decimal_float s = (decimal_literal (float.decimal i.syntax.text), s)
