-- ===== src/Semantic/Constant/Classify.antt =====
-- submod/semantic/src/ptx_declaration_semantics.cpp: `classifyExpression`. The sinks are passed from
-- operand to operand in the order of evaluation.
use ptx_frontend.Common.{Bool, false, Text, codes, if◌then◌else◌}
use ptx_frontend.Syntax.{SourceRange}
use ptx_frontend.Syntax.Constant.{
  AstConstantExpression, literal, symbol, parenthesized, call, cast, unary, binary, conditional,
  range_of,
}
use ptx_frontend.Semantic.Constant.{
  Binary64, invalid, same_category, Sinks, fail, defer, address_info, Step,
}
use ptx_frontend.Semantic.Constant.Literal.{classify_literal}
use ptx_frontend.Semantic.Constant.Binary.{classify_binary}
use ptx_frontend.Semantic.Constant.Result.{
  is_generic, is_literal, call_result, cast_result, unary_result, conditional_result,
}

abbrev pub symbol_message : Text
symbol_message = codes "Symbolic expression has no concrete numeric operand value."

abbrev pub invalid_message : Text
invalid_message =
    codes
      "Invalid constant expression (operand types, literal, division/remainder by zero, or shift count)."

abbrev pub no_value_message : Text
no_value_message = codes "Constant expression has no concrete numeric value."

module _ {F : Type 0} (float : Binary64 F) where
  -- What `classifyExpression` does after the visit of the node.
  unfoldable pub finish : SourceRange → Step F → Step F
  finish at p = if same_category p.0.category invalid then (p.0, fail at invalid_message p.1) else p

  unfoldable pub classify_expression : Bool → AstConstantExpression → Sinks → Step F
  unfolding finish classify_literal call_result cast_result unary_result classify_binary
      conditional_result
  classify_expression allow (literal i at) s = finish at (classify_literal float allow i i.kind s)
  classify_expression allow (symbol n at) s =
      finish at (address_info, defer n.range symbol_message s)
  classify_expression allow (parenthesized e at) s = finish at (classify_expression false e s)
  classify_expression allow (call callee argument at) s =
      let c = classify_expression false callee s in
      let a = classify_expression false argument c.1 in
      finish at (call_result float (is_generic callee) (is_literal callee) c.0 a.0, a.1)
  classify_expression allow (cast t e at) s =
      let o = classify_expression false e s in finish at (cast_result float t.text o.0, o.1)
  classify_expression allow (unary op e at) s =
      let o = classify_expression false e s in finish at (unary_result float op o.0, o.1)
  classify_expression allow (binary left op right at) s =
      let l = classify_expression false left s in
      let r = classify_expression false right l.1 in
      finish at (classify_binary float op (range_of left) (range_of right) l.0 r.0 r.1)
  classify_expression allow (conditional condition true_value false_value at) s =
      let c = classify_expression false condition s in
      let y = classify_expression false true_value c.1 in
      let o = classify_expression false false_value y.1 in
      finish at (conditional_result float c.0 y.0 o.0, o.1)
