-- ===== src/Semantic/Constant/Formed/Expression.antt =====
-- The result of a whole expression, and of a literal at its root.
use ptx_frontend.Common.{
  ℕ, ◌≡◌, inl, inr, refl, sym, subst, Bool, false, Option, none, some, Text, codes, arith, ltb,
  Bool-cases, length, drop, starts_with,
}
use ptx_frontend.Base.Integer.Spelling.{parse_integer_magnitude-lt}
use ptx_frontend.Base.Integer.{parse_integer_magnitude, explicitly_unsigned}
use ptx_frontend.Syntax.{
  SourceRange, AstImmediate, AstImmediateKind, decimal_integer, hex_integer, f32_hex, f64_hex,
  decimal_float, warp_size, binary_integer,
}
use ptx_frontend.Syntax.Constant.{
  AstConstantExpression, literal, symbol, parenthesized, call, cast, unary, binary, conditional,
  range_of,
}
use ptx_frontend.Semantic.Integer.{IntegerValue}
use ptx_frontend.Semantic.Integer.Range.{IsWord}
use ptx_frontend.Semantic.Constant.{
  Binary64, invalid, same_category, Sinks, Step, parse_integer_literal, address_info, typed_literal,
  defer,
}
use ptx_frontend.Semantic.Constant.Literal.{
  classify_literal, integer_literal, single_literal, double_literal, decimal_literal, double_of,
  unsigned_text,
}
use ptx_frontend.Semantic.Constant.Binary.{classify_binary}
use ptx_frontend.Semantic.Constant.Result.{
  call_result, cast_result, unary_result, conditional_result, is_generic, is_literal,
}
use ptx_frontend.Semantic.Constant.Classify.{finish, classify_expression, symbol_message}
use ptx_frontend.Semantic.Constant.Formed.{
  AllWords, IsFormed, invalid-IsFormed, both, binary-IsFormed,
}
use ptx_frontend.Common.FromChars.{whole, from_chars}
use ptx_frontend.Semantic.Constant.Formed.Results.{
  call-IsFormed, cast-IsFormed, unary-IsFormed, conditional-IsFormed,
}

typed_words :
    (b : Bool) (m : Option ℕ) → ((v : ℕ) → m ≡ some v → IsWord v) → AllWords (typed_literal b m)
typed_words b none h = tt
typed_words b (some v) h = h v refl

-- An integer literal is a word.
literal_words : (t : Text) → AllWords (parse_integer_literal t)
unfolding parse_integer_literal
literal_words t =
    typed_words (explicitly_unsigned t) (parse_integer_magnitude t)
      (λ v e. parse_integer_magnitude-lt t v e)

module _ {F : Type 0} (float : Binary64 F) where
  integer-IsFormed :
      (i : AstImmediate) (v : Option IntegerValue) (s : Sinks)
      → AllWords v
      → IsFormed (integer_literal float i v s).0
  unfolding integer_literal
  integer-IsFormed i none s h = invalid-IsFormed
  integer-IsFormed i (some v) s h = ((h, refl), refl)

  double-IsFormed : (negative : Bool) (v : Option ℕ) → IsFormed (double_of float negative v)
  unfolding double_of
  double-IsFormed negative none = invalid-IsFormed
  double-IsFormed negative (some v) = (refl, refl)

  decimal-IsFormed : (v : Option F) → IsFormed (decimal_literal float v)
  unfolding decimal_literal
  decimal-IsFormed none = invalid-IsFormed
  decimal-IsFormed (some v) = (refl, refl)

  literal-IsFormed :
      (i : AstImmediate) (k : AstImmediateKind) (s : Sinks)
      → IsFormed (classify_literal float false i k s).0
  unfolding classify_literal single_literal double_literal
  literal-IsFormed i decimal_integer s =
      integer-IsFormed i (parse_integer_literal i.syntax.text) s (literal_words i.syntax.text)
  literal-IsFormed i binary_integer s =
      integer-IsFormed i (parse_integer_literal i.syntax.text) s (literal_words i.syntax.text)
  literal-IsFormed i hex_integer s =
      integer-IsFormed i (parse_integer_literal i.syntax.text) s (literal_words i.syntax.text)
  literal-IsFormed i warp_size s = ((omega arith, refl), refl)
  literal-IsFormed i f32_hex s = invalid-IsFormed
  literal-IsFormed i f64_hex s =
      let t = i.syntax.text in
      both IsFormed (ltb (length (unsigned_text t)) 2) invalid-IsFormed (
        double-IsFormed (starts_with (codes "-") t)
          (whole (from_chars 64 16 (drop 2 (unsigned_text t)))))
  literal-IsFormed i decimal_float s = decimal-IsFormed (float.decimal i.syntax.text)

  pub finish_info : (at : SourceRange) (p : Step F) → (finish float at p).0 ≡ p.0
  unfolding finish
  finish_info at p = elim (Bool-cases (same_category p.0.category invalid)) [
    | inl e ↦ rw e refl
    | inr e ↦ rw e refl
  ]

  finished : (at : SourceRange) (p : Step F) → IsFormed p.0 → IsFormed (finish float at p).0
  finished at p h = subst IsFormed (sym (finish_info at p)) h

  -- Evaluated without the permission for a direct single-precision literal, a result is consistent:
  -- an integer value stands in an integral result only and is below 2 ^ 64, a `double` in a floating
  -- one only, addresses and invalid results have no value, and the type is `F64`.
  pub classify_expression-IsFormed :
      (e : AstConstantExpression) (s : Sinks) → IsFormed (classify_expression float false e s).0
  unfolding classify_expression
  classify_expression-IsFormed (literal i at) s = finished at _ (literal-IsFormed i i.kind s)
  classify_expression-IsFormed (symbol n at) s =
      finished at (address_info, defer n.range symbol_message s) ((refl, refl), refl)
  classify_expression-IsFormed (parenthesized e at) s =
      finished at _ (classify_expression-IsFormed e s)
  classify_expression-IsFormed (call callee argument at) s =
      let c = classify_expression float false callee s in
      let a = classify_expression float false argument c.1 in
      finished at (call_result float (is_generic callee) (is_literal callee) c.0 a.0, a.1)
        (call-IsFormed float (is_generic callee) (is_literal callee) c.0 a.0)
  classify_expression-IsFormed (cast t e at) s =
      let o = classify_expression float false e s in
      finished at (cast_result float t.text o.0, o.1)
        (cast-IsFormed float t.text o.0 (classify_expression-IsFormed e s))
  classify_expression-IsFormed (unary op e at) s =
      let o = classify_expression float false e s in
      finished at (unary_result float op o.0, o.1)
        (unary-IsFormed float op o.0 (classify_expression-IsFormed e s))
  classify_expression-IsFormed (binary left op right at) s =
      let l = classify_expression float false left s in
      let r = classify_expression float false right l.1 in
      finished at (classify_binary float op (range_of left) (range_of right) l.0 r.0 r.1) (
        binary-IsFormed float op (range_of left) (range_of right) l.0 r.0 r.1
          (classify_expression-IsFormed left s) (classify_expression-IsFormed right l.1))
  classify_expression-IsFormed (conditional condition true_value false_value at) s =
      let c = classify_expression float false condition s in
      let y = classify_expression float false true_value c.1 in
      let o = classify_expression float false false_value y.1 in
      finished at (conditional_result float c.0 y.0 o.0, o.1)
        (conditional-IsFormed float c.0 y.0 o.0 (classify_expression-IsFormed true_value c.1)
          (classify_expression-IsFormed false_value y.1))
