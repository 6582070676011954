-- ===== src/Semantic/Constant/Diagnostics.antt =====
-- The diagnostics that the evaluation of an expression adds.
use ptx_frontend.Common.{
  ◌≡◌, inl, inr, refl, sym, ap, ◌∙◌, Bool, false, not, ◌&&◌, Option, none, some, is_some,
  if◌then◌else◌, Bool-cases, List, [], ◌∷◌, ◌++◌,
}
use ptx_frontend.Syntax.{
  SourceRange, AstImmediate, AstImmediateKind, decimal_integer, hex_integer, f32_hex, f64_hex,
  decimal_float, warp_size, binary_integer,
}
use ptx_frontend.Syntax.Constant.{
  AstConstantExpression, literal, symbol, parenthesized, call, cast, unary, binary, conditional,
  range_of,
}
use ptx_frontend.Semantic.Integer.{IntegerValue}
use ptx_frontend.Semantic.Constant.{
  Binary64, invalid, same_category, Sinks, Step, parse_integer_literal, address_info, defer,
  DeclarationDiagnostic, push_back, invalid_literal,
}
use ptx_frontend.Semantic.Constant.Literal.{
  classify_literal, integer_literal, single_literal, has_sign,
}
use ptx_frontend.Semantic.Constant.Binary.{classify_binary}
use ptx_frontend.Semantic.Constant.Result.{
  call_result, cast_result, unary_result, conditional_result, is_generic, is_literal,
}
use ptx_frontend.Semantic.Constant.Classify.{finish, classify_expression, symbol_message}
use ptx_frontend.Semantic.Constant.Effects.{Effect, binary-Effect}
use mathlib.Core.List.{append-nil, append_assoc}

-- The integer literals that are not representable, from left to right.
abbrev pub literal_report : AstImmediate → AstImmediateKind → List DeclarationDiagnostic
literal_report i decimal_integer =
    if is_some (parse_integer_literal i.syntax.text) then [] else invalid_literal i ∷ []
literal_report i binary_integer =
    if is_some (parse_integer_literal i.syntax.text) then [] else invalid_literal i ∷ []
literal_report i hex_integer =
    if is_some (parse_integer_literal i.syntax.text) then [] else invalid_literal i ∷ []
literal_report i warp_size = []
literal_report i f32_hex = []
literal_report i f64_hex = []
literal_report i decimal_float = []

abbrev pub literal_reports : AstConstantExpression → List DeclarationDiagnostic
literal_reports (literal i at) = literal_report i i.kind
literal_reports (symbol n at) = []
literal_reports (parenthesized e at) = literal_reports e
literal_reports (call c a at) = literal_reports c ++ literal_reports a
literal_reports (cast t e at) = literal_reports e
literal_reports (unary op e at) = literal_reports e
literal_reports (binary l op r at) = literal_reports l ++ literal_reports r
literal_reports (conditional c a b at) =
    literal_reports c ++ (literal_reports a ++ literal_reports b)

abbrev pub appended :
    Option (List DeclarationDiagnostic)
    → List DeclarationDiagnostic
    → Option (List DeclarationDiagnostic)
appended none more = none
appended (some ds) more = some (ds ++ more)

appended_none : (o : Option (List DeclarationDiagnostic)) → appended o [] ≡ o
appended_none none = refl
appended_none (some ds) = ap some (append-nil ds)

appended_twice :
    (o : Option (List DeclarationDiagnostic)) (a b : List DeclarationDiagnostic)
    → appended (appended o a) b ≡ appended o (a ++ b)
appended_twice none a b = refl
appended_twice (some ds) a b = ap some (append_assoc ds a b)

pushed :
    (d : DeclarationDiagnostic) (o : Option (List DeclarationDiagnostic))
    → push_back d o ≡ appended o (d ∷ [])
pushed d none = refl
pushed d (some ds) = refl

module _ {F : Type 0} (float : Binary64 F) where
  finish_keeps :
      (at : SourceRange) (p : Step F) → (finish float at p).1.diagnostics ≡ p.1.diagnostics
  unfolding finish
  finish_keeps at p = elim (Bool-cases (same_category p.0.category invalid)) [
    | inl e ↦ rw e refl
    | inr e ↦ rw e refl
  ]

  Effect-keeps : (m : Sinks) (p : Step F) → Effect m p → p.1.diagnostics ≡ m.diagnostics
  Effect-keeps m p (inl h) = ap (λ (t : Sinks). t.diagnostics) h
  Effect-keeps m p (inr h) = ap (λ (t : Sinks). t.diagnostics) h.reported

  integers_report :
      (i : AstImmediate) (v : Option IntegerValue) (s : Sinks)
      → (integer_literal float i v s).1.diagnostics
        ≡ appended s.diagnostics (if is_some v then [] else invalid_literal i ∷ [])
  unfolding integer_literal
  integers_report i none s = pushed (invalid_literal i) s.diagnostics
  integers_report i (some v) s = sym (appended_none s.diagnostics)

  literal_reported :
      (allow : Bool) (i : AstImmediate) (k : AstImmediateKind) (s : Sinks)
      → (classify_literal float allow i k s).1.diagnostics
        ≡ appended s.diagnostics (literal_report i k)
  unfolding classify_literal single_literal
  literal_reported allow i decimal_integer s =
      integers_report i (parse_integer_literal i.syntax.text) s
  literal_reported allow i binary_integer s =
      integers_report i (parse_integer_literal i.syntax.text) s
  literal_reported allow i hex_integer s = integers_report i (parse_integer_literal i.syntax.text) s
  literal_reported allow i warp_size s = sym (appended_none s.diagnostics)
  literal_reported allow i f32_hex s = elim (Bool-cases (allow && not (has_sign i.syntax.text))) [
    | inl e ↦ rw e (sym (appended_none s.diagnostics))
    | inr e ↦ rw e (sym (appended_none s.diagnostics))
  ]
  literal_reported allow i f64_hex s = sym (appended_none s.diagnostics)
  literal_reported allow i decimal_float s = sym (appended_none s.diagnostics)

  -- Evaluation appends one diagnostic for each integer literal that is not representable as a
  -- `uint64_t`, in the order of the source, and no other; without the pointer none is written.
  pub classify_expression-literal_reports :
      (allow : Bool) (e : AstConstantExpression) (s : Sinks)
      → (classify_expression float allow e s).1.diagnostics
        ≡ appended s.diagnostics (literal_reports e)
  unfolding classify_expression
  classify_expression-literal_reports allow (literal i at) s =
      finish_keeps at (classify_literal float allow i i.kind s) ∙ literal_reported allow i i.kind s
  classify_expression-literal_reports allow (symbol n at) s =
      finish_keeps at (address_info, defer n.range symbol_message s)
      ∙ sym (appended_none s.diagnostics)
  classify_expression-literal_reports allow (parenthesized e at) s =
      finish_keeps at (classify_expression float false e s)
      ∙ classify_expression-literal_reports false e s
  classify_expression-literal_reports allow (call callee argument at) s =
      let c = classify_expression float false callee s in
      let a = classify_expression float false argument c.1 in
      finish_keeps at (call_result float (is_generic callee) (is_literal callee) c.0 a.0, a.1)
      ∙ classify_expression-literal_reports false argument c.1
      ∙ ap (λ (o : Option (List DeclarationDiagnostic)). appended o (literal_reports argument))
          (classify_expression-literal_reports false callee s)
      ∙ appended_twice s.diagnostics (literal_reports callee) (literal_reports argument)
  classify_expression-literal_reports allow (cast t e at) s =
      let o = classify_expression float false e s in
      finish_keeps at (cast_result float t.text o.0, o.1)
      ∙ classify_expression-literal_reports false e s
  classify_expression-literal_reports allow (unary op e at) s =
      let o = classify_expression float false e s in
      finish_keeps at (unary_result float op o.0, o.1)
      ∙ classify_expression-literal_reports false e s
  classify_expression-literal_reports allow (binary left op right at) s =
      let l = classify_expression float false left s in
      let r = classify_expression float false right l.1 in
      let p = classify_binary float op (range_of left) (range_of right) l.0 r.0 r.1 in
      finish_keeps at p
      ∙ Effect-keeps r.1 p (binary-Effect float r.1 op (range_of left) (range_of right) l.0 r.0)
      ∙ classify_expression-literal_reports false right l.1
      ∙ ap (λ (o : Option (List DeclarationDiagnostic)). appended o (literal_reports right))
          (classify_expression-literal_reports false left s)
      ∙ appended_twice s.diagnostics (literal_reports left) (literal_reports right)
  classify_expression-literal_reports allow (conditional condition true_value false_value at) s =
      let c = classify_expression float false condition s in
      let y = classify_expression float false true_value c.1 in
      let o = classify_expression float false false_value y.1 in
      let first = literal_reports condition in
      let second = literal_reports true_value in
      let third = literal_reports false_value in
      finish_keeps at (conditional_result float c.0 y.0 o.0, o.1)
      ∙ classify_expression-literal_reports false false_value y.1
      ∙ ap (λ (d : Option (List DeclarationDiagnostic)). appended d third)
          (classify_expression-literal_reports false true_value c.1
            ∙ ap (λ (d : Option (List DeclarationDiagnostic)). appended d second)
                (classify_expression-literal_reports false condition s))
      ∙ appended_twice (appended s.diagnostics first) second third
      ∙ appended_twice s.diagnostics first (second ++ third)
