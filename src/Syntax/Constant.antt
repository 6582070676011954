-- ===== src/Syntax/Constant.antt =====
-- submod/syntax/include/ptx_syntax_ast.hpp: constant expressions. A node carries the range of its
-- expression as its last argument; an owning pointer is the expression that it points to.
use ptx_frontend.Syntax.{SourceRange, AstSyntax, AstImmediate}
use ptx_frontend.Semantic.Integer.{BinaryOperator}

pub data AstConstantUnaryOperator : Type 0 where
  plus minus logical_not bitwise_not : AstConstantUnaryOperator

pub data AstConstantExpression : Type 0 where
  literal : AstImmediate → SourceRange → AstConstantExpression
  symbol : AstSyntax → SourceRange → AstConstantExpression
  parenthesized : AstConstantExpression → SourceRange → AstConstantExpression
  call : AstConstantExpression → AstConstantExpression → SourceRange → AstConstantExpression
  cast : AstSyntax → AstConstantExpression → SourceRange → AstConstantExpression
  unary : AstConstantUnaryOperator → AstConstantExpression → SourceRange → AstConstantExpression
  binary :
      AstConstantExpression
      → BinaryOperator
      → AstConstantExpression
      → SourceRange
      → AstConstantExpression
  conditional :
      AstConstantExpression
      → AstConstantExpression
      → AstConstantExpression
      → SourceRange
      → AstConstantExpression

-- The member `range` of an expression.
abbrev pub range_of : AstConstantExpression → SourceRange
range_of (literal i r) = r
range_of (symbol n r) = r
range_of (parenthesized e r) = r
range_of (call c a r) = r
range_of (cast t e r) = r
range_of (unary o e r) = r
range_of (binary a o b r) = r
range_of (conditional c a b r) = r
