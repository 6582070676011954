-- ===== src/Syntax.antt =====
-- The syntax tree: submod/common/include/source_loc.hpp, submod/base/include/ptx_ast_types.hpp and
-- submod/syntax/include/ptx_syntax_ast.hpp, as far as the constant expressions and declarators need it.
pub mod Constant
pub mod Declaration
use ptx_frontend.Common.{Text}
use ptx_frontend.Common.Int.{ℤ}

pub record SourcePos : Type 0 where
  pub line : ℤ
  pub column : ℤ

pub record SourceRange : Type 0 where
  pub start : SourcePos
  pub end : SourcePos

pub record AstSyntax : Type 0 where
  pub text : Text
  pub range : SourceRange

pub data AstImmediateKind : Type 0 where
  decimal_integer hex_integer f32_hex f64_hex decimal_float warp_size binary_integer :
      AstImmediateKind

pub record AstImmediate : Type 0 where
  pub syntax : AstSyntax
  pub kind : AstImmediateKind
