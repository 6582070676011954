-- ===== src/Semantic.antt =====
-- submod/semantic: the evaluation of constant expressions.
pub mod Integer
pub mod Constant
pub mod Language
