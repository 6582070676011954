-- ===== src/Base.antt =====
-- submod/base: decoding of integers, identifiers, scalar types, targets and special registers.
pub mod Integer
pub mod Identifier
pub mod Scalar
pub mod Target
pub mod SpecialRegister
