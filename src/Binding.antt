-- ===== src/Binding.antt =====
-- submod/binding: the symbol table.
pub mod Names
pub mod Symbols
pub mod Index
pub mod Scopes
pub mod Table
pub mod Lookup
pub mod Builder
pub mod Declarators
