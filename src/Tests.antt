-- ===== src/Tests.antt =====
-- Runs of the model at concrete inputs, and instances of its theorems.
mod Base
mod Semantic
mod Binding
mod Table
mod Orders
