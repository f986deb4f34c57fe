-- ===== src/Lower.antt =====
-- Lowering of the syntax tree to the intermediate representation (Compiler/nir.cpp).
pub mod Builder
pub mod Expressions
pub mod Calls
pub mod Statements
pub mod WellFormed
mod Examples
