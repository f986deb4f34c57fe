-- ===== src/Parser.antt =====
-- The parser (Compiler/bootstrap/parser_host.cpp): recursive descent on the list of tokens.
pub mod Kinds
pub mod State
pub mod Expressions
pub mod Declarations
pub mod Statements
pub mod Programs
pub mod Progress
mod Examples
