-- ===== src/TypeChecker.antt =====
-- The type checker (Compiler/type_checker.cpp) and what is proved of it.
pub mod State
pub mod Literals
pub mod Resolve
pub mod Generics
pub mod Operators
pub mod Binary
pub mod Builtins
pub mod Expressions
pub mod Statements
pub mod Layout
pub mod Check
pub mod Known
pub mod Visits
pub mod Parts
pub mod BuiltinParts
pub mod Sound
pub mod Steps
pub mod StatementSteps
pub mod LiteralRanges
pub mod LayoutBounds
pub mod RecordBounds
pub mod Arguments
pub mod Signatures
pub mod Program
mod Examples
