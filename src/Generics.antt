-- ===== src/Generics.antt =====
-- The names of generic types (Compiler/generics.cpp) and what is proved of them.
pub mod Hex
pub mod Mangle
pub mod Plain
pub mod Names
pub mod Substitute
pub mod Bind
pub mod State
pub mod Instances
pub mod Clone
pub mod Calls
pub mod Monomorphize
pub mod Lengths
pub mod Unchanged
pub mod Walk
pub mod Programs
pub mod Ensured
pub mod Cloned
pub mod Bare
pub mod Instantiated
pub mod Finished
pub mod Collected
pub mod Reported
pub mod CallSteps
pub mod WalkSteps
pub mod Results
pub mod Squeeze
pub mod Enough
pub mod BindEnough
mod Examples
