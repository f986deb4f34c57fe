-- ===== src/Interp.antt =====
-- The reference interpreter of the intermediate representation
-- (Compiler/bootstrap/interpreter_host.cpp).
pub mod Result
pub mod Arith
pub mod Values
pub mod Memory
pub mod State
pub mod Ops
pub mod Step
pub mod Loop
pub mod Registers
pub mod Block
pub mod Samples
mod Examples
