-- ===== src/Lifetime.antt =====
-- The lifetime checker (Compiler/lifetime.cpp): which borrows a function passes on, and whether a borrow
-- outlives what it refers to. A `std::unordered_map` or `std::unordered_set` is a list without
-- repetition; where the source runs through one, the list's order is the order taken.
pub mod Sets
pub mod Summary
pub mod Functions
pub mod Inspector
pub mod Scopes
pub mod Check
pub mod Expiry
pub mod Passes
pub mod Reports
pub mod Acceptance
pub mod Declared
pub mod Returned
mod Examples
