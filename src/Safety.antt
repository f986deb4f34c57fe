-- ===== src/Safety.antt =====
-- The check that raw-pointer operations stand in `unsafe` blocks (Compiler/safety.cpp).
pub mod Annotator
pub mod Guarded
pub mod Visit
pub mod Sound
mod Examples
