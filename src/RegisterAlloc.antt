-- ===== src/RegisterAlloc.antt =====
-- The register allocator (Compiler/register_alloc.cpp) and what is proved of it.
pub mod Intervals
pub mod Scan
pub mod Uses
pub mod Scanned
pub mod Placed
pub mod Sorted
pub mod Apart
pub mod Live
pub mod Reaches
mod Examples
