-- ===== src/Lexer.antt =====
-- The lexer (Compiler/bootstrap/lexer_host.cpp): from the bytes of a source to its tokens.
pub mod Chars
pub mod State
pub mod Scan
pub mod Spans
mod Examples
