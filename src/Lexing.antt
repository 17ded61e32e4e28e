-- ===== src/Lexing.antt =====
-- Theorems on the lexer of src/strvec.c.
mod Quoted
mod RoundTrip
mod Bounds
pub mod Quirks
pub use RoundTrip.*
pub use Bounds.*
