-- ===== src/Total.antt =====
-- Parsing returns: the fuel that is enough (src/parse.c, src/node_*.c).
pub mod Lists
mod Subset
mod Main
pub use Main.*
