-- ===== src/Sound.antt =====
-- Soundness of parsing: a tree that src/parse.c and the node types return is of the shape that the
-- types of their nodes ask for.
pub mod Valid
mod Child
mod Lists
mod Wrap
mod Subset
mod Pieces
mod Main
pub use Main.*
