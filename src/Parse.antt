-- ===== src/Parse.antt =====
-- src/parse.c: the parse tree, the grammar graph and one step of parsing.
mod Tree
mod Step
mod Iter
unfoldable pub use Tree.*
unfoldable pub use Step.*
unfoldable pub use Iter.*
