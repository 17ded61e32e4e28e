-- ===== src/Node.antt =====
-- The node types of the grammar, and their dispatch: src/node_*.c.
mod Types
mod Leaf
mod Lists
mod Wrap
mod Subset
mod Dispatch
mod Children
pub use Types.*
unfoldable pub use Leaf.*
unfoldable pub use Lists.*
unfoldable pub use Wrap.*
unfoldable pub use Subset.*
unfoldable pub use Children.*
unfoldable pub use Dispatch.*
