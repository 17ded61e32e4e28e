-- ===== src/Graph.antt =====
-- src/node.c: the walks over the graph of nodes that precede the freeing of a node.
pub mod Free
pub mod Sums
pub mod Marked
pub mod Count
pub mod Spread
pub mod Shared
pub use Free.*
