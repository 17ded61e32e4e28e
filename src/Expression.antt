-- ===== src/Expression.antt =====
-- Theorems on expressions: src/node_expr.c.
pub mod Tree
pub mod Merge
pub mod Combine
pub mod Meaning
pub mod Steps
pub mod Pairs
pub mod Groups
pub mod Sound
pub mod Built
pub mod Cover
pub mod Answer
