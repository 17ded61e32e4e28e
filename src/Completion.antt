-- ===== src/Completion.antt =====
-- Theorems on completion: src/complete.c and the complete methods of src/node_*.c.
pub mod Clean
pub mod Lists
pub mod Methods
pub mod Safe
pub mod Added
pub mod Counts
pub mod Words
pub mod Walk
