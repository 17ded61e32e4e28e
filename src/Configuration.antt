-- ===== src/Configuration.antt =====
-- Theorems on configuration values and schemas: src/config.c.
pub mod Schemas
pub mod Safe
pub mod Keys
pub mod Copies
pub mod Compare
pub mod Nested
pub mod Changes
pub mod Fits
pub mod Accepts
