-- ===== src/Config.antt =====
-- src/config.c: configuration values and their schemas.
mod Values
mod Fields
mod Validate
unfoldable pub use Values.*
unfoldable pub use Fields.*
unfoldable pub use Validate.*
