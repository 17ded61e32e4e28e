-- ===== src/Complete.antt =====
-- src/complete.c and the complete methods of src/node_*.c.
mod Items
mod Child
mod Lists
mod Wrap
mod Dispatch
unfoldable pub use Items.*
unfoldable pub use Child.*
unfoldable pub use Lists.*
unfoldable pub use Wrap.*
unfoldable pub use Dispatch.*
