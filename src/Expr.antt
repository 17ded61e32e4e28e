-- ===== src/Expr.antt =====
-- src/node_expr.c: expression grammars and their evaluation.
mod Build
mod Eval
unfoldable pub use Build.*
unfoldable pub use Eval.*
