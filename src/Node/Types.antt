-- ===== src/Node/Types.antt =====
-- The private data of each node type, struct ec_node_* of src/node_*.c.
use libecoli.Base.{ℕ, Bytes, Option, List}
use libecoli.Strvec.{Strvec}

-- A node refers to others by their address, so a grammar may be shared and cyclic. `none` for
-- a string, a child or a compiled expression is the NULL of a node that is not configured yet.
-- `re` holds what regexec(3) reports of the whole match: `rm_so` and `rm_eo`.
-- `ext` is a type that the application registers, whose method reads the strings alone and
-- returns a length, or EC_PARSE_NOMATCH as `none`. `unsupported` has no parse method.
pub data Node : Type 0 where
  str : Option Bytes → Node
  any : (attr_name : Option Bytes) → Node
  empty : Node
  none : Node
  space : Node
  re : Option (Bytes → Option (ℕ × ℕ)) → Node
  ext : (Strvec → Option ℕ) → Node
  unsupported : Node
  seq : (table : List ℕ) → Node
  or : (table : List ℕ) → Node
  many : (min max : ℕ) → (child : Option ℕ) → Node
  option : (child : Option ℕ) → Node
  once : (child : Option ℕ) → Node
  bypass : (child : Option ℕ) → Node
  expr : (child : Option ℕ) → Node
  subset : (table : List ℕ) → (min : ℕ) → Node
  sh_lex : (child : Option ℕ) → Node

-- The nodes in memory, and what the lexer's `token` array holds before it is written.
pub record Grammar : Type 0 where
  pub node : ℕ → Node
  pub stack : Bytes
