-- ===== src/Node/Children.antt =====
-- The `get_children_count` and `get_child` methods of src/node_*.c: the nodes that a node refers to.
use libecoli.Base.{ℕ, Option, none, some, List, [], ◌∷◌}
use libecoli.Node.Types.{Node, seq, or, many, option, once, bypass, expr, subset, sh_lex}

abbrev pub child_list : Option ℕ → List ℕ
child_list none = []
child_list (some c) = c ∷ []

unfoldable pub children : Node → List ℕ
children (seq table) = table
children (or table) = table
children (many min max child) = child_list child
children (option child) = child_list child
children (once child) = child_list child
children (bypass child) = child_list child
children (expr child) = child_list child
children (subset table min) = table
children (sh_lex child) = child_list child
children _ = []
