-- ===== src/Parse/Tree.antt =====
-- src/parse.c, struct ec_pnode: the parse tree, and its operations on the list of children.
use libecoli.Base.{ℕ, ◌+◌, if◌then◌else◌, ◌==◌, Option, none, some, List, [], ◌∷◌}
use libecoli.Strvec.{Strvec}

-- A grammar node is named by its address. `matched` is the `strvec` field: `none` is NULL.
mutual
  pub data Pnode : Type 0 where
    pnode : (node : ℕ) → (strvec : Option Strvec) → (children : Pnodes) → Pnode

  -- the TAILQ of children
  pub data Pnodes : Type 0 where
    nil : Pnodes
    cons : Pnode → Pnodes → Pnodes

abbrev pub get_node : Pnode → ℕ
get_node (pnode n v c) = n

abbrev pub get_strvec : Pnode → Option Strvec
get_strvec (pnode n v c) = v

abbrev pub get_children : Pnode → Pnodes
get_children (pnode n v c) = c

-- ec_pnode_link_child: at the tail
unfoldable pub link_child : Pnodes → Pnode → Pnodes
link_child nil p = cons p nil
link_child (cons q qs) p = cons q (link_child qs p)

-- ec_pnode_get_last_child
unfoldable pub get_last_child : Pnodes → Option Pnode
get_last_child nil = none
get_last_child (cons p nil) = some p
get_last_child (cons p (cons q qs)) = get_last_child (cons q qs)

-- ec_pnode_del_last_child, and ec_pnode_unlink_child of the last child
unfoldable pub del_last_child : Pnodes → Pnodes
del_last_child nil = nil
del_last_child (cons p nil) = nil
del_last_child (cons p (cons q qs)) = cons p (del_last_child (cons q qs))

-- node_once.c, count_node
unfoldable mutual
  pub count_node : Pnode → ℕ → ℕ
  count_node (pnode m v c) n = (if m == n then 1 else 0) + count_children c n

  pub count_children : Pnodes → ℕ → ℕ
  count_children nil n = 0
  count_children (cons p ps) n = count_node p n + count_children ps n

abbrev pub to_list : Pnodes → List Pnode
to_list nil = []
to_list (cons p ps) = p ∷ to_list ps
