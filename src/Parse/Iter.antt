-- ===== src/Parse/Iter.antt =====
-- src/parse.c: iterating over a parse tree, searching it and counting in it.
use libecoli.Base.{
  ℕ, zero, suc, ◌+◌, ◌%◌, ◌^◌, Bool, true, false, if◌then◌else◌, Bytes, str_eq, Option, none, some,
  List, [], ◌∷◌,
}
use libecoli.Parse.Tree.{Pnode, Pnodes, nil, cons, get_node, get_children}

-- A tree node below a root: the siblings behind it, those behind its parent, and so on to the root,
-- which are what the pointers to parent and sibling reach.
abbrev pub Place : Type 0
Place = Pnode × List Pnodes

-- __ec_pnode_iter_next: the loop to the next sibling of a node or of one above it
unfoldable pub climb : List Pnodes → Option Place
climb [] = none
climb (nil ∷ above) = climb above
climb (cons next rest ∷ above) = some (next, rest ∷ above)

unfoldable pub first_child : Pnodes → List Pnodes → Option Place
first_child nil above = climb above
first_child (cons child rest) above = some (child, rest ∷ above)

-- __ec_pnode_iter_next
unfoldable pub iter_next : Place → Bool → Option Place
iter_next (p, above) iter_children =
    if iter_children then first_child (get_children p) above else climb above

-- `id_of` is ec_node_id of a grammar node; `none` stands for a tree node without one.
module _ (id_of : ℕ → Option Bytes) where
  unfoldable pub has_id : Pnode → Bytes → Bool
  has_id p id = elim (id_of (get_node p)) [ none ↦ false | some name ↦ str_eq name id ]

  -- ec_pnode_find_next: the loop, for so many rounds
  unfoldable pub find_loop : ℕ → Option Place → Bytes → Option Place
  find_loop zero iter id = none
  find_loop (suc rounds) none id = none
  find_loop (suc rounds) (some iter) id =
      if has_id iter.0 id then some iter else find_loop rounds (iter_next iter true) id

  -- ec_pnode_find_next; `none` is NULL
  unfoldable pub pnode_find_next : ℕ → Option Pnode → Option Place → Bytes → Bool → Option Place
  pnode_find_next rounds none prev id iter_children = none
  pnode_find_next rounds (some root) none id iter_children = find_loop rounds (some (root, [])) id
  pnode_find_next rounds (some root) (some prev) id iter_children =
      find_loop rounds (iter_next prev iter_children) id

  -- ec_pnode_find
  unfoldable pub pnode_find : ℕ → Option Pnode → Bytes → Option Place
  pnode_find rounds root id = pnode_find_next rounds root none id true

  -- ec_pnode_count: the loop, for so many rounds, with the count so far, an unsigned int
  unfoldable pub count_loop : ℕ → Option Place → Bytes → ℕ → ℕ
  count_loop zero iter id count = count
  count_loop (suc rounds) none id count = count
  count_loop (suc rounds) (some iter) id count =
      count_loop rounds (iter_next iter true) id
        (if has_id iter.0 id then (count + 1) % 2 ^ 32 else count)

  -- ec_pnode_count; `none` is NULL
  unfoldable pub pnode_count : ℕ → Option Pnode → Bytes → ℕ
  pnode_count rounds none id = 0
  pnode_count rounds (some root) id = count_loop rounds (some (root, [])) id 0
