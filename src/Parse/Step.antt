-- ===== src/Parse/Step.antt =====
-- src/parse.c, __ec_parse_child: what a node's parse method returns, and a call of it on a child.
use libecoli.Base.{ℕ, ◌+◌, if◌then◌else◌, ◌==◌, none, some, List, [], ◌∷◌}
use libecoli.Strvec.{Strvec, ndup}
use libecoli.Parse.Tree.{Pnodes, pnode, link_child, count_children}

-- What a parse method returns, with the children that it leaves under its own tree node:
-- a length, EC_PARSE_NOMATCH, or -1, after which every tree node is freed. `out_of_fuel` has no
-- counterpart in the code: the recursion went deeper than the fuel.
pub data Outcome : Type 0 where
  matched : ℕ → Pnodes → Outcome
  nomatch : Pnodes → Outcome
  error : Outcome
  out_of_fuel : Outcome

-- A tree node under construction: its grammar node and the children linked so far.
pub record Frame : Type 0 where
  pub node : ℕ
  pub kids : Pnodes

-- The parse method of a node: the path above its tree node, the node and the strings.
abbrev pub Parser : Type 0
Parser = List Frame → ℕ → Strvec → Outcome

-- ec_strvec_ndup(strvec, 0, ret), then the link to the parent
unfoldable pub keep_child : Pnodes → ℕ → Strvec → ℕ → Pnodes → Outcome
keep_child cs child vec ret kids = elim (ndup vec 0 ret) [
  | none ↦ error
  | some match_strvec ↦ matched ret (link_child cs (pnode child (some match_strvec) kids))
]

-- what __ec_parse_child does with the outcome of the child's method
unfoldable pub settle : Pnodes → ℕ → Strvec → Outcome → Outcome
unfolding keep_child
settle cs child vec (matched ret kids) = keep_child cs child vec ret kids
settle cs child vec (nomatch kids) = nomatch cs
settle cs child vec error = error
settle cs child vec out_of_fuel = out_of_fuel

-- ec_parse_child: parse `child` under the tree node `self`, whose children are `cs`
unfoldable pub parse_child : Parser → List Frame → ℕ → Pnodes → ℕ → Strvec → Outcome
unfolding settle
parse_child parse path self cs child vec =
    settle cs child vec (parse (record { node = self; kids = cs } ∷ path) child vec)

-- count_node at the root of the tree: over every frame of the path
unfoldable pub count_path : List Frame → ℕ → ℕ
count_path [] n = 0
count_path (f ∷ path) n =
    (if f.node == n then 1 else 0) + count_children f.kids n + count_path path n
