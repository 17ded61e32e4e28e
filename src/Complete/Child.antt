-- ===== src/Complete/Child.antt =====
-- src/complete.c: ec_complete_child, and what a complete method returns.
use libecoli.Base.{ℕ, Option, none, some, List, [], ◌∷◌}
use libecoli.Strvec.{Strvec}
use libecoli.Parse.{Pnodes, nil, cons, Frame}
use libecoli.Complete.Items.{Comp, unknown, add_item}

-- 0 with the completions, or -1, each with the children left under the method's tree node.
-- `aborted` is a failed assert. `deeper` has no counterpart in the code: the recursion went deeper
-- than the fuel.
pub data Completed : Type 0 where
  completed : Comp → Pnodes → Completed
  failure : Pnodes → Completed
  aborted : Completed
  deeper : Completed

-- The complete method of a node: the path above its tree node, the node, the completions so far
-- and the strings.
abbrev pub Completer : Type 0
Completer = List Frame → ℕ → Comp → Strvec → Completed

-- The end of ec_complete_child below a parent: the tree node is unlinked again, and
-- `assert(ec_pnode_get_first_child(child_pstate) == NULL)`.
unfoldable pub leave : Pnodes → Completed → Completed
leave cs (completed comp nil) = completed comp cs
leave cs (completed comp (cons p ps)) = aborted
leave cs (failure nil) = failure cs
leave cs (failure (cons p ps)) = aborted
leave cs aborted = aborted
leave cs deeper = deeper

-- ec_complete_child: complete `child` under the tree node `self`, whose children are `cs`
unfoldable pub complete_child : Completer → List Frame → ℕ → Pnodes → Comp → ℕ → Strvec → Completed
unfolding leave
complete_child complete path self cs comp child vec =
    leave cs (complete (record { node = self; kids = cs } ∷ path) child comp vec)

-- `if (ret < 0) goto fail;` behind a call of ec_complete_child, then the rest of the method
unfoldable pub and_then : Completed → (Pnodes → Comp → Completed) → Completed
and_then (completed comp cs) next = next cs comp
and_then (failure cs) next = failure cs
and_then aborted next = aborted
and_then deeper next = deeper

-- A method that adds one item; it has no children yet, and no current group.
unfoldable pub added : Option (Comp × ℕ) → Completed
added none = failure nil
added (some (comp, cur_group)) = completed comp nil

-- ec_complete_unknown
unfoldable pub complete_unknown : Completer
unfolding added
complete_unknown path self comp (e ∷ []) =
    added (add_item comp (record { node = self; kids = nil } ∷ path) self none unknown none none)
complete_unknown path self comp vec = completed comp nil
