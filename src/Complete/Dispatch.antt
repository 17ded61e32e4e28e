-- ===== src/Complete/Dispatch.antt =====
-- The `complete` field of struct ec_node_type, and completion as a recursion over the grammar
-- graph: src/complete.c.
use libecoli.Base.{
  ℕ, zero, suc, Bytes, if◌then◌else◌, ◌==◌, str_eq, true, false, none, some, List, [], ◌∷◌, ◌++◌,
  length,
}
use libecoli.Strvec.{Strvec}
use libecoli.Parse.{Parser, Frame, nil}
use libecoli.Node.{
  Node, Grammar, parse, str, seq, or, many, option, once, bypass, expr, subset, sh_lex,
}
use libecoli.Complete.Items.{Comp, Mask, no_items, comp_count, iter_first, item_at}
use libecoli.Complete.Child.{
  Completed, completed, failure, aborted, deeper, Completer, complete_unknown,
}
use libecoli.Complete.Lists.{seq_complete, or_complete, many_complete, subset_complete}
use libecoli.Complete.Wrap.{
  str_complete, option_complete, bypass_complete, expr_complete, once_complete, sh_lex_complete,
}

-- `ec_node_type(node)->complete(node, comp, strvec)`, or ec_complete_unknown if it is NULL; the
-- types of applications have none here.
unfoldable pub node_complete :
    Bytes → Parser → Completer → List Frame → ℕ → Node → Comp → Strvec → Completed
unfolding str_complete seq_complete or_complete many_complete subset_complete option_complete
    bypass_complete expr_complete once_complete sh_lex_complete complete_unknown
node_complete stack parse complete path self (str string) comp vec =
    str_complete string path self comp vec
node_complete stack parse complete path self Node.none comp vec = completed comp nil
node_complete stack parse complete path self (seq table) comp vec =
    seq_complete parse complete path self table nil comp vec
node_complete stack parse complete path self (or table) comp vec =
    or_complete parse complete path self table nil comp vec
node_complete stack parse complete path self (many min max child) comp vec =
    many_complete parse complete path self max child comp vec
node_complete stack parse complete path self (option child) comp vec =
    option_complete complete path self child comp vec
node_complete stack parse complete path self (once child) comp vec =
    once_complete complete path self child comp vec
node_complete stack parse complete path self (bypass child) comp vec =
    bypass_complete complete path self child comp vec
node_complete stack parse complete path self (expr child) comp vec =
    expr_complete complete path self child comp vec
node_complete stack parse complete path self (subset table min) comp vec =
    subset_complete parse complete path self (length table) table nil comp vec
node_complete stack parse complete path self (sh_lex child) comp vec =
    sh_lex_complete complete path self stack child comp vec
node_complete stack parse complete path self _ comp vec = complete_unknown path self comp vec

-- The recursion of the complete methods through ec_complete_child, as deep as the fuel.
unfoldable pub complete : Grammar → ℕ → Completer
unfolding node_complete
complete g zero path node comp vec = deeper
complete g (suc fuel) path node comp vec =
    node_complete g.stack (parse g fuel) (complete g fuel) path node (g.node node) comp vec

-- ec_complete_child without a parent, and ec_complete_strvec: the completions, NULL, a failed
-- assert, or a stack that is not deep enough
pub data Completions : Type 0 where
  items : Comp → Completions
  null : Completions
  assert_failed : Completions
  too_deep : Completions

unfoldable pub complete_strvec : Grammar → ℕ → ℕ → Strvec → Completions
unfolding complete
complete_strvec g fuel node vec = elim (complete g fuel [] node no_items vec) [
  | completed comp cs ↦ items comp
  | failure cs ↦ null
  | aborted ↦ assert_failed
  | deeper ↦ too_deep
]

-- ec_complete: the string as a vector of one element
unfoldable pub complete_str : Grammar → ℕ → ℕ → Bytes → Completions
unfolding complete_strvec
complete_str g fuel node s = complete_strvec g fuel node (record { str = s; attrs = none } ∷ [])

-- ec_complete_strvec_expand: the one completion of the last string, if it is another string
unfoldable pub expansion : Comp → Mask → Bytes → Bytes
expansion comp mask s = elim (comp_count comp mask == 1) [
  | false ↦ s
  | true ↦ elim (iter_first comp mask) [
    | none ↦ s
    | some place ↦ elim (item_at comp place) [
      | none ↦ s
      | some item ↦ elim item.str [ none ↦ s | some exp ↦ if str_eq s exp then s else exp ]
    ]
  ]
]

-- ec_complete_strvec_expand: what it returns, as for ec_complete_strvec
pub data Expanded : Type 0 where
  expanded : Strvec → Expanded
  not_expanded : Expanded
  unwound : Expanded
  deep : Expanded

-- The loop, with the strings that are expanded so far.
unfoldable pub expand_loop : Grammar → ℕ → ℕ → Mask → Strvec → Strvec → Expanded
unfolding complete_strvec expansion
expand_loop g fuel node mask done [] = expanded done
expand_loop g fuel node mask done (e ∷ vec) =
    elim (complete_strvec g fuel node (done ++ (record { str = e.str; attrs = none } ∷ []))) [
      | null ↦ not_expanded
      | assert_failed ↦ unwound
      | too_deep ↦ deep
      | items comp ↦
          expand_loop g fuel node mask
            (done ++ (record { str = expansion comp mask e.str; attrs = none } ∷ [])) vec
    ]

-- ec_complete_strvec_expand
unfoldable pub complete_strvec_expand : Grammar → ℕ → ℕ → Mask → Strvec → Expanded
unfolding expand_loop
complete_strvec_expand g fuel node mask vec = expand_loop g fuel node mask [] vec
