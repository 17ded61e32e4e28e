-- ===== src/Complete/Wrap.antt =====
-- The complete methods of strings and of nodes with one child: src/node_str.c, node_option.c,
-- node_once.c, node_bypass.c, node_expr.c and, without expansion, node_sh_lex.c.
use libecoli.Base.{
  ℕ, Bytes, Bool, true, false, if◌then◌else◌, ltb, ◌==◌, ◌||◌, Option, none, some, List, [], ◌∷◌,
  ◌++◌,
}
use libecoli.Str.{str_startswith}
use libecoli.Strvec.{Strvec}
use libecoli.Strvec.Lex.{lexed, bad_msg, no_bufs, sh_lex_str}
use libecoli.Parse.{Frame, nil, count_path}
use libecoli.Complete.Items.{CompType, full, Item, Group, Comp, add_item, set_str, set_completion}
use libecoli.Complete.Child.{
  Completed, completed, failure, aborted, deeper, Completer, complete_child, added,
}

-- ec_node_str_complete
unfoldable pub str_complete : Option Bytes → Completer
unfolding added
str_complete none path self comp vec = failure nil
str_complete (some string) path self comp (e ∷ []) =
    if str_startswith string e.str
    then added (
        add_item comp (record { node = self; kids = nil } ∷ path) self none full (some e.str)
          (some string))
    else completed comp nil
str_complete (some string) path self comp vec = completed comp nil

module _ (complete : Completer) (path : List Frame) (self : ℕ) where
  -- ec_node_option_complete, ec_node_bypass_complete and ec_node_expr_complete
  unfoldable pub option_complete : Option ℕ → Comp → Strvec → Completed
  unfolding complete_child
  option_complete none comp vec = failure nil
  option_complete (some child) comp vec = complete_child complete path self nil comp child vec

  unfoldable pub bypass_complete : Option ℕ → Comp → Strvec → Completed
  unfolding complete_child
  bypass_complete none comp vec = failure nil
  bypass_complete (some child) comp vec = complete_child complete path self nil comp child vec

  unfoldable pub expr_complete : Option ℕ → Comp → Strvec → Completed
  unfolding complete_child
  expr_complete none comp vec = failure nil
  expr_complete (some child) comp vec = complete_child complete path self nil comp child vec

  -- ec_node_once_complete
  unfoldable pub once_complete : Option ℕ → Comp → Strvec → Completed
  unfolding complete_child count_path
  once_complete none comp vec = failure nil
  once_complete (some child) comp vec =
      if ltb 0 (count_path (record { node = self; kids = nil } ∷ path) child)
      then completed comp nil
      else complete_child complete path self nil comp child vec

-- The keys of ec_node_sh_lex_complete's table: the addresses of the full items so far.
abbrev pub is_full : CompType → Bool
is_full full = true
is_full _ = false

unfoldable pub full_addrs : List Item → List ℕ
full_addrs [] = []
full_addrs (item ∷ items) =
    if is_full item.type then item.addr ∷ full_addrs items else full_addrs items

unfoldable pub known_items : List Group → List ℕ
unfolding full_addrs
known_items [] = []
known_items (grp ∷ groups) = full_addrs grp.items ++ known_items groups

-- ec_htable_has_key on those keys
unfoldable pub is_known : List ℕ → ℕ → Bool
is_known [] addr = false
is_known (a ∷ known) addr = a == addr || is_known known addr

-- The missing quote around the string of an item, and behind its completion; `none` is -1.
unfoldable pub quote_item : ℕ → Item → Option Item
unfolding set_str set_completion
quote_item quote item = elim item.str [
  | none ↦ none
  | some s ↦ elim (set_str item (some (quote ∷ s ++ (quote ∷ [])))) [
    | none ↦ none
    | some item' ↦ elim item'.completion [
      | none ↦ none
      | some c ↦ set_completion item' (some (c ++ (quote ∷ [])))
    ]
  ]
]

-- The last loop of ec_node_sh_lex_complete, over the full items that are not in the table.
unfoldable pub quote_items : List ℕ → ℕ → List Item → Option (List Item)
unfolding quote_item is_known
quote_items known quote [] = some []
quote_items known quote (item ∷ items) =
    elim (if is_full item.type then is_known known item.addr else true) [
      | true ↦ elim (quote_items known quote items) [
        | none ↦ none
        | some items' ↦ some (item ∷ items')
      ]
      | false ↦ elim (quote_item quote item) [
        | none ↦ none
        | some item' ↦ elim (quote_items known quote items) [
          | none ↦ none
          | some items' ↦ some (item' ∷ items')
        ]
      ]
    ]

unfoldable pub quote_groups : List ℕ → ℕ → List Group → Option (List Group)
unfolding quote_items
quote_groups known quote [] = some []
quote_groups known quote (grp ∷ groups) = elim (quote_items known quote grp.items) [
  | none ↦ none
  | some items ↦ elim (quote_groups known quote groups) [
    | none ↦ none
    | some groups' ↦ some (record grp { items = items } ∷ groups')
  ]
]

-- what follows the child's completion; without a missing quote, `missing_quote` is 0
unfoldable pub close_quotes : List ℕ → Option ℕ → Completed → Completed
unfolding quote_groups
close_quotes known none result = result
close_quotes known (some quote) (completed comp cs) =
    if quote == 0 then completed comp cs else elim (quote_groups known quote comp.groups) [
      | none ↦ failure cs
      | some groups ↦ completed (record comp { groups = groups }) cs
    ]
close_quotes known (some quote) (failure cs) = failure cs
close_quotes known (some quote) aborted = aborted
close_quotes known (some quote) deeper = deeper

-- ec_node_sh_lex_complete with `expand` false; `stack` is the lexer's uninitialised array
unfoldable pub sh_lex_complete :
    Completer → List Frame → ℕ → Bytes → Option ℕ → Comp → Strvec → Completed
unfolding close_quotes known_items complete_child sh_lex_str
sh_lex_complete complete path self stack none comp vec = failure nil
sh_lex_complete complete path self stack (some child) comp (e ∷ []) =
    elim (sh_lex_str stack e.str false true) [
      | lexed new_vec missing_quote ↦
          close_quotes (known_items comp.groups) missing_quote
            (complete_child complete path self nil comp child new_vec)
      | bad_msg quote ↦ failure nil
      | no_bufs ↦ failure nil
    ]
sh_lex_complete complete path self stack (some child) comp vec = completed comp nil
