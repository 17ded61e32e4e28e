-- ===== src/Tests/Completions.antt =====
-- Completion of concrete lines, and the theorems on completion at these inputs.
use libecoli.Base.{
  zero, suc, ◌-◌, true, false, length, All, arith, ℕ, ◌≡◌, ◌≢◌, refl, codes, str_eq, Bytes, Option,
  none, some, List, [], ◌∷◌,
}
use libecoli.Strvec.Lex.{buf_size}
use libecoli.Str.{str_startswith}
use libecoli.Parse.{link_child, del_last_child, count_path, count_children}
use libecoli.Complete.{
  Completions, CompType, Mask, Comp, unknown, full, comp_count, selects, iter_first, items,
  assert_failed, Item, Group, complete_strvec, complete_str, comp_item, set_str, set_completion,
  bump, group_for, append_item, item_add, add_item, is_unknown, no_items, full_addrs, known_items,
  is_known, quote_item, quote_items, quote_groups, del_children,
}
use libecoli.Node.{Node, Grammar, or, str, sh_lex, children, parse}
use libecoli.Completion.Safe.{complete_strvec-ne-assert_failed}
use libecoli.Completion.Added.{all_items, selected}
use libecoli.Completion.Counts.{comp_count-selected}
use libecoli.Completion.Words.{IsCompletion, complete_strvec-IsCompletion}
use libecoli.Completion.Walk.{walk, iter-selected}
use libecoli.Total.{IsRanked}
use libecoli.Tests.Theorems.{greeter-IsRanked}
use libecoli.Completion.Safe.{Returned}
use libecoli.Tests.Parsing.{greeter, words}

abbrev everything : Mask
everything = record { unknown? = true; full? = true; partial? = true }

abbrev only_full : Mask
only_full = record { unknown? = false; full? = true; partial? = false }

abbrev strs : List Item → List (Option Bytes × Option Bytes)
strs [] = []
strs (i ∷ is) = (i.str, i.completion) ∷ strs is

abbrev group_strs : List Group → List (List (Option Bytes × Option Bytes))
group_strs [] = []
group_strs (g ∷ gs) = strs g.items ∷ group_strs gs

abbrev seen : Completions → Option (ℕ × List (List (Option Bytes × Option Bytes)))
seen (items comp) = some (comp.count_full, group_strs comp.groups)
seen _ = none

-- what a run computes with
runs : Unit {0}
unfolding complete_str complete_strvec parse str_eq str_startswith link_child del_last_child
    count_path count_children buf_size comp_item set_str set_completion bump group_for append_item
    item_add add_item is_unknown no_items full_addrs known_items is_known quote_item quote_items
    quote_groups del_children
runs = tt

-- `h` is the beginning of `hello` alone, `bye ` may go on with `now`.
hello :
    seen (complete_str greeter 9 0 (codes "h"))
    ≡ some (1, ((some (codes "hello"), some (codes "ello")) ∷ []) ∷ [])
unfolding runs
hello = refl

now :
    seen (complete_str greeter 9 0 (codes "bye "))
    ≡ some (1, ((some (codes "now"), some (codes "now")) ∷ []) ∷ [])
unfolding runs
now = refl

-- An open quote is closed.
open_quote :
    seen (complete_str greeter 9 0 (codes "bye 'n"))
    ≡ some (1, ((some (codes "'now'"), some (codes "ow'")) ∷ []) ∷ [])
unfolding runs
open_quote = refl

complete_strvec-ne-assert_failed_example :
    complete_strvec greeter 9 0 (words (codes "bye 'n" ∷ [])) ≢ assert_failed
complete_strvec-ne-assert_failed_example =
    complete_strvec-ne-assert_failed greeter 9 0 (words (codes "bye 'n" ∷ []))

comp_count-selected_example :
    Returned
      (λ comp.
        (comp.count ≡ length (all_items comp.groups))
        × (comp_count comp everything ≡ length (selected everything (all_items comp.groups))))
      (complete_strvec greeter 10 0 (words (codes "bye 'n" ∷ [])))
comp_count-selected_example =
    comp_count-selected greeter (λ n. 9 - n) 10 0 (words (codes "bye 'n" ∷ [])) everything
      greeter-IsRanked (omega arith)

-- `hello` or `help`
abbrev help_node : ℕ → Node
help_node zero = or (1 ∷ 2 ∷ [])
help_node (suc zero) = str (some (codes "hello"))
help_node (suc (suc zero)) = str (some (codes "help"))
help_node (suc (suc (suc n))) = Node.none

abbrev help : Grammar
help = record { node = help_node; stack = [] }

help-IsRanked : IsRanked help (λ n. 3 - n)
unfolding children
help-IsRanked zero = (omega arith, (omega arith, tt))
help-IsRanked (suc zero) = tt
help-IsRanked (suc (suc zero)) = tt
help-IsRanked (suc (suc (suc n))) = tt

help_without_lexer : (n child : ℕ) → help.node n ≢ sh_lex (some child)
help_without_lexer zero child = λ e. cc
help_without_lexer (suc zero) child = λ e. cc
help_without_lexer (suc (suc zero)) child = λ e. cc
help_without_lexer (suc (suc (suc n))) child = λ e. cc

helps :
    seen (complete_strvec help 4 0 (words (codes "hel" ∷ [])))
    ≡ some (
      2,
      ((some (codes "hello"), some (codes "lo")) ∷ [])
          ∷ ((some (codes "help"), some (codes "p")) ∷ [])
          ∷ [],
    )
unfolding runs
helps = refl

complete_strvec-IsCompletion_example :
    Returned
      (λ comp. All (IsCompletion (codes "hel")) (all_items comp.groups))
      (complete_strvec help 4 0 (words (codes "hel" ∷ [])))
complete_strvec-IsCompletion_example =
    complete_strvec-IsCompletion help (λ n. 3 - n) 4 0 (words (codes "hel" ∷ [])) (codes "hel")
      help-IsRanked (omega arith) help_without_lexer ((λ e. cc), ((λ e. cc), ((λ e. cc), tt))) refl

abbrev an_item : ℕ → CompType → Item
an_item addr type = record {
  addr = addr;
  type = type;
  current = none;
  str = none;
  completion = none;
  display = none;
}

abbrev two_groups : Comp
two_groups = record {
  count = 3;
  count_full = 2;
  count_partial = 0;
  count_unknown = 1;
  groups =
      record { node = 1; items = an_item 0 full ∷ an_item 1 unknown ∷ []; pstate = [] }
      ∷ record { node = 2; items = an_item 2 full ∷ []; pstate = [] }
      ∷ [];
}

iter-selected_example :
    walk 3 two_groups only_full (iter_first two_groups only_full)
    ≡ selected only_full (all_items two_groups.groups)
unfolding selects
iter-selected_example = iter-selected two_groups only_full 3 (omega arith)
