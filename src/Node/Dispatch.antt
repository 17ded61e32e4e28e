-- ===== src/Node/Dispatch.antt =====
-- The `parse` field of struct ec_node_type, and parsing as a recursion over the grammar graph:
-- src/parse.c.
use libecoli.Base.{ℕ, zero, suc, Bytes, none, some, List, [], ◌∷◌}
use libecoli.Strvec.{Strvec, ndup}
use libecoli.Parse.{Outcome, matched, nomatch, error, out_of_fuel, Parser, Frame, Pnode, pnode, nil}
use libecoli.Node.Types.{
  Node, Grammar, str, any, empty, space, re, ext, unsupported, seq, or, many, option, once, bypass,
  expr, subset, sh_lex,
}
use libecoli.Node.Leaf.{str_parse, any_parse, space_parse, re_parse, ext_parse}
use libecoli.Node.Lists.{seq_loop, or_loop, many_parse}
use libecoli.Node.Wrap.{bypass_parse, expr_parse, option_parse, once_parse, sh_lex_parse}
use libecoli.Node.Subset.{subset_parse}

-- `ec_node_type(node)->parse(node, child, strvec)`; ENOTSUP if it is NULL
unfoldable pub node_parse : Bytes → Parser → List Frame → ℕ → Node → Strvec → Outcome
unfolding str_parse any_parse space_parse re_parse ext_parse seq_loop or_loop many_parse
    bypass_parse expr_parse option_parse once_parse sh_lex_parse subset_parse
node_parse stack parse path self (str string) vec = str_parse string vec
node_parse stack parse path self (any attr_name) vec = any_parse attr_name vec
node_parse stack parse path self empty vec = matched 0 nil
node_parse stack parse path self Node.none vec = nomatch nil
node_parse stack parse path self space vec = space_parse vec
node_parse stack parse path self (re regexec) vec = re_parse regexec vec
node_parse stack parse path self (ext method) vec = ext_parse method vec
node_parse stack parse path self unsupported vec = error
node_parse stack parse path self (seq table) vec = seq_loop parse path self vec nil 0 table
node_parse stack parse path self (or table) vec = or_loop parse path self vec nil table
node_parse stack parse path self (many min max child) vec =
    many_parse parse path self vec min max child
node_parse stack parse path self (option child) vec = option_parse parse path self child vec
node_parse stack parse path self (once child) vec = once_parse parse path self child vec
node_parse stack parse path self (bypass child) vec = bypass_parse parse path self child vec
node_parse stack parse path self (expr child) vec = expr_parse parse path self child vec
node_parse stack parse path self (subset table min) vec = subset_parse parse path self table min vec
node_parse stack parse path self (sh_lex child) vec = sh_lex_parse parse path self stack child vec

-- The recursion of the parse methods through ec_parse_child, as deep as the fuel.
unfoldable pub parse : Grammar → ℕ → Parser
unfolding node_parse
parse g zero path node vec = out_of_fuel
parse g (suc fuel) path node vec = node_parse g.stack (parse g fuel) path node (g.node node) vec

-- the tree of ec_parse_strvec, NULL, or a stack that is not deep enough
pub data Parsed : Type 0 where
  tree : Pnode → Parsed
  null : Parsed
  too_deep : Parsed

-- ec_parse_strvec: the root has no `strvec` where nothing matched
unfoldable pub parse_strvec : Grammar → ℕ → ℕ → Strvec → Parsed
unfolding parse ndup
parse_strvec g fuel node vec = elim (parse g fuel [] node vec) [
  | matched ret kids ↦ elim (ndup vec 0 ret) [
    | none ↦ null
    | some match_strvec ↦ tree (pnode node (some match_strvec) kids)
  ]
  | nomatch kids ↦ tree (pnode node none kids)
  | error ↦ null
  | out_of_fuel ↦ too_deep
]

-- ec_parse: the string as a vector of one element
unfoldable pub parse_str : Grammar → ℕ → ℕ → Bytes → Parsed
unfolding parse_strvec
parse_str g fuel node s = parse_strvec g fuel node (record { str = s; attrs = none } ∷ [])
