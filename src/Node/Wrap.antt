-- ===== src/Node/Wrap.antt =====
-- The parse methods of nodes with one child: src/node_option.c, node_once.c, node_bypass.c,
-- node_expr.c and, without expansion, node_sh_lex.c.
use libecoli.Base.{
  ℕ, Bytes, true, false, if◌then◌else◌, ltb, ◌==◌, Option, none, some, List, [], ◌∷◌, length,
}
use libecoli.Strvec.{Strvec}
use libecoli.Strvec.Lex.{lexed, bad_msg, no_bufs, sh_lex_str}
use libecoli.Parse.{
  Outcome, matched, nomatch, error, out_of_fuel, Parser, Frame, parse_child, nil, del_last_child,
  count_path,
}

module _ (parse : Parser) (path : List Frame) (self : ℕ) where
  -- ec_node_bypass_parse
  unfoldable pub bypass_parse : Option ℕ → Strvec → Outcome
  unfolding parse_child
  bypass_parse none vec = error
  bypass_parse (some child) vec = parse_child parse path self nil child vec

  -- ec_node_expr_parse
  unfoldable pub expr_parse : Option ℕ → Strvec → Outcome
  unfolding parse_child
  expr_parse none vec = error
  expr_parse (some child) vec = parse_child parse path self nil child vec

  -- ec_node_option_parse
  unfoldable pub option_parse : Option ℕ → Strvec → Outcome
  unfolding parse_child
  option_parse none vec = error
  option_parse (some child) vec = elim (parse_child parse path self nil child vec) [
    | matched ret cs ↦ matched ret cs
    | nomatch cs ↦ matched 0 cs
    | error ↦ error
    | out_of_fuel ↦ out_of_fuel
  ]

  -- ec_node_once_parse
  unfoldable pub once_parse : Option ℕ → Strvec → Outcome
  unfolding parse_child count_path
  once_parse none vec = error
  once_parse (some child) vec =
      if ltb 0 (count_path (record { node = self; kids = nil } ∷ path) child)
      then nomatch nil
      else parse_child parse path self nil child vec

  -- what follows the lexer in ec_node_sh_lex_parse
  unfoldable pub lexed_parse : ℕ → Strvec → Outcome
  unfolding parse_child
  lexed_parse child new_vec = elim (parse_child parse path self nil child new_vec) [
    | matched ret cs ↦ if ret == length new_vec then matched 1 cs else nomatch (del_last_child cs)
    | nomatch cs ↦ nomatch cs
    | error ↦ error
    | out_of_fuel ↦ out_of_fuel
  ]

  -- ec_node_sh_lex_parse with `expand` false; `stack` is the lexer's uninitialised array
  unfoldable pub sh_lex_parse : Bytes → Option ℕ → Strvec → Outcome
  unfolding lexed_parse sh_lex_str
  sh_lex_parse stack none vec = error
  sh_lex_parse stack (some child) [] = lexed_parse child []
  sh_lex_parse stack (some child) (e ∷ vec) = elim (sh_lex_str stack e.str true false) [
    | lexed new_vec missing_quote ↦ lexed_parse child new_vec
    | bad_msg quote ↦ nomatch nil
    | no_bufs ↦ error
  ]
