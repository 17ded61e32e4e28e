-- ===== src/Node/Leaf.antt =====
-- The parse methods that call no other node: src/node_str.c, node_any.c, node_empty.c,
-- node_none.c, node_space.c and node_re.c. Their tree nodes have no children.
use libecoli.Base.{
  ℕ, Bytes, is_space, str_eq, Bool, true, if◌then◌else◌, ◌==◌, ◌&&◌, not, Option, none, some, [],
  ◌∷◌, length,
}
use libecoli.Strvec.{Strvec, get_attrs, has_key}
use libecoli.Parse.{Outcome, matched, nomatch, error, nil}

-- ec_node_str_parse
unfoldable pub str_parse : Option Bytes → Strvec → Outcome
str_parse none vec = error
str_parse (some string) [] = nomatch nil
str_parse (some string) (e ∷ vec) = if str_eq e.str string then matched 1 nil else nomatch nil

-- ec_node_any_parse
unfoldable pub any_parse : Option Bytes → Strvec → Outcome
unfolding get_attrs
any_parse attr_name [] = nomatch nil
any_parse none (e ∷ vec) = matched 1 nil
any_parse (some attr_name) (e ∷ vec) = elim (get_attrs (e ∷ vec) 0) [
  | none ↦ nomatch nil
  | some attrs ↦ if has_key attrs attr_name then matched 1 nil else nomatch nil
]

-- `while (isspace(str[len])) len++`, and whether it stops at the end of the string
unfoldable pub all_space : Bytes → Bool
unfolding is_space
all_space [] = true
all_space (c ∷ s) = is_space c && all_space s

-- ec_node_space_parse
unfoldable pub space_parse : Strvec → Outcome
unfolding all_space
space_parse [] = nomatch nil
space_parse (e ∷ vec) =
    if not (length e.str == 0) && all_space e.str then matched 1 nil else nomatch nil

-- ec_node_re_parse, from what regexec reports on the first string
unfoldable pub re_parse : Option (Bytes → Option (ℕ × ℕ)) → Strvec → Outcome
re_parse none vec = error
re_parse (some regexec) [] = nomatch nil
re_parse (some regexec) (e ∷ vec) = elim (regexec e.str) [
  | none ↦ nomatch nil
  | some (rm_so, rm_eo) ↦ if rm_so == 0 && rm_eo == length e.str then matched 1 nil else nomatch nil
]

-- the method of an application's node type
unfoldable pub ext_parse : (Strvec → Option ℕ) → Strvec → Outcome
ext_parse method vec = elim (method vec) [ none ↦ nomatch nil | some ret ↦ matched ret nil ]
