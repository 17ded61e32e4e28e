-- ===== src/ReLex.antt =====
-- src/node_re_lex.c: the lexer, whose regular expressions are a parameter.
use libecoli.Base.{
  ℕ, zero, suc, ◌==◌, if◌then◌else◌, ◌&&◌, not, Bytes, Bool, Option, none, some, List, [], ◌∷◌,
  ◌++◌, length, take, drop,
}
use libecoli.Strvec.{Strvec}
use libecoli.Parse.{Parser, Frame, Outcome, error, out_of_fuel}
use libecoli.Node.{lexed_parse}

-- struct regexp_pattern. `regexec` is what regexec(3) reports of the compiled pattern: no match, or
-- rm_so and rm_eo, which are positions in the string.
pub record RegexpPattern : Type 0 where
  pub regexec : Bytes → Option (ℕ × ℕ)
  pub keep : Bool
  pub attr_name : Option Bytes

-- tokenize: the loop on a table that is not empty; `none` is a `ret` other than 0 at its end
unfoldable pub find_match : List RegexpPattern → Bytes → Option (RegexpPattern × ℕ)
find_match [] str = none
find_match (p ∷ table) str =
    let rest = find_match table str in
    elim (p.regexec str) [
      | none ↦ rest
      | some (rm_so, rm_eo) ↦ if rm_so == 0 && not (rm_eo == 0) then some (p, rm_eo) else rest
    ]

-- tokenize: the attribute of a token, with NULL as its value
unfoldable pub token_attrs : Option Bytes → Option (List (Bytes × ℕ))
token_attrs none = none
token_attrs (some attr_name) = some ((attr_name, 0) ∷ [])

-- tokenize: what a match adds to the vector
unfoldable pub add_token : Strvec → RegexpPattern → Bytes → Strvec
add_token strvec p str =
    if p.keep
    then strvec ++ (record { str = str; attrs = token_attrs p.attr_name } ∷ [])
    else strvec

-- The vector of tokenize, NULL, or a loop that goes on.
pub data Tokenized : Type 0 where
  tokens : Strvec → Tokenized
  null : Tokenized
  unfinished : Tokenized

-- tokenize: the loop, on the string behind `off`. Of an empty table, `ret` and `pos` stay 0, and `off`
-- does not grow.
unfoldable pub tokenize_loop : ℕ → List RegexpPattern → Bytes → Strvec → Tokenized
tokenize_loop fuel table [] strvec = tokens strvec
tokenize_loop zero table (c ∷ str) strvec = unfinished
tokenize_loop (suc fuel) [] (c ∷ str) strvec = tokenize_loop fuel [] (c ∷ str) strvec
tokenize_loop (suc fuel) (q ∷ table) (c ∷ str) strvec = elim (find_match (q ∷ table) (c ∷ str)) [
  | none ↦ null
  | some (p, rm_eo) ↦
      tokenize_loop fuel (q ∷ table) (drop rm_eo (c ∷ str))
        (add_token strvec p (take rm_eo (c ∷ str)))
]

-- tokenize; each round consumes a character at least, unless the table is empty
unfoldable pub tokenize : List RegexpPattern → Bytes → Tokenized
tokenize table str = tokenize_loop (length str) table str []

-- ec_node_re_lex_parse
module _ (parse : Parser) (path : List Frame) (self : ℕ) where
  unfoldable pub re_lex_parse : Option ℕ → List RegexpPattern → Strvec → Outcome
  re_lex_parse none table strvec = error
  re_lex_parse (some child) [] strvec = error
  re_lex_parse (some child) (p ∷ table) [] = lexed_parse parse path self child []
  re_lex_parse (some child) (p ∷ table) (e ∷ strvec) = elim (tokenize (p ∷ table) e.str) [
    | tokens new_vec ↦ lexed_parse parse path self child new_vec
    | null ↦ error
    | unfinished ↦ out_of_fuel
  ]
