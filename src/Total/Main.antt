-- ===== src/Total/Main.antt =====
-- Fuel above a node's rank is enough, in a grammar without cycles: src/parse.c.
use libecoli.Base.{
  ℕ, zero, suc, ◌≤◌, ◌<◌, ◌≡◌, ◌≢◌, Bytes, Option, none, some, List, [], ◌∷◌, arith, true, false,
  All,
}
use libecoli.Strvec.{Strvec, Elt}
use libecoli.Strvec.Lex.{lexed, sh_lex_str}
use libecoli.Parse.{nil, out_of_fuel, Parser, Frame}
use libecoli.Node.{
  Node, Grammar, str, any, empty, space, re, ext, unsupported, seq, or, many, option, once, bypass,
  expr, subset, sh_lex, sh_lex_parse, lexed_parse, node_parse, parse, too_deep, parse_strvec,
  children,
}
use libecoli.Total.Lists.{
  Returns, parse_child-ne-out_of_fuel, seq_loop-ne-out_of_fuel, or_loop-ne-out_of_fuel,
  many_parse-ne-out_of_fuel,
}
use libecoli.Total.Subset.{subset_parse-ne-out_of_fuel}

module _ (stack : Bytes) (parse : Parser) (path : List Frame) (self : ℕ) where
  lexed_parse-ne-out_of_fuel :
      (child : ℕ) (tokens : Strvec)
      → Returns parse child
      → lexed_parse parse path self child tokens ≢ out_of_fuel
  unfolding lexed_parse
  lexed_parse-ne-out_of_fuel child tokens total =
      ground (arith, parse_child-ne-out_of_fuel parse path self nil child tokens total)

  sh_lex_parse-inv :
      (child : ℕ) (e : Elt) (vec : Strvec)
      → sh_lex_parse parse path self stack (some child) (e ∷ vec) ≡ out_of_fuel
      → (tokens : Strvec) × (q : Option ℕ) × (sh_lex_str stack e.str true false ≡ lexed tokens q)
        × (lexed_parse parse path self child tokens ≡ out_of_fuel)
  unfolding sh_lex_parse
  sh_lex_parse-inv child e vec h = ground arith

  -- A method returns if those of the node's children do.
  node_parse-ne-out_of_fuel :
      (node : Node) (vec : Strvec)
      → All (Returns parse) (children node)
      → node_parse stack parse path self node vec ≢ out_of_fuel
  unfolding node_parse children
  node_parse-ne-out_of_fuel (str string) vec total = ground arith
  node_parse-ne-out_of_fuel (any attr_name) vec total = ground arith
  node_parse-ne-out_of_fuel empty vec total = cc
  node_parse-ne-out_of_fuel Node.none vec total = cc
  node_parse-ne-out_of_fuel space vec total = ground arith
  node_parse-ne-out_of_fuel (re regexec) vec total = ground arith
  node_parse-ne-out_of_fuel (ext method) vec total = ground arith
  node_parse-ne-out_of_fuel unsupported vec total = cc
  node_parse-ne-out_of_fuel (seq table) vec total =
      seq_loop-ne-out_of_fuel parse path self vec nil 0 table total
  node_parse-ne-out_of_fuel (or table) vec total =
      or_loop-ne-out_of_fuel parse path self vec nil table total
  node_parse-ne-out_of_fuel (many min max child) vec total =
      many_parse-ne-out_of_fuel parse path self vec min max child total
  node_parse-ne-out_of_fuel (option none) vec total = cc
  node_parse-ne-out_of_fuel (option (some child)) vec total =
      ground (arith, parse_child-ne-out_of_fuel parse path self nil child vec total.0)
  node_parse-ne-out_of_fuel (once none) vec total = cc
  node_parse-ne-out_of_fuel (once (some child)) vec total =
      ground (arith, parse_child-ne-out_of_fuel parse path self nil child vec total.0)
  node_parse-ne-out_of_fuel (bypass none) vec total = cc
  node_parse-ne-out_of_fuel (bypass (some child)) vec total =
      parse_child-ne-out_of_fuel parse path self nil child vec total.0
  node_parse-ne-out_of_fuel (expr none) vec total = cc
  node_parse-ne-out_of_fuel (expr (some child)) vec total =
      parse_child-ne-out_of_fuel parse path self nil child vec total.0
  node_parse-ne-out_of_fuel (subset table min) vec total =
      subset_parse-ne-out_of_fuel parse path self table min vec total
  node_parse-ne-out_of_fuel (sh_lex none) vec total = cc
  node_parse-ne-out_of_fuel (sh_lex (some child)) [] total =
      lexed_parse-ne-out_of_fuel child [] total.0
  node_parse-ne-out_of_fuel (sh_lex (some child)) (e ∷ vec) total = λ h.
      let (tokens, q, lex, k) = sh_lex_parse-inv child e vec h in
      lexed_parse-ne-out_of_fuel child tokens total.0 k

-- Every node refers to nodes of a smaller rank alone.
abbrev pub IsRanked : Grammar → (ℕ → ℕ) → Type 0
IsRanked g rank = (n : ℕ) → All (λ c. rank c < rank n) (children (g.node n))

All-Returns :
    (parse : Parser) (rank : ℕ → ℕ) (bound : ℕ)
    → ((c : ℕ) → rank c < bound → Returns parse c)
    → (l : List ℕ) → All (λ c. rank c < bound) l
    → All (Returns parse) l
All-Returns parse rank bound total [] h = tt
All-Returns parse rank bound total (c ∷ l) h =
    (total c h.0, All-Returns parse rank bound total l h.1)

pub All-lt :
    (rank : ℕ → ℕ) (a b : ℕ) (l : List ℕ)
    → a ≤ b
    → All (λ c. rank c < a) l
    → All (λ c. rank c < b) l
All-lt rank a b [] le h = tt
All-lt rank a b (c ∷ l) le h = (omega arith, All-lt rank a b l le h.1)

pub parse-Returns :
    (g : Grammar) (rank : ℕ → ℕ)
    → IsRanked g rank
    → (fuel n : ℕ) → rank n < fuel
    → Returns (parse g fuel) n
unfolding parse
parse-Returns g rank ranked zero n h path vec = absurd (omega arith)
parse-Returns g rank ranked (suc fuel) n h path vec =
    node_parse-ne-out_of_fuel g.stack (parse g fuel) path n (g.node n) vec (
      All-Returns (parse g fuel) rank fuel (parse-Returns g rank ranked fuel) (children (g.node n))
        (All-lt rank (rank n) fuel (children (g.node n)) (omega arith) (ranked n)))

-- In a grammar without cycles, parsing returns: fuel above the rank of the node is enough for any
-- input, so the result is a tree or NULL.
pub parse_strvec-ne-too_deep :
    (g : Grammar) (rank : ℕ → ℕ) (fuel node : ℕ) (vec : Strvec)
    → IsRanked g rank
    → rank node < fuel
    → parse_strvec g fuel node vec ≢ too_deep
unfolding parse_strvec
parse_strvec-ne-too_deep g rank fuel node vec ranked enough =
    ground (arith, parse-Returns g rank ranked fuel node enough [] vec)
