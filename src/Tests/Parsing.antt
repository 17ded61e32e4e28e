-- ===== src/Tests/Parsing.antt =====
-- Parsing concrete grammars, and the theorems on parsing at these inputs.
use libecoli.Base.{ℕ, zero, suc, ◌≡◌, refl, codes, str_eq, Bytes, none, some, List, [], ◌∷◌, map}
use libecoli.Strvec.{Strvec, Elt}
use libecoli.Strvec.Lex.{buf_size}
use libecoli.Parse.{
  Pnode, pnode, nil, cons, link_child, get_last_child, del_last_child, count_path, count_children,
}
use libecoli.Node.{
  Node, Grammar, str, any, empty, seq, or, option, subset, sh_lex, tree, null, too_deep,
  parse_strvec,
}

abbrev word : Bytes → Elt
word s = record { str = s; attrs = none }

abbrev pub words : List Bytes → Strvec
words = map word

-- what a run computes with
unfoldable pub runs : Unit {0}
unfolding parse_strvec str_eq link_child get_last_child del_last_child count_path count_children
    buf_size
runs = tt

abbrev pub node_at : List Node → ℕ → Node
node_at [] i = Node.none
node_at (n ∷ ns) zero = n
node_at (n ∷ ns) (suc i) = node_at ns i

-- `hello NAME`, or `bye` and perhaps `now`, behind a lexer
abbrev pub greeter : Grammar
greeter = record {
  node = node_at (
      sh_lex (some 1)
      ∷ or (2 ∷ 3 ∷ [])
      ∷ seq (4 ∷ 5 ∷ [])
      ∷ seq (6 ∷ 7 ∷ [])
      ∷ str (some (codes "hello"))
      ∷ any none
      ∷ str (some (codes "bye"))
      ∷ option (some 8)
      ∷ str (some (codes "now"))
      ∷ []);
  stack = [];
}

abbrev pub leaf : ℕ → Bytes → Pnode
leaf n s = pnode n (some (words (s ∷ []))) nil

bye_now :
    parse_strvec greeter 9 3 (words (codes "bye" ∷ codes "now" ∷ codes "then" ∷ []))
    ≡ tree (
        pnode 3 (some (words (codes "bye" ∷ codes "now" ∷ []))) (
          cons (leaf 6 (codes "bye")) (
            cons
              (pnode 7 (some (words (codes "now" ∷ []))) (cons (leaf 8 (codes "now")) nil))
              nil)))
unfolding runs
bye_now = refl

-- nothing matches: the root stays without strings
unknown : parse_strvec greeter 9 1 (words (codes "what" ∷ [])) ≡ tree (pnode 1 none nil)
unfolding runs
unknown = refl

shallow : parse_strvec greeter 2 1 (words (codes "bye" ∷ [])) ≡ too_deep
unfolding runs
shallow = refl

abbrev bye_tree : Pnode
bye_tree =
    pnode 3 (some (words (codes "bye" ∷ [])))
      (cons (leaf 6 (codes "bye")) (cons (pnode 7 (some []) nil) nil))

-- an entry that is replaced stays in the tree: the first entry stands there twice
abbrev subset_nodes : Grammar
subset_nodes = record {
  node = node_at (
      subset (1 ∷ 2 ∷ 3 ∷ []) 0
      ∷ or (4 ∷ 6 ∷ [])
      ∷ str (some (codes "x"))
      ∷ str (some (codes "y"))
      ∷ str (some (codes "x"))
      ∷ Node.none
      ∷ str (some (codes "z"))
      ∷ []);
  stack = [];
}

stale :
    parse_strvec subset_nodes 9 0 (words (codes "x" ∷ codes "y" ∷ codes "z" ∷ []))
    ≡ tree (
        pnode 0 (some (words (codes "x" ∷ codes "y" ∷ codes "z" ∷ []))) (
          cons (pnode 1 (some (words (codes "x" ∷ []))) (cons (leaf 4 (codes "x")) nil)) (
            cons (leaf 2 (codes "x")) (
              cons (leaf 3 (codes "y")) (
                cons
                  (pnode 1 (some (words (codes "z" ∷ []))) (cons (leaf 6 (codes "z")) nil))
                  nil)))))
unfolding runs
stale = refl

-- `sh_lex` over `empty` on no strings: the match becomes an error
sh_lex_nothing :
    parse_strvec (record { node = node_at (sh_lex (some 1) ∷ empty ∷ []); stack = [] }) 9 0 []
    ≡ null
unfolding runs
sh_lex_nothing = refl
