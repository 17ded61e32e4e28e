-- ===== src/Tests/Trees.antt =====
-- Searching a concrete parse tree, and the theorems on searches at this tree.
use libecoli.Base.{
  ℕ, zero, suc, ◌%◌, ◌^◌, ◌≡◌, refl, false, codes, str_eq, Bytes, Option, none, some, [], ◌∷◌,
  arith,
}
use libecoli.Parse.{
  Pnode, pnode, nil, cons, climb, first_child, iter_next, has_id, find_loop, pnode_find_next,
  pnode_find, count_loop, pnode_count,
}
use libecoli.Preorder.{
  preorder, to_search, first_with, number_with, node_of, pnode_find_next-first_with,
  pnode_count-number_with,
}

abbrev ids : ℕ → Option Bytes
ids zero = some (codes "a")
ids (suc n) = some (codes "b")

-- `a` over `b`, which is over `a`, and over another `b`
abbrev inner : Pnode
inner = pnode 1 none (cons (pnode 0 none nil) nil)

abbrev root : Pnode
root = pnode 0 none (cons inner (cons (pnode 2 none nil) nil))

searches : Unit {0}
unfolding climb first_child iter_next has_id find_loop pnode_find_next pnode_find count_loop
    pnode_count str_eq
searches = tt

first_b : node_of ids (pnode_find ids 4 (some root) (codes "b")) ≡ some inner
unfolding searches
first_b = refl

two_bs : pnode_count ids 4 (some root) (codes "b") ≡ 2
unfolding searches
two_bs = refl

pnode_find_next-first_with_example :
    node_of ids (
      pnode_find_next ids 4
        (some root)
        (some (inner, cons (pnode 2 none nil) nil ∷ []))
        (codes "b")
        false)
    ≡ first_with ids
        (to_search root (some (inner, cons (pnode 2 none nil) nil ∷ [])) false)
        (codes "b")
pnode_find_next-first_with_example =
    pnode_find_next-first_with ids 4 root (some (inner, cons (pnode 2 none nil) nil ∷ []))
      (codes "b") false (omega arith)

pnode_count-number_with_example :
    pnode_count ids 4 (some root) (codes "b") ≡ number_with ids (preorder root) (codes "b") % 2 ^ 32
pnode_count-number_with_example = pnode_count-number_with ids 4 root (codes "b") (omega arith)
