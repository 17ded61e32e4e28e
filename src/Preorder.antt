-- ===== src/Preorder.antt =====
-- src/parse.c: the iteration over a parse tree visits its nodes in pre-order.
use libecoli.Base.{
  ℕ, zero, suc, ◌+◌, ◌%◌, ◌^◌, ◌<◌, ◌≤◌, ◌≡◌, refl, sym, ◌∙◌, ap, Bool, true, false, if◌then◌else◌,
  Bool-cases, inl, inr, Bytes, Option, none, some, List, [], ◌∷◌, ◌++◌, append_assoc, append-nil,
  length, arith,
}
use libecoli.Parse.{
  Pnode, Pnodes, pnode, nil, cons, get_children, Place, climb, first_child, iter_next, has_id,
  find_loop, pnode_find_next, count_loop, pnode_count,
}

-- A node, and then its children from the first to the last, each with what is below it.
abbrev mutual
  pub preorder : Pnode → List Pnode
  preorder (pnode n v children) = pnode n v children ∷ preorder_all children

  pub preorder_all : Pnodes → List Pnode
  preorder_all nil = []
  preorder_all (cons p ps) = preorder p ++ preorder_all ps

-- What is behind a node outside of it.
abbrev outside : List Pnodes → List Pnode
outside [] = []
outside (ps ∷ above) = preorder_all ps ++ outside above

abbrev visits : Option Place → List Pnode
visits none = []
visits (some (p, above)) = preorder p ++ outside above

-- What is behind a place, with or without what is below it.
abbrev pub behind : Place → Bool → List Pnode
behind (p, above) iter_children =
    (if iter_children then preorder_all (get_children p) else []) ++ outside above

-- The nodes that a search goes through: all of them, or those behind a place.
abbrev pub to_search : Pnode → Option Place → Bool → List Pnode
to_search root none iter_children = preorder root
to_search root (some prev) iter_children = behind prev iter_children

visits-climb : (above : List Pnodes) → visits (climb above) ≡ outside above
unfolding climb
visits-climb [] = refl
visits-climb (nil ∷ above) = visits-climb above
visits-climb (cons p ps ∷ above) = sym (append_assoc (preorder p) (preorder_all ps) (outside above))

visits-iter_next : (place : Place) (b : Bool) → visits (iter_next place b) ≡ behind place b
unfolding iter_next first_child
visits-iter_next (p, above) false = visits-climb above
visits-iter_next (pnode n v nil, above) true = visits-climb above
visits-iter_next (pnode n v (cons c cs), above) true =
    sym (append_assoc (preorder c) (preorder_all cs) (outside above))

visits-some : (place : Place) → visits (some place) ≡ place.0 ∷ behind place true
visits-some (pnode n v children, above) = refl

zero_add : (k : ℕ) → 0 + k ≡ k
zero_add k = omega arith

one_less :
    (rounds : ℕ) (place : Place)
    → length (visits (some place)) ≤ suc rounds
    → length (visits (iter_next place true)) ≤ rounds
one_less rounds place le =
    rw (visits-iter_next place true) (omega (arith, ap length (visits-some place), le))

-- The first node of a list with an id, and the number of those with it.
module _ (id_of : ℕ → Option Bytes) where
  abbrev pub first_with : List Pnode → Bytes → Option Pnode
  first_with [] id = none
  first_with (p ∷ ps) id = if has_id id_of p id then some p else first_with ps id

  abbrev pub number_with : List Pnode → Bytes → ℕ
  number_with [] id = 0
  number_with (p ∷ ps) id = (if has_id id_of p id then 1 else 0) + number_with ps id

  abbrev pub node_of : Option Place → Option Pnode
  node_of none = none
  node_of (some place) = some place.0

  find_loop-first_with :
      (rounds : ℕ) (iter : Option Place) (id : Bytes)
      → length (visits iter) ≤ rounds
      → node_of (find_loop id_of rounds iter id) ≡ first_with (visits iter) id
  unfolding find_loop
  find_loop-first_with zero none id le = refl
  find_loop-first_with zero (some place) id le =
      absurd (omega (arith, ap length (visits-some place), le))
  find_loop-first_with (suc rounds) none id le = refl
  find_loop-first_with (suc rounds) (some place) id le =
      elim (Bool-cases (has_id id_of place.0 id)) [
        | inl e ↦ rw (visits-some place, e) refl
        | inr e ↦
            rw (visits-some place, e)
              (find_loop-first_with rounds (iter_next place true) id (one_less rounds place le)
                ∙ ap (λ ps. first_with ps id) (visits-iter_next place true))
      ]

  count_loop-number_with :
      (rounds : ℕ) (iter : Option Place) (id : Bytes) (count : ℕ)
      → length (visits iter) ≤ rounds
      → count < 2 ^ 32
      → count_loop id_of rounds iter id count ≡ (count + number_with (visits iter) id) % 2 ^ 32
  unfolding count_loop
  count_loop-number_with zero none id count le lt = omega (arith, lt)
  count_loop-number_with zero (some place) id count le lt =
      absurd (omega (arith, ap length (visits-some place), le))
  count_loop-number_with (suc rounds) none id count le lt = omega (arith, lt)
  count_loop-number_with (suc rounds) (some place) id count le lt =
      count_loop-number_with rounds (iter_next place true) id _ (one_less rounds place le)
        (below (has_id id_of place.0 id))
      ∙ ap
          (λ ps.
            ((if has_id id_of place.0 id then (count + 1) % 2 ^ 32 else count) + number_with ps id)
            % 2 ^ 32)
          (visits-iter_next place true)
      ∙ counted (has_id id_of place.0 id) (number_with (behind place true) id)
      ∙ ap (λ ps. (count + number_with ps id) % 2 ^ 32) (sym (visits-some place))
    where
      below : (b : Bool) → (if b then (count + 1) % 2 ^ 32 else count) < 2 ^ 32
      below true = omega arith
      below false = lt

      counted :
          (b : Bool) (k : ℕ)
          → ((if b then (count + 1) % 2 ^ 32 else count) + k) % 2 ^ 32
            ≡ (count + ((if b then 1 else 0) + k)) % 2 ^ 32
      counted true k = omega arith
      counted false k = omega arith

  -- With at least as many rounds as there are nodes to go through, ec_pnode_find_next gives the
  -- first of them in pre-order that has the id, or NULL when none has it. These are all nodes of the
  -- tree, or behind a former result the nodes that follow it, those below it only when its children
  -- are to be visited.
  pub pnode_find_next-first_with :
      (rounds : ℕ) (root : Pnode) (prev : Option Place) (id : Bytes) (iter_children : Bool)
      → length (to_search root prev iter_children) ≤ rounds
      → node_of (pnode_find_next id_of rounds (some root) prev id iter_children)
        ≡ first_with (to_search root prev iter_children) id
  unfolding pnode_find_next
  pnode_find_next-first_with rounds root none id iter_children le =
      find_loop-first_with rounds (some (root, [])) id (rw (append-nil (preorder root)) le)
      ∙ ap (λ ps. first_with ps id) (append-nil (preorder root))
  pnode_find_next-first_with rounds root (some prev) id iter_children le =
      find_loop-first_with rounds (iter_next prev iter_children) id
        (rw (visits-iter_next prev iter_children) le)
      ∙ ap (λ ps. first_with ps id) (visits-iter_next prev iter_children)

  -- With at least as many rounds as the tree has nodes, ec_pnode_count gives the number of nodes
  -- with the id, modulo 2^32.
  pub pnode_count-number_with :
      (rounds : ℕ) (root : Pnode) (id : Bytes)
      → length (preorder root) ≤ rounds
      → pnode_count id_of rounds (some root) id ≡ number_with (preorder root) id % 2 ^ 32
  unfolding pnode_count
  pnode_count-number_with rounds root id le =
      count_loop-number_with rounds (some (root, [])) id 0 (rw (append-nil (preorder root)) le)
        (omega arith)
      ∙ ap (λ n. n % 2 ^ 32) (zero_add (number_with (preorder root ++ []) id))
      ∙ ap (λ ps. number_with ps id % 2 ^ 32) (append-nil (preorder root))
