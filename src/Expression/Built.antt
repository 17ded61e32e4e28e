-- ===== src/Expression/Built.antt =====
-- src/node_expr.c: the grammar that ec_node_expr_build makes has the roles of an expression.
use mathlib.Core.List.{Mem, not-mem-nil, mem_of_ne_of_mem}
use mathlib.Core.Path.{subst}
use libecoli.Base.{
  ℕ, suc, ◌≤◌, ◌<◌, ◌==◌, ==_iff, ==_self, ◌≡◌, inl, inr, refl, sym, ◌∙◌, some, List, [], ◌∷◌, All,
  arith, Bool-cases, false, if◌then◌else◌,
}
use libecoli.Node.{Node, Grammar, seq, or, many}
use libecoli.Expr.{
  ExprPriv, ExprType, none_type, val, bin_op, pre_op, post_op, paren_open, paren_close,
  get_node_type, Memory, new, put, build_parens, build_next, build_chain, build_expr,
}
use libecoli.Expression.Tree.{
  IsTerminal, value, posts, Has, at_ref, at_var, at_or, at_pre_op, at_pre, at_paren, at_post_op,
  at_posts, at_term, at_tail, at_tails, at_next,
}

-- A member of a list of which all members have a property.
pub of-All {ℓ} : (P : ℕ → Type ℓ) (ns : List ℕ) → All P ns → (c : ℕ) → Mem c ns → P c
of-All P [] h c m = absurd (not-mem-nil m)
of-All P (n ∷ ns) (h, hs) c m = elim (Bool-cases (c == n)) [
  | inl e ↦ subst P (sym ((==_iff c n).0 e)) h
  | inr e ↦ of-All P ns hs c (mem_of_ne_of_mem (λ same. other e same) m)
]
  where
    other : (c == n) ≡ false → c ≡ n → ⊥
    other e same = ground (arith, e, same)

module _ (g : Grammar) (priv : ExprPriv) (ref : ℕ) where
  -- The grammar's nodes after `ref` are those in memory.
  abbrev Agrees : Memory → Type 0
  Agrees m = (i : ℕ) → ref < i → i < m.next → g.node i ≡ m.node i

  new-Agrees : (m : Memory) (n : Node) → Agrees (new m n) → Agrees m
  unfolding new
  new-Agrees m n h i after lt = h i after (omega (arith, lt)) ∙ old
    where
      old : (if i == m.next then n else m.node i) ≡ m.node i
      old = ground (arith, lt)

  new-node : (m : Memory) (n : Node) → Agrees (new m n) → ref < m.next → g.node m.next ≡ n
  unfolding new
  new-node m n h lt = h m.next lt (omega arith) ∙ rw (==_self m.next) refl

  -- The operators of a type, and the parentheses.
  abbrev pub IsOps : ExprType → List ℕ → Type 0
  IsOps t os = All (λ op. (get_node_type priv op ≡ t) × IsTerminal (g.node op)) os

  abbrev pub IsParens : List (ℕ × ℕ) → Type 0
  IsParens [] = Unit
  IsParens ((o, c) ∷ ps) =
      ((get_node_type priv o ≡ paren_open) × (get_node_type priv c ≡ paren_close)) × IsParens ps

  module _ (fresh : (n : ℕ) → ref ≤ n → get_node_type priv n ≡ none_type) where
    parens-Agrees : (m : Memory) (ps : List (ℕ × ℕ)) → Agrees (build_parens m ref ps).1 → Agrees m
    unfolding build_parens
    parens-Agrees m [] h = h
    parens-Agrees m ((o, c) ∷ ps) h =
        new-Agrees m _ (parens-Agrees (new m (seq (o ∷ ref ∷ c ∷ []))) ps h)

    parens-Has :
        (m : Memory) (ps : List (ℕ × ℕ))
        → Agrees (build_parens m ref ps).1
        → ref < m.next
        → IsParens ps
        → All (Has g priv ref value) (build_parens m ref ps).0
    unfolding build_parens new
    parens-Has m [] h lt w = tt
    parens-Has m ((o, c) ∷ ps) h lt ((wo, wc), ws) = (
      at_paren m.next o ref c (fresh m.next (omega (arith, lt)))
          (new-node m _ (parens-Agrees (new m (seq (o ∷ ref ∷ c ∷ []))) ps h) lt) wo wc at_ref,
      parens-Has (new m (seq (o ∷ ref ∷ c ∷ []))) ps h (omega (arith, lt)) ws,
    )

    next-Agrees : (m : Memory) (term op : ℕ) → Agrees (build_next m term op) → Agrees m
    unfolding build_next
    next-Agrees m term op h = new-Agrees m _ (new-Agrees _ _ (new-Agrees _ _ h))

    next-Has :
        (m : Memory) (term op : ℕ)
        → Agrees (build_next m term op)
        → ref < m.next
        → Has g priv ref value term
        → (get_node_type priv op ≡ bin_op) × IsTerminal (g.node op)
        → Has g priv ref value (suc (suc m.next))
    unfolding build_next new
    next-Has m term op h lt has (type, terminal) =
        at_next (suc (suc m.next)) term (suc m.next) (fresh _ (omega (arith, lt)))
          (new-node m2 _ h (omega (arith, lt))) has
          (at_tails (suc m.next) m.next (fresh _ (omega (arith, lt)))
            (new-node m1 _ (new-Agrees m2 _ h) (omega (arith, lt)))
            (at_tail m.next op term (fresh _ (omega (arith, lt)))
              (new-node m _ (new-Agrees m1 _ (new-Agrees m2 _ h)) lt) type terminal has))
      where
        m1 : Memory
        m1 = new m (seq (op ∷ term ∷ []))

        m2 : Memory
        m2 = new m1 (many 0 0 (some m.next))

    chain-Agrees :
        (m : Memory) (term : ℕ) (os : List ℕ) → Agrees (build_chain m term os).1 → Agrees m
    unfolding build_chain
    chain-Agrees m term [] h = h
    chain-Agrees m term (op ∷ os) h =
        next-Agrees m term op (chain-Agrees (build_next m term op) (suc (suc m.next)) os h)

    chain-Has :
        (m : Memory) (term : ℕ) (os : List ℕ)
        → Agrees (build_chain m term os).1
        → ref < m.next
        → Has g priv ref value term
        → IsOps bin_op os
        → Has g priv ref value (build_chain m term os).0
    unfolding build_chain build_next new
    chain-Has m term [] h lt has w = has
    chain-Has m term (op ∷ os) h lt has (w, ws) =
        let h' = chain-Agrees (build_next m term op) (suc (suc m.next)) os h in
        chain-Has (build_next m term op) (suc (suc m.next)) os h (omega (arith, lt))
          (next-Has m term op h' lt has w) ws

    parens-next : (m : Memory) (ps : List (ℕ × ℕ)) → m.next ≤ (build_parens m ref ps).1.next
    unfolding build_parens new
    parens-next m [] = omega arith
    parens-next m ((o, c) ∷ ps) = omega (arith, parens-next (new m (seq (o ∷ ref ∷ c ∷ []))) ps)

  put-Agrees :
      (m : Memory) (n : Node) → ((i : ℕ) → ref ≤ i → g.node i ≡ (put m ref n).node i) → Agrees m
  unfolding put
  put-Agrees m n h i after lt = h i (omega (arith, after)) ∙ rw differs refl
    where
      differs : (i == ref) ≡ false
      differs = ground (arith, after)

  put-node :
      (m : Memory) (n : Node)
      → ((i : ℕ) → ref ≤ i → g.node i ≡ (put m ref n).node i)
      → g.node ref ≡ n
  unfolding put
  put-node m n h = h ref (omega arith) ∙ rw (==_self ref) refl

-- What ec_node_expr_build needs of the nodes that it is given: each has one role, is not new, and
-- is of a type whose tree nodes have no children, unless it is a parenthesis.
abbrev pub IsConfigured : Grammar → ExprPriv → ℕ → ℕ → Type 0
IsConfigured g priv next value_node =
    ((n : ℕ) → next ≤ n → get_node_type priv n ≡ none_type)
    × ((get_node_type priv value_node ≡ val) × IsTerminal (g.node value_node))
    × IsOps g priv next bin_op priv.bin_ops
    × IsOps g priv next pre_op priv.pre_ops
    × IsOps g priv next post_op priv.post_ops
    × IsParens g priv next priv.parens

-- The nodes that it makes are in the grammar.
abbrev pub IsMade : Grammar → Memory → ExprPriv → ℕ → Type 0
IsMade g m priv value_node =
    (i : ℕ) → m.next ≤ i → g.node i ≡ (build_expr m value_node priv).1.node i

pub build_expr-Has :
    (m : Memory) (g : Grammar) (priv : ExprPriv) (value_node : ℕ)
    → IsConfigured g priv m.next value_node
    → IsMade g m priv value_node
    → (g.node m.next ≡ seq ((build_expr m value_node priv).0 ∷ []))
      × Has g priv m.next value (build_expr m value_node priv).0
unfolding build_expr new
build_expr-Has m g priv value_node (fresh, (val_type, val_terminal), bins, pres, posts_, parens_)
      h =
    (
      put-node g priv ref m9 _ h,
      chain-Has g priv ref fresh m8 m7.next priv.bin_ops a9 (omega (arith, lt5)) term_has bins,
    )
  where
    ref : ℕ
    ref = m.next

    m1 : Memory
    m1 = new m (seq [])

    m2 : Memory
    m2 = new m1 (or priv.pre_ops)

    m3 : Memory
    m3 = new m2 (or priv.post_ops)

    m4 : Memory
    m4 = new m3 (seq (m1.next ∷ ref ∷ []))

    m5 : Memory
    m5 = (build_parens m4 ref priv.parens).1

    m6 : Memory
    m6 = new m5 (or (value_node ∷ m3.next ∷ (build_parens m4 ref priv.parens).0))

    m7 : Memory
    m7 = new m6 (many 0 0 (some m2.next))

    m8 : Memory
    m8 = new m7 (seq (m5.next ∷ m6.next ∷ []))

    m9 : Memory
    m9 = (build_chain m8 m7.next priv.bin_ops).1

    lt5 : suc (suc (suc (suc m.next))) ≤ m5.next
    lt5 = parens-next g priv ref fresh m4 priv.parens

    a9 : Agrees g priv ref m9
    a9 = put-Agrees g priv ref m9 _ h

    a7 : Agrees g priv ref m7
    a7 = new-Agrees g priv ref m7 _ (chain-Agrees g priv ref fresh m8 m7.next priv.bin_ops a9)

    a6 : Agrees g priv ref m6
    a6 = new-Agrees g priv ref m6 _ a7

    a5 : Agrees g priv ref m5
    a5 = new-Agrees g priv ref m5 _ a6

    a4 : Agrees g priv ref m4
    a4 = parens-Agrees g priv ref fresh m4 priv.parens a5

    a3 : Agrees g priv ref m3
    a3 = new-Agrees g priv ref m3 _ a4

    pre_has : Has g priv ref value m3.next
    pre_has =
        at_pre m3.next m1.next ref (fresh _ (omega arith))
          (new-node g priv ref m3 _ a4 (omega arith))
          (at_pre_op m1.next priv.pre_ops (fresh _ (omega arith))
            (new-node g priv ref m1 _ (new-Agrees g priv ref m2 _ a3) (omega arith))
            (of-All _ priv.pre_ops pres))
          at_ref

    post_has : Has g priv ref value m5.next
    post_has =
        at_or m5.next _ (fresh _ (omega (arith, lt5)))
          (new-node g priv ref m5 _ a6 (omega (arith, lt5)))
          (of-All _ (value_node ∷ m3.next ∷ _) (
            at_var value_node val_type val_terminal,
            (pre_has, parens-Has g priv ref fresh m4 priv.parens a5 (omega arith) parens_),
          ))

    posts_has : Has g priv ref posts m6.next
    posts_has =
        at_posts m6.next m2.next (fresh _ (omega (arith, lt5)))
          (new-node g priv ref m6 _ a7 (omega (arith, lt5)))
          (at_post_op m2.next priv.post_ops (fresh _ (omega arith))
            (new-node g priv ref m2 _ a3 (omega arith)) (of-All _ priv.post_ops posts_))

    term_has : Has g priv ref value m7.next
    term_has =
        at_term m7.next m5.next m6.next (fresh _ (omega (arith, lt5)))
          (new-node g priv ref m7 _ (chain-Agrees g priv ref fresh m8 m7.next priv.bin_ops a9)
            (omega (arith, lt5)))
          post_has posts_has
