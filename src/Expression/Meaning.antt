-- ===== src/Expression/Meaning.antt =====
-- src/node_expr.c: the evaluation of a tree that an expression grammar derives.
use mathlib.Core.Path.{subst}
use libecoli.Base.{
  ℕ, ◌≡◌, ◌⊎◌, refl, sym, ◌∙◌, ap, Option, none, some, List, [], ◌∷◌, ◌++◌, append_assoc,
  append-nil,
}
use libecoli.Strvec.{Strvec}
use libecoli.Parse.{Pnode, Pnodes, pnode, nil, cons, get_node}
use libecoli.Node.{Node, Grammar, str, any, empty, space, re, ext}
use libecoli.Sound.Valid.{Shape, IsOnly, nodes}
use libecoli.Expr.{
  ExprPriv, ExprType, none_type, pre_op, post_op, get_node_type, EvalOps, Evaluated, done,
  no_result, eval_expression, eval_children, eval_parens,
}
use libecoli.Expression.Tree.{
  Ast, bin, yield, and_then, ast_eval, type_of, leaves, leaves_all, NoDouble, IsTerminal, Role,
  value, pre_role, post_role, posts, tail, tails,
}
use libecoli.Expression.Merge.{
  IsPlain, value_result, op_result, tail_result, over, eval-node, with_tail, after,
}
use libecoli.Expression.Combine.{next_tail}

-- A tree node of a terminal type has no children.
pub terminal_kids :
    (stack : _) (n : Node) (vec : Strvec) (kids : Pnodes)
    → IsTerminal n
    → Shape stack n vec kids
    → kids ≡ nil
terminal_kids stack (str (some s)) vec kids t (e, a, b, c) = c
terminal_kids stack (str none) vec kids t h = absurd h
terminal_kids stack (any a) vec kids t (e, b, c, d) = d
terminal_kids stack empty vec kids t (a, b) = b
terminal_kids stack space vec kids t (e, a, b, c, d) = d
terminal_kids stack (re none) vec kids t h = absurd h
terminal_kids stack (re (some r)) vec kids t (e, a, b, c) = c
terminal_kids stack (ext m) vec kids t (rest, a, b) = b
terminal_kids stack _ vec kids t h = absurd t

-- The shape that a known node asks for.
pub reshape :
    (g : Grammar) {m : Node} (n : ℕ) (vec : Strvec) (kids : Pnodes)
    → g.node n ≡ m
    → Shape g.stack (g.node n) vec kids
    → Shape g.stack m vec kids
reshape g n vec kids e h = subst (λ m. Shape g.stack m vec kids) e h

module _ {V : Type 0} (ops : EvalOps V) (g : Grammar) (priv : ExprPriv) where
  pub NoDouble-split :
      (xs ys : List Pnode) → NoDouble priv (xs ++ ys) → NoDouble priv xs × NoDouble priv ys
  NoDouble-split [] ys h = (tt, h)
  NoDouble-split (x ∷ []) ys (h, hs) = ((tt, tt), hs)
  NoDouble-split (x ∷ y ∷ xs) ys (h, hs) = let (a, b) = NoDouble-split (y ∷ xs) ys hs in ((h, a), b)

  -- What the trees of each role evaluate to: the value of an expression with the same values and
  -- operators in the same order.
  abbrev pub IsValue : Pnode → Type 0
  IsValue p =
      (a : Ast) × (yield a ≡ leaves priv p)
      × (eval_expression ops priv p ≡ value_result ops priv (ast_eval ops a))

  abbrev pub IsOp : ExprType → Pnode → Type 0
  IsOp t p =
      (o : Pnode) × (leaves priv p ≡ o ∷ [])
      × (type_of priv o ≡ t)
      × (eval_expression ops priv p ≡ op_result ops priv o t)

  abbrev pub IsNothing : Pnode → Type 0
  IsNothing p = (leaves priv p ≡ []) × (eval_expression ops priv p ≡ done (no_result ops))

  abbrev pub IsTail : Pnode → Type 0
  IsTail p =
      (o : Pnode) × (a : Ast) × (leaves priv p ≡ o ∷ yield a)
      × (eval_expression ops priv p ≡ tail_result ops priv o (ast_eval ops a))

  abbrev pub As : Role → Pnode → Type 0
  As value p = IsValue p
  As pre_role p = IsOp pre_op p
  As post_role p = IsOp post_op p
  As posts p = IsNothing p ⊎ IsOp post_op p
  As tail p = IsTail p
  As tails p = IsNothing p ⊎ IsTail p

  pub leaves-node :
      (n : ℕ) (v : Option Strvec) (kids : Pnodes)
      → get_node_type priv n ≡ none_type
      → leaves priv (pnode n v kids) ≡ leaves_all priv kids
  leaves-node n v kids e = rw e refl

  pub leaves-one : (p : Pnode) → leaves_all priv (cons p nil) ≡ leaves priv p
  leaves-one p = append-nil (leaves priv p)

  pub leaves-two :
      (p q : Pnode) → leaves_all priv (cons p (cons q nil)) ≡ leaves priv p ++ leaves priv q
  leaves-two p q = ap (λ ls. leaves priv p ++ ls) (append-nil (leaves priv q))

  abbrev pub AllKids : (Pnode → Type 0) → Pnodes → Type 0
  AllKids P nil = Unit
  AllKids P (cons p ps) = P p × AllKids P ps

  pub with_one :
      (P : Pnodes → Type 0) (kids : Pnodes) (a : ℕ)
      → nodes kids ≡ a ∷ []
      → ((p : Pnode) → get_node p ≡ a → P (cons p nil))
      → P kids
  unfolding nodes
  with_one P nil a e k = absurd (cc)
  with_one P (cons p nil) a e k = k p (cc)
  with_one P (cons p (cons q ps)) a e k = absurd (cc)

  pub with_two :
      (P : Pnodes → Type 0) (kids : Pnodes) (a b : ℕ)
      → nodes kids ≡ a ∷ b ∷ []
      → ((p q : Pnode) → get_node p ≡ a → get_node q ≡ b → P (cons p (cons q nil)))
      → P kids
  unfolding nodes
  with_two P nil a b e k = absurd (cc)
  with_two P (cons p nil) a b e k = absurd (cc)
  with_two P (cons p (cons q nil)) a b e k = k p q (cc) (cc)
  with_two P (cons p (cons q (cons r ps))) a b e k = absurd (cc)

  pub with_three :
      (P : Pnodes → Type 0) (kids : Pnodes) (a b c : ℕ)
      → nodes kids ≡ a ∷ b ∷ c ∷ []
      → ((p q r : Pnode)
          → get_node p ≡ a
          → get_node q ≡ b
          → get_node r ≡ c
          → P (cons p (cons q (cons r nil))))
      → P kids
  unfolding nodes
  with_three P nil a b c e k = absurd (cc)
  with_three P (cons p nil) a b c e k = absurd (cc)
  with_three P (cons p (cons q nil)) a b c e k = absurd (cc)
  with_three P (cons p (cons q (cons r nil))) a b c e k = k p q r (cc) (cc) (cc)
  with_three P (cons p (cons q (cons r (cons s ps)))) a b c e k = absurd (cc)

  pub with_only :
      (P : Pnodes → Type 0) (kids : Pnodes) (a : ℕ) (vec : Strvec)
      → IsOnly a vec kids
      → ((p : Pnode) → get_node p ≡ a → P (cons p nil))
      → P kids
  with_only P kids a vec (p, e, f, h) k = subst P (sym e) (k p f)

  pub node_value :
      (n : ℕ) (v : Option Strvec) (kids : Pnodes) {x : Evaluated V}
      → get_node_type priv n ≡ none_type
      → over ops priv (no_result ops) kids ≡ x
      → eval_expression ops priv (pnode n v kids) ≡ x
  node_value n v kids e h = eval-node ops priv n v kids e ∙ h

  -- Tails, one after the other.
  pub tails_rest :
      (kids : Pnodes) (o : Pnode) (a : Ast)
      → AllKids (λ q. IsPlain (type_of priv q) × IsTail q) kids
      → (b : Ast) × (yield b ≡ yield a ++ leaves_all priv kids)
        × (after ops priv (ast_eval ops a) (λ v. over ops priv (with_tail ops priv v o) kids)
            ≡ tail_result ops priv o (ast_eval ops b))
  unfolding eval_children eval_parens
  tails_rest nil o a h = (a, sym (append-nil (yield a)), end (ast_eval ops a))
    where
      end :
          (x : Option V)
          → after ops priv x (λ v. over ops priv (with_tail ops priv v o) nil)
            ≡ tail_result ops priv o x
      end none = refl
      end (some v) = refl
  tails_rest (cons q qs) o a ((plain, (o', a', yields, evals)), hs) =
      let (b, yields', evals') = tails_rest qs o (bin a o' a') hs in
      (
        b,
        yields'
            ∙ append_assoc (yield a) (o' ∷ yield a') (leaves_all priv qs)
            ∙ ap (λ l. yield a ++ (l ++ leaves_all priv qs)) (sym yields),
        next (ast_eval ops a) ∙ evals',
      )
    where
      next :
          (x : Option V)
          → after ops priv x (λ v. over ops priv (with_tail ops priv v o) (cons q qs))
            ≡ after ops priv
                (and_then x (λ v. and_then (ast_eval ops a') (λ w. ops.eval_bin_op v o' w)))
                (λ z. over ops priv (with_tail ops priv z o) qs)
      next none = refl
      next (some v) = next_tail ops priv v o q o' qs _ (ast_eval ops a') refl plain evals
