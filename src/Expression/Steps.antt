-- ===== src/Expression/Steps.antt =====
-- src/node_expr.c: the evaluation of a tree node from that of its children, by its role.
use mathlib.Core.Path.{subst}
use libecoli.Base.{ℕ, ◌≡◌, refl, sym, ◌∙◌, ap, Option, none, some, ◌++◌}
use libecoli.Strvec.{Strvec}
use libecoli.Parse.{Pnode, Pnodes, pnode, nil, cons, get_node}
use libecoli.Node.{Grammar}
use libecoli.Sound.Valid.{Valid, AllValid}
use libecoli.Expr.{
  ExprPriv, ExprType, none_type, val, bin_op, pre_op, post_op, paren_open, paren_close,
  get_node_type, EvalOps, done, no_result, only_val, eval_node, and_eval,
}
use libecoli.Expression.Tree.{
  var, ast_eval, type_of, leaves, NoDouble, IsTerminal, Role, value, Has, at_ref, at_var, at_or,
  at_pre_op, at_pre, at_paren, at_post_op, at_posts, at_term, at_tail, at_tails, at_next, at_expr,
}
use libecoli.Expression.Merge.{IsPlain, value_result, eval-op, alone, alone_op}
use libecoli.Expression.Meaning.{
  terminal_kids, NoDouble-split, leaves-node, leaves-one, leaves-two, node_value, IsValue, IsOp, As,
  AllKids,
}

module _ {V : Type 0} (ops : EvalOps V) (g : Grammar) (priv : ExprPriv) (ref : ℕ)
    (ref_type : get_node_type priv ref ≡ none_type) where
  abbrev pub Means : Pnode → Type 0
  Means p =
      (r : Role)
      → Has g priv ref r (get_node p)
      → Valid g p
      → NoDouble priv (leaves priv p)
      → As ops g priv r p

  pub plain : {r : Role} (n : ℕ) → Has g priv ref r n → IsPlain (get_node_type priv n)
  plain n at_ref = rw ref_type tt
  plain n (at_var m e t) = rw e tt
  plain n (at_or m table e h k) = rw e tt
  plain n (at_pre_op m table e h k) = rw e tt
  plain n (at_pre m op arg e h k l) = rw e tt
  plain n (at_paren m o arg c e h k l a) = rw e tt
  plain n (at_post_op m table e h k) = rw e tt
  plain n (at_posts m op e h k) = rw e tt
  plain n (at_term m arg os e h k l) = rw e tt
  plain n (at_tail m op arg e h k l a) = rw e tt
  plain n (at_tails m arg e h k) = rw e tt
  plain n (at_next m arg rest e h k l) = rw e tt
  plain n (at_expr m arg e h k) = rw e tt

  abbrev pub IsOperator : ExprType → Type 0
  IsOperator pre_op = Unit
  IsOperator post_op = Unit
  IsOperator bin_op = Unit
  IsOperator _ = ⊥

  -- A terminal that is an operator.
  leaf-IsOp :
      (t : ExprType) (n : ℕ) (v : Option Strvec)
      → IsOperator t
      → get_node_type priv n ≡ t
      → IsOp ops g priv t (pnode n v nil)
  unfolding eval_node no_result and_eval
  leaf-IsOp pre_op n v h e = (pnode n v nil, rw e refl, e, eval-op ops priv n v pre_op e ∙ refl)
  leaf-IsOp post_op n v h e = (pnode n v nil, rw e refl, e, eval-op ops priv n v post_op e ∙ refl)
  leaf-IsOp bin_op n v h e = (pnode n v nil, rw e refl, e, eval-op ops priv n v bin_op e ∙ refl)
  leaf-IsOp none_type n v h e = absurd h
  leaf-IsOp val n v h e = absurd h
  leaf-IsOp paren_open n v h e = absurd h
  leaf-IsOp paren_close n v h e = absurd h

  pub terminal-IsOp :
      (t : ExprType) (p : Pnode)
      → IsOperator t
      → type_of priv p ≡ t
      → IsTerminal (g.node (get_node p))
      → Valid g p
      → IsOp ops g priv t p
  unfolding Valid
  terminal-IsOp t (pnode n none kids) h e i a = absurd a
  terminal-IsOp t (pnode n (some vec) kids) h e i (shape, all) =
      subst (λ k. IsOp ops g priv t (pnode n (some vec) k))
        (sym (terminal_kids g.stack (g.node n) vec kids i shape)) (leaf-IsOp t n (some vec) h e)

  -- A terminal that is a value.
  pub leaf-IsValue :
      (n : ℕ) (v : Option Strvec) → get_node_type priv n ≡ val → IsValue ops g priv (pnode n v nil)
  unfolding eval_node and_eval only_val
  leaf-IsValue n v e = (
    var (pnode n v nil),
    rw e refl,
    eval-op ops priv n v val e ∙ end (ops.eval_var (pnode n v nil)),
  )
    where
      end :
          (x : Option V)
          → and_eval ops priv (only_val ops x) (λ y. done y) ≡ value_result ops priv x
      end none = refl
      end (some w) = refl

  abbrev pub Goal : Role → ℕ → Option Strvec → Pnodes → Type 0
  Goal r n v kids =
      AllKids ops g priv Means kids
      → AllValid g kids
      → NoDouble priv (leaves priv (pnode n v kids))
      → As ops g priv r (pnode n v kids)

  -- A child, in its role.
  pub child-As :
      (r : Role) (p : Pnode) (a : ℕ)
      → Means p
      → Valid g p
      → NoDouble priv (leaves priv p)
      → get_node p ≡ a
      → Has g priv ref r a
      → As ops g priv r p × IsPlain (type_of priv p)
  child-As r p a means valid once e has =
      let here = subst (Has g priv ref r) (sym e) has in
      (means r here valid once, plain (get_node p) here)

  -- Two children, in their roles.
  pub pair-As :
      (r s : Role) (n a b : ℕ) (v : Option Strvec) (p q : Pnode)
      → get_node_type priv n ≡ none_type
      → AllKids ops g priv Means (cons p (cons q nil))
      → AllValid g (cons p (cons q nil))
      → NoDouble priv (leaves priv (pnode n v (cons p (cons q nil))))
      → get_node p ≡ a
      → get_node q ≡ b
      → Has g priv ref r a
      → Has g priv ref s b
      → (leaves priv (pnode n v (cons p (cons q nil))) ≡ leaves priv p ++ leaves priv q)
        × ((As ops g priv r p × IsPlain (type_of priv p))
            × (As ops g priv s q × IsPlain (type_of priv q)))
  unfolding AllValid
  pair-As r s n a b v p q e (mp, (mq, u)) (vp, (vq, w)) once f h k l =
      let same = leaves-node ops g priv n v (cons p (cons q nil)) e ∙ leaves-two ops g priv p q in
      let (op, oq) =
        NoDouble-split ops g priv (leaves priv p) (leaves priv q)
          (subst (NoDouble priv) same once) in
      (same, (child-As r p a mp vp op f k, child-As s q b mq vq oq h l))

  -- A single child that is a value.
  pub only_step :
      (n arg : ℕ) (v : Option Strvec) (p : Pnode)
      → get_node_type priv n ≡ none_type
      → Has g priv ref value arg
      → get_node p ≡ arg
      → Goal value n v (cons p nil)
  unfolding AllValid
  only_step n arg v p e h f (mp, u) (vp, w) once =
      let same = leaves-node ops g priv n v (cons p nil) e ∙ leaves-one ops g priv p in
      let ((a, m, y), pp) = child-As value p arg mp vp (subst (NoDouble priv) same once) f h in
      (
        a,
        m ∙ sym same,
        node_value ops g priv n v (cons p nil) e (alone ops priv p _ (ast_eval ops a) refl pp y),
      )

  -- A single child that is an operator.
  pub only_operator :
      (n op : ℕ) (t : ExprType) (v : Option Strvec) (p : Pnode)
      → get_node_type priv n ≡ none_type
      → IsOperator t
      → IsPlain t
      → (get_node_type priv op ≡ t) × IsTerminal (g.node op)
      → get_node p ≡ op
      → AllValid g (cons p nil)
      → IsOp ops g priv t (pnode n v (cons p nil))
  unfolding AllValid
  only_operator n op t v p e i j (h, k) f (vp, w) =
      let same = leaves-node ops g priv n v (cons p nil) e ∙ leaves-one ops g priv p in
      let type = ap (get_node_type priv) f ∙ h in
      let (o, l, u, x) =
        terminal-IsOp t p i type (subst (λ c. IsTerminal (g.node c)) (sym f) k) vp in
      (
        o,
        same ∙ l,
        u,
        node_value ops g priv n v (cons p nil) e (alone_op ops priv p o t t type j x),
      )
