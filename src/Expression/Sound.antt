-- ===== src/Expression/Sound.antt =====
-- src/node_expr.c: every valid tree of an expression grammar evaluates as the expression it says.
use mathlib.Core.Path.{subst}
use libecoli.Base.{ℕ, ◌≡◌, sym, Option, none, some, [], ◌∷◌}
use libecoli.Strvec.{Strvec}
use libecoli.Parse.{Pnode, Pnodes, pnode, nil, cons}
use libecoli.Node.{Grammar, seq}
use libecoli.Sound.Valid.{Valid, Shape}
use libecoli.Expr.{ExprPriv, none_type, pre_op, post_op, get_node_type, EvalOps}
use libecoli.Expression.Tree.{
  NoDouble, Role, value, pre_role, post_role, tail, Has, at_ref, at_var, at_or, at_pre_op, at_pre,
  at_paren, at_post_op, at_posts, at_term, at_tail, at_tails, at_next, at_expr,
}
use libecoli.Expression.Meaning.{
  reshape, terminal_kids, leaves-node, with_one, with_two, with_three, with_only, IsValue, AllKids,
}
use libecoli.Expression.Steps.{Means, Goal, leaf-IsValue, only_step, only_operator}
use libecoli.Expression.Pairs.{pre_step, tail_step, term_step, next_step}
use libecoli.Expression.Groups.{paren_step, posts_step, tails_all, tails_step}

module _ {V : Type 0} (ops : EvalOps V) (g : Grammar) (priv : ExprPriv) (ref body : ℕ)
    (ref_type : get_node_type priv ref ≡ none_type) (ref_seq : g.node ref ≡ seq (body ∷ []))
    (ref_has : Has g priv ref value body) where
  -- A tree node, from its children.
  step :
      (r : Role) (n : ℕ) (vec : Strvec) (kids : Pnodes)
      → Has g priv ref r n
      → Shape g.stack (g.node n) vec kids
      → Goal ops g priv ref ref_type r n (some vec) kids
  step r n vec kids at_ref shape =
      let (table, whole) = reshape g ref vec kids ref_seq shape in
      with_one ops g priv (Goal ops g priv ref ref_type value ref (some vec)) kids body table
        (λ p f. only_step ops g priv ref ref_type ref body (some vec) p ref_type ref_has f)
  step r n vec kids (at_var m e t) shape = λ means all once.
      subst (λ k. IsValue ops g priv (pnode m (some vec) k))
        (sym (terminal_kids g.stack (g.node m) vec kids t shape))
        (leaf-IsValue ops g priv ref ref_type m (some vec) e)
  step r n vec kids (at_or m table e h k) shape =
      let (c, mem, only) = reshape g m vec kids h shape in
      with_only ops g priv (Goal ops g priv ref ref_type value m (some vec)) kids c vec only
        (λ p f. only_step ops g priv ref ref_type m c (some vec) p e (k c mem) f)
  step r n vec kids (at_pre_op m table e h k) shape =
      let (c, mem, only) = reshape g m vec kids h shape in
      with_only ops g priv (Goal ops g priv ref ref_type pre_role m (some vec)) kids c vec only
        (λ p f means all once.
          only_operator ops g priv ref ref_type m c pre_op (some vec) p e tt tt (k c mem) f all)
  step r n vec kids (at_post_op m table e h k) shape =
      let (c, mem, only) = reshape g m vec kids h shape in
      with_only ops g priv (Goal ops g priv ref ref_type post_role m (some vec)) kids c vec only
        (λ p f means all once.
          only_operator ops g priv ref ref_type m c post_op (some vec) p e tt tt (k c mem) f all)
  step r n vec kids (at_pre m op arg e h k l) shape =
      let (table, whole) = reshape g m vec kids h shape in
      with_two ops g priv (Goal ops g priv ref ref_type value m (some vec)) kids op arg table
        (λ p q f i. pre_step ops g priv ref ref_type m op arg (some vec) p q e k l f i)
  step r n vec kids (at_tail m op arg e h k l a) shape =
      let (table, whole) = reshape g m vec kids h shape in
      with_two ops g priv (Goal ops g priv ref ref_type tail m (some vec)) kids op arg table
        (λ p q f i. tail_step ops g priv ref ref_type m op arg (some vec) p q e k l a f i)
  step r n vec kids (at_term m arg os e h k l) shape =
      let (table, whole) = reshape g m vec kids h shape in
      with_two ops g priv (Goal ops g priv ref ref_type value m (some vec)) kids arg os table
        (λ p q f i. term_step ops g priv ref ref_type m arg os (some vec) p q e k l f i)
  step r n vec kids (at_next m arg rest e h k l) shape =
      let (table, whole) = reshape g m vec kids h shape in
      with_two ops g priv (Goal ops g priv ref ref_type value m (some vec)) kids arg rest table
        (λ p q f i. next_step ops g priv ref ref_type m arg rest (some vec) p q e k l f i)
  step r n vec kids (at_paren m o arg c e h k l a) shape =
      let (table, whole) = reshape g m vec kids h shape in
      with_three ops g priv (Goal ops g priv ref ref_type value m (some vec)) kids o arg c table
        (λ p q s f i j. paren_step ops g priv ref ref_type m o arg c (some vec) p q s e k l a f i j)
  step r n vec kids (at_posts m op e h k) shape =
      let (whole, same, least, most) = reshape g m vec kids h shape in
      posts_step ops g priv ref ref_type m op (some vec) kids e k same
  step r n vec kids (at_tails m arg e h k) shape =
      let (whole, same, least, most) = reshape g m vec kids h shape in
      λ means all once. tails_step ops g priv ref ref_type m arg (some vec) kids e (
        tails_all ops g priv ref ref_type arg kids k same means all
          (subst (NoDouble priv) (leaves-node ops g priv m (some vec) kids e) once))
  step r n vec kids (at_expr m arg e h k) shape =
      with_only ops g priv (Goal ops g priv ref ref_type value m (some vec)) kids arg vec
        (reshape g m vec kids h shape)
        (λ p f. only_step ops g priv ref ref_type m arg (some vec) p e k f)

  node-Means :
      (n : ℕ) (v : Option Strvec) (kids : Pnodes)
      → AllKids ops g priv (Means ops g priv ref ref_type) kids
      → Means ops g priv ref ref_type (pnode n v kids)
  unfolding Valid
  node-Means n none kids means r h valid once = absurd valid
  node-Means n (some vec) kids means r h (shape, all) once =
      step r n vec kids h shape means all once

  mutual
    pub tree-Means : (p : Pnode) → Means ops g priv ref ref_type p
    tree-Means (pnode n v kids) = node-Means n v kids (kids_mean kids)

    kids_mean : (kids : Pnodes) → AllKids ops g priv (Means ops g priv ref ref_type) kids
    kids_mean nil = tt
    kids_mean (cons p ps) = (tree-Means p, kids_mean ps)
