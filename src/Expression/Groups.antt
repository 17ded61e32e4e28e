-- ===== src/Expression/Groups.antt =====
-- src/node_expr.c: the evaluation of parentheses and of lists of operators, from that of their parts.
use mathlib.Core.Path.{subst}
use libecoli.Base.{ℕ, ◌≡◌, ◌⊎◌, inl, inr, refl, sym, ◌∙◌, ap, Option, List, [], ◌∷◌, ◌++◌, All}
use libecoli.Strvec.{Strvec}
use libecoli.Parse.{Pnode, Pnodes, pnode, nil, cons, get_node}
use libecoli.Node.{Grammar}
use libecoli.Sound.Valid.{AllValid, nodes}
use libecoli.Expr.{
  ExprPriv, ExprType, none_type, post_op, paren_open, paren_close, get_node_type, EvalOps,
  eval_children, eval_parens,
}
use libecoli.Expression.Tree.{
  paren, ast_eval, type_of, leaves, leaves_all, NoDouble, value, post_role, posts, tail, tails, Has,
}
use libecoli.Expression.Merge.{IsPlain, alone_op}
use libecoli.Expression.Combine.{first_tail, enclosed}
use libecoli.Expression.Meaning.{
  NoDouble-split, leaves-node, leaves-one, node_value, tails_rest, IsTail, As, AllKids,
}
use libecoli.Expression.Steps.{Means, Goal, child-As}

module _ {V : Type 0} (ops : EvalOps V) (g : Grammar) (priv : ExprPriv) (ref : ℕ)
    (ref_type : get_node_type priv ref ≡ none_type) where
  paren_leaf :
      (p : Pnode) (t : ExprType)
      → (t ≡ paren_open) ⊎ (t ≡ paren_close)
      → type_of priv p ≡ t
      → leaves priv p ≡ p ∷ []
  paren_leaf (pnode n v kids) t (inl e) h = rw (h, e) refl
  paren_leaf (pnode n v kids) t (inr e) h = rw (h, e) refl

  -- A value between parentheses.
  pub paren_step :
      (n o arg c : ℕ) (v : Option Strvec) (p q r : Pnode)
      → get_node_type priv n ≡ none_type
      → get_node_type priv o ≡ paren_open
      → get_node_type priv c ≡ paren_close
      → Has g priv ref value arg
      → get_node p ≡ o
      → get_node q ≡ arg
      → get_node r ≡ c
      → Goal ops g priv ref ref_type value n v (cons p (cons q (cons r nil)))
  unfolding AllValid
  paren_step n o arg c v p q r e h i k f j l (mp, (mq, mr)) (vp, (vq, vr)) once =
      let type_p = ap (get_node_type priv) f ∙ h in
      let type_r = ap (get_node_type priv) l ∙ i in
      let same : leaves priv (pnode n v (cons p (cons q (cons r nil))))
          ≡ p ∷ (leaves priv q ++ (r ∷ [])) =
        leaves-node ops g priv n v (cons p (cons q (cons r nil))) e
        ∙ ap (λ ls. ls ++ (leaves priv q ++ (leaves priv r ++ [])))
            (paren_leaf p paren_open (inl refl) type_p)
        ∙ ap (λ ls. p ∷ (leaves priv q ++ (ls ++ [])))
            (paren_leaf r paren_close (inr refl) type_r) in
      let (once_p, once_rest) =
        NoDouble-split ops g priv (p ∷ []) (leaves priv q ++ (r ∷ []))
          (subst (NoDouble priv) same once) in
      let (once_q, once_r) = NoDouble-split ops g priv (leaves priv q) (r ∷ []) once_rest in
      let ((a, m, y), pq) = child-As ops g priv ref ref_type value q arg mq vq once_q j k in
      (
        paren p a r,
        ap (λ ls. p ∷ (ls ++ (r ∷ []))) m ∙ sym same,
        node_value ops g priv n v _ e
            (enclosed ops priv p q r _ (ast_eval ops a) type_p refl pq type_r y),
      )

  -- Two postfix operators, one after the other.
  no_double :
      (o q : Pnode) (xs : List Pnode)
      → type_of priv o ≡ post_op
      → type_of priv q ≡ post_op
      → NoDouble priv (o ∷ (q ∷ xs))
      → ⊥
  no_double o q xs e h (f, w) = f e h

  -- Postfix operators: there is one at most.
  pub posts_step :
      (n op : ℕ) (v : Option Strvec) (kids : Pnodes)
      → get_node_type priv n ≡ none_type
      → Has g priv ref post_role op
      → All (λ c. c ≡ op) (nodes kids)
      → Goal ops g priv ref ref_type posts n v kids
  unfolding nodes AllValid eval_children eval_parens
  posts_step n op v nil e h same means all once =
      inl (leaves-node ops g priv n v nil e, node_value ops g priv n v nil e refl)
  posts_step n op v (cons p nil) e h (f, u) (mp, w) (vp, x) once =
      let same = leaves-node ops g priv n v (cons p nil) e ∙ leaves-one ops g priv p in
      let ((o, l, t, y), pp) =
        child-As ops g priv ref ref_type post_role p op mp vp (subst (NoDouble priv) same once) f
          h in
      inr (
        o,
        same ∙ l,
        t,
        node_value ops g priv n v (cons p nil) e (alone_op ops priv p o _ post_op refl pp y),
      )
  posts_step n op v (cons p (cons q qs)) e h (f, (i, is)) (mp, (mq, ms)) (vp, (vq, vs)) once =
      let once' = subst (NoDouble priv) (leaves-node ops g priv n v (cons p (cons q qs)) e) once in
      let (once_p, once_qs) =
        NoDouble-split ops g priv (leaves priv p) (leaves_all priv (cons q qs)) once' in
      let (once_q, once_r) =
        NoDouble-split ops g priv (leaves priv q) (leaves_all priv qs) once_qs in
      let ((o, l, t, y), pp) = child-As ops g priv ref ref_type post_role p op mp vp once_p f h in
      let ((o', l', t', y'), pq) =
        child-As ops g priv ref ref_type post_role q op mq vq once_q i h in
      absurd (
        no_double o o' (leaves_all priv qs) t t' (
          subst (NoDouble priv)
            (ap (λ ls. ls ++ leaves_all priv (cons q qs)) l
              ∙ ap (λ ls. o ∷ (ls ++ leaves_all priv qs)) l')
            once'))

  pub tails_all :
      (arg : ℕ) (kids : Pnodes)
      → Has g priv ref tail arg
      → All (λ c. c ≡ arg) (nodes kids)
      → AllKids ops g priv (Means ops g priv ref ref_type) kids
      → AllValid g kids
      → NoDouble priv (leaves_all priv kids)
      → AllKids ops g priv (λ q. IsPlain (type_of priv q) × IsTail ops g priv q) kids
  unfolding nodes AllValid
  tails_all arg nil h same means all once = tt
  tails_all arg (cons p ps) h (f, fs) (mp, ms) (vp, vs) once =
      let (once_p, once_ps) = NoDouble-split ops g priv (leaves priv p) (leaves_all priv ps) once in
      let (here, pp) = child-As ops g priv ref ref_type tail p arg mp vp once_p f h in
      ((pp, here), tails_all arg ps h fs ms vs once_ps)

  -- Binary operators with their right operands.
  pub tails_step :
      (n arg : ℕ) (v : Option Strvec) (kids : Pnodes)
      → get_node_type priv n ≡ none_type
      → AllKids ops g priv (λ q. IsPlain (type_of priv q) × IsTail ops g priv q) kids
      → As ops g priv tails (pnode n v kids)
  unfolding eval_children eval_parens
  tails_step n arg v nil e h =
      inl (leaves-node ops g priv n v nil e, node_value ops g priv n v nil e refl)
  tails_step n arg v (cons q qs) e ((pq, (o, a, l, x)), hs) =
      let (b, m, y) = tails_rest ops g priv qs o a hs in
      inr (
        o,
        b,
        leaves-node ops g priv n v (cons q qs) e
            ∙ ap (λ ls. ls ++ leaves_all priv qs) l
            ∙ ap (◌∷◌ o) (sym m),
        node_value ops g priv n v (cons q qs) e
            (first_tail ops priv q o qs _ (ast_eval ops a) refl pq x ∙ y),
      )
