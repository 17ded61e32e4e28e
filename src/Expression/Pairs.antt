-- ===== src/Expression/Pairs.antt =====
-- src/node_expr.c: the evaluation of a tree node with two children, by its role.
use mathlib.Core.Path.{subst}
use libecoli.Base.{ℕ, ◌≡◌, inl, inr, refl, sym, ◌∙◌, ap, Option, [], ◌∷◌, ◌++◌, append-nil}
use libecoli.Strvec.{Strvec}
use libecoli.Parse.{Pnode, nil, cons, get_node}
use libecoli.Node.{Grammar}
use libecoli.Sound.Valid.{AllValid}
use libecoli.Expr.{ExprPriv, none_type, bin_op, get_node_type, EvalOps}
use libecoli.Expression.Tree.{
  pre, post, bin, yield, ast_eval, leaves, NoDouble, IsTerminal, value, pre_role, posts, tail,
  tails, Has,
}
use libecoli.Expression.Combine.{prefixed, tailed, value_alone, suffixed, applied}
use libecoli.Expression.Meaning.{NoDouble-split, leaves-node, leaves-two, node_value}
use libecoli.Expression.Steps.{Goal, child-As, terminal-IsOp, pair-As}

module _ {V : Type 0} (ops : EvalOps V) (g : Grammar) (priv : ExprPriv) (ref : ℕ)
    (ref_type : get_node_type priv ref ≡ none_type) where
  pub pre_step :
      (n op arg : ℕ) (v : Option Strvec) (p q : Pnode)
      → get_node_type priv n ≡ none_type
      → Has g priv ref pre_role op
      → Has g priv ref value arg
      → get_node p ≡ op
      → get_node q ≡ arg
      → Goal ops g priv ref ref_type value n v (cons p (cons q nil))
  pre_step n op arg v p q e h k f i means all once =
      let (same, (((o, l, t, x), pp), ((a, m, y), pq))) =
        pair-As ops g priv ref ref_type pre_role value n op arg v p q e means all once f i h k in
      (
        pre o a,
        ap (◌∷◌ o) m ∙ ap (λ ls. ls ++ leaves priv q) (sym l) ∙ sym same,
        node_value ops g priv n v (cons p (cons q nil)) e
            (prefixed ops priv p q o _ _ (ast_eval ops a) refl pp refl pq x y),
      )

  pub tail_step :
      (n op arg : ℕ) (v : Option Strvec) (p q : Pnode)
      → get_node_type priv n ≡ none_type
      → get_node_type priv op ≡ bin_op
      → IsTerminal (g.node op)
      → Has g priv ref value arg
      → get_node p ≡ op
      → get_node q ≡ arg
      → Goal ops g priv ref ref_type tail n v (cons p (cons q nil))
  unfolding AllValid
  tail_step n op arg v p q e h i k f j (mp, (mq, u)) (vp, (vq, w)) once =
      let same = leaves-node ops g priv n v (cons p (cons q nil)) e ∙ leaves-two ops g priv p q in
      let (once_p, once_q) =
        NoDouble-split ops g priv (leaves priv p) (leaves priv q)
          (subst (NoDouble priv) same once) in
      let type = ap (get_node_type priv) f ∙ h in
      let (o, l, t, x) =
        terminal-IsOp ops g priv ref ref_type bin_op p tt type
          (subst (λ c. IsTerminal (g.node c)) (sym f) i) vp in
      let ((a, m, y), pq) = child-As ops g priv ref ref_type value q arg mq vq once_q j k in
      (
        o,
        a,
        same ∙ ap (λ ls. ls ++ leaves priv q) l ∙ ap (◌∷◌ o) (sym m),
        node_value ops g priv n v (cons p (cons q nil)) e
            (tailed ops priv p q o bin_op _ (ast_eval ops a) type tt refl pq x y),
      )

  pub term_step :
      (n arg os : ℕ) (v : Option Strvec) (p q : Pnode)
      → get_node_type priv n ≡ none_type
      → Has g priv ref value arg
      → Has g priv ref posts os
      → get_node p ≡ arg
      → get_node q ≡ os
      → Goal ops g priv ref ref_type value n v (cons p (cons q nil))
  term_step n arg os v p q e h k f i means all once =
      let (same, (((a, m, y), pp), (as_posts, pq))) =
        pair-As ops g priv ref ref_type value posts n arg os v p q e means all once f i h k in
      elim as_posts [
        | inl (l, x) ↦ (
          a,
          sym (append-nil (yield a))
              ∙ ap (λ ls. ls ++ []) m
              ∙ ap (λ ls. leaves priv p ++ ls) (sym l)
              ∙ sym same,
          node_value ops g priv n v (cons p (cons q nil)) e
              (value_alone ops priv p q _ _ (ast_eval ops a) refl pp refl pq y x),
        )
        | inr (o, l, t, x) ↦ (
          post a o,
          ap (λ ls. ls ++ (o ∷ [])) m ∙ ap (λ ls. leaves priv p ++ ls) (sym l) ∙ sym same,
          node_value ops g priv n v (cons p (cons q nil)) e
              (suffixed ops priv p q o _ _ (ast_eval ops a) refl pp refl pq y x),
        )
      ]

  pub next_step :
      (n arg rest : ℕ) (v : Option Strvec) (p q : Pnode)
      → get_node_type priv n ≡ none_type
      → Has g priv ref value arg
      → Has g priv ref tails rest
      → get_node p ≡ arg
      → get_node q ≡ rest
      → Goal ops g priv ref ref_type value n v (cons p (cons q nil))
  next_step n arg rest v p q e h k f i means all once =
      let (same, (((a, m, y), pp), (as_tails, pq))) =
        pair-As ops g priv ref ref_type value tails n arg rest v p q e means all once f i h k in
      elim as_tails [
        | inl (l, x) ↦ (
          a,
          sym (append-nil (yield a))
              ∙ ap (λ ls. ls ++ []) m
              ∙ ap (λ ls. leaves priv p ++ ls) (sym l)
              ∙ sym same,
          node_value ops g priv n v (cons p (cons q nil)) e
              (value_alone ops priv p q _ _ (ast_eval ops a) refl pp refl pq y x),
        )
        | inr (o, b, l, x) ↦ (
          bin a o b,
          ap (λ ls. ls ++ (o ∷ yield b)) m ∙ ap (λ ls. leaves priv p ++ ls) (sym l) ∙ sym same,
          node_value ops g priv n v (cons p (cons q nil)) e
              (applied ops priv p q o _ _ (ast_eval ops a) (ast_eval ops b) refl pp refl pq y x),
        )
      ]
