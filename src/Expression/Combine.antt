-- ===== src/Expression/Combine.antt =====
-- src/node_expr.c: what eval_expression makes of children that are values and operators.
use libecoli.Base.{◌≡◌, refl, ◌∙◌, Option, none, some}
use libecoli.Parse.{Pnode, Pnodes, nil, cons, get_node}
use libecoli.Expr.{
  ExprPriv, ExprType, bin_op, pre_op, post_op, paren_open, paren_close, get_node_type, EvalOps,
  done, with_val, apply_op, apply_bin_op, only_val, merge_case, merge_results, no_result,
  eval_parens, and_eval, eval_expression, eval_children,
}
use libecoli.Expression.Tree.{and_then}
use libecoli.Expression.Merge.{
  IsPlain, over_op, over_value, over_tail, over_none, over-open, over-close, and_done,
  with_val-value, value_result, op_result, tail_result, over, valued, with_op, with_tail, after,
}

module _ {V : Type 0} (ops : EvalOps V) (priv : ExprPriv) where
  -- A prefix operator and a value.
  pub prefixed :
      (p q o : Pnode) (t u : ExprType) (x : Option V)
      → get_node_type priv (get_node p) ≡ t
      → IsPlain t
      → get_node_type priv (get_node q) ≡ u
      → IsPlain u
      → eval_expression ops priv p ≡ op_result ops priv o pre_op
      → eval_expression ops priv q ≡ value_result ops priv x
      → over ops priv (no_result ops) (cons p (cons q nil))
        ≡ value_result ops priv (and_then x (λ v. ops.eval_pre_op v o))
  unfolding and_eval merge_results merge_case apply_op no_result only_val
  prefixed p q o t u x e h f i k l =
      over_op ops priv (no_result ops) p (cons q nil) o t pre_op e h k
      ∙ over_value ops priv (with_op ops priv o pre_op) none none q nil u x f i l
      ∙ last x
    where
      last :
          (x : Option V)
          → after ops priv x (λ v.
            and_eval ops priv
              (merge_results ops (with_op ops priv o pre_op) (valued ops priv v))
              (λ m. eval_children ops priv nil m none none))
            ≡ value_result ops priv (and_then x (λ v. ops.eval_pre_op v o))
      last none = refl
      last (some v) = and_done ops priv (value_result ops priv (ops.eval_pre_op v o))

  -- A binary operator and its right operand.
  pub tailed :
      (p q o : Pnode) (t u : ExprType) (x : Option V)
      → get_node_type priv (get_node p) ≡ t
      → IsPlain t
      → get_node_type priv (get_node q) ≡ u
      → IsPlain u
      → eval_expression ops priv p ≡ op_result ops priv o bin_op
      → eval_expression ops priv q ≡ value_result ops priv x
      → over ops priv (no_result ops) (cons p (cons q nil)) ≡ tail_result ops priv o x
  unfolding and_eval merge_results merge_case apply_op no_result eval_children eval_parens
  tailed p q o t u x e h f i k l =
      over_op ops priv (no_result ops) p (cons q nil) o t bin_op e h k
      ∙ over_value ops priv (with_op ops priv o bin_op) none none q nil u x f i l
      ∙ last x
    where
      last :
          (x : Option V)
          → after ops priv x (λ v.
            and_eval ops priv
              (merge_results ops (with_op ops priv o bin_op) (valued ops priv v))
              (λ m. eval_children ops priv nil m none none))
            ≡ tail_result ops priv o x
      last none = refl
      last (some v) = refl

  -- A value and nothing.
  pub value_alone :
      (p q : Pnode) (t u : ExprType) (x : Option V)
      → get_node_type priv (get_node p) ≡ t
      → IsPlain t
      → get_node_type priv (get_node q) ≡ u
      → IsPlain u
      → eval_expression ops priv p ≡ value_result ops priv x
      → eval_expression ops priv q ≡ done (no_result ops)
      → over ops priv (no_result ops) (cons p (cons q nil)) ≡ value_result ops priv x
  unfolding and_eval merge_results merge_case no_result only_val eval_children eval_parens
  value_alone p q t u x e h f i k l =
      over_value ops priv (no_result ops) none none p (cons q nil) t x e h k ∙ last x
    where
      last :
          (x : Option V)
          → after ops priv x (λ v.
            and_eval ops priv
              (merge_results ops (no_result ops) (valued ops priv v))
              (λ m. over ops priv m (cons q nil)))
            ≡ value_result ops priv x
      last none = refl
      last (some v) = over_none ops priv (valued ops priv v) q nil u f i l

  -- A value and a postfix operator.
  pub suffixed :
      (p q o : Pnode) (t u : ExprType) (x : Option V)
      → get_node_type priv (get_node p) ≡ t
      → IsPlain t
      → get_node_type priv (get_node q) ≡ u
      → IsPlain u
      → eval_expression ops priv p ≡ value_result ops priv x
      → eval_expression ops priv q ≡ op_result ops priv o post_op
      → over ops priv (no_result ops) (cons p (cons q nil))
        ≡ value_result ops priv (and_then x (λ v. ops.eval_post_op v o))
  unfolding and_eval merge_results merge_case no_result only_val
  suffixed p q o t u x e h f i k l =
      over_value ops priv (no_result ops) none none p (cons q nil) t x e h k ∙ last x
    where
      last :
          (x : Option V)
          → after ops priv x (λ v.
            and_eval ops priv
              (merge_results ops (no_result ops) (valued ops priv v))
              (λ m. over ops priv m (cons q nil)))
            ≡ value_result ops priv (and_then x (λ v. ops.eval_post_op v o))
      last none = refl
      last (some v) =
          over_op ops priv (valued ops priv v) q nil o u post_op f i l
          ∙ and_done ops priv (with_val ops (valued ops priv v) (ops.eval_post_op v o))
          ∙ with_val-value ops priv v (ops.eval_post_op v o)

  -- A value, and a binary operator with its right operand.
  pub applied :
      (p q o : Pnode) (t u : ExprType) (x y : Option V)
      → get_node_type priv (get_node p) ≡ t
      → IsPlain t
      → get_node_type priv (get_node q) ≡ u
      → IsPlain u
      → eval_expression ops priv p ≡ value_result ops priv x
      → eval_expression ops priv q ≡ tail_result ops priv o y
      → over ops priv (no_result ops) (cons p (cons q nil))
        ≡ value_result ops priv (and_then x (λ v. and_then y (λ w. ops.eval_bin_op v o w)))
  unfolding and_eval merge_results merge_case apply_bin_op no_result only_val
  applied p q o t u x y e h f i k l =
      over_value ops priv (no_result ops) none none p (cons q nil) t x e h k ∙ last x y l
    where
      last :
          (x y : Option V)
          → eval_expression ops priv q ≡ tail_result ops priv o y
          → after ops priv x (λ v.
            and_eval ops priv
              (merge_results ops (no_result ops) (valued ops priv v))
              (λ m. over ops priv m (cons q nil)))
            ≡ value_result ops priv (and_then x (λ v. and_then y (λ w. ops.eval_bin_op v o w)))
      last none y l = refl
      last (some v) none l = over_tail ops priv (valued ops priv v) q nil o u none f i l
      last (some v) (some w) l =
          over_tail ops priv (valued ops priv v) q nil o u (some w) f i l
          ∙ and_done ops priv (with_val ops (valued ops priv v) (ops.eval_bin_op v o w))
          ∙ with_val-value ops priv v (ops.eval_bin_op v o w)

  -- A binary operator with its right operand, to which another is added.
  pub first_tail :
      (q o : Pnode) (qs : Pnodes) (u : ExprType) (x : Option V)
      → get_node_type priv (get_node q) ≡ u
      → IsPlain u
      → eval_expression ops priv q ≡ tail_result ops priv o x
      → over ops priv (no_result ops) (cons q qs)
        ≡ after ops priv x (λ v. over ops priv (with_tail ops priv v o) qs)
  unfolding and_eval merge_results merge_case no_result
  first_tail q o qs u x f i l = over_tail ops priv (no_result ops) q qs o u x f i l ∙ last x
    where
      last :
          (x : Option V)
          → after ops priv x (λ v.
            and_eval ops priv
              (merge_results ops (no_result ops) (with_tail ops priv v o))
              (λ m. over ops priv m qs))
            ≡ after ops priv x (λ v. over ops priv (with_tail ops priv v o) qs)
      last none = refl
      last (some v) = refl

  pub next_tail :
      (v : V) (o q o' : Pnode) (qs : Pnodes) (u : ExprType) (y : Option V)
      → get_node_type priv (get_node q) ≡ u
      → IsPlain u
      → eval_expression ops priv q ≡ tail_result ops priv o' y
      → over ops priv (with_tail ops priv v o) (cons q qs)
        ≡ after ops priv
            (and_then y (λ w. ops.eval_bin_op v o' w))
            (λ z. over ops priv (with_tail ops priv z o) qs)
  unfolding and_eval merge_results merge_case apply_bin_op with_val
  next_tail v o q o' qs u y f i l =
      over_tail ops priv (with_tail ops priv v o) q qs o' u y f i l ∙ last y
    where
      merged :
          (x : Option V)
          → and_eval ops priv (with_val ops (with_tail ops priv v o) x) (λ m. over ops priv m qs)
            ≡ after ops priv x (λ z. over ops priv (with_tail ops priv z o) qs)
      merged none = refl
      merged (some z) = refl

      last :
          (y : Option V)
          → after ops priv y (λ w.
            and_eval ops priv
              (merge_results ops (with_tail ops priv v o) (with_tail ops priv w o'))
              (λ m. over ops priv m qs))
            ≡ after ops priv
                (and_then y (λ w. ops.eval_bin_op v o' w))
                (λ z. over ops priv (with_tail ops priv z o) qs)
      last none = refl
      last (some w) = merged (ops.eval_bin_op v o' w)

  -- A value between parentheses.
  pub enclosed :
      (p q c : Pnode) (u : ExprType) (x : Option V)
      → get_node_type priv (get_node p) ≡ paren_open
      → get_node_type priv (get_node q) ≡ u
      → IsPlain u
      → get_node_type priv (get_node c) ≡ paren_close
      → eval_expression ops priv q ≡ value_result ops priv x
      → over ops priv (no_result ops) (cons p (cons q (cons c nil)))
        ≡ value_result ops priv (and_then x (λ v. ops.eval_parenthesis p c v))
  unfolding and_eval merge_results merge_case no_result only_val eval_children eval_parens
  enclosed p q c u x e f i h l =
      over-open ops priv (no_result ops) none none p (cons q (cons c nil)) e
      ∙ over_value ops priv (no_result ops) (some p) none q (cons c nil) u x f i l
      ∙ last x
    where
      last :
          (x : Option V)
          → after ops priv x (λ v.
            and_eval ops priv
              (merge_results ops (no_result ops) (valued ops priv v))
              (λ m. eval_children ops priv (cons c nil) m (some p) none))
            ≡ value_result ops priv (and_then x (λ v. ops.eval_parenthesis p c v))
      last none = refl
      last (some v) =
          over-close ops priv (valued ops priv v) (some p) none c nil h
          ∙ with_val-value ops priv v (ops.eval_parenthesis p c v)
