-- ===== src/Expression/Answer.antt =====
-- src/node_expr.c: from the nodes that are configured to the value of what is parsed.
use mathlib.Core.Path.{subst}
use libecoli.Base.{arith, ℕ, ◌≡◌, ◌⊎◌, inl, inr, refl, sym, ◌∙◌, ap, Option, none, some}
use libecoli.Strvec.{Strvec}
use libecoli.Parse.{Pnode, pnode, get_strvec}
use libecoli.Node.{Grammar, expr, parse_strvec, tree}
use libecoli.Sound.{parse_strvec-IsAnswer}
use libecoli.Expr.{
  ExprPriv, none_type, get_node_type, EvalOps, failed, only_val, eval_end, expr_eval,
  eval_expression, Memory, build_expr,
}
use libecoli.Expression.Tree.{Ast, yield, ast_eval, leaves, NoDouble, value, Has, at_expr}
use libecoli.Expression.Merge.{value_result}
use libecoli.Expression.Sound.{tree-Means}
use libecoli.Expression.Cover.{own, strings, leaves-strings}
use libecoli.Expression.Built.{IsConfigured, IsMade, build_expr-Has}

module _ {V : Type 0} (ops : EvalOps V) where
  expr_eval-value :
      (priv : ExprPriv) (p : Pnode) (vec : Strvec) (x : Option V)
      → get_strvec p ≡ some vec
      → eval_expression ops priv p ≡ value_result ops priv x
      → expr_eval ops priv p ≡ value_result ops priv x
  unfolding expr_eval eval_end only_val
  expr_eval-value priv p vec none e h = rw (expr_eval, e, h) refl
  expr_eval-value priv p vec (some v) e h = rw (expr_eval, e, h) refl

  expr_eval_none :
      (priv : ExprPriv) (p : Pnode) → get_strvec p ≡ none → expr_eval ops priv p ≡ failed
  unfolding expr_eval
  expr_eval_none priv p e = rw (expr_eval, e) refl

  strvec-own : (p : Pnode) (vec : Strvec) → get_strvec p ≡ some vec → get_strvec p ≡ some (own p)
  strvec-own (pnode n none kids) vec e = absurd (cc)
  strvec-own (pnode n (some v) kids) vec e = refl

  -- `top` is a node whose child is what ec_node_expr_build makes of a value node, operators and
  -- parentheses of one role each, which are terminals but for the parentheses. A tree that
  -- ec_parse_strvec returns for `top`, without a postfix operator directly behind another, is
  -- without match, and then ec_node_expr_eval fails; or there is an expression whose values and
  -- operators, from left to right, are those of the tree and hold all of the strings that it
  -- consumed, and ec_node_expr_eval gives its value, or fails where one of its callbacks fails.
  pub expr_eval-parse_strvec :
      (m : Memory) (g : Grammar) (priv : ExprPriv) (value_node top fuel : ℕ) (vec : Strvec)
      (p : Pnode)
      → IsConfigured g priv m.next value_node
      → IsMade g m priv value_node
      → get_node_type priv top ≡ none_type
      → g.node top ≡ expr (some (build_expr m value_node priv).0)
      → parse_strvec g fuel top vec ≡ tree p
      → NoDouble priv (leaves priv p)
      → ((get_strvec p ≡ none) × (expr_eval ops priv p ≡ failed))
        ⊎ ((a : Ast) × (yield a ≡ leaves priv p)
            × (get_strvec p ≡ some (strings (yield a)))
            × (expr_eval ops priv p ≡ only_val ops (ast_eval ops a)))
  expr_eval-parse_strvec m g priv value_node top fuel vec p configured made type is_expr parsed
        once =
      let (same, answer) = parse_strvec-IsAnswer g fuel top vec p parsed in
      elim answer [
        | inl e ↦ inl (e, expr_eval_none priv p e)
        | inr (ret, within, e, valid) ↦
            let (ref_seq, has) = build_expr-Has m g priv value_node configured made in
            let top_has : Has g priv m.next value top = at_expr top _ type is_expr has in
            let p_has = subst (Has g priv m.next value) (sym same) top_has in
            let ref_type = configured.0 m.next (omega arith) in
            let (a, yields, evals) =
              tree-Means ops g priv m.next _ ref_type ref_seq has p value p_has valid once in
            let covered =
              leaves-strings g priv m.next _ ref_type ref_seq has p (inr (value, p_has)) valid in
            inr (
              a,
              yields,
              strvec-own p _ e ∙ ap (λ s. some s) (sym covered ∙ ap strings (sym yields)),
              expr_eval-value priv p _ (ast_eval ops a) e evals,
            )
      ]
