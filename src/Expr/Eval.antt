-- ===== src/Expr/Eval.antt =====
-- src/node_expr.c: ec_node_expr_eval on a parse tree.
use libecoli.Base.{
  ℕ, if◌then◌else◌, ◌==◌, ◌||◌, Bool, true, false, Option, none, some, List, [], ◌∷◌,
}
use libecoli.Parse.{Pnode, Pnodes, pnode, nil, cons, get_node, get_strvec}
use libecoli.Expr.Build.{ExprPriv}

-- enum expr_node_type
pub data ExprType : Type 0 where
  none_type val bin_op pre_op post_op paren_open paren_close : ExprType

unfoldable pub contains : List ℕ → ℕ → Bool
contains [] check = false
contains (n ∷ ns) check = check == n || contains ns check

unfoldable pub opens : List (ℕ × ℕ) → List ℕ
opens [] = []
opens ((open_paren, close_paren) ∷ parens) = open_paren ∷ opens parens

unfoldable pub closes : List (ℕ × ℕ) → List ℕ
closes [] = []
closes ((open_paren, close_paren) ∷ parens) = close_paren ∷ closes parens

unfoldable pub is_val : Option ℕ → ℕ → Bool
is_val none check = false
is_val (some val_node) check = check == val_node

-- get_node_type
unfoldable pub get_node_type : ExprPriv → ℕ → ExprType
get_node_type priv check =
    if is_val priv.val_node check
    then val
    else if contains priv.bin_ops check
    then bin_op
    else if contains priv.pre_ops check
    then pre_op
    else if contains priv.post_ops check
    then post_op
    else if contains (opens priv.parens) check
    then paren_open
    else if contains (closes priv.parens) check
    then paren_close
    else none_type

-- struct ec_node_expr_eval_ops. A callback returns a pointer, or `none` where it fails; `null` is
-- NULL. What they keep in `userctx` is left out.
pub record EvalOps (V : Type 0) : Type 0 where
  pub null : V
  pub eval_var : Pnode → Option V
  pub eval_pre_op : V → Pnode → Option V
  pub eval_post_op : V → Pnode → Option V
  pub eval_bin_op : V → Pnode → V → Option V
  pub eval_parenthesis : Pnode → Pnode → V → Option V

-- struct result
pub record EvalResult (V : Type 0) : Type 0 where
  pub has_val : Bool
  pub val : V
  pub op : Option Pnode
  pub op_type : ExprType

-- 0 and the result, -1, or a failed assert
pub data Evaluated (V : Type 0) : Type 0 where
  done : EvalResult V → Evaluated V
  failed assert_failed : Evaluated V

module _ {V : Type 0} (ops : EvalOps V) where
  -- the result after a callback that gives its value
  unfoldable pub with_val : EvalResult V → Option V → Evaluated V
  with_val x none = failed
  with_val x (some v) = done (record x { val = v })

  -- the result of a callback alone
  unfoldable pub only_val : Option V → Evaluated V
  only_val none = failed
  only_val (some v) = done (record { has_val = true; val = v; op = none; op_type = none_type })

  -- merge_results: an operator on the left, a value on the right
  unfoldable pub apply_op : EvalResult V → EvalResult V → Pnode → ExprType → Evaluated V
  apply_op x y op pre_op = only_val (ops.eval_pre_op y.val op)
  apply_op x y op bin_op = done (record x { val = y.val; has_val = true })
  apply_op x y op _ = assert_failed

  -- merge_results: a value on the left, a value with an operator on the right
  unfoldable pub apply_bin_op : EvalResult V → EvalResult V → Pnode → ExprType → Evaluated V
  apply_bin_op x y op bin_op = with_val x (ops.eval_bin_op x.val op y.val)
  apply_bin_op x y op _ = assert_failed

  -- merge_results, on `has_val` and `op` of the two
  unfoldable pub merge_case :
      EvalResult V
      → EvalResult V
      → (x_has_val : Bool) → (x_op : Option Pnode) → (y_has_val : Bool) → (y_op : Option Pnode)
      → Evaluated V
  merge_case x y has_val op false none = done x
  merge_case x y false none has_val op = done y
  merge_case x y true x_op true (some op) = apply_bin_op x y op y.op_type
  merge_case x y false (some op) true none = apply_op x y op x.op_type
  merge_case x y true none false (some op) = with_val x (ops.eval_post_op x.val op)
  merge_case x y has_val x_op y_has_val op = assert_failed

  -- merge_results
  unfoldable pub merge_results : EvalResult V → EvalResult V → Evaluated V
  merge_results x y = merge_case x y x.has_val x.op y.has_val y.op

  -- memset of a result
  unfoldable pub no_result : EvalResult V
  no_result = record { has_val = false; val = ops.null; op = none; op_type = none_type }

  -- eval_expression: after the loop
  unfoldable pub eval_parens : EvalResult V → Option Pnode → Option Pnode → Evaluated V
  eval_parens x (some open_paren) (some close_paren) =
      with_val x (ops.eval_parenthesis open_paren close_paren x.val)
  eval_parens x _ _ = done x

  module _ (priv : ExprPriv) where
    -- eval_expression: before the loop
    unfoldable pub eval_node : Pnode → ExprType → Evaluated V
    eval_node parse val = only_val (ops.eval_var parse)
    eval_node parse pre_op = done (record no_result { op = some parse; op_type = pre_op })
    eval_node parse post_op = done (record no_result { op = some parse; op_type = post_op })
    eval_node parse bin_op = done (record no_result { op = some parse; op_type = bin_op })
    eval_node parse _ = done no_result

    unfoldable pub and_eval : Evaluated V → (EvalResult V → Evaluated V) → Evaluated V
    and_eval (done x) next = next x
    and_eval failed next = failed
    and_eval assert_failed next = assert_failed

    -- eval_expression: the body of the loop, where `child_eval` is the recursive call, and `rest` the
    -- rounds that follow
    unfoldable pub eval_child :
        ExprType
        → (rest : EvalResult V → Option Pnode → Option Pnode → Evaluated V)
        → (child_eval : Evaluated V) → EvalResult V
        → (open_paren close_paren : Option Pnode) → (child : Pnode) → Evaluated V
    eval_child paren_open rest child_eval result open_paren close_paren child =
        rest result (some child) close_paren
    eval_child paren_close rest child_eval result open_paren close_paren child =
        rest result open_paren (some child)
    eval_child type rest child_eval result open_paren close_paren child =
        and_eval child_eval (λ child_result.
          and_eval (merge_results result child_result)
            (λ merged. rest merged open_paren close_paren))

    -- eval_expression, and its loop with the parentheses found so far
    unfoldable mutual
      pub eval_expression : Pnode → Evaluated V
      eval_expression (pnode n v children) =
          and_eval (eval_node (pnode n v children) (get_node_type priv n))
            (λ result. eval_children children result none none)

      pub eval_children :
          Pnodes → EvalResult V → (open_paren close_paren : Option Pnode) → Evaluated V
      eval_children nil result open_paren close_paren = eval_parens result open_paren close_paren
      eval_children (cons child cs) result open_paren close_paren =
          eval_child (get_node_type priv (get_node child)) (eval_children cs)
            (eval_expression child) result open_paren close_paren child

  -- What ec_node_expr_eval gives: a value, -1, or a failed assert.
  unfoldable pub eval_end : Evaluated V → Evaluated V
  eval_end (done x) = elim x.has_val [
    | false ↦ assert_failed
    | true ↦ elim x.op [ none ↦ done x | some op ↦ assert_failed ]
  ]
  eval_end e = e

  -- ec_node_expr_eval, with callbacks that are not NULL, of a node of the type expr
  unfoldable pub expr_eval : ExprPriv → Pnode → Evaluated V
  expr_eval priv parse = elim (get_strvec parse) [
    | none ↦ failed
    | some vec ↦ eval_end (eval_expression priv parse)
  ]
