-- ===== src/Expression/Merge.antt =====
-- src/node_expr.c: what eval_expression computes on the children of each kind of node.
use libecoli.Base.{ℕ, ◌≡◌, refl, ◌∙◌, true, false, Option, none, some}
use libecoli.Parse.{Pnode, Pnodes, pnode, nil, cons, get_node}
use libecoli.Expr.{
  ExprPriv, ExprType, none_type, val, bin_op, pre_op, post_op, paren_open, paren_close,
  get_node_type, EvalOps, EvalResult, Evaluated, done, failed, assert_failed, with_val, only_val,
  merge_case, merge_results, no_result, eval_parens, eval_node, and_eval, eval_expression,
  eval_children, eval_child,
}

-- a type that the loop evaluates, unlike parentheses
abbrev pub IsPlain : ExprType → Type 0
IsPlain paren_open = ⊥
IsPlain paren_close = ⊥
IsPlain _ = Unit

module _ {V : Type 0} (ops : EvalOps V) (priv : ExprPriv) where
  -- The results of a value, an operator, and a binary operator with its right operand.
  abbrev pub value_result : Option V → Evaluated V
  value_result x = only_val ops x

  abbrev pub op_result : Pnode → ExprType → Evaluated V
  op_result p t = done (record { has_val = false; val = ops.null; op = some p; op_type = t })

  abbrev pub tail_result : Pnode → Option V → Evaluated V
  tail_result op none = failed
  tail_result op (some v) =
      done (record { has_val = true; val = v; op = some op; op_type = bin_op })

  abbrev pub over : EvalResult V → Pnodes → Evaluated V
  over x cs = eval_children ops priv cs x none none

  pub eval-node :
      (n : ℕ) (v : _) (kids : Pnodes)
      → get_node_type priv n ≡ none_type
      → eval_expression ops priv (pnode n v kids) ≡ over (no_result ops) kids
  unfolding eval_expression eval_node and_eval
  eval-node n v kids e = rw e refl

  pub eval-op :
      (n : ℕ) (v : _) (t : ExprType)
      → get_node_type priv n ≡ t
      → eval_expression ops priv (pnode n v nil)
        ≡ and_eval ops priv (eval_node ops priv (pnode n v nil) t) (λ x. done x)
  unfolding eval_expression eval_children eval_parens
  eval-op n v t e = rw e refl

  -- the loop's round on a child that is no parenthesis
  pub over-cons :
      (x : EvalResult V) (a b : Option Pnode) (p : Pnode) (ps : Pnodes) (t : ExprType)
      → get_node_type priv (get_node p) ≡ t
      → IsPlain t
      → eval_children ops priv (cons p ps) x a b
        ≡ and_eval ops priv
            (eval_expression ops priv p)
            (λ y. and_eval ops priv (merge_results ops x y) (λ z. eval_children ops priv ps z a b))
  unfolding eval_children eval_child
  over-cons x a b p ps none_type e h = rw e refl
  over-cons x a b p ps val e h = rw e refl
  over-cons x a b p ps bin_op e h = rw e refl
  over-cons x a b p ps pre_op e h = rw e refl
  over-cons x a b p ps post_op e h = rw e refl
  over-cons x a b p ps paren_open e h = absurd h
  over-cons x a b p ps paren_close e h = absurd h

  pub over-open :
      (x : EvalResult V) (a b : Option Pnode) (p : Pnode) (ps : Pnodes)
      → get_node_type priv (get_node p) ≡ paren_open
      → eval_children ops priv (cons p ps) x a b ≡ eval_children ops priv ps x (some p) b
  unfolding eval_children eval_child
  over-open x a b p ps e = rw e refl

  pub over-close :
      (x : EvalResult V) (a b : Option Pnode) (p : Pnode) (ps : Pnodes)
      → get_node_type priv (get_node p) ≡ paren_close
      → eval_children ops priv (cons p ps) x a b ≡ eval_children ops priv ps x a (some p)
  unfolding eval_children eval_child
  over-close x a b p ps e = rw e refl

  pub with_val-value :
      (v : V) (x : Option V)
      → with_val ops (record { has_val = true; val = v; op = none; op_type = none_type }) x
        ≡ value_result x
  unfolding with_val only_val
  with_val-value v none = refl
  with_val-value v (some w) = refl

  with_val-tail :
      (v : V) (o : Pnode) (x : Option V)
      → with_val ops (record { has_val = true; val = v; op = some o; op_type = bin_op }) x
        ≡ tail_result o x
  unfolding with_val
  with_val-tail v o none = refl
  with_val-tail v o (some w) = refl

  -- Children whose values are known: the first child is taken as it is.
  first_value :
      (x : Option V) (f : EvalResult V → Evaluated V)
      → and_eval ops priv
          (value_result x)
          (λ y. and_eval ops priv (merge_results ops (no_result ops) y) f)
        ≡ and_eval ops priv (value_result x) f
  unfolding and_eval merge_results merge_case no_result only_val
  first_value none f = refl
  first_value (some v) f = refl

  pub and_done :
      (e : Evaluated V) → and_eval ops priv e (λ z. eval_children ops priv nil z none none) ≡ e
  unfolding and_eval eval_children eval_parens
  and_done (done x) = refl
  and_done failed = refl
  and_done assert_failed = refl

  -- One value.
  pub alone :
      (p : Pnode) (t : ExprType) (x : Option V)
      → get_node_type priv (get_node p) ≡ t
      → IsPlain t
      → eval_expression ops priv p ≡ value_result x
      → over (no_result ops) (cons p nil) ≡ value_result x
  alone p t x e h k =
      over-cons _ none none p nil t e h ∙ rw k (first_value x _ ∙ and_done (value_result x))

  -- One operator.
  pub alone_op :
      (p o : Pnode) (t u : ExprType)
      → get_node_type priv (get_node p) ≡ t
      → IsPlain t
      → eval_expression ops priv p ≡ op_result o u
      → over (no_result ops) (cons p nil) ≡ op_result o u
  unfolding and_eval merge_results merge_case no_result eval_children eval_parens
  alone_op p o t u e h k = over-cons _ none none p nil t e h ∙ rw k refl

  abbrev pub valued : V → EvalResult V
  valued v = record { has_val = true; val = v; op = none; op_type = none_type }

  abbrev pub with_op : Pnode → ExprType → EvalResult V
  with_op o t = record { has_val = false; val = ops.null; op = some o; op_type = t }

  abbrev pub with_tail : V → Pnode → EvalResult V
  with_tail v o = record { has_val = true; val = v; op = some o; op_type = bin_op }

  abbrev pub after : Option V → (V → Evaluated V) → Evaluated V
  after none f = failed
  after (some v) f = f v

  -- The round on a child whose result is known.
  pub over_value :
      (r : EvalResult V) (a b : Option Pnode) (q : Pnode) (qs : Pnodes) (u : ExprType)
      (x : Option V)
      → get_node_type priv (get_node q) ≡ u
      → IsPlain u
      → eval_expression ops priv q ≡ value_result x
      → eval_children ops priv (cons q qs) r a b
        ≡ after x (λ v.
          and_eval ops priv (merge_results ops r (valued v)) (λ m. eval_children ops priv qs m a b))
  unfolding and_eval only_val
  over_value r a b q qs u none e h k = over-cons r a b q qs u e h ∙ rw k refl
  over_value r a b q qs u (some v) e h k = over-cons r a b q qs u e h ∙ rw k refl

  pub over_tail :
      (r : EvalResult V) (q : Pnode) (qs : Pnodes) (o : Pnode) (u : ExprType) (x : Option V)
      → get_node_type priv (get_node q) ≡ u
      → IsPlain u
      → eval_expression ops priv q ≡ tail_result o x
      → over r (cons q qs)
        ≡ after x (λ v. and_eval ops priv (merge_results ops r (with_tail v o)) (λ m. over m qs))
  unfolding and_eval
  over_tail r q qs o u none e h k = over-cons r none none q qs u e h ∙ rw k refl
  over_tail r q qs o u (some v) e h k = over-cons r none none q qs u e h ∙ rw k refl

  pub over_op :
      (r : EvalResult V) (q : Pnode) (qs : Pnodes) (o : Pnode) (u t : ExprType)
      → get_node_type priv (get_node q) ≡ u
      → IsPlain u
      → eval_expression ops priv q ≡ op_result o t
      → over r (cons q qs) ≡ and_eval ops priv (merge_results ops r (with_op o t)) (λ m. over m qs)
  unfolding and_eval
  over_op r q qs o u t e h k = over-cons r none none q qs u e h ∙ rw k refl

  pub over_none :
      (r : EvalResult V) (q : Pnode) (qs : Pnodes) (u : ExprType)
      → get_node_type priv (get_node q) ≡ u
      → IsPlain u
      → eval_expression ops priv q ≡ done (no_result ops)
      → over r (cons q qs) ≡ over r qs
  unfolding and_eval merge_results merge_case no_result
  over_none r q qs u e h k = over-cons r none none q qs u e h ∙ rw k refl
