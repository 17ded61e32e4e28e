-- ===== src/Tests/Expressions.antt =====
-- Building, parsing and evaluating concrete expressions.
use mathlib.Core.Path.{subst}
use libecoli.Base.{ℕ, ◌+◌, ◌*◌, ◌≡◌, ◌≤◌, ◌⊎◌, arith, refl, codes, Option, none, some, [], ◌∷◌, map}
use libecoli.Strvec.{Strvec}
use libecoli.Parse.{Pnode, pnode, nil, get_strvec}
use libecoli.Node.{Grammar, str, expr, tree, parse_strvec, Parsed}
use libecoli.Expr.{
  set_val_node, add_bin_op, expr_build, is_nil, eval_end, eval_expression, and_eval, eval_node,
  is_val, contains, opens, closes, eval_child, only_val, eval_parens, merge_results, merge_case,
  no_result, with_val, apply_op, apply_bin_op, eval_children, ExprPriv, new_expr, Memory,
  build_expr, EvalOps, Evaluated, done, failed, assert_failed, get_node_type, ExprType, none_type,
  val, bin_op, pre_op, post_op, paren_open, paren_close, expr_eval,
}
use libecoli.Expression.Tree.{Ast, yield, ast_eval, leaves, NoDouble}
use libecoli.Expression.Cover.{strings}
use libecoli.Expression.Built.{IsConfigured, IsMade}
use libecoli.Expression.Answer.{expr_eval-parse_strvec}
use libecoli.Tests.Parsing.{runs, words, node_at}

-- a value, operators, parentheses, and the node of the expression, as ec_node_expr_build leaves it
abbrev before : Memory
before = record {
  node = node_at (
      str (some (codes "1"))
      ∷ str (some (codes "+"))
      ∷ str (some (codes "*"))
      ∷ str (some (codes "!"))
      ∷ str (some (codes "^"))
      ∷ str (some (codes "("))
      ∷ str (some (codes ")"))
      ∷ expr (some 21)
      ∷ []);
  next = 8;
}

abbrev priv : ExprPriv
priv = record new_expr {
  val_node = some 0;
  bin_ops = 2 ∷ 1 ∷ [];
  pre_ops = 3 ∷ [];
  post_ops = 4 ∷ [];
  parens = (5, 6) ∷ [];
}

abbrev calc : Grammar
calc = record { node = (build_expr before 0 priv).1.node; stack = [] }

-- Values are numbers: `!` adds 10, `^` adds 100, and so on.
abbrev ops : EvalOps ℕ
ops = record {
  null = 0;
  eval_var = λ p. some 1;
  eval_pre_op = λ v op. some (v + 10);
  eval_post_op = λ v op. some (v + 100);
  eval_bin_op = λ v op w. some (v * 3 + w);
  eval_parenthesis = λ o c v. some (v + 1000);
}

at_21 : (build_expr before 0 priv).0 ≡ 21
unfolding build_expr
at_21 = refl

abbrev input : Strvec
input = words (map codes ("1" ∷ "+" ∷ "!" ∷ "(" ∷ "1" ∷ "*" ∷ "1" ∷ "^" ∷ ")" ∷ []))

abbrev parsed : Parsed
parsed = parse_strvec calc 60 7 input

-- What it evaluates to.
abbrev evaluated : Parsed → Option (Evaluated ℕ)
evaluated (tree p) = some (expr_eval ops priv p)
evaluated _ = none

value_of : Option (Evaluated ℕ) → ℕ
value_of (some (done r)) = r.val
value_of (some failed) = 7777
value_of (some assert_failed) = 8888
value_of none = 9999

pub calculates : Unit {0}
unfolding runs expr_eval build_expr get_node_type value_of eval_end eval_expression and_eval
    eval_node is_val contains opens closes eval_child only_val eval_parens merge_results merge_case
    no_result with_val apply_op apply_bin_op eval_children
calculates = tt

sum : value_of (evaluated parsed) ≡ 1117
unfolding calculates
sum = refl

-- Two postfix operators on a value, which the grammar allows, fail an assertion.
twice :
    evaluated (parse_strvec calc 60 7 (words (map codes ("1" ∷ "^" ∷ "^" ∷ []))))
    ≡ some assert_failed
unfolding calculates
twice = refl

-- `1 + 1 + 1 + 1` is `1 + ((1 + 1) + 1)`, where `v + w` stands for 3 * v + w.
grouped :
    value_of (
      evaluated
        (parse_strvec calc 60 7 (words (map codes ("1" ∷ "+" ∷ "1" ∷ "+" ∷ "1" ∷ "+" ∷ "1" ∷ [])))))
    ≡ 3 + (3 * (3 + 1) + 1)
unfolding calculates
grouped = refl

abbrev root_of : Parsed → Pnode
root_of (tree p) = p
root_of _ = pnode 0 none nil

configured : IsConfigured calc priv 8 0
unfolding calculates
configured = (
  old,
  (refl, tt),
  ((refl, tt), ((refl, tt), tt)),
  ((refl, tt), tt),
  ((refl, tt), tt),
  ((refl, refl), tt),
)
  where
    old : (n : ℕ) → 8 ≤ n → get_node_type priv n ≡ none_type
    old n lt = ground (arith, lt)

abbrev IsOther : ExprType → Type 0
IsOther post_op = ⊥
IsOther _ = Unit

here : (t u : ExprType) → IsOther t → t ≡ post_op → u ≡ post_op → ⊥
here t u o e h = subst IsOther e o

next : (t u : ExprType) → IsOther u → t ≡ post_op → u ≡ post_op → ⊥
next t u o e h = subst IsOther h o

unfoldable root : Pnode
root = root_of parsed

parsed_root : parse_strvec calc 60 7 input ≡ tree root
unfolding calculates root
parsed_root = refl

is_made : IsMade calc before priv 0
is_made i after = refl

type_7 : get_node_type priv 7 ≡ none_type
unfolding calculates
type_7 = refl

node_7 : calc.node 7 ≡ expr (some (build_expr before 0 priv).0)
unfolding calculates
node_7 = refl

once : NoDouble priv (leaves priv root)
unfolding calculates root
once = (
  here val bin_op tt,
  (
    here bin_op pre_op tt,
    (
      here pre_op paren_open tt,
      (
        here paren_open val tt,
        (
          here val bin_op tt,
          (here bin_op val tt, (here val post_op tt, (next post_op paren_close tt, (tt, tt)))),
        ),
      ),
    ),
  ),
)

expr_eval-parse_strvec_example :
    ((get_strvec root ≡ none) × (expr_eval ops priv root ≡ failed))
    ⊎ ((a : Ast) × (yield a ≡ leaves priv root)
        × (get_strvec root ≡ some (strings (yield a)))
        × (expr_eval ops priv root ≡ only_val ops (ast_eval ops a)))
expr_eval-parse_strvec_example =
    expr_eval-parse_strvec ops before calc priv 0 7 60 input root configured is_made type_7 node_7
      parsed_root once

-- The child of an expression that is given a value node, and then operators, one at a time.
abbrev child_after :
    Option (ExprPriv × Memory)
    → (Memory → ExprPriv → Option (ExprPriv × Memory))
    → Option (ExprPriv × Memory)
child_after none next = none
child_after (some (p, m)) next = next m p

abbrev only_value : Option (ExprPriv × Memory)
only_value = set_val_node before new_expr (some 0)

abbrev child_of : Option (ExprPriv × Memory) → Option ℕ
child_of none = none
child_of (some (p, m)) = p.child

-- without operators, there is no grammar yet
no_child : child_of only_value ≡ none
unfolding set_val_node expr_build build_expr is_nil
no_child = refl

one_operator : child_of (child_after only_value (λ m p. add_bin_op m p (some 1))) ≡ some 17
unfolding set_val_node add_bin_op expr_build build_expr is_nil
one_operator = refl

no_operator : add_bin_op before priv none ≡ none
unfolding add_bin_op
no_operator = refl
