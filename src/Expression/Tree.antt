-- ===== src/Expression/Tree.antt =====
-- src/node_expr.c: what a tree of an expression says, and which nodes of a grammar stand for what.
use mathlib.Core.List.{Mem}
use libecoli.Base.{ℕ, ◌≡◌, Option, none, some, List, [], ◌∷◌, ◌++◌}
use libecoli.Parse.{Pnode, Pnodes, pnode, nil, cons, get_node}
use libecoli.Node.{Node, Grammar, str, any, empty, space, re, ext, seq, or, many, expr}
use libecoli.Expr.{
  ExprPriv, ExprType, none_type, val, bin_op, pre_op, post_op, paren_open, paren_close,
  get_node_type, EvalOps,
}

-- An expression: the tree nodes of its values and operators, and how they group.
pub data Ast : Type 0 where
  var : Pnode → Ast
  pre : Pnode → Ast → Ast
  post : Ast → Pnode → Ast
  bin : Ast → Pnode → Ast → Ast
  paren : Pnode → Ast → Pnode → Ast

-- Its values and operators from left to right.
abbrev pub yield : Ast → List Pnode
yield (var p) = p ∷ []
yield (pre op a) = op ∷ yield a
yield (post a op) = yield a ++ (op ∷ [])
yield (bin a op b) = yield a ++ (op ∷ yield b)
yield (paren o a c) = o ∷ (yield a ++ (c ∷ []))

abbrev pub and_then : {A B : Type 0} → Option A → (A → Option B) → Option B
and_then none f = none
and_then (some a) f = f a

-- Its value, where every callback succeeds.
abbrev pub ast_eval : {V : Type 0} → EvalOps V → Ast → Option V
ast_eval ops (var p) = ops.eval_var p
ast_eval ops (pre op a) = and_then (ast_eval ops a) (λ v. ops.eval_pre_op v op)
ast_eval ops (post a op) = and_then (ast_eval ops a) (λ v. ops.eval_post_op v op)
ast_eval ops (bin a op b) =
    and_then (ast_eval ops a) (λ v. and_then (ast_eval ops b) (λ w. ops.eval_bin_op v op w))
ast_eval ops (paren o a c) = and_then (ast_eval ops a) (λ v. ops.eval_parenthesis o c v)

module _ (priv : ExprPriv) where
  abbrev pub type_of : Pnode → ExprType
  type_of p = get_node_type priv (get_node p)

  -- A tree node of the type none stands for what is below it.
  abbrev pub leaves_of : ExprType → Pnode → List Pnode → List Pnode
  leaves_of none_type p below = below
  leaves_of _ p below = p ∷ []

  -- The tree nodes of values, operators and parentheses, from left to right.
  abbrev mutual
    pub leaves : Pnode → List Pnode
    leaves (pnode n v kids) = leaves_of (get_node_type priv n) (pnode n v kids) (leaves_all kids)

    pub leaves_all : Pnodes → List Pnode
    leaves_all nil = []
    leaves_all (cons p ps) = leaves p ++ leaves_all ps

  -- No postfix operator directly follows another.
  abbrev pub Follows : Pnode → List Pnode → Type 0
  Follows p [] = Unit
  Follows p (q ∷ qs) = type_of p ≡ post_op → type_of q ≡ post_op → ⊥

  abbrev pub NoDouble : List Pnode → Type 0
  NoDouble [] = Unit
  NoDouble (p ∷ ps) = Follows p ps × NoDouble ps

-- The types of nodes whose tree nodes have no children.
abbrev pub IsTerminal : Node → Type 0
IsTerminal (str s) = Unit
IsTerminal (any a) = Unit
IsTerminal empty = Unit
IsTerminal space = Unit
IsTerminal (re r) = Unit
IsTerminal (ext m) = Unit
IsTerminal _ = ⊥

-- What the nodes of an expression grammar stand for: a value, an operator, a postfix operator or
-- none, and a binary operator with its right operand, once or any number of times.
pub data Role : Type 0 where
  value pre_role post_role posts tail tails : Role

-- `ref` is the node that stands for the whole expression in its parts.
pub data Has (g : Grammar) (priv : ExprPriv) (ref : ℕ) : Role → ℕ → Type 0 where
  at_ref : Has g priv ref value ref
  at_var : (n : ℕ) → get_node_type priv n ≡ val → IsTerminal (g.node n) → Has g priv ref value n
  at_or :
      (n : ℕ) (table : List ℕ)
      → get_node_type priv n ≡ none_type
      → g.node n ≡ or table
      → ((c : ℕ) → Mem c table → Has g priv ref value c)
      → Has g priv ref value n
  at_pre_op :
      (n : ℕ) (table : List ℕ)
      → get_node_type priv n ≡ none_type
      → g.node n ≡ or table
      → ((op : ℕ) → Mem op table → (get_node_type priv op ≡ pre_op) × IsTerminal (g.node op))
      → Has g priv ref pre_role n
  at_pre :
      (n op arg : ℕ)
      → get_node_type priv n ≡ none_type
      → g.node n ≡ seq (op ∷ arg ∷ [])
      → Has g priv ref pre_role op
      → Has g priv ref value arg
      → Has g priv ref value n
  at_paren :
      (n o arg c : ℕ)
      → get_node_type priv n ≡ none_type
      → g.node n ≡ seq (o ∷ arg ∷ c ∷ [])
      → get_node_type priv o ≡ paren_open
      → get_node_type priv c ≡ paren_close
      → Has g priv ref value arg
      → Has g priv ref value n
  at_post_op :
      (n : ℕ) (table : List ℕ)
      → get_node_type priv n ≡ none_type
      → g.node n ≡ or table
      → ((op : ℕ) → Mem op table → (get_node_type priv op ≡ post_op) × IsTerminal (g.node op))
      → Has g priv ref post_role n
  at_posts :
      (n op : ℕ)
      → get_node_type priv n ≡ none_type
      → g.node n ≡ many 0 0 (some op)
      → Has g priv ref post_role op
      → Has g priv ref posts n
  at_term :
      (n arg ops : ℕ)
      → get_node_type priv n ≡ none_type
      → g.node n ≡ seq (arg ∷ ops ∷ [])
      → Has g priv ref value arg
      → Has g priv ref posts ops
      → Has g priv ref value n
  at_tail :
      (n op arg : ℕ)
      → get_node_type priv n ≡ none_type
      → g.node n ≡ seq (op ∷ arg ∷ [])
      → get_node_type priv op ≡ bin_op
      → IsTerminal (g.node op)
      → Has g priv ref value arg
      → Has g priv ref tail n
  at_tails :
      (n arg : ℕ)
      → get_node_type priv n ≡ none_type
      → g.node n ≡ many 0 0 (some arg)
      → Has g priv ref tail arg
      → Has g priv ref tails n
  at_next :
      (n arg rest : ℕ)
      → get_node_type priv n ≡ none_type
      → g.node n ≡ seq (arg ∷ rest ∷ [])
      → Has g priv ref value arg
      → Has g priv ref tails rest
      → Has g priv ref value n
  at_expr :
      (n arg : ℕ)
      → get_node_type priv n ≡ none_type
      → g.node n ≡ expr (some arg)
      → Has g priv ref value arg
      → Has g priv ref value n
