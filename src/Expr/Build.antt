-- ===== src/Expr/Build.antt =====
-- src/node_expr.c: the grammar that ec_node_expr_build makes of values, operators and parentheses.
use libecoli.Base.{
  ℕ, suc, ◌++◌, if◌then◌else◌, ◌==◌, Bool, true, false, ◌&&◌, Option, none, some, List, [], ◌∷◌,
}
use libecoli.Node.{Node, seq, or, many}

-- The nodes in memory; those from `next` on are not allocated.
pub record Memory : Type 0 where
  pub node : ℕ → Node
  pub next : ℕ

-- ec_node, with the children that are added to the new node
unfoldable pub new : Memory → Node → Memory
new m n = record { node = λ i. if i == m.next then n else m.node i; next = suc m.next }

-- ec_node_seq_add and the like: the node at an address changes
unfoldable pub put : Memory → ℕ → Node → Memory
put m a n = record m { node = λ i. if i == a then n else m.node i }

-- struct ec_node_expr. `none` is NULL.
pub record ExprPriv : Type 0 where
  pub child : Option ℕ
  pub val_node : Option ℕ
  pub bin_ops : List ℕ
  pub pre_ops : List ℕ
  pub post_ops : List ℕ
  pub parens : List (ℕ × ℕ)

-- calloc of the private data
abbrev pub new_expr : ExprPriv
new_expr = record {
  child = none;
  val_node = none;
  bin_ops = [];
  pre_ops = [];
  post_ops = [];
  parens = [];
}

unfoldable pub is_nil : List ℕ → Bool
is_nil [] = true
is_nil (n ∷ ns) = false

-- ec_node_expr_build: the loop on the parentheses, with the sequences made
unfoldable pub build_parens : Memory → ℕ → List (ℕ × ℕ) → List ℕ × Memory
unfolding new
build_parens m ref [] = ([], m)
build_parens m ref ((open_op, close_op) ∷ parens) =
    let (seqs, m') = build_parens (new m (seq (open_op ∷ ref ∷ close_op ∷ []))) ref parens in
    (m.next ∷ seqs, m')

-- ec_node_expr_build: the body of the loop on the binary operators, `next = term (op term)*`
unfoldable pub build_next : Memory → ℕ → ℕ → Memory
unfolding new
build_next m term op =
    let m1 = new m (seq (op ∷ term ∷ [])) in
    let m2 = new m1 (many 0 0 (some m.next)) in new m2 (seq (term ∷ m1.next ∷ []))

-- ec_node_expr_build: the loop on the binary operators
unfoldable pub build_chain : Memory → ℕ → List ℕ → ℕ × Memory
unfolding build_next
build_chain m term [] = (term, m)
build_chain m term (op ∷ ops) = build_chain (build_next m term op) (suc (suc m.next)) ops

-- ec_node_expr_build with a value node: the address of the expression
unfoldable pub build_expr : Memory → ℕ → ExprPriv → ℕ × Memory
unfolding new put build_parens build_chain
build_expr m val priv =
    let ref = m.next in
    let m1 = new m (seq []) in
    let pre_op = m1.next in
    let m2 = new m1 (or priv.pre_ops) in
    let post_op = m2.next in
    let m3 = new m2 (or priv.post_ops) in
    let pre_seq = m3.next in
    let m4 = new m3 (seq (pre_op ∷ ref ∷ [])) in
    let (parens, m5) = build_parens m4 ref priv.parens in
    let post = m5.next in
    let m6 = new m5 (or (val ∷ pre_seq ∷ parens)) in
    let posts = m6.next in
    let m7 = new m6 (many 0 0 (some post_op)) in
    let term = m7.next in
    let m8 = new m7 (seq (post ∷ posts ∷ [])) in
    let (expr, m9) = build_chain m8 term priv.bin_ops in (expr, put m9 ref (seq (expr ∷ [])))

-- ec_node_expr_build; where it fails, the child stays NULL
unfoldable pub expr_build : Memory → ExprPriv → ExprPriv × Memory
unfolding build_expr
expr_build m priv = elim priv.val_node [
  | none ↦ (record priv { child = none }, m)
  | some val ↦
      if is_nil priv.bin_ops && is_nil priv.pre_ops && is_nil priv.post_ops
      then (record priv { child = none }, m)
      else let (expr, m') = build_expr m val priv in (record priv { child = some expr }, m')
]

-- ec_node_expr_set_val_node, on a node of the type expr; `none` is -1, and the result of
-- ec_node_expr_build is not looked at, in these and the next
unfoldable pub set_val_node : Memory → ExprPriv → Option ℕ → Option (ExprPriv × Memory)
set_val_node m priv none = none
set_val_node m priv (some val) = some (expr_build m (record priv { val_node = some val }))

-- ec_node_expr_add_bin_op
unfoldable pub add_bin_op : Memory → ExprPriv → Option ℕ → Option (ExprPriv × Memory)
add_bin_op m priv none = none
add_bin_op m priv (some op) =
    some (expr_build m (record priv { bin_ops = priv.bin_ops ++ (op ∷ []) }))

-- ec_node_expr_add_pre_op
unfoldable pub add_pre_op : Memory → ExprPriv → Option ℕ → Option (ExprPriv × Memory)
add_pre_op m priv none = none
add_pre_op m priv (some op) =
    some (expr_build m (record priv { pre_ops = priv.pre_ops ++ (op ∷ []) }))

-- ec_node_expr_add_post_op
unfoldable pub add_post_op : Memory → ExprPriv → Option ℕ → Option (ExprPriv × Memory)
add_post_op m priv none = none
add_post_op m priv (some op) =
    some (expr_build m (record priv { post_ops = priv.post_ops ++ (op ∷ []) }))

-- ec_node_expr_add_parenthesis
unfoldable pub add_parenthesis :
    Memory → ExprPriv → Option ℕ → Option ℕ → Option (ExprPriv × Memory)
add_parenthesis m priv (some open_op) (some close_op) =
    some (expr_build m (record priv { parens = priv.parens ++ ((open_op, close_op) ∷ []) }))
add_parenthesis m priv _ _ = none
