-- ===== src/Complete/Lists.antt =====
-- The complete methods over lists of nodes or of strings: src/node_seq.c, node_or.c, node_many.c
-- and node_subset.c.
use libecoli.Base.{
  ℕ, zero, suc, ◌+◌, ◌-◌, true, false, if◌then◌else◌, ◌==◌, ◌&&◌, Option, none, some, List, [], ◌∷◌,
  ◌++◌, length,
}
use libecoli.Strvec.{Strvec, ndup}
use libecoli.Parse.{
  matched, nomatch, error, out_of_fuel, Parser, Frame, parse_child, Pnodes, nil, del_last_child,
}
use libecoli.Complete.Items.{Comp}
use libecoli.Complete.Child.{
  Completed, completed, failure, aborted, deeper, Completer, complete_child, and_then,
}

-- what follows a recursive call under a tree node that was parsed: it is removed again
unfoldable pub then_remove : Completed → (Pnodes → Comp → Completed) → Completed
then_remove (completed comp cs) next = next (del_last_child cs) comp
then_remove (failure cs) next = failure (del_last_child cs)
then_remove aborted next = aborted
then_remove deeper next = deeper

-- The body of that loop in __ec_node_seq_complete where `ret` strings matched: the rest of the
-- table is completed if these are the first `i`; `next` goes on.
unfoldable pub seq_match :
    (Pnodes → Comp → Strvec → Completed)
    → Strvec
    → (i ret : ℕ) → Pnodes
    → Comp
    → (Pnodes → Comp → Completed)
    → Completed
unfolding ndup then_remove
seq_match rest vec i ret cs comp next = elim (ret == i) [
  | false ↦ next (del_last_child cs) comp
  | true ↦ elim (ndup vec i (length vec - i)) [
    | none ↦ failure (del_last_child cs)
    | some childvec ↦ then_remove (rest cs comp childvec) next
  ]
]

-- `for (i = 0; i < children; i++) ec_pnode_del_last_child(parse)`
unfoldable pub del_children : ℕ → Pnodes → Pnodes
del_children zero cs = cs
del_children (suc n) cs = del_children n (del_last_child cs)

-- ec_node_many_complete: `goto fail` behind a call of ec_complete_child
unfoldable pub or_remove : ℕ → Completed → (Pnodes → Comp → Completed) → Completed
unfolding del_children
or_remove children (completed comp cs) next = next cs comp
or_remove children (failure cs) next = failure (del_children children cs)
or_remove children aborted next = aborted
or_remove children deeper next = deeper

module _ (parse : Parser) (complete : Completer) (path : List Frame) (self : ℕ) where
  -- The loop of __ec_node_seq_complete: `rest` is the recursive call on the rest of the table,
  -- `i` the length to be matched by `n`, and the number first the rounds that are left.
  unfoldable pub seq_split :
      (Pnodes → Comp → Strvec → Completed) → ℕ → Strvec → ℕ → ℕ → Pnodes → Comp → Completed
  unfolding parse_child ndup seq_match
  seq_split rest n vec zero i cs comp = completed comp cs
  seq_split rest n vec (suc left) i cs comp = elim (ndup vec 0 i) [
    | none ↦ failure cs
    | some childvec ↦ elim (parse_child parse path self cs n childvec) [
      | error ↦ failure cs
      | out_of_fuel ↦ deeper
      | nomatch cs' ↦ seq_split rest n vec left (suc i) cs' comp
      | matched ret cs' ↦ seq_match rest vec i ret cs' comp (seq_split rest n vec left (suc i))
    ]
  ]

  -- __ec_node_seq_complete
  unfoldable pub seq_complete : List ℕ → Pnodes → Comp → Strvec → Completed
  unfolding seq_split complete_child and_then
  seq_complete [] cs comp vec = completed comp cs
  seq_complete (n ∷ table) cs comp vec =
      and_then (complete_child complete path self cs comp n vec)
        (seq_split (seq_complete table) n vec (length vec) 0)

  -- ec_node_or_complete; also the first loop of __ec_node_subset_complete
  unfoldable pub or_complete : List ℕ → Pnodes → Comp → Strvec → Completed
  unfolding complete_child and_then
  or_complete [] cs comp vec = completed comp cs
  or_complete (n ∷ table) cs comp vec =
      and_then (complete_child complete path self cs comp n vec)
        (λ cs' comp'. or_complete table cs' comp' vec)

  -- The loop of ec_node_many_complete, on fuel for its rounds, and the label `end`.
  unfoldable pub many_rounds : ℕ → ℕ → ℕ → ℕ → Strvec → Pnodes → Comp → Completed
  unfolding complete_child parse_child ndup or_remove
  many_rounds max child zero children childvec cs comp = deeper
  many_rounds max child (suc rounds) children childvec cs comp =
      or_remove children (complete_child complete path self cs comp child childvec) (λ cs' comp'.
        elim (suc children == max) [
          | true ↦ completed comp' (del_children children cs')
          | false ↦ elim (parse_child parse path self cs' child childvec) [
            | error ↦ failure (del_children children cs')
            | out_of_fuel ↦ deeper
            | nomatch cs'' ↦ completed comp' (del_children children cs'')
            | matched ret cs'' ↦ elim (max == 0 && ret == 0) [
              | true ↦ completed comp' (del_children (suc children) cs'')
              | false ↦ elim (ndup childvec ret (length childvec - ret)) [
                | none ↦ failure (del_children (suc children) cs'')
                | some tmpvec ↦ many_rounds max child rounds (suc children) tmpvec cs'' comp'
              ]
            ]
          ]
        ])

  -- ec_node_many_complete, with rounds enough: each consumes a string, or `max` bounds them
  unfoldable pub many_complete : ℕ → Option ℕ → Comp → Strvec → Completed
  unfolding many_rounds
  many_complete max none comp vec = failure nil
  many_complete max (some child) comp vec =
      many_rounds max child (if max == 0 then length vec + 1 else max + 1) 0 vec nil comp

  -- The second loop of __ec_node_subset_complete: `before` are the entries tried, `search` the
  -- recursive call on the table without the present entry.
  unfoldable pub subset_split :
      (List ℕ → Pnodes → Comp → Strvec → Completed)
      → Strvec
      → (before rest : List ℕ) → Pnodes
      → Comp
      → Completed
  unfolding parse_child ndup
  subset_split search vec before [] cs comp = completed comp cs
  subset_split search vec before (n ∷ rest) cs comp = elim (parse_child parse path self cs n vec) [
    | error ↦ failure cs
    | out_of_fuel ↦ deeper
    | nomatch cs' ↦ subset_split search vec (before ++ (n ∷ [])) rest cs' comp
    | matched len cs' ↦ elim (ndup vec len (length vec - len)) [
      | none ↦ failure (del_last_child cs')
      | some childvec ↦
          then_remove (search (before ++ rest) cs' comp childvec)
            (λ cs'' comp'. subset_split search vec (before ++ (n ∷ [])) rest cs'' comp')
    ]
  ]

  -- __ec_node_subset_complete on the entries that are not NULL, of the number given first
  unfoldable pub subset_complete : ℕ → List ℕ → Pnodes → Comp → Strvec → Completed
  unfolding or_complete subset_split and_then
  subset_complete zero table cs comp vec = completed comp cs
  subset_complete (suc entries) table cs comp vec =
      and_then (or_complete table cs comp vec) (subset_split (subset_complete entries) vec [] table)
