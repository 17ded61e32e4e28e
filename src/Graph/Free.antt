-- ===== src/Graph/Free.antt =====
-- src/node.c: the marks on nodes, and the walks that count, mark and reset.
use libecoli.Base.{
  ℕ, zero, suc, ◌+◌, ◌%◌, ◌^◌, if◌then◌else◌, ◌==◌, ltb, Bool, true, false, ◌&&◌, not, ◌-◌, List,
  [], ◌∷◌,
}

-- enum ec_node_free_state
pub data FreeState : Type 0 where
  none_state traversed freeable not_freeable freeing : FreeState

-- struct ec_node: `free`
pub record Mark : Type 0 where
  pub state : FreeState
  pub refcnt : ℕ

-- What ec_node_get_children_count and __ec_node_get_child give: each child with the number of its
-- references that the node holds.
pub record Graph : Type 0 where
  pub children : ℕ → List (ℕ × ℕ)
  pub refcnt : ℕ → ℕ

abbrev pub Marks : Type 0
Marks = ℕ → Mark

abbrev pub set_mark : Marks → ℕ → Mark → Marks
set_mark marks node mark = λ i. if i == node then mark else marks i

unfoldable pub eq_state : FreeState → FreeState → Bool
eq_state none_state none_state = true
eq_state traversed traversed = true
eq_state freeable freeable = true
eq_state not_freeable not_freeable = true
eq_state freeing freeing = true
eq_state _ _ = false

-- A walk returns, aborts in an assertion, or the stack is not deep enough for it.
pub data Walk : Type 0 where
  walked : Marks → Walk
  aborted : Walk
  no_stack : Walk

unfoldable pub then_walk : Walk → (Marks → Walk) → Walk
then_walk (walked marks) next = next marks
then_walk aborted next = aborted
then_walk no_stack next = no_stack

-- count_references: the loop, where `visit` is the recursive call
unfoldable pub count_children : (ℕ → ℕ → Marks → Walk) → List (ℕ × ℕ) → Marks → Walk
count_children visit [] marks = walked marks
count_children visit ((child, refs) ∷ cs) marks =
    then_walk (visit child refs marks) (λ marks'. count_children visit cs marks')

-- The loops of mark_freeable and reset_mark, which do not use the numbers of references.
unfoldable pub each_child : (ℕ → Marks → Walk) → List (ℕ × ℕ) → Marks → Walk
each_child visit [] marks = walked marks
each_child visit ((child, refs) ∷ cs) marks =
    then_walk (visit child marks) (λ marks'. each_child visit cs marks')

module _ (g : Graph) where
  -- count_references, whose counts are unsigned int
  unfoldable pub count_references : ℕ → ℕ → ℕ → Marks → Walk
  unfolding count_children
  count_references zero node refs marks = no_stack
  count_references (suc fuel) node refs marks =
      if eq_state (marks node).state traversed
      then walked (
          set_mark marks node
            (record (marks node) { refcnt = ((marks node).refcnt + refs) % 2 ^ 32 }))
      else count_children (count_references fuel) (g.children node)
          (set_mark marks node (record { state = traversed; refcnt = refs }))

  -- mark_freeable, with its assertion that a node has the references that were counted
  unfoldable pub mark_freeable : ℕ → ℕ → FreeState → Marks → Walk
  unfolding each_child
  mark_freeable zero node mark marks = no_stack
  mark_freeable (suc fuel) node mark marks =
      if eq_state mark (marks node).state
      then walked marks
      else let mark' = if ltb (marks node).refcnt (g.refcnt node) then not_freeable else mark in
        let children =
          each_child (λ child marks'. mark_freeable fuel child mark' marks') (g.children node)
            (set_mark marks node (record (marks node) { state = mark' })) in
        if ltb (g.refcnt node) (marks node).refcnt then aborted else children

  unfoldable pub reset_mark : ℕ → ℕ → Marks → Walk
  unfolding each_child
  reset_mark zero node marks = no_stack
  reset_mark (suc fuel) node marks =
      if eq_state none_state (marks node).state
      then walked marks
      else each_child (reset_mark fuel) (g.children node)
          (set_mark marks node (record { state = none_state; refcnt = 0 }))

  -- What ec_node_free does before any node is freed: the node is kept with its new number of references,
  -- or it is freed next, or a walk does not return.
  pub data Released : Type 0 where
    kept : (ℕ → ℕ) → Marks → Released
    to_free : Marks → Released
    assert_failed too_deep : Released

  unfoldable pub drop_ref : ℕ → ℕ → ℕ
  drop_ref node i = if i == node then g.refcnt i - 1 else g.refcnt i

  unfoldable pub keep : ℕ → Walk → Released
  keep node (walked marks) = kept (drop_ref node) marks
  keep node aborted = assert_failed
  keep node no_stack = too_deep

  -- ec_node_free: on the mark of the node
  unfoldable pub decide : ℕ → ℕ → Walk → Released
  decide fuel node (walked marks) =
      if eq_state not_freeable (marks node).state
      then keep node (reset_mark fuel node marks)
      else to_free marks
  decide fuel node aborted = assert_failed
  decide fuel node no_stack = too_deep

  -- ec_node_free of a node that is not NULL, where `refcnt` is above 0
  unfoldable pub node_free : ℕ → ℕ → Marks → Released
  node_free fuel node marks = decide fuel node (
      if eq_state none_state (marks node).state && not (g.refcnt node == 1)
      then then_walk (count_references fuel node 1 marks)
          (λ marks'. mark_freeable fuel node freeable marks')
      else walked marks)
