-- ===== src/Tests/Graphs.antt =====
-- Walks over a concrete graph of nodes.
use mathlib.Core.Path.{subst}
use libecoli.Graph.Shared.{node_free-kept}
use libecoli.Base.{
  sym, ◌∙◌, ℕ, zero, suc, ◌+◌, ◌%◌, ◌^◌, ◌<◌, ◌≤◌, ◌≡◌, refl, arith, true, List, [], ◌∷◌, All,
  if◌then◌else◌, ◌==◌,
}
use libecoli.Graph.Free.{
  FreeState, none_state, freeable, Graph, Marks, Walk, walked, aborted, no_stack, eq_state,
  then_walk, count_children, each_child, count_references, mark_freeable, reset_mark, node_free,
  kept, drop_ref,
}
use libecoli.Graph.Marked.{IsClear, is_traversed, Visited, from}
use libecoli.Graph.Count.{count_references-Counts}

abbrev edges : ℕ → List (ℕ × ℕ)
edges zero = (1, 1) ∷ (2, 1) ∷ []
edges (suc zero) = (0, 1) ∷ []
edges (suc (suc zero)) = (0, 1) ∷ []
edges _ = []

abbrev counts : ℕ → ℕ
counts zero = 3
counts (suc zero) = 2
counts _ = 1

-- 0 refers to 1 and 2, which refer to 0; there is another reference to 1
abbrev shared : Graph
shared = record { children = edges; refcnt = counts }

abbrev clear : Marks
clear n = record { state = none_state; refcnt = 0 }

walks : Unit {0}
unfolding count_references mark_freeable reset_mark count_children each_child then_walk eq_state
walks = tt

-- what a walk leaves on the three nodes
data Seen : Type 0 where
  states : List (FreeState × ℕ) → Seen
  assertion deep : Seen

abbrev seen : Walk → Seen
seen (walked marks) = states (
    ((marks 0).state, (marks 0).refcnt)
    ∷ ((marks 1).state, (marks 1).refcnt)
    ∷ ((marks 2).state, (marks 2).refcnt)
    ∷ [])
seen aborted = assertion
seen no_stack = deep

abbrev counted : Walk
counted = count_references shared 4 0 1 clear

abbrev and_mark : ℕ → Graph → Walk → Walk
and_mark fuel g (walked marks) = mark_freeable g fuel 0 freeable marks
and_mark fuel g aborted = aborted
and_mark fuel g no_stack = no_stack

-- The walk does not end: the marks of 0 and 2 change forever.
endless : seen (and_mark 40 shared counted) ≡ deep
unfolding walks
endless = refl

-- With less references to 2 than are counted, the assertion fails.
short :
    seen (and_mark 40 (record shared { refcnt = λ n. if n == 2 then 0 else counts n }) counted)
    ≡ assertion
unfolding walks
short = refl

below : (n : ℕ) → n < 3 → All (λ e. e.0 < 3) (edges n)
below zero lt = (omega arith, (omega arith, tt))
below (suc zero) lt = (omega arith, tt)
below (suc (suc zero)) lt = (omega arith, tt)
below (suc (suc (suc n))) lt = tt

count_references-Counts_example :
    (after : Marks) × (count_references shared 4 0 1 clear ≡ walked after)
    × (is_traversed after 0 ≡ true)
    × ((n : ℕ)
        → is_traversed after n ≡ true
        → (n < 3)
          × Visited after (edges n)
          × ((after n).refcnt % 2 ^ 32
              ≡ ((if 0 == n then 1 else 0) + from shared 3 (λ m. m < 3) (λ m lt. lt) below after n)
                % 2 ^ 32))
count_references-Counts_example =
    count_references-Counts shared 3 (λ n. n < 3) (λ n lt. lt) below 0 4 clear (omega arith)
      (λ n. refl) (omega arith)

-- as before, with one more reference to each node
abbrev more_shared : Graph
more_shared = record { children = edges; refcnt = λ n. counts n + 1 }

abbrev marks_of : Walk → Marks
marks_of (walked marks) = marks
marks_of _ = clear

abbrev counted_1 : Marks
counted_1 = marks_of (count_references more_shared 4 1 1 clear)

is_counted : count_references more_shared 4 1 1 clear ≡ walked counted_1
unfolding walks
is_counted = refl

counts_1 :
    ((counted_1 1).refcnt < 3)
    × ((n : ℕ) → is_traversed counted_1 n ≡ true → (counted_1 n).refcnt ≤ counts n + 1)
unfolding walks
counts_1 = (omega arith, at)
  where
    at : (n : ℕ) → is_traversed counted_1 n ≡ true → (counted_1 n).refcnt ≤ counts n + 1
    at zero h = omega arith
    at (suc zero) h = omega arith
    at (suc (suc zero)) h = omega arith
    at (suc (suc (suc n))) h = grind arith

known :
    (after : Marks)
    → count_references more_shared 4 1 1 clear ≡ walked after
    → ((after 1).refcnt < 3)
      × ((n : ℕ) → is_traversed after n ≡ true → (after n).refcnt ≤ counts n + 1)
known after e =
    subst
      (λ m. ((m 1).refcnt < 3) × ((n : ℕ) → is_traversed m n ≡ true → (m n).refcnt ≤ counts n + 1))
      (same (sym is_counted ∙ e)) counts_1
  where
    same : walked counted_1 ≡ walked after → counted_1 ≡ after
    same k = cc

node_free-kept_example :
    (final : Marks) × (node_free more_shared 4 1 clear ≡ kept (drop_ref more_shared 1) final)
    × IsClear final
node_free-kept_example =
    node_free-kept more_shared 3 (λ n. n < 3) (λ n lt. lt) below 1 4 clear (omega arith) (λ n. refl)
      (omega arith) (omega arith) known
