-- ===== src/Graph/Count.antt =====
-- src/node.c: count_references counts the references that the nodes it reaches hold.
use libecoli.Base.{
  ℕ, zero, suc, ◌+◌, ◌%◌, ◌^◌, ◌≤◌, ◌<◌, ◌≡◌, inl, inr, refl, sym, ◌∙◌, if◌then◌else◌, ◌==◌, ==_iff,
  Bool, true, false, Bool-cases, List, [], ◌∷◌, All, arith,
}
use libecoli.Graph.Free.{
  Graph, Marks, eq_state, Walk, walked, then_walk, count_children, count_references,
}
use libecoli.Graph.Sums.{sum-bound, sum-zero}
use libecoli.Graph.Marked.{
  IsClear, Fixes, Fixes-trans, first-Fixes, is_traversed, refs_to, Visited, from, unvisited,
  unvisited-Grows, Counted, Counted-trans, at, again, again-Counted, again_traversed, first,
  first_traversed, first-Grows, total-first, sum-first, first_other,
}

module _ (g : Graph) (limit : ℕ) (R : ℕ → Type 0) (bounded : (n : ℕ) → R n → n < limit)
    (closed : (n : ℕ) → R n → All (λ e. R e.0) (g.children n)) where
  -- With fuel for the nodes that are left, a visit counts.
  abbrev IsVisit : (ℕ → ℕ → Marks → Walk) → ℕ → Type 0
  IsVisit visit fuel =
      (node refs : ℕ) (marks : Marks)
      → R node
      → unvisited g limit R bounded closed marks < fuel
      → (after : Marks) × (visit node refs marks ≡ walked after)
        × Counted g limit R bounded closed marks after (at g limit R bounded closed node refs)
        × (is_traversed after node ≡ true)

  children_lem :
      (visit : ℕ → ℕ → Marks → Walk) (fuel : ℕ)
      → IsVisit visit fuel
      → (cs : List (ℕ × ℕ)) (marks : Marks) → All (λ e. R e.0) cs
      → unvisited g limit R bounded closed marks < fuel
      → (after : Marks) × (count_children visit cs marks ≡ walked after)
        × Counted g limit R bounded closed marks after (refs_to cs)
        × Visited after cs
  unfolding count_children then_walk
  children_lem visit fuel ih [] marks w lt =
      (marks, refl, ((λ m h. h), (λ n. omega arith), (λ m h. inl h), (λ m. inr refl)), tt)
  children_lem visit fuel ih ((c, r) ∷ cs) marks (w, ws) lt =
      let (after, e, counted, t) = ih c r marks w lt in
      let less = unvisited-Grows g limit R bounded closed marks after counted.0 in
      let (last, e', counted', vs) =
        children_lem visit fuel ih cs after ws (omega (arith, lt, less)) in
      (
        last,
        rw e e',
        Counted-trans g limit R bounded closed marks after last _ _ counted counted',
        (counted'.0 c t, vs),
      )

  first-Counted :
      (node refs : ℕ) (marks after : Marks)
      → R node
      → is_traversed marks node ≡ false
      → Counted g limit R bounded closed
          (first g limit R bounded closed marks node refs)
          after
          (refs_to (g.children node))
      → Visited after (g.children node)
      → Counted g limit R bounded closed marks after (at g limit R bounded closed node refs)
        × (is_traversed after node ≡ true)
  first-Counted node refs marks after w t (grows, counts, done, fixes) visited = (
    (
      (λ m h. grows m (first-Grows g limit R bounded closed marks node refs m h)),
      (λ n.
          let sums =
            sum-first g limit R bounded closed marks node refs (λ m. refs_to (g.children m) n)
              (λ m. 0) (bounded node w) t in
          add _ _ _ _ _ _ _ _ (counts n) (total-first g limit R bounded closed marks node refs n t)
            sums),
      (λ m h. elim (done m h) [
        | inr fresh ↦ inr fresh
        | inl old ↦ elim (Bool-cases (m == node)) [
          | inl e ↦ inr (rw ((==_iff m node).0 e) (w, visited))
          | inr e ↦ inl (sym (first_other g limit R bounded closed marks node refs m e) ∙ old)
        ]
      ]),
      Fixes-trans is_traversed marks (first g limit R bounded closed marks node refs) after grows
          (first-Fixes g limit R bounded closed marks node refs) fixes,
    ),
    grows node (first_traversed g limit R bounded closed marks node refs),
  )
    where
      add :
          (ta t1 fa f1 f x y before : ℕ)
          → (ta + f1) % 2 ^ 32 ≡ (t1 + y + fa) % 2 ^ 32
          → t1 ≡ before + x
          → f1 + 0 ≡ f + y
          → (ta + f) % 2 ^ 32 ≡ (before + x + fa) % 2 ^ 32
      add ta t1 fa f1 f x y before h e k = omega (arith, h, e, k)

  count_references-IsVisit : (fuel : ℕ) → IsVisit (count_references g fuel) fuel
  unfolding count_references again first
  count_references-IsVisit zero node refs marks w lt = absurd (omega (arith, lt))
  count_references-IsVisit (suc fuel) node refs marks w lt =
      elim (Bool-cases (is_traversed marks node)) [
        | inl t ↦ (
          again g limit R bounded closed marks node refs,
          rw t refl,
          again-Counted g limit R bounded closed marks node refs t,
          again_traversed g limit R bounded closed marks node refs node ∙ t,
        )
        | inr t ↦
            let sums =
              sum-first g limit R bounded closed marks node refs (λ m. 0) (λ m. 1) (bounded node w)
                t in
            let (after, e, counted, visited) =
              children_lem (count_references g fuel) fuel (count_references-IsVisit fuel)
                (g.children node) (first g limit R bounded closed marks node refs) (closed node w)
                (omega (arith, lt, sums)) in
            let (counted', t') = first-Counted node refs marks after w t counted visited in
            (after, rw t e, counted', t')
      ]

  not_traversed : (marks : Marks) → IsClear marks → (n : ℕ) → is_traversed marks n ≡ false
  unfolding eq_state
  not_traversed marks clear n = rw (clear n) refl

  pub counted :
      (start fuel : ℕ) (marks : Marks)
      → R start
      → IsClear marks
      → limit < fuel
      → (after : Marks) × (count_references g fuel start 1 marks ≡ walked after)
        × (is_traversed after start ≡ true)
        × Fixes is_traversed marks after
        × ((n : ℕ)
            → is_traversed after n ≡ true
            → R n
              × Visited after (g.children n)
              × ((after n).refcnt % 2 ^ 32
                  ≡ ((if start == n then 1 else 0) + from g limit R bounded closed after n)
                    % 2 ^ 32))
  counted start fuel marks w clear lt =
      let few =
        sum-bound limit (λ m. if is_traversed marks m then 0 else 1)
          (λ m. at_most (is_traversed marks m)) in
      let (after, e, (grows, counts, done, fixes), t) =
        count_references-IsVisit fuel start 1 marks w (omega (arith, few, lt)) in
      (
        after,
        e,
        t,
        fixes,
        λ n h. elim (done n h) [
          | inl old ↦ absurd (cc (old, not_traversed marks clear n))
          | inr (r, visited) ↦ (
            r,
            visited,
            settle _ _ _ _ _ _ (counts n) (rw h refl) (rw (not_traversed marks clear n) refl)
                (sum-zero limit _ (λ m. rw (not_traversed marks clear m) refl)),
          )
        ],
      )
    where
      at_most : (b : Bool) → (if b then 0 else 1) ≤ 1
      at_most true = omega arith
      at_most false = omega arith

      settle :
          (tb fa ta x fb r : ℕ)
          → (tb + fa) % 2 ^ 32 ≡ (ta + x + fb) % 2 ^ 32
          → tb ≡ r
          → ta ≡ 0
          → fa ≡ 0
          → r % 2 ^ 32 ≡ (x + fb) % 2 ^ 32
      settle tb fa ta x fb r h e k l = omega (arith, h, e, k, l)

  -- From a node of R with clear marks, where R is a set of nodes below `limit` that holds the
  -- children of its members, fuel above the limit is enough. The node is then marked as traversed, the
  -- nodes so marked are in R, their children are so marked too, and the count of each is, modulo
  -- 2^32, the number of references to it that they hold, and one more for the node itself.
  pub count_references-Counts :
      (start fuel : ℕ) (marks : Marks)
      → R start
      → IsClear marks
      → limit < fuel
      → (after : Marks) × (count_references g fuel start 1 marks ≡ walked after)
        × (is_traversed after start ≡ true)
        × ((n : ℕ)
            → is_traversed after n ≡ true
            → R n
              × Visited after (g.children n)
              × ((after n).refcnt % 2 ^ 32
                  ≡ ((if start == n then 1 else 0) + from g limit R bounded closed after n)
                    % 2 ^ 32))
  count_references-Counts start fuel marks w clear lt =
      let (after, e, t, fixes, counts) = counted start fuel marks w clear lt in
      (after, e, t, counts)
