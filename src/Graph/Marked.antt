-- ===== src/Graph/Marked.antt =====
-- src/node.c: what one step of count_references adds to the counts.
use libecoli.Base.{
  ℕ, ◌+◌, ◌%◌, ◌^◌, ◌≤◌, ◌<◌, ◌≡◌, ◌⊎◌, inl, inr, refl, sym, ◌∙◌, ap, if◌then◌else◌, ◌==◌, ==_iff,
  ==_self, Bool, true, false, Bool-cases, List, [], ◌∷◌, All, arith,
}
use libecoli.Graph.Free.{none_state, traversed, Mark, Graph, Marks, set_mark, eq_state}
use libecoli.Graph.Sums.{sum, sum-change, sum-same, sum-le}

abbrev pub is_traversed : Marks → ℕ → Bool
is_traversed marks n = eq_state (marks n).state traversed

-- no mark is set
abbrev pub IsClear : Marks → Type 0
IsClear marks = (n : ℕ) → (marks n).state ≡ none_state

-- The count of a node that was traversed.
abbrev pub total : Marks → ℕ → ℕ
total marks n = if is_traversed marks n then (marks n).refcnt else 0

-- The references to a node among children.
abbrev pub refs_to : List (ℕ × ℕ) → ℕ → ℕ
refs_to [] n = 0
refs_to ((child, refs) ∷ cs) n = (if child == n then refs else 0) + refs_to cs n

abbrev pub Visited : Marks → List (ℕ × ℕ) → Type 0
Visited marks cs = All (λ e. is_traversed marks e.0 ≡ true) cs

abbrev pub Grows : Marks → Marks → Type 0
Grows a b = (m : ℕ) → is_traversed a m ≡ true → is_traversed b m ≡ true

pub Visited-Grows : (a b : Marks) (cs : List (ℕ × ℕ)) → Grows a b → Visited a cs → Visited b cs
Visited-Grows a b [] h v = tt
Visited-Grows a b ((c, r) ∷ cs) h (v, vs) = (h c v, Visited-Grows a b cs h vs)

-- A node that is not marked, as `test` has it, is as before.
abbrev pub Fixes : (Marks → ℕ → Bool) → Marks → Marks → Type 0
Fixes test a b = (m : ℕ) → (test b m ≡ true) ⊎ (b m ≡ a m)

pub Fixes-trans :
    (test : Marks → ℕ → Bool) (a b c : Marks)
    → ((m : ℕ) → test b m ≡ true → test c m ≡ true)
    → Fixes test a b
    → Fixes test b c
    → Fixes test a c
Fixes-trans test a b c grows f h m = elim (h m) [
  | inl marked ↦ inl marked
  | inr e ↦ elim (f m) [ inl marked ↦ inl (grows m marked) | inr e' ↦ inr (e ∙ e') ]
]

-- One node changes, and is marked.
pub Fixes-set_mark :
    (test : Marks → ℕ → Bool) (marks : Marks) (node : ℕ) (mark : Mark)
    → test (set_mark marks node mark) node ≡ true
    → Fixes test marks (set_mark marks node mark)
Fixes-set_mark test marks node mark h m = elim (Bool-cases (m == node)) [
  | inl e ↦ inl (ap (test (set_mark marks node mark)) ((==_iff m node).0 e) ∙ h)
  | inr e ↦ inr (rw e refl)
]

-- The nodes are below `limit`, and those of `R` have their children there.
module _ (g : Graph) (limit : ℕ) (R : ℕ → Type 0) (bounded : (n : ℕ) → R n → n < limit)
    (closed : (n : ℕ) → R n → All (λ e. R e.0) (g.children n)) where
  -- The references to a node that traversed nodes hold.
  abbrev pub from : Marks → ℕ → ℕ
  from marks n = sum limit (λ m. if is_traversed marks m then refs_to (g.children m) n else 0)

  abbrev pub unvisited : Marks → ℕ
  unvisited marks = sum limit (λ m. if is_traversed marks m then 0 else 1)

  pub unvisited-Grows : (a b : Marks) → Grows a b → unvisited b ≤ unvisited a
  unvisited-Grows a b h = sum-le limit _ _ (λ m. less m (is_traversed a m) (is_traversed b m) (h m))
    where
      less :
          (m : ℕ) (x y : Bool) → (x ≡ true → y ≡ true) → (if y then 0 else 1) ≤ (if x then 0 else 1)
      less m x true k = omega arith
      less m true false k = absurd (cc (k refl))
      less m false false k = omega arith

  -- What a walk adds: references counted, and nodes whose children were all visited.
  abbrev pub Counted : Marks → Marks → (ℕ → ℕ) → Type 0
  Counted a b extra =
      Grows a b
      × ((n : ℕ) → (total b n + from a n) % 2 ^ 32 ≡ (total a n + extra n + from b n) % 2 ^ 32)
      × ((m : ℕ)
          → is_traversed b m ≡ true
          → (is_traversed a m ≡ true) ⊎ (R m × Visited b (g.children m)))
      × Fixes is_traversed a b

  pub Counted-trans :
      (a b c : Marks) (x y : ℕ → ℕ) → Counted a b x → Counted b c y → Counted a c (λ n. x n + y n)
  Counted-trans a b c x y (grows, counts, done, fixes) (grows', counts', done', fixes') = (
    λ m h. grows' m (grows m h),
    λ n.
        add (total a n) (total b n) (total c n) (from a n) (from b n) (from c n) (x n) (y n)
          (counts n) (counts' n),
    λ m h. elim (done' m h) [
      | inr fresh ↦ inr fresh
      | inl old ↦ elim (done m old) [
        | inl older ↦ inl older
        | inr (r, visited) ↦ inr (r, Visited-Grows b c (g.children m) grows' visited)
      ]
    ],
    Fixes-trans is_traversed a b c grows' fixes fixes',
  )
    where
      add :
          (ta tb tc fa fb fc xn yn : ℕ)
          → (tb + fa) % 2 ^ 32 ≡ (ta + xn + fb) % 2 ^ 32
          → (tc + fb) % 2 ^ 32 ≡ (tb + yn + fc) % 2 ^ 32
          → (tc + fa) % 2 ^ 32 ≡ (ta + (xn + yn) + fc) % 2 ^ 32
      add ta tb tc fa fb fc xn yn h k = omega (arith, h, k)

  abbrev pub at : ℕ → ℕ → ℕ → ℕ
  at node refs n = if node == n then refs else 0

  set_at : (marks : Marks) (node : ℕ) (mark : Mark) → set_mark marks node mark node ≡ mark
  set_at marks node mark = rw (==_self node) refl

  set_other :
      (marks : Marks) (node : ℕ) (mark : Mark) (i : ℕ)
      → (i == node) ≡ false
      → set_mark marks node mark i ≡ marks i
  set_other marks node mark i e = rw e refl

  at_self : (node refs : ℕ) → at node refs node ≡ refs
  at_self node refs = rw (==_self node) refl

  at_other : (node refs i : ℕ) → (i == node) ≡ false → at node refs i ≡ 0
  at_other node refs i e = ground (arith, e)

  -- A traversed node whose count grows.
  unfoldable pub again : Marks → ℕ → ℕ → Marks
  again marks node refs =
      set_mark marks node (record (marks node) { refcnt = ((marks node).refcnt + refs) % 2 ^ 32 })

  pub again_traversed :
      (marks : Marks) (node refs i : ℕ)
      → is_traversed (again marks node refs) i ≡ is_traversed marks i
  unfolding again
  again_traversed marks node refs i = elim (Bool-cases (i == node)) [
    | inl e ↦ rw (e, (==_iff i node).0 e) refl
    | inr e ↦ rw e refl
  ]

  total-again :
      (marks : Marks) (node refs n : ℕ)
      → is_traversed marks node ≡ true
      → total (again marks node refs) n % 2 ^ 32 ≡ (total marks n + at node refs n) % 2 ^ 32
  unfolding again
  total-again marks node refs n t = elim (Bool-cases (n == node)) [
    | inl e ↦ rw (e, (==_iff n node).0 e, ==_self node, t) (omega arith)
    | inr e ↦ rw (e, at_other node refs n e) (omega arith)
  ]

  from-again : (marks : Marks) (node refs n : ℕ) → from (again marks node refs) n ≡ from marks n
  from-again marks node refs n = sum-same limit _ _ (λ i lt.
      ap (λ b. if b then refs_to (g.children i) n else 0) (again_traversed marks node refs i))

  again-Fixes :
      (marks : Marks) (node refs : ℕ)
      → is_traversed marks node ≡ true
      → Fixes is_traversed marks (again marks node refs)
  unfolding again
  again-Fixes marks node refs t =
      Fixes-set_mark is_traversed marks node _ (again_traversed marks node refs node ∙ t)

  pub again-Counted :
      (marks : Marks) (node refs : ℕ)
      → is_traversed marks node ≡ true
      → Counted marks (again marks node refs) (at node refs)
  again-Counted marks node refs t = (
    λ m h. again_traversed marks node refs m ∙ h,
    λ n. shift _ _ _ _ _ (total-again marks node refs n t) (from-again marks node refs n),
    λ m h. inl (sym (again_traversed marks node refs m) ∙ h),
    again-Fixes marks node refs t,
  )
    where
      shift :
          (t' ta x fb fa : ℕ)
          → t' % 2 ^ 32 ≡ (ta + x) % 2 ^ 32
          → fb ≡ fa
          → (t' + fa) % 2 ^ 32 ≡ (ta + x + fb) % 2 ^ 32
      shift t' ta x fb fa h e = omega (arith, h, e)

  -- A node that is visited for the first time.
  unfoldable pub first : Marks → ℕ → ℕ → Marks
  first marks node refs = set_mark marks node (record { state = traversed; refcnt = refs })

  pub first_traversed :
      (marks : Marks) (node refs : ℕ) → is_traversed (first marks node refs) node ≡ true
  unfolding first eq_state
  first_traversed marks node refs = rw (==_self node) refl

  pub first-Fixes :
      (marks : Marks) (node refs : ℕ) → Fixes is_traversed marks (first marks node refs)
  unfolding first
  first-Fixes marks node refs =
      Fixes-set_mark is_traversed marks node _ (first_traversed marks node refs)

  pub first_other :
      (marks : Marks) (node refs i : ℕ)
      → (i == node) ≡ false
      → is_traversed (first marks node refs) i ≡ is_traversed marks i
  unfolding first
  first_other marks node refs i e = rw e refl

  pub first-Grows : (marks : Marks) (node refs : ℕ) → Grows marks (first marks node refs)
  first-Grows marks node refs m h = elim (Bool-cases (m == node)) [
    | inl e ↦ rw ((==_iff m node).0 e) (first_traversed marks node refs)
    | inr e ↦ first_other marks node refs m e ∙ h
  ]

  pub total-first :
      (marks : Marks) (node refs n : ℕ)
      → is_traversed marks node ≡ false
      → total (first marks node refs) n ≡ total marks n + at node refs n
  unfolding first eq_state
  total-first marks node refs n t = elim (Bool-cases (n == node)) [
    | inl e ↦ rw (e, (==_iff n node).0 e, ==_self node, t) (omega arith)
    | inr e ↦ rw (e, at_other node refs n e) (omega arith)
  ]

  pub differs : (i node : ℕ) → (i ≡ node → ⊥) → (i == node) ≡ false
  differs i node f = elim (Bool-cases (i == node)) [
    | inl e ↦ absurd (f ((==_iff i node).0 e))
    | inr e ↦ e
  ]

  -- A sum over the nodes that were traversed gains the new node's part.
  pub sum-first :
      (marks : Marks) (node refs : ℕ) (u v : ℕ → ℕ)
      → node < limit
      → is_traversed marks node ≡ false
      → sum limit (λ m. if is_traversed (first marks node refs) m then u m else v m) + v node
        ≡ sum limit (λ m. if is_traversed marks m then u m else v m) + u node
  sum-first marks node refs u v lt t =
      let change =
        sum-change limit node (λ m. if is_traversed (first marks node refs) m then u m else v m)
          (λ m. if is_traversed marks m then u m else v m) lt
          (λ i f.
            ap (λ b. if b then u i else v i) (first_other marks node refs i (differs i node f))) in
      ap (λ z. sum limit (λ m. if is_traversed (first marks node refs) m then u m else v m) + z)
        (sym (rw t refl))
      ∙ change
      ∙ ap (λ z. sum limit (λ m. if is_traversed marks m then u m else v m) + z)
          (rw (first_traversed marks node refs) refl)
