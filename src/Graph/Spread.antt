-- ===== src/Graph/Spread.antt =====
-- src/node.c: the walks that give the nodes they reach one mark.
use mathlib.Core.Path.{subst}
use libecoli.Base.{
  ℕ, zero, suc, ◌+◌, ◌≤◌, ◌<◌, ◌≡◌, ◌⊎◌, inl, inr, refl, sym, ◌∙◌, ap, if◌then◌else◌, ◌==◌, ltb,
  ==_iff, ==_self, Bool, true, false, Bool-cases, List, [], ◌∷◌, All, arith,
}
use libecoli.Graph.Free.{
  FreeState, none_state, not_freeable, Mark, Graph, Marks, set_mark, eq_state, Walk, walked,
  then_walk, each_child, mark_freeable, reset_mark,
}
use libecoli.Graph.Sums.{sum, sum-change, sum-le, sum-bound}
use libecoli.Graph.Marked.{Fixes, Fixes-trans, Fixes-set_mark}

abbrev pub has_mark : FreeState → Marks → ℕ → Bool
has_mark t marks n = eq_state t (marks n).state

abbrev pub AllMarked : FreeState → Marks → List (ℕ × ℕ) → Type 0
AllMarked t marks cs = All (λ e. has_mark t marks e.0 ≡ true) cs

module _ (g : Graph) (limit : ℕ) (R : ℕ → Type 0) (bounded : (n : ℕ) → R n → n < limit)
    (closed : (n : ℕ) → R n → All (λ e. R e.0) (g.children n)) (t : FreeState) where
  abbrev Keeps : Marks → Marks → Type 0
  Keeps a b = (m : ℕ) → has_mark t a m ≡ true → has_mark t b m ≡ true

  AllMarked-Keeps :
      (a b : Marks) (cs : List (ℕ × ℕ)) → Keeps a b → AllMarked t a cs → AllMarked t b cs
  AllMarked-Keeps a b [] h v = tt
  AllMarked-Keeps a b ((c, r) ∷ cs) h (v, vs) = (h c v, AllMarked-Keeps a b cs h vs)

  abbrev weight : Marks → ℕ → ℕ
  weight marks m = if has_mark t marks m then 0 else 1

  abbrev pub unmarked : Marks → ℕ
  unmarked marks = sum limit (weight marks)

  pub unmarked-le : (marks : Marks) → unmarked marks ≤ limit
  unmarked-le marks = sum-bound limit (weight marks) (λ m. at_most (has_mark t marks m))
    where
      at_most : (b : Bool) → (if b then 0 else 1) ≤ 1
      at_most true = omega arith
      at_most false = omega arith

  unmarked-Keeps : (a b : Marks) → Keeps a b → unmarked b ≤ unmarked a
  unmarked-Keeps a b h = sum-le limit _ _ (λ m. less (has_mark t a m) (has_mark t b m) (h m))
    where
      less : (x y : Bool) → (x ≡ true → y ≡ true) → (if y then 0 else 1) ≤ (if x then 0 else 1)
      less x true k = omega arith
      less true false k = absurd (cc (k refl))
      less false false k = omega arith

  -- The nodes newly marked are in R, and their children are marked.
  abbrev Closes : Marks → Marks → Type 0
  Closes a b =
      (m : ℕ)
      → has_mark t b m ≡ true
      → (has_mark t a m ≡ true) ⊎ (R m × AllMarked t b (g.children m))

  abbrev pub Spread : Marks → Marks → Type 0
  Spread a b = Keeps a b × Closes a b × Fixes (has_mark t) a b

  Closes-trans : (a b c : Marks) → Keeps b c → Closes a b → Closes b c → Closes a c
  Closes-trans a b c keeps done done' m h = elim (done' m h) [
    | inr fresh ↦ inr fresh
    | inl old ↦ elim (done m old) [
      | inl older ↦ inl older
      | inr (r, v) ↦ inr (r, AllMarked-Keeps b c (g.children m) keeps v)
    ]
  ]

  Spread-trans : (a b c : Marks) → Spread a b → Spread b c → Spread a c
  Spread-trans a b c (keeps, done, fixes) (keeps', done', fixes') = (
    λ m h. keeps' m (keeps m h),
    Closes-trans a b c keeps' done done',
    Fixes-trans (has_mark t) a b c keeps' fixes fixes',
  )

  -- With fuel for the nodes that are left, a visit marks, and keeps what `Holds` of the marks.
  abbrev pub IsSpread : (Marks → Type 0) → (ℕ → Marks → Walk) → ℕ → Type 0
  IsSpread Holds visit fuel =
      (node : ℕ) (marks : Marks)
      → R node
      → Holds marks
      → unmarked marks < fuel
      → (after : Marks) × (visit node marks ≡ walked after)
        × Spread marks after
        × (has_mark t after node ≡ true)
        × Holds after

  pub children_lem :
      (Holds : Marks → Type 0) (visit : ℕ → Marks → Walk) (fuel : ℕ)
      → IsSpread Holds visit fuel
      → (cs : List (ℕ × ℕ)) (marks : Marks) → All (λ e. R e.0) cs
      → Holds marks
      → unmarked marks < fuel
      → (after : Marks) × (each_child visit cs marks ≡ walked after)
        × Spread marks after
        × AllMarked t after cs
        × Holds after
  unfolding each_child then_walk
  children_lem Holds visit fuel ih [] marks w held lt =
      (marks, refl, ((λ m h. h), (λ m h. inl h), (λ m. inr refl)), tt, held)
  children_lem Holds visit fuel ih ((c, r) ∷ cs) marks (w, ws) held lt =
      let (after, e, spread, h, held') = ih c marks w held lt in
      let less = unmarked-Keeps marks after spread.0 in
      let (last, e', spread', hs, held'') =
        children_lem Holds visit fuel ih cs after ws held' (omega (arith, lt, less)) in
      (last, rw e e', Spread-trans marks after last spread spread', (spread'.0 c h, hs), held'')

  -- A node that is marked for the first time, and then its children.
  pub node_lem :
      (Holds : Marks → Type 0) (visit : ℕ → Marks → Walk) (fuel : ℕ)
      → IsSpread Holds visit fuel
      → (node : ℕ) (marks : Marks) (mark : Mark) → R node
      → Holds (set_mark marks node mark)
      → unmarked marks < suc fuel
      → has_mark t marks node ≡ false
      → eq_state t mark.state ≡ true
      → (after : Marks) × (each_child visit (g.children node) (set_mark marks node mark)
          ≡ walked after)
        × Spread marks after
        × (has_mark t after node ≡ true)
        × Holds after
  node_lem Holds visit fuel ih node marks mark w held lt fresh is_t =
      let (after, e, (keeps, done, fixes), all, held') =
        children_lem Holds visit fuel ih (g.children node) put (closed node w) held
          (omega (arith, lt, fewer)) in
      (
        after,
        e,
        (
          (λ m h. keeps m (put_keeps m h)),
          closes after keeps done all,
          Fixes-trans (has_mark t) marks put after keeps
              (Fixes-set_mark (has_mark t) marks node mark put_at) fixes,
        ),
        keeps node put_at,
        held',
      )
    where
      put : Marks
      put = set_mark marks node mark

      put_at : has_mark t put node ≡ true
      put_at = rw (==_self node) is_t

      put_other : (m : ℕ) → (m == node) ≡ false → has_mark t put m ≡ has_mark t marks m
      put_other m e = rw e refl

      put_keeps : Keeps marks put
      put_keeps m h = elim (Bool-cases (m == node)) [
        | inl e ↦ ap (has_mark t put) ((==_iff m node).0 e) ∙ put_at
        | inr e ↦ put_other m e ∙ h
      ]

      differs : (m : ℕ) → (m ≡ node → ⊥) → (m == node) ≡ false
      differs m f = elim (Bool-cases (m == node)) [
        | inl e ↦ absurd (f ((==_iff m node).0 e))
        | inr e ↦ e
      ]

      fewer : unmarked put + 1 ≡ unmarked marks
      fewer = omega (
        arith,
        gone,
        there,
        sum-change limit node (weight put) (weight marks) (bounded node w)
            (λ i f. ap (λ b. if b then 0 else 1) (put_other i (differs i f))),
      )
        where
          gone : weight put node ≡ 0
          gone = rw put_at refl

          there : weight marks node ≡ 1
          there = rw fresh refl

      closes :
          (after : Marks)
          → Keeps put after
          → Closes put after
          → AllMarked t after (g.children node)
          → Closes marks after
      closes after keeps done all m h = elim (done m h) [
        | inr new ↦ inr new
        | inl old ↦ elim (Bool-cases (m == node)) [
          | inl e ↦ inr (rw ((==_iff m node).0 e) (w, all))
          | inr e ↦ inl (sym (put_other m e) ∙ old)
        ]
      ]

module _ (g : Graph) (limit : ℕ) (R : ℕ → Type 0) (bounded : (n : ℕ) → R n → n < limit)
    (closed : (n : ℕ) → R n → All (λ e. R e.0) (g.children n)) where
  same_mark : (b : Bool) (x : FreeState) → (if b then x else x) ≡ x
  same_mark true x = refl
  same_mark false x = refl

  -- No node has fewer references than were counted.
  abbrev pub HasRefs : Marks → Type 0
  HasRefs marks = (n : ℕ) → R n → (marks n).refcnt ≤ g.refcnt n

  HasRefs-set_mark :
      (marks : Marks) (node : ℕ) (state : FreeState)
      → HasRefs marks
      → HasRefs (set_mark marks node (record (marks node) { state = state }))
  HasRefs-set_mark marks node state held n w = elim (Bool-cases (n == node)) [
    | inl e ↦ rw e (subst (λ m. (marks m).refcnt ≤ g.refcnt n) ((==_iff n node).0 e) (held n w))
    | inr e ↦ rw e (held n w)
  ]

  not_below : (a b : ℕ) → a ≤ b → ltb b a ≡ false
  not_below a b le = ground (arith, le)

  pub mark_freeable-IsSpread :
      (fuel : ℕ)
      → IsSpread g limit R bounded closed not_freeable HasRefs
          (λ node marks. mark_freeable g fuel node not_freeable marks)
          fuel
  unfolding mark_freeable eq_state
  mark_freeable-IsSpread zero node marks w held lt = absurd (omega (arith, lt))
  mark_freeable-IsSpread (suc fuel) node marks w held lt =
      elim (Bool-cases (has_mark not_freeable marks node)) [
        | inl h ↦ (marks, rw h refl, ((λ m k. k), (λ m k. inl k), (λ m. inr refl)), h, held)
        | inr h ↦
            let (after, e, spread, marked, held') =
              node_lem g limit R bounded closed not_freeable HasRefs
                (λ child marks'. mark_freeable g fuel child not_freeable marks') fuel
                (mark_freeable-IsSpread fuel) node marks
                (record (marks node) { state = not_freeable }) w
                (HasRefs-set_mark marks node not_freeable held) lt h refl in
            (
              after,
              rw
                  (
                    h,
                    not_below (marks node).refcnt (g.refcnt node) (held node w),
                    same_mark (ltb (marks node).refcnt (g.refcnt node)) not_freeable,
                  )
                  e,
              spread,
              marked,
              held',
            )
      ]

  pub reset_mark-IsSpread :
      (fuel : ℕ)
      → IsSpread g limit R bounded closed none_state (λ marks. Unit) (reset_mark g fuel) fuel
  unfolding reset_mark eq_state
  reset_mark-IsSpread zero node marks w held lt = absurd (omega (arith, lt))
  reset_mark-IsSpread (suc fuel) node marks w held lt =
      elim (Bool-cases (has_mark none_state marks node)) [
        | inl h ↦ (marks, rw h refl, ((λ m k. k), (λ m k. inl k), (λ m. inr refl)), h, tt)
        | inr h ↦
            let (after, e, spread, marked, held') =
              node_lem g limit R bounded closed none_state (λ marks'. Unit) (reset_mark g fuel) fuel
                (reset_mark-IsSpread fuel) node marks (record { state = none_state; refcnt = 0 }) w
                tt lt h refl in
            (after, rw h e, spread, marked, tt)
      ]
