-- ===== src/Graph/Shared.antt =====
-- src/node.c: ec_node_free of a node that is referenced from elsewhere.
use mathlib.Core.Path.{subst}
use libecoli.Base.{
  ℕ, zero, suc, ◌<◌, ◌≤◌, ◌≡◌, inl, inr, refl, sym, ◌∙◌, ap, ◌==◌, lt→ltb, true, false, List, [],
  ◌∷◌, All, arith,
}
use libecoli.Graph.Free.{
  FreeState, none_state, traversed, freeable, not_freeable, freeing, Graph, Marks, eq_state, Walk,
  walked, then_walk, count_references, mark_freeable, reset_mark, kept, drop_ref, keep, decide,
  node_free,
}
use libecoli.Graph.Marked.{IsClear, Fixes, is_traversed}
use libecoli.Graph.Count.{counted}
use libecoli.Graph.Spread.{
  has_mark, AllMarked, Spread, unmarked-le, mark_freeable-IsSpread, reset_mark-IsSpread, HasRefs,
}

module _ (g : Graph) (limit : ℕ) where
  abbrev IsClosed : (ℕ → Type 0) → Type 0
  IsClosed R = (n : ℕ) → R n → All (λ e. R e.0) (g.children n)

  abbrev IsBounded : (ℕ → Type 0) → Type 0
  IsBounded R = (n : ℕ) → R n → n < limit

  eq_state-state : (x y : FreeState) → eq_state x y ≡ true → x ≡ y
  unfolding eq_state
  eq_state-state none_state none_state h = refl
  eq_state-state traversed traversed h = refl
  eq_state-state freeable freeable h = refl
  eq_state-state not_freeable not_freeable h = refl
  eq_state-state freeing freeing h = refl
  eq_state-state x y h = absurd (cc)

  -- A node with more references than were counted is not freeable.
  mark_first :
      (fuel node : ℕ) (marks : Marks)
      → (marks node).state ≡ traversed
      → (marks node).refcnt < g.refcnt node
      → mark_freeable g fuel node freeable marks ≡ mark_freeable g fuel node not_freeable marks
  unfolding mark_freeable eq_state
  mark_first zero node marks e lt = refl
  mark_first (suc fuel) node marks e lt = rw (e, lt→ltb (marks node).refcnt (g.refcnt node) lt) refl

  -- Two marks on a node are one.
  one_mark :
      (a b : FreeState) (marks : Marks) (n : ℕ)
      → has_mark a marks n ≡ true
      → has_mark b marks n ≡ true
      → a ≡ b
  one_mark a b marks n h k =
      eq_state-state a (marks n).state h ∙ sym (eq_state-state b (marks n).state k)

  traversed_state :
      (marks : Marks) (n : ℕ) → is_traversed marks n ≡ true → (marks n).state ≡ traversed
  traversed_state marks n h = eq_state-state (marks n).state traversed h

  -- Of what is traversed or clear, nothing is not_freeable.
  none_before :
      (marks after : Marks) (n : ℕ)
      → IsClear marks
      → Fixes is_traversed marks after
      → has_mark not_freeable after n ≡ true
      → ⊥
  none_before marks after n clear fixes h = elim (fixes n) [
    | inl t ↦ differ (eq_state-state not_freeable (after n).state h ∙ traversed_state after n t)
    | inr e ↦
        differ' (eq_state-state not_freeable (after n).state h ∙ ap (λ m. m.state) e ∙ clear n)
  ]
    where
      differ : not_freeable ≡ traversed → ⊥
      differ e = cc

      differ' : not_freeable ≡ none_state → ⊥
      differ' e = cc

  module _ (R : ℕ → Type 0) (bounded : IsBounded R) (closed : IsClosed R) (start fuel : ℕ)
      (marks a b c : Marks) (w : R start) (clear : IsClear marks) (lt : limit < fuel)
      (held : HasRefs g limit R bounded closed a)
      (ea : count_references g fuel start 1 marks ≡ walked a)
      (eb : mark_freeable g fuel start not_freeable a ≡ walked b)
      (ec : reset_mark g fuel start b ≡ walked c) where
    walked_same : {x y : Marks} {o : Walk} → o ≡ walked x → o ≡ walked y → x ≡ y
    walked_same e f = cc

    counted_in :
        (Q : ℕ → Type 0)
        → IsBounded Q
        → IsClosed Q
        → Q start
        → Fixes is_traversed marks a × ((n : ℕ) → is_traversed a n ≡ true → Q n)
    counted_in Q bd cl q =
        let (a', e, t, fixes, counts) = counted g limit Q bd cl start fuel marks q clear lt in
        let same = walked_same e ea in
        (
          subst (Fixes is_traversed marks) same fixes,
          λ n h. (counts n (subst (λ x. is_traversed x n ≡ true) (sym same) h)).0,
        )

    marked_in :
        (Q : ℕ → Type 0) (bd : IsBounded Q) (cl : IsClosed Q)
        → ((n : ℕ) → Q n → R n)
        → Q start
        → Spread g limit Q bd cl not_freeable a b × (has_mark not_freeable b start ≡ true)
    marked_in Q bd cl within q =
        let (b', e, spread, h, held') =
          mark_freeable-IsSpread g limit Q bd cl fuel start a q (λ n k. held n (within n k))
            (omega (arith, lt, unmarked-le g limit Q bd cl not_freeable a)) in
        let same = walked_same e eb in
        (
          subst (Spread g limit Q bd cl not_freeable a) same spread,
          subst (λ x. has_mark not_freeable x start ≡ true) same h,
        )

    reset_in : Spread g limit R bounded closed none_state b c × (has_mark none_state c start ≡ true)
    reset_in =
        let (c', e, spread, h, u) =
          reset_mark-IsSpread g limit R bounded closed fuel start b w tt
            (omega (arith, lt, unmarked-le g limit R bounded closed none_state b)) in
        let same = walked_same e ec in
        (
          subst (Spread g limit R bounded closed none_state b) same spread,
          subst (λ x. has_mark none_state x start ≡ true) same h,
        )

    abbrev InMarked : ℕ → Type 0
    InMarked m = has_mark not_freeable b m ≡ true

    not_before : (m : ℕ) → has_mark not_freeable a m ≡ true → ⊥
    not_before m h = none_before marks a m clear (counted_in R bounded closed w).0 h

    -- A node marked as not freeable is in R, and so are its children.
    marked_parts : (m : ℕ) → InMarked m → R m × AllMarked not_freeable b (g.children m)
    marked_parts m h = elim ((marked_in R bounded closed (λ n k. k) w).0.1 m h) [
      | inl old ↦ absurd (not_before m old)
      | inr fresh ↦ fresh
    ]

    abbrev InBoth : ℕ → Type 0
    InBoth m = InMarked m × (has_mark none_state c m ≡ true)

    both :
        (cs : List (ℕ × ℕ))
        → AllMarked not_freeable b cs
        → AllMarked none_state c cs
        → All (λ e. InBoth e.0) cs
    both [] h k = tt
    both ((n, r) ∷ cs) (h, hs) (k, ks) = ((h, k), both cs hs ks)

    not_none : (m : ℕ) → InMarked m → has_mark none_state b m ≡ true → ⊥
    not_none m h k = cc (one_mark not_freeable none_state b m h k)

    InBoth-IsClosed : IsClosed InBoth
    InBoth-IsClosed m (h, k) = elim (reset_in.0.1 m k) [
      | inl old ↦ absurd (not_none m h old)
      | inr (r, all) ↦ both (g.children m) (marked_parts m h).1 all
    ]

    -- What was marked as not freeable is reset.
    reset_all : (m : ℕ) → InMarked m → has_mark none_state c m ≡ true
    reset_all m h =
        elim ((marked_in InBoth (λ n k. bounded n (marked_parts n k.0).0) InBoth-IsClosed
            (λ n k. (marked_parts n k.0).0)
            ((marked_in R bounded closed (λ n k. k) w).1, reset_in.1)).0.1
          m h) [ inl old ↦ absurd (not_before m old) | inr fresh ↦ fresh.0.1 ]

    traversed_marked : (m : ℕ) → is_traversed a m ≡ true → InMarked m
    traversed_marked m h =
        (counted_in InMarked (λ n k. bounded n (marked_parts n k).0) (λ n k. (marked_parts n k).1)
            (marked_in R bounded closed (λ n k. k) w).1).1
          m h

    clear_state : (m : ℕ) → has_mark none_state c m ≡ true → (c m).state ≡ none_state
    clear_state m h = sym (eq_state-state none_state (c m).state h)

    reset-IsClear : IsClear c
    reset-IsClear m = elim (reset_in.0.2 m) [
      | inl h ↦ clear_state m h
      | inr e ↦ elim ((marked_in R bounded closed (λ n k. k) w).0.2 m) [
        | inl h ↦ clear_state m (reset_all m h)
        | inr e' ↦ elim ((counted_in R bounded closed w).0 m) [
          | inl h ↦ clear_state m (reset_all m (traversed_marked m h))
          | inr e'' ↦ ap (λ x. x.state) (e ∙ e' ∙ e'') ∙ clear m
        ]
      ]
    ]

  -- Of a node with more references than one, in a set R of nodes below `limit` that holds the children
  -- of its members, and with clear marks, where count_references finds less references to it than it
  -- has, and no more references to any node it traverses than that node has: with fuel above the limit,
  -- ec_node_free keeps the node with one reference less, and leaves all marks clear.
  pub node_free-kept :
      (R : ℕ → Type 0)
      → IsBounded R
      → IsClosed R
      → (start fuel : ℕ) (marks : Marks) → R start
      → IsClear marks
      → limit < fuel
      → 1 < g.refcnt start
      → ((after : Marks)
          → count_references g fuel start 1 marks ≡ walked after
          → ((after start).refcnt < g.refcnt start)
            × ((n : ℕ) → is_traversed after n ≡ true → (after n).refcnt ≤ g.refcnt n))
      → (final : Marks) × (node_free g fuel start marks ≡ kept (drop_ref g start) final)
        × IsClear final
  unfolding node_free decide keep then_walk eq_state
  node_free-kept R bounded closed start fuel marks w clear lt many refs =
      let (a, ea, ta, fixes, counts) =
        counted g limit R bounded closed start fuel marks w clear lt in
      let (outside, held) = refs a ea in
      let S : ℕ → Type 0 = λ n. is_traversed a n ≡ true in
      let bd : IsBounded S = λ n h. bounded n (counts n h).0 in
      let cl : IsClosed S = λ n h. (counts n h).1 in
      let (b, eb, spread, hb, held') =
        mark_freeable-IsSpread g limit S bd cl fuel start a ta held
          (omega (arith, lt, unmarked-le g limit S bd cl not_freeable a)) in
      let (c, ec, spread', hc, u) =
        reset_mark-IsSpread g limit S bd cl fuel start b ta tt
          (omega (arith, lt, unmarked-le g limit S bd cl none_state b)) in
      let e = mark_first fuel start a (traversed_state a start ta) outside in
      (
        c,
        rw
            (
              clear start,
              one_not,
              ea,
              e,
              eb,
              sym (eq_state-state not_freeable (b start).state hb),
              ec,
            )
            refl,
        reset-IsClear S bd cl start fuel marks a b c ta clear lt held ea eb ec,
      )
    where
      one_not : (g.refcnt start == 1) ≡ false
      one_not = ground (arith, many)
