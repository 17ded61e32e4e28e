-- ===== src/Strvec/Sharing.antt =====
-- src/strvec.c: attributes that are set through one vector do not show in the others.
use libecoli.Base.{
  ℕ, ◌+◌, ◌-◌, ◌≤◌, ◌<◌, ◌≡◌, refl, sym, ◌∙◌, ap, Bytes, true, false, Bool-cases, inl, inr, ◌⊎◌,
  ltb, ltb→lt, ◌==◌, ==_iff, ==_self, some, List, ◌++◌, length, get_elem?, set, arith,
}
use libecoli.Strvec.Heap.{
  Cell, Heap, Refs, view, write, strvec_elt, elt_free, strvec_set, put_attrs, strvec_set_attrs,
}
use libecoli.Strvec.Views.{
  count, count-append, count-get_elem?, get_elem?-set, view-write_other, view-write_count,
  view-write_same, view-set, view-next, with_attrs, with_attrs-view, some_ref, IsCounted,
}

-- The heap after an element with other references was replaced by a new one.
renewed : Heap → ℕ → Heap
renewed h p = elt_free (strvec_elt h (h.cells p).elt.str).0 p

strvec_set_attrs-shared :
    (h : Heap) (vec : Refs) (idx p : ℕ) (attrs : List (Bytes × ℕ))
    → get_elem? vec idx ≡ some p
    → ltb 1 (h.cells p).refcnt ≡ true
    → strvec_set_attrs h vec idx attrs
      ≡ some (put_attrs (renewed h p) h.next attrs, set vec idx h.next)
unfolding strvec_set_attrs strvec_set strvec_elt renewed
strvec_set_attrs-shared h vec idx p attrs e big =
    rw (strvec_set_attrs, e, big, strvec_set, e, get_elem?-set vec idx p h.next e) refl

strvec_set_attrs-alone :
    (h : Heap) (vec : Refs) (idx p : ℕ) (attrs : List (Bytes × ℕ))
    → get_elem? vec idx ≡ some p
    → ltb 1 (h.cells p).refcnt ≡ false
    → strvec_set_attrs h vec idx attrs ≡ some (put_attrs h p attrs, vec)
unfolding strvec_set_attrs
strvec_set_attrs-alone h vec idx p attrs e small = rw (strvec_set_attrs, e, small) refl

elt_free-shared :
    (h : Heap) (p : ℕ)
    → 1 < (h.cells p).refcnt
    → elt_free h p ≡ write h p (record { refcnt = (h.cells p).refcnt - 1; elt = (h.cells p).elt })
unfolding elt_free
elt_free-shared h p big = rw (nonzero (h.cells p).refcnt big) refl
  where
    nonzero : (n : ℕ) → 1 < n → (n - 1 == 0) ≡ false
    nonzero n lt = ground arith

-- The count of an element when another is allocated.
refcnt-strvec_elt :
    (h : Heap) (s : Bytes) (p : ℕ)
    → (h.next == p) ≡ false
    → 1 < (h.cells p).refcnt
    → 1 < ((strvec_elt h s).0.cells p).refcnt
unfolding strvec_elt write
refcnt-strvec_elt h s p apart big = rw apart big

renewed-write :
    (h : Heap) (p : ℕ)
    → (h.next == p) ≡ false
    → 1 < (h.cells p).refcnt
    → (c : Cell) × (renewed h p ≡ write (strvec_elt h (h.cells p).elt.str).0 p c)
      × (c.elt ≡ ((strvec_elt h (h.cells p).elt.str).0.cells p).elt)
unfolding renewed
renewed-write h p apart big = (
  _,
  elt_free-shared (strvec_elt h (h.cells p).elt.str).0 p
      (refcnt-strvec_elt h (h.cells p).elt.str p apart big),
  refl,
)

-- What a vector without references to the new element sees of it, after attributes were set.
view-renewed :
    (h : Heap) (p : ℕ) (attrs : List (Bytes × ℕ)) (ps : Refs)
    → (h.next == p) ≡ false
    → 1 < (h.cells p).refcnt
    → count h.next ps ≡ 0
    → view (put_attrs (renewed h p) h.next attrs) ps ≡ view h ps
unfolding put_attrs strvec_elt
view-renewed h p attrs ps apart big none' =
    let (c, e, same) = renewed-write h p apart big in
    view-write_other (renewed h p) h.next _ ps none'
    ∙ ap (λ g. view g ps) e
    ∙ view-write_count _ p c ps same
    ∙ view-next _ (h.next + 1) ps
    ∙ view-write_other h h.next _ ps none'

elt-renewed :
    (h : Heap) (p : ℕ) (attrs : List (Bytes × ℕ))
    → (h.next == p) ≡ false
    → 1 < (h.cells p).refcnt
    → ((put_attrs (renewed h p) h.next attrs).cells h.next).elt
      ≡ record { str = (h.cells p).elt.str; attrs = some attrs }
unfolding put_attrs strvec_elt write
elt-renewed h p attrs apart big =
    let (c, e, same) = renewed-write h p apart big in
    rw (==_self h.next) (
      ap (λ g. record { str = (g.cells h.next).elt.str; attrs = some attrs }) e
      ∙ rw (flip apart, ==_self h.next) refl)
  where
    flip : (h.next == p) ≡ false → (p == h.next) ≡ false
    flip a = ground arith

-- ec_strvec_set_attrs, while `vec` and `others` hold all the references to elements: it succeeds on
-- an index of the vector, the vector has the attributes there and is otherwise as before, and the
-- other vectors are as before, even where they share the element.
pub strvec_set_attrs-view :
    (h : Heap) (vec others : Refs) (idx : ℕ) (attrs : List (Bytes × ℕ))
    → IsCounted h (vec ++ others)
    → idx < length vec
    → (h' : Heap) × (vec' : Refs) × (strvec_set_attrs h vec idx attrs ≡ some (h', vec'))
      × (view h' vec' ≡ with_attrs (view h vec) idx attrs)
      × (view h' others ≡ view h others)
unfolding put_attrs
strvec_set_attrs-view h vec others idx attrs t lt =
    let (p, e) = some_ref vec idx lt in split p e (Bool-cases (ltb 1 (h.cells p).refcnt))
  where
    at_most : (n a b : ℕ) → ltb 1 n ≡ false → n ≡ a + b → a ≤ 1
    at_most n a b small total = ground arith

    none_left : (n a b : ℕ) → ltb 1 n ≡ false → n ≡ a + b → 0 < a → b ≡ 0
    none_left n a b small total pos = ground arith

    new_ref : (p : ℕ) → 0 < count p vec → count h.next vec ≡ 0 → (h.next == p) ≡ false
    new_ref p pos gone = ground (arith, ==_iff h.next p)

    split :
        (p : ℕ)
        → get_elem? vec idx ≡ some p
        → (ltb 1 (h.cells p).refcnt ≡ true) ⊎ (ltb 1 (h.cells p).refcnt ≡ false)
        → (h' : Heap) × (vec' : Refs) × (strvec_set_attrs h vec idx attrs ≡ some (h', vec'))
          × (view h' vec' ≡ with_attrs (view h vec) idx attrs)
          × (view h' others ≡ view h others)
    split p e (inr small) = (
      put_attrs h p attrs,
      vec,
      strvec_set_attrs-alone h vec idx p attrs e small,
      view-write_same h p _ vec idx e (at_most _ _ _ small (t.counts p ∙ count-append p vec others))
          ∙ with_attrs-view h vec idx p attrs e,
      view-write_other h p _ others (
          none_left _ _ _ small (t.counts p ∙ count-append p vec others)
            (count-get_elem? p vec idx e)),
    )
    split p e (inl big) =
        let pos = count-get_elem? p vec idx e in
        let gone = sym (count-append h.next vec others) ∙ t.unused h.next (omega arith) in
        let apart = new_ref p pos (omega (arith, gone)) in
        let more = ltb→lt 1 (h.cells p).refcnt big in
        (
          put_attrs (renewed h p) h.next attrs,
          set vec idx h.next,
          strvec_set_attrs-shared h vec idx p attrs e big,
          view-set (put_attrs (renewed h p) h.next attrs) vec idx h.next
              ∙ rw
                  (
                    view-renewed h p attrs vec apart more (omega (arith, gone)),
                    elt-renewed h p attrs apart more,
                  )
                  (with_attrs-view h vec idx p attrs e),
          view-renewed h p attrs others apart more (omega (arith, gone)),
        )
