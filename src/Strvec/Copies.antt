-- ===== src/Strvec/Copies.antt =====
-- src/strvec.c: copies of vectors, which share their elements.
use mathlib.Core.Path.{subst}
use libecoli.Base.{
  ℕ, zero, suc, ◌+◌, ◌%◌, ◌^◌, ◌≤◌, ◌<◌, ◌≡◌, refl, sym, ◌∙◌, ap, Bool-cases, ◌⊎◌, inl, inr, ltb,
  false, ◌==◌, ==_iff, ==_self, none, some, [], ◌∷◌, ◌++◌, length, take, drop, arith,
}
use libecoli.Strvec.{ndup}
use libecoli.Strvec.Heap.{write, Heap, Refs, add_ref, view, share, strvec_ndup}
use libecoli.Strvec.Views.{IsCounted, count, count-append, view-write_count}

view-share : (h : Heap) (ps qs : Refs) → view (share h ps) qs ≡ view h qs
unfolding share add_ref
view-share h [] qs = refl
view-share h (p ∷ ps) qs =
    view-share (write h p (add_ref (h.cells p))) ps qs ∙ view-write_count h p _ qs refl

view-take : (h : Heap) (n : ℕ) (ps : Refs) → view h (take n ps) ≡ take n (view h ps)
unfolding view
view-take h zero ps = refl
view-take h (suc n) [] = refl
view-take h (suc n) (p ∷ ps) = ap (◌∷◌ (h.cells p).elt) (view-take h n ps)

view-drop : (h : Heap) (n : ℕ) (ps : Refs) → view h (drop n ps) ≡ drop n (view h ps)
unfolding view
view-drop h zero ps = refl
view-drop h (suc n) [] = refl
view-drop h (suc n) (p ∷ ps) = view-drop h n ps

length-view : (h : Heap) (ps : Refs) → length (view h ps) ≡ length ps
unfolding view
length-view h [] = refl
length-view h (p ∷ ps) = ap suc (length-view h ps)

==_flip : (a b : ℕ) → (a == b) ≡ false → (b == a) ≡ false
==_flip a b e = ground (arith, e)

count_le : (p : ℕ) (ps : Refs) → count p ps ≤ length ps
count_le p [] = omega arith
count_le p (q ∷ ps) = ground (arith, count_le p ps)

-- One more reference for each occurrence in the copy.
share-refcnt :
    (h : Heap) (ps : Refs) (p : ℕ)
    → count p ps + (h.cells p).refcnt < 2 ^ 32
    → ((share h ps).cells p).refcnt ≡ count p ps + (h.cells p).refcnt
unfolding share write add_ref
share-refcnt h [] p lt = omega arith
share-refcnt h (q ∷ ps) p lt = elim (Bool-cases (q == p)) [
  | inl e ↦
      let same : q ≡ p = (==_iff q p).0 e in
      let one : count p (q ∷ ps) ≡ 1 + count p ps = rw (same, ==_self p) refl in
      let bumped : ((write h q (add_ref (h.cells q))).cells p).refcnt ≡ (h.cells p).refcnt + 1 =
        rw (e, same) (omega (arith, lt, one)) in
      omega (
        arith,
        share-refcnt (write h q (add_ref (h.cells q))) ps p (omega (arith, lt, one, bumped)),
        one,
        bumped,
      )
  | inr e ↦
      let none_here : count p (q ∷ ps) ≡ count p ps = rw (==_flip q p e) (omega arith) in
      let kept : ((write h q (add_ref (h.cells q))).cells p).refcnt ≡ (h.cells p).refcnt =
        rw e refl in
      omega (
        arith,
        share-refcnt (write h q (add_ref (h.cells q))) ps p (omega (arith, lt, none_here, kept)),
        none_here,
        kept,
      )
]

share-next : (h : Heap) (ps : Refs) → (share h ps).next ≡ h.next
unfolding share write
share-next h [] = refl
share-next h (p ∷ ps) = share-next (write h p (add_ref (h.cells p))) ps

count-take_le : (p n : ℕ) (ps : Refs) → count p (take n ps) ≤ count p ps
count-take_le p zero ps = omega arith
count-take_le p (suc n) [] = omega arith
count-take_le p (suc n) (q ∷ ps) = omega (arith, count-take_le p n ps)

count-drop_le : (p n : ℕ) (ps : Refs) → count p (drop n ps) ≤ count p ps
count-drop_le p zero ps = omega arith
count-drop_le p (suc n) [] = omega arith
count-drop_le p (suc n) (q ∷ ps) = omega (arith, count-drop_le p n ps)

-- The copy's references are counted beside those that there were.
share-IsCounted :
    (h : Heap) (vec others : Refs) (off len : ℕ)
    → IsCounted h (vec ++ others)
    → length vec + length (vec ++ others) < 2 ^ 32
    → let copy = take len (drop off vec) in IsCounted (share h copy) (copy ++ (vec ++ others))
share-IsCounted h vec others off len counted few = record {
  counts = λ p.
      share-refcnt h (take len (drop off vec)) p (
        omega (
          arith,
          few,
          counted.counts p,
          count_le p vec,
          count_le p (vec ++ others),
          count-take_le p len (drop off vec),
          count-drop_le p off vec,
        ))
      ∙ ap (◌+◌ (count p (take len (drop off vec)))) (counted.counts p)
      ∙ sym (count-append p (take len (drop off vec)) (vec ++ others));
  unused = λ p le. omega (
    arith,
    counted.unused p (subst (λ n. n ≤ p) (share-next h (take len (drop off vec))) le),
    count-append p vec others,
    count-append p (take len (drop off vec)) (vec ++ others),
    count-take_le p len (drop off vec),
    count-drop_le p off vec,
  );
}

-- For a range whose end is a size_t, and while the counts of references are right and those that
-- there are fit an unsigned int with as many as the vector has, ec_strvec_ndup on the heap fails where it fails on lists of elements; otherwise the copy shows what the list
-- operation gives, the copied vector and all others show what they did, and the counts are right
-- with the references of the copy.
pub strvec_ndup-view :
    (h : Heap) (vec others : Refs) (off len : ℕ)
    → IsCounted h (vec ++ others)
    → length vec + length (vec ++ others) < 2 ^ 32
    → off + len < 2 ^ 64
    → (strvec_ndup h vec off len ≡ none) × (ndup (view h vec) off len ≡ none)
      ⊎ ((h' : Heap) × (copy : Refs) × (strvec_ndup h vec off len ≡ some (h', copy))
          × (ndup (view h vec) off len ≡ some (view h' copy))
          × (view h' (vec ++ others) ≡ view h (vec ++ others))
          × IsCounted h' (copy ++ (vec ++ others)))
unfolding strvec_ndup ndup
strvec_ndup-view h vec others off len counted few lt =
    elim (Bool-cases (ltb (length vec) (off + len))) [
      | inl e ↦ inl (rw (wraps, e) refl, rw (length-view h vec, e) refl)
      | inr e ↦ inr (
        share h copy,
        copy,
        rw (wraps, e) refl,
        rw
            (
              length-view h vec,
              e,
              view-share h copy copy,
              view-take h len (drop off vec),
              view-drop h off vec,
            )
            refl,
        view-share h copy (vec ++ others),
        share-IsCounted h vec others off len counted few,
      )
    ]
  where
    copy : Refs
    copy = take len (drop off vec)

    wraps : (off + len) % 2 ^ 64 ≡ off + len
    wraps = omega (arith, lt)
