-- ===== src/Strvec/Views.antt =====
-- src/strvec.c: the references to shared elements, and what a vector shows of the heap.
use libecoli.Base.{
  ℕ, zero, suc, ◌+◌, ◌≤◌, ◌<◌, ◌≡◌, refl, ap, Bytes, Bool-cases, inl, inr, if◌then◌else◌, ◌==◌,
  ==_iff, some, List, [], ◌∷◌, ◌++◌, length, get_elem?, set, arith,
}
use libecoli.Strvec.{Strvec}
use libecoli.Strvec.Heap.{Cell, Heap, Refs, view, write}

-- The references to an element from the arrays.
abbrev pub count : ℕ → Refs → ℕ
count p [] = 0
count p (q ∷ qs) = (if p == q then 1 else 0) + count p qs

-- `refs` are all the references there are: each element has its count, and none is to an address
-- that is still to be allocated.
pub record IsCounted (h : Heap) (refs : Refs) : Type 0 where
  pub counts : (p : ℕ) → (h.cells p).refcnt ≡ count p refs
  pub unused : (p : ℕ) → h.next ≤ p → count p refs ≡ 0

pub count-append : (p : ℕ) (ps qs : Refs) → count p (ps ++ qs) ≡ count p ps + count p qs
count-append p [] qs = omega arith
count-append p (r ∷ ps) qs = omega (arith, count-append p ps qs)

pub count-get_elem? : (p : ℕ) (ps : Refs) (i : ℕ) → get_elem? ps i ≡ some p → 0 < count p ps
count-get_elem? p [] i e = ground arith
count-get_elem? p (q ∷ ps) zero e = ground arith
count-get_elem? p (q ∷ ps) (suc i) e = ground (arith, count-get_elem? p ps i e)

pub get_elem?-set :
    (ps : Refs) (i p q : ℕ) → get_elem? ps i ≡ some p → get_elem? (set ps i q) i ≡ some q
get_elem?-set [] i p q e = ground arith
get_elem?-set (r ∷ ps) zero p q e = refl
get_elem?-set (r ∷ ps) (suc i) p q e = get_elem?-set ps i p q e

-- A write to an element that is not referred to.
pub view-write_other :
    (h : Heap) (p : ℕ) (c : Cell) (ps : Refs) → count p ps ≡ 0 → view (write h p c) ps ≡ view h ps
unfolding view write
view-write_other h p c [] e = refl
view-write_other h p c (q ∷ ps) e = elim (Bool-cases (p == q)) [
  | inl eq ↦ ground arith
  | inr eq ↦ rw eq (ap (◌∷◌ (h.cells q).elt) (view-write_other h p c ps (ground arith)))
]

-- A write that changes the count only.
pub view-write_count :
    (h : Heap) (p : ℕ) (c : Cell) (ps : Refs)
    → c.elt ≡ (h.cells p).elt
    → view (write h p c) ps ≡ view h ps
unfolding view write
view-write_count h p c [] e = refl
view-write_count h p c (q ∷ ps) e = elim (Bool-cases (p == q)) [
  | inl eq ↦ rw (eq, e, (==_iff p q).0 eq) (ap (◌∷◌ (h.cells q).elt) (view-write_count h p c ps e))
  | inr eq ↦ rw eq (ap (◌∷◌ (h.cells q).elt) (view-write_count h p c ps e))
]

-- A write to an element with one reference, seen through this reference.
pub view-write_same :
    (h : Heap) (p : ℕ) (c : Cell) (ps : Refs) (i : ℕ)
    → get_elem? ps i ≡ some p
    → count p ps ≤ 1
    → view (write h p c) ps ≡ set (view h ps) i c.elt
unfolding view write
view-write_same h p c [] i e le = ground arith
view-write_same h p c (q ∷ ps) zero e le = elim (Bool-cases (p == q)) [
  | inl eq ↦ rw eq (ap (◌∷◌ c.elt) (view-write_other h p c ps (ground arith)))
  | inr eq ↦ ground arith
]
view-write_same h p c (q ∷ ps) (suc i) e le = elim (Bool-cases (p == q)) [
  | inl eq ↦ ground (arith, count-get_elem? p ps i e)
  | inr eq ↦ rw eq (ap (◌∷◌ (h.cells q).elt) (view-write_same h p c ps i e (ground arith)))
]

pub view-set :
    (h : Heap) (ps : Refs) (i q : ℕ) → view h (set ps i q) ≡ set (view h ps) i (h.cells q).elt
unfolding view
view-set h [] i q = refl
view-set h (p ∷ ps) zero q = refl
view-set h (p ∷ ps) (suc i) q = ap (◌∷◌ (h.cells p).elt) (view-set h ps i q)

pub view-next : (h : Heap) (n : ℕ) (ps : Refs) → view (record h { next = n }) ps ≡ view h ps
unfolding view
view-next h n [] = refl
view-next h n (p ∷ ps) = ap (◌∷◌ (h.cells p).elt) (view-next h n ps)

-- The vector with other attributes on one element.
abbrev pub with_attrs : Strvec → ℕ → List (Bytes × ℕ) → Strvec
with_attrs [] i attrs = []
with_attrs (e ∷ es) zero attrs = record { str = e.str; attrs = some attrs } ∷ es
with_attrs (e ∷ es) (suc i) attrs = e ∷ with_attrs es i attrs

pub with_attrs-view :
    (h : Heap) (ps : Refs) (i p : ℕ) (attrs : List (Bytes × ℕ))
    → get_elem? ps i ≡ some p
    → set (view h ps) i (record { str = (h.cells p).elt.str; attrs = some attrs })
      ≡ with_attrs (view h ps) i attrs
unfolding view
with_attrs-view h [] i p attrs e = ground arith
with_attrs-view h (q ∷ ps) zero p attrs e =
    ap (λ r. record { str = (h.cells r).elt.str; attrs = some attrs } ∷ view h ps) (ground arith)
with_attrs-view h (q ∷ ps) (suc i) p attrs e =
    ap (◌∷◌ (h.cells q).elt) (with_attrs-view h ps i p attrs e)

pub some_ref : (ps : Refs) (i : ℕ) → i < length ps → (p : ℕ) × (get_elem? ps i ≡ some p)
some_ref [] i lt = ground arith
some_ref (p ∷ ps) zero lt = (p, refl)
some_ref (p ∷ ps) (suc i) lt = some_ref ps i (omega arith)
