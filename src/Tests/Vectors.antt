-- ===== src/Tests/Vectors.antt =====
-- src/strvec.c: vectors that share their elements.
use libecoli.Base.{
  ◌++◌, ◌⊎◌, ◌^◌, ◌-◌, ◌≢◌, ℕ, zero, suc, ◌≤◌, arith, ◌≡◌, refl, codes, Option, none, some, List,
  [], ◌∷◌,
}
use libecoli.Strvec.{Strvec, Elt, ndup}
use libecoli.Strvec.Copies.{strvec_ndup-view}
use libecoli.Strvec.Views.{IsCounted, count}
use libecoli.Strvec.Sharing.{strvec_set_attrs-view}
use libecoli.Strvec.Heap.{
  Heap, Refs, view, write, free_cell, strvec, strvec_elt, elt_free, strvec_set, strvec_add,
  from_array_loop, from_array, share, add_ref, strvec_ndup, put_attrs, strvec_set_attrs,
}

abbrev nothing : Heap
unfolding free_cell
nothing = record { cells = λ p. free_cell; next = 0 }

-- "foo" "bar", and a copy of the vector
abbrev two : Heap
unfolding from_array from_array_loop strvec strvec_add strvec_elt write share add_ref free_cell
two = share (from_array nothing (codes "foo" ∷ codes "bar" ∷ [])).0 (0 ∷ 1 ∷ [])

-- What is read through the changed vector and through the other.
abbrev seen : Option (Heap × Refs) → Option (Strvec × Strvec)
unfolding view
seen none = none
seen (some (h, vec)) = some (view h vec, view h (0 ∷ 1 ∷ []))

abbrev plain : List ℕ → Elt
plain s = record { str = s; attrs = none }

-- Attributes that are set through one vector are not seen through the other.
isolated :
    seen (strvec_set_attrs two (0 ∷ 1 ∷ []) 1 [])
    ≡ some (
      plain (codes "foo") ∷ (record { str = codes "bar"; attrs = some [] }) ∷ [],
      plain (codes "foo") ∷ plain (codes "bar") ∷ [],
    )
unfolding strvec_set_attrs strvec_set put_attrs elt_free strvec_elt write two seen
isolated = refl

two-IsCounted : IsCounted two (0 ∷ 1 ∷ 0 ∷ 1 ∷ [])
unfolding two share add_ref from_array from_array_loop strvec strvec_add strvec_elt write free_cell
    nothing
two-IsCounted = record { counts = counts; unused = unused }
  where
    counts : (p : ℕ) → (two.cells p).refcnt ≡ count p (0 ∷ 1 ∷ 0 ∷ 1 ∷ [])
    counts zero = refl
    counts (suc zero) = refl
    counts (suc (suc p)) = ground arith

    unused : (p : ℕ) → 2 ≤ p → count p (0 ∷ 1 ∷ 0 ∷ 1 ∷ []) ≡ 0
    unused p le = ground arith

strvec_set_attrs-view_example :
    (h' : Heap) × (vec' : Refs) × (strvec_set_attrs two (0 ∷ 1 ∷ []) 1 [] ≡ some (h', vec'))
    × (view h' vec' ≡ plain (codes "foo") ∷ (record { str = codes "bar"; attrs = some [] }) ∷ [])
    × (view h' (0 ∷ 1 ∷ []) ≡ plain (codes "foo") ∷ plain (codes "bar") ∷ [])
unfolding two share add_ref from_array from_array_loop strvec strvec_add strvec_elt write free_cell
    nothing view
strvec_set_attrs-view_example =
    strvec_set_attrs-view two (0 ∷ 1 ∷ []) (0 ∷ 1 ∷ []) 1 [] two-IsCounted (omega arith)

strvec_ndup-view_example :
    (strvec_ndup two (0 ∷ 1 ∷ []) 1 1 ≡ none) × (ndup (view two (0 ∷ 1 ∷ [])) 1 1 ≡ none)
    ⊎ ((h' : Heap) × (copy : Refs) × (strvec_ndup two (0 ∷ 1 ∷ []) 1 1 ≡ some (h', copy))
        × (ndup (view two (0 ∷ 1 ∷ [])) 1 1 ≡ some (view h' copy))
        × (view h' (0 ∷ 1 ∷ 0 ∷ 1 ∷ []) ≡ view two (0 ∷ 1 ∷ 0 ∷ 1 ∷ []))
        × IsCounted h' (copy ++ (0 ∷ 1 ∷ 0 ∷ 1 ∷ [])))
strvec_ndup-view_example =
    strvec_ndup-view two (0 ∷ 1 ∷ []) (0 ∷ 1 ∷ []) 1 1 two-IsCounted (omega arith) (omega arith)

-- a range whose end wraps is not refused, though nothing of it is in the vector
wrapped : strvec_ndup two (0 ∷ 1 ∷ []) (2 ^ 64 - 1) 2 ≢ none
unfolding strvec_ndup
wrapped e = ground (arith, e)
