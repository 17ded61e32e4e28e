-- ===== src/Completion/Walk.antt =====
-- Iterating over completion items: ec_comp_iter_first and ec_comp_iter_next of src/complete.c.
use libecoli.Base.{
  ℕ, suc, zero, ◌+◌, ◌<◌, ◌≡◌, refl, sym, ◌∙◌, ap, Bool-cases, Option-cases, inl, inr, Option, none,
  some, List, [], ◌∷◌, ◌++◌, length, drop, get_elem?, arith,
}
use libecoli.Complete.{
  Mask, selects, Item, Group, Comp, next_in_group, next_from, iter_first, iter_next, item_at,
}
use libecoli.Completion.Added.{all_items, selected}

-- EC_COMP_FOREACH from a place on, for at most so many rounds.
abbrev pub walk : ℕ → Comp → Mask → Option (ℕ × ℕ) → List Item
walk zero comp mask place = []
walk (suc n) comp mask none = []
walk (suc n) comp mask (some place) = elim (item_at comp place) [
  | none ↦ []
  | some item ↦ item ∷ walk n comp mask (iter_next comp place mask)
]

-- The items from place `i` of the first group on.
abbrev rest_items : List Group → ℕ → List Item
rest_items [] i = []
rest_items (g ∷ gs) i = drop i g.items ++ all_items gs

zero_add : (k : ℕ) → 0 + k ≡ k
zero_add k = omega arith

suc_add : (a b : ℕ) → suc a + b ≡ suc (a + b)
suc_add a b = omega arith

rest_items_all : (gs : List Group) → rest_items gs 0 ≡ all_items gs
rest_items_all [] = refl
rest_items_all (g ∷ gs) = refl

drop_add : {A : Type 0} (m n : ℕ) (xs : List A) → drop n (drop m xs) ≡ drop (m + n) xs
drop_add zero n xs = rw (zero_add n) refl
drop_add (suc m) zero [] = rw (suc_add m 0) refl
drop_add (suc m) (suc n) [] = rw (suc_add m (suc n)) refl
drop_add (suc m) n (x ∷ xs) = rw (suc_add m n) (drop_add m n xs)

get_elem?-drop :
    {A : Type 0} (m n : ℕ) (xs : List A) → get_elem? (drop m xs) n ≡ get_elem? xs (m + n)
get_elem?-drop zero n xs = rw (zero_add n) refl
get_elem?-drop (suc m) n [] = refl
get_elem?-drop (suc m) n (x ∷ xs) = rw (suc_add m n) (get_elem?-drop m n xs)

selected-append :
    (mask : Mask) (is js : List Item)
    → selected mask (is ++ js) ≡ selected mask is ++ selected mask js
selected-append mask [] js = refl
selected-append mask (i ∷ is) js = elim (Bool-cases (selects mask i.type)) [
  | inl e ↦ rw e (ap (◌∷◌ i) (selected-append mask is js))
  | inr e ↦ rw e (selected-append mask is js)
]

-- Where the search of a group stops, seen from place `i` on.
next_in_group-none :
    (mask : Mask) (is : List Item) (i : ℕ) → next_in_group mask is i ≡ none → selected mask is ≡ []
unfolding next_in_group
next_in_group-none mask [] i e = refl
next_in_group-none mask (x ∷ is) i e = elim (Bool-cases (selects mask x.type)) [
  | inl b ↦ absurd (ground (arith, b, e))
  | inr b ↦ rw b (next_in_group-none mask is (suc i) (ground (arith, b, e)))
]

next_in_group-some :
    (mask : Mask) (is : List Item) (i j : ℕ)
    → next_in_group mask is i ≡ some j
    → (m : ℕ) × (item : Item) × (j ≡ i + m)
      × (get_elem? is m ≡ some item)
      × (selected mask is ≡ item ∷ selected mask (drop (suc m) is))
unfolding next_in_group
next_in_group-some mask [] i j e = ground arith
next_in_group-some mask (x ∷ is) i j e = elim (Bool-cases (selects mask x.type)) [
  | inl b ↦ (0, x, ground (arith, b, e), refl, rw b refl)
  | inr b ↦
      let (m, item, eq, at, rest) = next_in_group-some mask is (suc i) j (ground (arith, b, e)) in
      (suc m, item, omega (arith, eq), at, rw b rest)
]

next_from-none :
    (mask : Mask) (gs : List Group) (g i : ℕ)
    → next_from mask gs g i ≡ none
    → selected mask (rest_items gs i) ≡ []
unfolding next_from
next_from-none mask [] g i e = refl
next_from-none mask (grp ∷ gs) g i e =
    elim (Option-cases (next_in_group mask (drop i grp.items) i)) [
      | inl n ↦
          selected-append mask (drop i grp.items) (all_items gs)
          ∙ rw (next_in_group-none mask (drop i grp.items) i n) (
              sym (ap (selected mask) (rest_items_all gs))
              ∙ next_from-none mask gs (suc g) 0 (ground (arith, n, e)))
      | inr (j, n) ↦ absurd (ground (arith, n, e))
    ]

next_from-some :
    (mask : Mask) (gs : List Group) (g i g' j : ℕ)
    → next_from mask gs g i ≡ some (g', j)
    → (k : ℕ) × (grp : Group) × (item : Item) × (g' ≡ g + k)
      × (get_elem? gs k ≡ some grp)
      × (get_elem? grp.items j ≡ some item)
      × (selected mask (rest_items gs i) ≡ item ∷ selected mask (rest_items (drop k gs) (suc j)))
unfolding next_from
next_from-some mask [] g i g' j e = ground arith
next_from-some mask (grp ∷ gs) g i g' j e =
    elim (Option-cases (next_in_group mask (drop i grp.items) i)) [
      | inr (j', n) ↦
          let (m, item, eq, at, rest) = next_in_group-some mask (drop i grp.items) i j' n in
          here j' (ground (arith, n, e)) (ground (arith, n, e)) m item eq at rest
      | inl n ↦
          let (k, grp', item, eq, at, at', rest) =
            next_from-some mask gs (suc g) 0 g' j (ground (arith, n, e)) in
          (
            suc k,
            grp',
            item,
            omega (arith, eq),
            at,
            at',
            selected-append mask (drop i grp.items) (all_items gs)
                ∙ rw (next_in_group-none mask (drop i grp.items) i n)
                    (sym (ap (selected mask) (rest_items_all gs)) ∙ rest),
          )
    ]
  where
    here :
        (j' : ℕ)
        → g' ≡ g
        → j ≡ j'
        → (m : ℕ) (item : Item) → j' ≡ i + m
        → get_elem? (drop i grp.items) m ≡ some item
        → selected mask (drop i grp.items) ≡ item ∷ selected mask (drop (suc m) (drop i grp.items))
        → (k : ℕ) × (grp' : Group) × (item : Item) × (g' ≡ g + k)
          × (get_elem? (grp ∷ gs) k ≡ some grp')
          × (get_elem? grp'.items j ≡ some item)
          × (selected mask (drop i grp.items ++ all_items gs)
              ≡ item ∷ selected mask (rest_items (drop k (grp ∷ gs)) (suc j)))
    here j' eg ej m item eq at rest = (
      0,
      grp,
      item,
      omega (arith, eg),
      refl,
      rw (ej, eq) (sym (get_elem?-drop i m grp.items) ∙ at),
      selected-append mask (drop i grp.items) (all_items gs)
          ∙ rw rest (
              ap (◌∷◌ item) (
                sym (selected-append mask (drop (suc m) (drop i grp.items)) (all_items gs))
                ∙ ap (λ is. selected mask (is ++ all_items gs))
                    (drop_add i (suc m) grp.items ∙ ap (λ n. drop n grp.items) (place m eq)))),
    )
      where
        place : (m : ℕ) → j' ≡ i + m → i + suc m ≡ suc j
        place m k = omega (arith, k, ej)

item_at-some :
    (comp : Comp) (g j : ℕ) (grp : Group) (item : Item)
    → get_elem? comp.groups g ≡ some grp
    → get_elem? grp.items j ≡ some item
    → item_at comp (g, j) ≡ some item
unfolding item_at
item_at-some comp g j grp item e e' = rw (item_at, e) e'

walk_step :
    (n : ℕ) (comp : Comp) (mask : Mask) (place : ℕ × ℕ) (item : Item)
    → item_at comp place ≡ some item
    → walk (suc n) comp mask (some place) ≡ item ∷ walk n comp mask (iter_next comp place mask)
walk_step n comp mask place item e = rw (walk, e) refl

-- From a place that a search gave, iterating gives the items that are left.
walk-selected :
    (n : ℕ) (comp : Comp) (mask : Mask) (g i : ℕ)
    → length (selected mask (rest_items (drop g comp.groups) i)) < n
    → walk n comp mask (next_from mask (drop g comp.groups) g i)
      ≡ selected mask (rest_items (drop g comp.groups) i)
unfolding iter_next
walk-selected zero comp mask g i lt = absurd (omega arith)
walk-selected (suc n) comp mask g i lt =
    elim (Option-cases (next_from mask (drop g comp.groups) g i)) [
      | inl e ↦ rw e (sym (next_from-none mask (drop g comp.groups) g i e))
      | inr ((g', j), e) ↦
          let (k, grp, item, eq, at, at', rest) =
            next_from-some mask (drop g comp.groups) g i g' j e in
          let again = drop_add g k comp.groups ∙ ap (λ x. drop x comp.groups) (sym eq) in
          rw (e, rest)
            (walk_step n comp mask (g', j) item
                (item_at-some comp g' j grp item (at_place k eq ∙ at) at')
              ∙ ap (◌∷◌ item) (
                  walk-selected n comp mask g' (suc j) (rw (sym again) (shorter item _ rest))
                  ∙ ap (λ gs. selected mask (rest_items gs (suc j))) (sym again)))
    ]
  where
    at_place :
        {g' : ℕ} (k : ℕ) → g' ≡ g + k → get_elem? comp.groups g' ≡ get_elem? (drop g comp.groups) k
    at_place k eq = rw eq (sym (get_elem?-drop g k comp.groups))

    shorter :
        (item : Item) (js : List Item)
        → selected mask (rest_items (drop g comp.groups) i) ≡ item ∷ js
        → length js < n
    shorter item js rest = omega (arith, ap length rest, lt)

-- EC_COMP_FOREACH visits the items of the types asked for, each once, group by group in the order
-- in which they were added, when more rounds are given than there are such items.
pub iter-selected :
    (comp : Comp) (mask : Mask) (rounds : ℕ)
    → length (selected mask (all_items comp.groups)) < rounds
    → walk rounds comp mask (iter_first comp mask) ≡ selected mask (all_items comp.groups)
unfolding iter_first
iter-selected comp mask rounds lt =
    walk-selected rounds comp mask 0 0 (rw (rest_items_all comp.groups) lt)
    ∙ ap (selected mask) (rest_items_all comp.groups)
