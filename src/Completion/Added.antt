-- ===== src/Completion/Added.antt =====
-- What adding an item does to the groups and counters of struct ec_comp (src/complete.c).
use mathlib.Core.Path.{subst}
use libecoli.Base.{
  ℕ, suc, ◌+◌, ◌≡◌, refl, sym, ◌∙◌, ap, true, false, Bool, Option-cases, inl, inr, if◌then◌else◌,
  Option, none, some, List, [], ◌∷◌, ◌++◌, append_assoc, length, get_elem?, arith, Bytes,
}
use libecoli.Parse.{Frame}
use libecoli.Complete.{
  CompType, unknown, full, partial, Mask, selects, Item, Group, Comp, comp_item, bump, group_for,
  append_item, item_add, add_item, is_full, is_unknown,
}

-- All items, group by group.
abbrev pub all_items : List Group → List Item
all_items [] = []
all_items (grp ∷ groups) = grp.items ++ all_items groups

-- The items whose type is in the mask.
abbrev pub selected : Mask → List Item → List Item
selected mask [] = []
selected mask (item ∷ is) =
    if selects mask item.type then item ∷ selected mask is else selected mask is

abbrev pub is_partial : CompType → Bool
is_partial partial = true
is_partial _ = false

all_items-append : (gs hs : List Group) → all_items (gs ++ hs) ≡ all_items gs ++ all_items hs
all_items-append [] hs = refl
all_items-append (g ∷ gs) hs =
    ap (λ is. g.items ++ is) (all_items-append gs hs)
    ∙ sym (append_assoc g.items (all_items gs) (all_items hs))

append_item-cons :
    (g : Group) (gs : List Group) (i : ℕ) (item : Item)
    → append_item (g ∷ gs) (suc i) item ≡ g ∷ append_item gs i item
unfolding append_item
append_item-cons g gs i item = elim (Option-cases (get_elem? gs i)) [
  | inl e ↦ rw (append_item, e) refl
  | inr (grp, e) ↦ rw (append_item, e) refl
]

-- An item in a new group stands behind all others.
append_item-last :
    (gs : List Group) (new : Group) (item : Item)
    → new.items ≡ []
    → all_items (append_item (gs ++ (new ∷ [])) (length gs) item) ≡ all_items gs ++ (item ∷ [])
unfolding append_item
append_item-last [] new item e = last e
  where
    last : new.items ≡ [] → all_items (append_item (new ∷ []) 0 item) ≡ item ∷ []
    last k = rw k refl
append_item-last (g ∷ gs) new item e =
    ap all_items (append_item-cons g (gs ++ (new ∷ [])) (length gs) item)
    ∙ ap (λ is. g.items ++ is) (append_item-last gs new item e)
    ∙ sym (append_assoc g.items (all_items gs) (item ∷ []))

bump-counts :
    (comp : Comp) (type : CompType)
    → ((bump comp type).count_full ≡ comp.count_full + (if is_full type then 1 else 0))
      × ((bump comp type).count_partial ≡ comp.count_partial + (if is_partial type then 1 else 0))
      × ((bump comp type).count_unknown ≡ comp.count_unknown + (if is_unknown type then 1 else 0))
unfolding bump is_unknown
bump-counts comp unknown = omega arith
bump-counts comp full = omega arith
bump-counts comp partial = omega arith

-- What an added item changes.
abbrev pub Added : Comp → Item → Comp → Type 0
Added comp item c =
    (all_items c.groups ≡ all_items comp.groups ++ (item ∷ []))
    × (c.count ≡ comp.count + 1)
    × (c.count_full ≡ comp.count_full + (if is_full item.type then 1 else 0))
    × (c.count_partial ≡ comp.count_partial + (if is_partial item.type then 1 else 0))
    × (c.count_unknown ≡ comp.count_unknown + (if is_unknown item.type then 1 else 0))

item_add-Added :
    (comp : Comp) (path : List Frame) (self : ℕ) (item : Item)
    → Added comp item (item_add comp path self none item).0
unfolding item_add group_for
item_add-Added comp path self item =
    let (full', partial', unknown') = bump-counts comp item.type in
    (append_item-last comp.groups _ item refl, refl, full', partial', unknown')

pub add_item-Added :
    (comp c : Comp) (path : List Frame) (self grp : ℕ) (type : CompType) (cur str : Option Bytes)
    → add_item comp path self none type cur str ≡ some (c, grp)
    → (item : Item) × (comp_item comp.count type cur str ≡ some item) × Added comp item c
unfolding add_item
add_item-Added comp c path self grp type cur str e =
    elim (Option-cases (comp_item comp.count type cur str)) [
      | inl k ↦ absurd (ground (arith, k, e))
      | inr (item, k) ↦ (
        item,
        k,
        subst (λ d. Added comp item d) (same item k) (item_add-Added comp path self item),
      )
    ]
  where
    same :
        (item : Item)
        → comp_item comp.count type cur str ≡ some item
        → (item_add comp path self none item).0 ≡ c
    same item k = ground (arith, k, e)
