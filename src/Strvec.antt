-- ===== src/Strvec.antt =====
-- src/strvec.c: vectors of strings. Here a vector is the list of its elements, which is what
-- the readers of a vector see.
pub mod Lex
pub mod Heap
pub mod Views
pub mod Sharing
pub mod Copies
use libecoli.Base.{
  ℕ, ◌+◌, Bytes, Bool, true, false, if◌then◌else◌, ltb, str_eq, Option, none, some, List, [], ◌∷◌,
  length, get_elem?, take, drop, ◌||◌, ◌&&◌,
}

-- `attrs` is `none` where the element has no dictionary; values are opaque words.
pub record Elt : Type 0 where
  pub str : Bytes
  pub attrs : Option (List (Bytes × ℕ))

abbrev pub Strvec : Type 0
Strvec = List Elt

-- ec_strvec_ndup, for a range whose end is below 2^64 as in the calls from the parsers; `none` is
-- NULL. Strvec/Heap has the sum that wraps.
unfoldable pub ndup : Strvec → ℕ → ℕ → Option Strvec
ndup vec off len = if ltb (length vec) (off + len) then none else some (take len (drop off vec))

-- ec_strvec_val
unfoldable pub val : Strvec → ℕ → Option Bytes
val vec idx = elim (get_elem? vec idx) [ none ↦ none | some e ↦ some e.str ]

-- ec_strvec_get_attrs
unfoldable pub get_attrs : Strvec → ℕ → Option (List (Bytes × ℕ))
get_attrs vec idx = elim (get_elem? vec idx) [ none ↦ none | some e ↦ e.attrs ]

-- ec_strvec_cmp, with 0 as `true` and -1 as `false`
unfoldable pub cmp : Strvec → Strvec → Bool
cmp [] [] = true
cmp (a ∷ as') (b ∷ bs) = str_eq a.str b.str && cmp as' bs
cmp _ _ = false

-- ec_dict_has_key on the entries of a dictionary
unfoldable pub has_key : List (Bytes × ℕ) → Bytes → Bool
has_key [] k = false
has_key ((j, v) ∷ d) k = str_eq j k || has_key d k
