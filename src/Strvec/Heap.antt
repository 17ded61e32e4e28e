-- ===== src/Strvec/Heap.antt =====
-- src/strvec.c: the elements of vectors as objects that several vectors share, each with the count
-- of its references.
use libecoli.Base.{
  ℕ, ◌+◌, ◌-◌, ◌%◌, ◌^◌, Bytes, if◌then◌else◌, ltb, ◌==◌, Option, none, some, List, [], ◌∷◌, ◌++◌,
  length, get_elem?, set, take, drop,
}
use libecoli.Strvec.{Elt, Strvec}

-- struct ec_strvec_elt in memory; a count of 0 stands for memory that is not in use.
pub record Cell : Type 0 where
  pub refcnt : ℕ
  pub elt : Elt

-- `next` is the address of the next allocation, which has not been used before.
pub record Heap : Type 0 where
  pub cells : ℕ → Cell
  pub next : ℕ

-- The `vec` array of struct ec_strvec: the addresses of the elements.
abbrev pub Refs : Type 0
Refs = List ℕ

-- The elements that a reader of the vector sees.
unfoldable pub view : Heap → Refs → Strvec
view h [] = []
view h (p ∷ ps) = (h.cells p).elt ∷ view h ps

unfoldable pub write : Heap → ℕ → Cell → Heap
write h p c = record h { cells = λ q. if p == q then c else h.cells q }

unfoldable pub free_cell : Cell
free_cell = record { refcnt = 0; elt = record { str = []; attrs = none } }

-- ec_strvec
unfoldable pub strvec : Refs
strvec = []

-- __ec_strvec_elt
unfoldable pub strvec_elt : Heap → Bytes → Heap × ℕ
strvec_elt h s = (
  record (write h h.next (record { refcnt = 1; elt = record { str = s; attrs = none } })) {
    next = h.next + 1;
  },
  h.next,
)

-- __ec_strvec_elt_free
unfoldable pub elt_free : Heap → ℕ → Heap
elt_free h p =
    let c = h.cells p in
    if c.refcnt - 1 == 0
    then write h p free_cell
    else write h p (record c { refcnt = c.refcnt - 1 })

-- ec_strvec_set; `none` is -1 with EINVAL, which changes nothing
unfoldable pub strvec_set : Heap → Refs → ℕ → Bytes → Option (Heap × Refs)
strvec_set h vec idx s = elim (get_elem? vec idx) [
  | none ↦ none
  | some old ↦ (let (h', p) = strvec_elt h s in some (elt_free h' old, set vec idx p))
]

-- ec_strvec_add
unfoldable pub strvec_add : Heap → Refs → Bytes → Heap × Refs
strvec_add h vec s = let (h', p) = strvec_elt h s in (h', vec ++ (p ∷ []))

-- ec_strvec_from_array: the loop
unfoldable pub from_array_loop : Heap → Refs → List Bytes → Heap × Refs
from_array_loop h vec [] = (h, vec)
from_array_loop h vec (s ∷ strs) =
    let (h', vec') = strvec_add h vec s in from_array_loop h' vec' strs

-- ec_strvec_from_array
unfoldable pub from_array : Heap → List Bytes → Heap × Refs
from_array h strs = from_array_loop h strvec strs

-- ec_strvec_del_last; `none` is -1 with EINVAL
unfoldable pub strvec_del_last : Heap → Refs → Option (Heap × Refs)
strvec_del_last h vec = elim (get_elem? vec (length vec - 1)) [
  | none ↦ none
  | some p ↦ some (elt_free h p, take (length vec - 1) vec)
]

-- `elt->refcnt++`, of an unsigned int
unfoldable pub add_ref : Cell → Cell
add_ref c = record c { refcnt = (c.refcnt + 1) % 2 ^ 32 }

-- ec_strvec_ndup: one more reference to each element
unfoldable pub share : Heap → Refs → Heap
share h [] = h
share h (p ∷ ps) = share (write h p (add_ref (h.cells p))) ps

-- ec_strvec_ndup; `none` is NULL. The sum of two size_t may wrap, and the range that is copied is
-- then not within the vector, which the theorems rule out by a hypothesis.
unfoldable pub strvec_ndup : Heap → Refs → ℕ → ℕ → Option (Heap × Refs)
strvec_ndup h vec off len =
    if ltb (length vec) ((off + len) % 2 ^ 64)
    then none
    else some (share h (take len (drop off vec)), take len (drop off vec))

-- ec_strvec_dup
unfoldable pub strvec_dup : Heap → Refs → Option (Heap × Refs)
strvec_dup h vec = strvec_ndup h vec 0 (length vec)

-- ec_strvec_free: the loop
unfoldable pub strvec_free : Heap → Refs → Heap
strvec_free h [] = h
strvec_free h (p ∷ ps) = strvec_free (elt_free h p) ps

-- ec_strvec_len
unfoldable pub strvec_len : Refs → ℕ
strvec_len vec = length vec

-- ec_strvec_set_attrs: the element itself, once it has no other reference
unfoldable pub put_attrs : Heap → ℕ → List (Bytes × ℕ) → Heap
put_attrs h p attrs =
    let c = h.cells p in
    write h p (record c { elt = record { str = c.elt.str; attrs = some attrs } })

-- ec_strvec_set_attrs; `none` is -1 with EINVAL
unfoldable pub strvec_set_attrs : Heap → Refs → ℕ → List (Bytes × ℕ) → Option (Heap × Refs)
strvec_set_attrs h vec idx attrs = elim (get_elem? vec idx) [
  | none ↦ none
  | some p ↦
      if ltb 1 (h.cells p).refcnt
      then elim (strvec_set h vec idx (h.cells p).elt.str) [
        | none ↦ none
        | some s ↦ (elim (get_elem? s.1 idx) [
          | none ↦ none
          | some q ↦ some (put_attrs s.0 q attrs, s.1)
        ])
      ]
      else some (put_attrs h p attrs, vec)
]
