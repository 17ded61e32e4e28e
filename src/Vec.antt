-- ===== src/Vec.antt =====
-- src/vec.c: vectors of elements of one size. The memory is the list of its places; `none` is a place
-- that was not written. An operation that reaches outside of it gives `outside`.
use libecoli.Base.{
  ℕ, zero, suc, ◌+◌, ◌^◌, ◌%◌, Bool, true, false, if◌then◌else◌, ltb, leb, ◌==◌, Option, none, some,
  List, [], ◌∷◌, get_elem?,
}
pub mod Views

-- struct ec_vec; `copy` is `none` for NULL, where elements are copied bytewise.
pub record Vec (A : Type 0) : Type 0 where
  pub len : ℕ
  pub size : ℕ
  pub elt_size : ℕ
  pub copy : Option (A → A)
  pub mem : List (Option A)

pub data Result (A : Type 0) : Type 0 where
  done : A → Result A
  einval outside : Result A

-- calloc(3), whose places count as not written
unfoldable pub places : {A : Type 0} → ℕ → List (Option A)
places zero = []
places (suc n) = none ∷ places n

-- realloc(3)
unfoldable pub resize : {A : Type 0} → ℕ → List (Option A) → List (Option A)
resize zero m = []
resize (suc n) [] = none ∷ resize n []
resize (suc n) (x ∷ m) = x ∷ resize n m

-- memcpy to a place
unfoldable pub write : {A : Type 0} → List (Option A) → ℕ → A → Option (List (Option A))
write [] i x = none
write (y ∷ m) zero x = some (some x ∷ m)
write (y ∷ m) (suc i) x = elim (write m i x) [ none ↦ none | some m' ↦ some (y ∷ m') ]

-- ec_vec, which keeps `size` 0 also where it allocates
unfoldable pub vec : {A : Type 0} → ℕ → ℕ → Option (A → A) → Result (Vec A)
vec elt_size size elt_copy =
    if elt_size == 0
    then einval
    else done
        (record { len = 0; size = 0; elt_size = elt_size; copy = elt_copy; mem = places size })

unfoldable pub stored : {A : Type 0} → Vec A → ℕ → Option (List (Option A)) → Result (Vec A)
stored v size none = outside
stored v size (some m) = done (record v { len = suc v.len; size = size; mem = m })

-- ec_vec_add_by_ref
unfoldable pub vec_add_by_ref : {A : Type 0} → Vec A → A → Result (Vec A)
vec_add_by_ref v x =
    if ltb v.size (suc v.len)
    then stored v (suc v.len) (write (resize (suc v.len) v.mem) v.len x)
    else stored v v.size (write v.mem v.len x)

-- ec_vec_add_ptr, ec_vec_add_u8 and the others, for elements of a given size
unfoldable pub vec_add : {A : Type 0} → ℕ → Vec A → A → Result (Vec A)
vec_add sizeof v x = if v.elt_size == sizeof then vec_add_by_ref v x else einval

unfoldable pub copy_elt : {A : Type 0} → Option (A → A) → A → A
copy_elt none x = x
copy_elt (some f) x = f x

-- ec_vec_ndup: the loop, on the memory of the copy
unfoldable pub copy_loop :
    {A : Type 0}
    → Option (A → A)
    → List (Option A)
    → (off left i : ℕ) → List (Option A)
    → Option (List (Option A))
copy_loop f src off zero i dst = some dst
copy_loop f src off (suc left) i dst = elim (get_elem? src (i + off)) [
  | none ↦ none
  | some none ↦ none
  | some (some x) ↦ elim (write dst i (copy_elt f x)) [
    | none ↦ none
    | some dst' ↦ copy_loop f src off left (suc i) dst'
  ]
]

unfoldable pub copied : {A : Type 0} → Vec A → ℕ → Option (List (Option A)) → Result (Vec A)
copied v len none = outside
copied v len (some m) =
    done (record { len = len; size = 0; elt_size = v.elt_size; copy = v.copy; mem = m })

-- ec_vec_ndup; the sum is one of size_t, and a new vector of element size 0 is refused
unfoldable pub vec_ndup : {A : Type 0} → Vec A → (off len : ℕ) → Result (Vec A)
vec_ndup v off len =
    if ltb v.len ((off + len) % 2 ^ 64)
    then einval
    else if v.elt_size == 0
    then einval
    else copied v len (copy_loop v.copy v.mem off len 0 (places len))

-- ec_vec_dup
unfoldable pub vec_dup : {A : Type 0} → Vec A → Result (Vec A)
vec_dup v = vec_ndup v 0 v.len

unfoldable pub read : {A : Type 0} → Option (Option A) → Result A
read (some (some x)) = done x
read _ = outside

-- ec_vec_get
unfoldable pub vec_get : {A : Type 0} → Option (Vec A) → ℕ → Result A
vec_get none idx = einval
vec_get (some v) idx = if leb v.len idx then einval else read (get_elem? v.mem idx)
