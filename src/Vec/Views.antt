-- ===== src/Vec/Views.antt =====
-- src/vec.c: a vector as the list of its elements.
use libecoli.Base.{
  ℕ, zero, suc, ◌+◌, ◌^◌, ◌%◌, ◌<◌, ◌≤◌, ◌≡◌, refl, sym, ◌∙◌, ap, false, Bool-cases, inl, inr, ltb,
  leb, ◌==◌, Option, none, some, List, [], ◌∷◌, ◌++◌, append_assoc, append-nil, take, drop,
  take-drop, length-drop, map, length, length-append, get_elem?, arith,
}
use libecoli.Vec.{
  Vec, Result, done, einval, places, resize, write, stored, vec_add_by_ref, copy_elt, copy_loop,
  copied, vec_ndup, read, vec_get,
}

abbrev pub somes : {A : Type 0} → List A → List (Option A)
somes [] = []
somes (x ∷ xs) = some x ∷ somes xs

-- The memory begins with the elements, and `size` is no more than was allocated.
abbrev pub Holds : {A : Type 0} → Vec A → List A → Type 0
Holds {A} v xs =
    (rest : List (Option A)) × (v.mem ≡ somes xs ++ rest)
    × (v.len ≡ length xs)
    × (v.size ≤ length v.mem)

length-somes : {A : Type 0} (xs : List A) → length (somes xs) ≡ length xs
length-somes [] = refl
length-somes (x ∷ xs) = ap suc (length-somes xs)

-- Behind the elements, growing by one leaves or makes one place.
resize-elements :
    {A : Type 0} (xs : List A) (rest : List (Option A))
    → (r : Option A) × (resize (suc (length xs)) (somes xs ++ rest) ≡ somes xs ++ (r ∷ []))
unfolding resize
resize-elements [] [] = (none, refl)
resize-elements [] (r ∷ rest) = (r, refl)
resize-elements (x ∷ xs) rest = let (r, e) = resize-elements xs rest in (r, ap (◌∷◌ (some x)) e)

write-elements :
    {A : Type 0} (xs : List A) (r : Option A) (rest : List (Option A)) (x : A)
    → write (somes xs ++ (r ∷ rest)) (length xs) x ≡ some (somes xs ++ (some x ∷ rest))
unfolding write
write-elements [] r rest x = refl
write-elements (y ∷ xs) r rest x = rw (write, write-elements xs r rest x) refl

elements-snoc :
    {A : Type 0} (xs : List A) (x : A) (rest : List (Option A))
    → somes xs ++ (some x ∷ rest) ≡ somes (xs ++ (x ∷ [])) ++ rest
elements-snoc [] x rest = refl
elements-snoc (y ∷ xs) x rest = ap (◌∷◌ (some y)) (elements-snoc xs x rest)

length_snoc : {A : Type 0} (xs : List A) (x : A) → suc (length xs) ≡ length (xs ++ (x ∷ []))
length_snoc xs x = omega (arith, length-append xs (x ∷ []))

stored-Holds :
    {A : Type 0} (v : Vec A) (xs : List A) (x : A) (size : ℕ) (m rest : List (Option A))
    → v.len ≡ length xs
    → m ≡ somes xs ++ (some x ∷ rest)
    → size ≤ length m
    → (v' : Vec A) × (stored v size (some m) ≡ done v') × Holds v' (xs ++ (x ∷ []))
unfolding stored
stored-Holds v xs x size m rest n e le =
    (_, refl, (rest, e ∙ elements-snoc xs x rest, rw n (length_snoc xs x), le))

-- Adding an element never writes outside of the memory, and puts it behind the others.
pub vec_add_by_ref-Holds :
    {A : Type 0} (v : Vec A) (xs : List A) (x : A)
    → Holds v xs
    → (v' : Vec A) × (vec_add_by_ref v x ≡ done v') × Holds v' (xs ++ (x ∷ []))
unfolding vec_add_by_ref
vec_add_by_ref-Holds {A = A} v xs x (rest, e, n, le) = elim (Bool-cases (ltb v.size (suc v.len))) [
  | inl h ↦
      let (r, grown) = resize-elements xs rest in
      let (v', k, t) =
        stored-Holds v xs x (suc v.len) (somes xs ++ (some x ∷ [])) [] n refl (room xs n) in
      (v', rw h (ap (stored v (suc v.len)) (rw (e, n, grown) (write-elements xs r [] x)) ∙ k), t)
  | inr h ↦ with_room rest e le h
]
  where
    room : (xs : List A) → v.len ≡ length xs → suc v.len ≤ length (somes xs ++ (some x ∷ []))
    room xs n = omega (arith, n, length-append (somes xs) (some x ∷ []), length-somes xs)

    with_room :
        (rest : List (Option A))
        → v.mem ≡ somes xs ++ rest
        → v.size ≤ length v.mem
        → ltb v.size (suc v.len) ≡ false
        → (v' : Vec A) × (vec_add_by_ref v x ≡ done v') × Holds v' (xs ++ (x ∷ []))
    with_room [] e le h =
        absurd (ground (arith, h, le, n, ap length e, length-append (somes xs) [], length-somes xs))
    with_room (r ∷ rest) e le h =
        let (v', k, t) =
          stored-Holds v xs x v.size (somes xs ++ (some x ∷ rest)) rest n refl
            (same_room rest e le) in
        (v', rw h (ap (stored v v.size) (rw (e, n) (write-elements xs r rest x)) ∙ k), t)
      where
        same_room :
            (rest : List (Option A))
            → v.mem ≡ somes xs ++ (r ∷ rest)
            → v.size ≤ length v.mem
            → v.size ≤ length (somes xs ++ (some x ∷ rest))
        same_room rest e le = omega (
          arith,
          le,
          ap length e,
          length-append (somes xs) (r ∷ rest),
          length-append (somes xs) (some x ∷ rest),
        )

get_elem?-elements :
    {A : Type 0} (xs : List A) (x : A) (rest : List (Option A))
    → get_elem? (somes xs ++ (some x ∷ rest)) (length xs) ≡ some (some x)
get_elem?-elements [] x rest = refl
get_elem?-elements (y ∷ xs) x rest = get_elem?-elements xs x rest

-- The loop of ec_vec_ndup, from the elements that are copied on.
copy_loop-elements :
    {A : Type 0} (f : Option (A → A)) (off i : ℕ) (pre ys made : List A)
    (rest src dst : List (Option A))
    → src ≡ somes pre ++ (somes ys ++ rest)
    → dst ≡ somes made ++ places (length ys)
    → i ≡ length made
    → i + off ≡ length pre
    → copy_loop f src off (length ys) i dst ≡ some (somes (made ++ map (copy_elt f) ys))
unfolding copy_loop places
copy_loop-elements f off i pre [] made rest src dst es ed ei eo =
    ap some (ed ∙ append-nil (somes made) ∙ ap somes (sym (append-nil made)))
copy_loop-elements f off i pre (y ∷ ys) made rest src dst es ed ei eo =
    rw (copy_loop, at, put)
      (copy_loop-elements f off (suc i) (pre ++ (y ∷ [])) ys (made ++ (copy_elt f y ∷ [])) rest src
          (somes made ++ (some (copy_elt f y) ∷ places (length ys)))
          (es ∙ elements-snoc pre y (somes ys ++ rest))
          (elements-snoc made (copy_elt f y) (places (length ys)))
          (omega (arith, ei, length-append made (copy_elt f y ∷ [])))
          (omega (arith, eo, length-append pre (y ∷ [])))
        ∙ ap (λ zs. some (somes zs)) (append_assoc made (copy_elt f y ∷ []) (map (copy_elt f) ys)))
  where
    at : get_elem? src (i + off) ≡ some (some y)
    at = rw (es, eo) (get_elem?-elements pre y (somes ys ++ rest))

    put :
        write dst i (copy_elt f y) ≡ some (somes made ++ (some (copy_elt f y) ∷ places (length ys)))
    put = rw (ed, ei) (write-elements made none (places (length ys)) (copy_elt f y))

somes-append : {A : Type 0} (xs ys : List A) → somes (xs ++ ys) ≡ somes xs ++ somes ys
somes-append [] ys = refl
somes-append (x ∷ xs) ys = ap (◌∷◌ (some x)) (somes-append xs ys)

length-take : {A : Type 0} (n : ℕ) (xs : List A) → n ≤ length xs → length (take n xs) ≡ n
length-take zero xs le = refl
length-take (suc n) [] le = absurd (omega (arith, le))
length-take (suc n) (x ∷ xs) le = ap suc (length-take n xs (omega (arith, le)))

split_elements :
    {A : Type 0} (xs ys zs : List A) (rest : List (Option A))
    → somes (xs ++ (ys ++ zs)) ++ rest ≡ somes xs ++ (somes ys ++ (somes zs ++ rest))
split_elements xs ys zs rest =
    rw (somes-append xs (ys ++ zs), somes-append ys zs)
      (append_assoc (somes xs) (somes ys ++ somes zs) rest
        ∙ ap (λ m. somes xs ++ m) (append_assoc (somes ys) (somes zs) rest))

length-map : {A : Type 0} (f : A → A) (xs : List A) → length (map f xs) ≡ length xs
length-map f [] = refl
length-map f (x ∷ xs) = ap suc (length-map f xs)

-- A range within a vector of elements of some size is copied element by element, and nothing outside of it is read or
-- written, when the end of the range is one of size_t.
pub vec_ndup-Holds :
    {A : Type 0} (v : Vec A) (xs : List A) (off len : ℕ)
    → Holds v xs
    → (v.elt_size == 0) ≡ false
    → off + len < 2 ^ 64
    → off + len ≤ length xs
    → (v' : Vec A) × (vec_ndup v off len ≡ done v')
      × Holds v' (map (copy_elt v.copy) (take len (drop off xs)))
unfolding vec_ndup copied
vec_ndup-Holds {A = A} v xs off len (rest, e, n, le) sized small within = (
  record {
    len = len;
    size = 0;
    elt_size = v.elt_size;
    copy = v.copy;
    mem = somes (map (copy_elt v.copy) ys);
  },
  rw (fits, sized) (ap (copied v len) loop),
  (
    [],
    sym (append-nil (somes (map (copy_elt v.copy) ys))),
    sym (length-map (copy_elt v.copy) ys ∙ count),
    omega arith,
  ),
)
  where
    ys : List A
    ys = take len (drop off xs)

    count : length ys ≡ len
    count = length-take len (drop off xs) (omega (arith, length-drop off xs, within))

    fits : ltb v.len ((off + len) % 2 ^ 64) ≡ false
    fits = ground (arith, small, within, n)

    loop : copy_loop v.copy v.mem off len 0 (places len) ≡ some (somes (map (copy_elt v.copy) ys))
    loop =
        ap (λ k. copy_loop v.copy v.mem off k 0 (places k)) (sym count)
        ∙ copy_loop-elements v.copy off 0 (take off xs) ys []
            (somes (drop len (drop off xs)) ++ rest) v.mem (places (length ys))
            (e
              ∙ ap (λ zs. somes zs ++ rest)
                  (sym (take-drop off xs)
                    ∙ ap (λ zs. take off xs ++ zs) (sym (take-drop len (drop off xs))))
              ∙ split_elements (take off xs) ys (drop len (drop off xs)) rest)
            refl refl (omega (arith, length-take off xs (omega (arith, within))))

unfoldable pub or_einval : {A : Type 0} → Option A → Result A
or_einval none = einval
or_einval (some x) = done x

get_elem?-somes :
    {A : Type 0} (xs : List A) (rest : List (Option A)) (i : ℕ)
    → i < length xs
    → read (get_elem? (somes xs ++ rest) i) ≡ or_einval (get_elem? xs i)
unfolding read or_einval
get_elem?-somes [] rest i lt = absurd (omega (arith, lt))
get_elem?-somes (x ∷ xs) rest zero lt = refl
get_elem?-somes (x ∷ xs) rest (suc i) lt = get_elem?-somes xs rest i (omega (arith, lt))

get_elem?-beyond :
    {A : Type 0} (xs : List A) (i : ℕ) → length xs ≤ i → or_einval (get_elem? xs i) ≡ einval
unfolding or_einval
get_elem?-beyond [] i le = refl
get_elem?-beyond (x ∷ xs) zero le = absurd (omega (arith, le))
get_elem?-beyond (x ∷ xs) (suc i) le = get_elem?-beyond xs i (omega (arith, le))

-- Getting gives the element of an index, and refuses an index that is not one of the vector.
pub vec_get-Holds :
    {A : Type 0} (v : Vec A) (xs : List A) (idx : ℕ)
    → Holds v xs
    → vec_get (some v) idx ≡ or_einval (get_elem? xs idx)
unfolding vec_get
vec_get-Holds v xs idx (rest, e, n, le) = elim (Bool-cases (leb v.len idx)) [
  | inl h ↦ rw h (sym (get_elem?-beyond xs idx (ground (arith, h, n))))
  | inr h ↦ rw (h, e) (get_elem?-somes xs rest idx (ground (arith, h, n)))
]
