-- ===== src/Tests/Vecs.antt =====
-- A vector of numbers, and the theorems on vectors at it.
use libecoli.Base.{
  ℕ, suc, ◌-◌, ◌^◌, ◌≡◌, refl, none, some, [], ◌∷◌, ◌++◌, map, take, drop, get_elem?, arith,
}
use libecoli.Vec.{
  Vec, done, outside, vec_add_by_ref, vec_ndup, vec_get, copy_elt, copy_loop, copied, places,
}
use libecoli.Vec.Views.{Holds, or_einval, vec_add_by_ref-Holds, vec_ndup-Holds, vec_get-Holds}

-- 7 and 8, with room for two more
abbrev two : Vec ℕ
two = record {
  len = 2;
  size = 4;
  elt_size = 8;
  copy = some suc;
  mem = some 7 ∷ some 8 ∷ none ∷ none ∷ [];
}

two-Holds : Holds two (7 ∷ 8 ∷ [])
two-Holds = (none ∷ none ∷ [], refl, refl, omega arith)

vec_add_by_ref-Holds_example :
    (v' : Vec ℕ) × (vec_add_by_ref two 9 ≡ done v') × Holds v' ((7 ∷ 8 ∷ []) ++ (9 ∷ []))
vec_add_by_ref-Holds_example = vec_add_by_ref-Holds two (7 ∷ 8 ∷ []) 9 two-Holds

vec_ndup-Holds_example :
    (v' : Vec ℕ) × (vec_ndup two 1 1 ≡ done v')
    × Holds v' (map (copy_elt (some suc)) (take 1 (drop 1 (7 ∷ 8 ∷ []))))
vec_ndup-Holds_example =
    vec_ndup-Holds two (7 ∷ 8 ∷ []) 1 1 two-Holds refl (omega arith) (omega arith)

-- The end of the range wraps around, and the copy reads outside of the vector.
wraps : vec_ndup two (2 ^ 64 - 1) 2 ≡ outside
unfolding vec_ndup copied copy_loop places
wraps = refl

vec_get-Holds_example : vec_get (some two) 1 ≡ or_einval (get_elem? (7 ∷ 8 ∷ []) 1)
vec_get-Holds_example = vec_get-Holds two (7 ∷ 8 ∷ []) 1 two-Holds
