-- ===== src/Str/Prefix.antt =====
-- ec_str_startswith decides the prefix order: src/string.c.
use libecoli.Base.{◌≡◌, ◌≢◌, ◌↔◌, refl, Bytes, true, [], ◌∷◌, ◌++◌, arith, All}
use libecoli.Str.{str_startswith}

-- no NUL inside the string
abbrev pub IsText : Bytes → Type 0
IsText s = All (λ c. c ≢ 0) s

startswith→prefix :
    (s beginning : Bytes)
    → IsText beginning
    → str_startswith s beginning ≡ true
    → (rest : Bytes) × (s ≡ beginning ++ rest)
unfolding str_startswith
startswith→prefix s [] h e = (s, refl)
startswith→prefix [] (b ∷ t) h e = absurd (h.0 (ground arith))
startswith→prefix (a ∷ s) (b ∷ t) h e =
    let same : a ≡ b = ground (arith, h.0) in
    let (rest, tail) = startswith→prefix s t h.1 (ground arith) in (rest, cc)

prefix→startswith : (beginning rest : Bytes) → str_startswith (beginning ++ rest) beginning ≡ true
unfolding str_startswith
prefix→startswith [] [] = refl
prefix→startswith [] (c ∷ rest) = refl
prefix→startswith (b ∷ t) rest = ground (arith, prefix→startswith t rest)

-- ec_str_startswith says yes exactly when the string is the beginning with something behind it.
pub str_startswith_iff :
    (s beginning : Bytes)
    → IsText beginning
    → (str_startswith s beginning ≡ true) ↔ ((rest : Bytes) × (s ≡ beginning ++ rest))
str_startswith_iff s beginning h =
    (startswith→prefix s beginning h, λ r. rw (r.1) (prefix→startswith beginning r.0))
