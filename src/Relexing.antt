-- ===== src/Relexing.antt =====
-- Theorems on src/node_re_lex.c: tokenize splits a string into the first matches of its patterns.
use mathlib.Core.Path.{subst}
use libecoli.Base.{
  ℕ, zero, suc, ◌≡◌, ◌≤◌, ◌==◌, ◌&&◌, not, ◌⊎◌, ◌↔◌, inl, inr, refl, sym, ◌∙◌, ap, arith, Bytes,
  false, Bool-cases, Option, Option-cases, none, some, List, [], ◌∷◌, ◌++◌, length, take, drop,
  length-drop, append_assoc, append-nil,
}
use libecoli.Strvec.{Strvec}
use libecoli.ReLex.{
  RegexpPattern, find_match, add_token, tokens, null, unfinished, tokenize_loop, tokenize,
}

-- A pattern matches at the start of a string, and its match is not empty.
abbrev pub Matches : RegexpPattern → Bytes → ℕ → Type 0
Matches p str eo = (p.regexec str ≡ some (0, eo)) × (1 ≤ eo)

-- The first pattern of a table that does.
pub data IsFirst (str : Bytes) : List RegexpPattern → RegexpPattern → ℕ → Type 0 where
  here :
      (p : RegexpPattern) (table : List RegexpPattern) (eo : ℕ)
      → Matches p str eo
      → IsFirst str (p ∷ table) p eo
  there :
      (q : RegexpPattern) (table : List RegexpPattern) (p : RegexpPattern) (eo : ℕ)
      → ((k : ℕ) → Matches q str k → ⊥)
      → IsFirst str table p eo
      → IsFirst str (q ∷ table) p eo

-- A string is split into matches, each by the first pattern that has one; those of the patterns that keep
-- are the tokens.
pub data Lexes (table : List RegexpPattern) : Bytes → Strvec → Type 0 where
  at_end : Lexes table [] []
  piece :
      (p : RegexpPattern) (c : ℕ) (str : Bytes) (eo : ℕ) (strvec : Strvec)
      → IsFirst (c ∷ str) table p eo
      → Lexes table (drop eo (c ∷ str)) strvec
      → Lexes table (c ∷ str) (add_token [] p (take eo (c ∷ str)) ++ strvec)

find_match-none :
    (p : RegexpPattern) (table : List RegexpPattern) (str : Bytes)
    → p.regexec str ≡ none
    → find_match (p ∷ table) str ≡ find_match table str
unfolding find_match
find_match-none p table str e = rw e refl

start_zero : (r : Option (ℕ × ℕ)) (so eo : ℕ) → so ≡ 0 → r ≡ some (so, eo) → r ≡ some (0, eo)
start_zero r so eo e h = subst (λ z. r ≡ some (z, eo)) e h

one_result :
    (r : Option (ℕ × ℕ)) (a b c d : ℕ) → r ≡ some (a, b) → r ≡ some (c, d) → (a ≡ c) × (b ≡ d)
one_result r a b c d e h = (ap fst_of (sym e ∙ h), ap snd_of (sym e ∙ h))
  where
    fst_of : Option (ℕ × ℕ) → ℕ
    fst_of none = 0
    fst_of (some (x, y)) = x

    snd_of : Option (ℕ × ℕ) → ℕ
    snd_of none = 0
    snd_of (some (x, y)) = y

find_match-some :
    (p : RegexpPattern) (table : List RegexpPattern) (str : Bytes) (so eo : ℕ)
    → p.regexec str ≡ some (so, eo)
    → ((find_match (p ∷ table) str ≡ some (p, eo)) × Matches p str eo)
      ⊎ ((find_match (p ∷ table) str ≡ find_match table str) × ((k : ℕ) → Matches p str k → ⊥))
unfolding find_match
find_match-some p table str so eo e = elim (Bool-cases (so == 0 && not (eo == 0))) [
  | inl h ↦
      inl (
        rw (e, h) refl,
        (start_zero (p.regexec str) so eo (ground (arith, h)) e, ground (arith, h)),
      )
  | inr h ↦ inr (rw (e, h) refl, (λ k m. fails h k m))
]
  where
    fails : (so == 0 && not (eo == 0)) ≡ false → (k : ℕ) → Matches p str k → ⊥
    fails h k (m, lt) =
        let (a, b) = one_result (p.regexec str) so eo 0 k e m in ground (arith, h, a, b, lt)

from_some :
    (r : Option (RegexpPattern × ℕ)) (p q : RegexpPattern) (eo k : ℕ)
    (P : RegexpPattern → ℕ → Type 0)
    → r ≡ some (p, eo)
    → r ≡ some (q, k)
    → P p eo
    → P q k
from_some r p q eo k P e h m = subst (λ z. P z.0 z.1) (ap value (sym e ∙ h)) m
  where
    value : Option (RegexpPattern × ℕ) → RegexpPattern × ℕ
    value none = (p, eo)
    value (some x) = x

-- What is found is the first match.
find_match-IsFirst :
    (table : List RegexpPattern) (str : Bytes) (p : RegexpPattern) (eo : ℕ)
    → find_match table str ≡ some (p, eo)
    → IsFirst str table p eo
unfolding find_match
find_match-IsFirst [] str p eo h = absurd (cc)
find_match-IsFirst (q ∷ table) str p eo h = elim (Option-cases (q.regexec str)) [
  | inl e ↦
      there q table p eo (λ k m. cc (e, m.0))
        (find_match-IsFirst table str p eo (sym (find_match-none q table str e) ∙ h))
  | inr ((so, k), e) ↦ elim (find_match-some q table str so k e) [
    | inl (e', m) ↦ from_some _ q p k eo (IsFirst str (q ∷ table)) e' h (here q table k m)
    | inr (e', fails) ↦ there q table p eo fails (find_match-IsFirst table str p eo (sym e' ∙ h))
  ]
]

-- The first match is found.
IsFirst-find_match :
    (str : Bytes) (table : List RegexpPattern) (p : RegexpPattern) (eo : ℕ)
    → IsFirst str table p eo
    → find_match table str ≡ some (p, eo)
unfolding find_match
IsFirst-find_match str table p eo (here q rest k (e, lt)) = rw (e, positive) refl
  where
    positive : (eo == 0) ≡ false
    positive = ground (arith, lt)
IsFirst-find_match str table p eo (there q rest r k fails first) =
    elim (Option-cases (q.regexec str)) [
      | inl e ↦ find_match-none q rest str e ∙ IsFirst-find_match str rest p eo first
      | inr ((so, x), e) ↦ elim (find_match-some q rest str so x e) [
        | inl (e', m) ↦ absurd (fails x m)
        | inr (e', f) ↦ e' ∙ IsFirst-find_match str rest p eo first
      ]
    ]

first_positive :
    (str : Bytes) (table : List RegexpPattern) (p : RegexpPattern) (eo : ℕ)
    → IsFirst str table p eo
    → 1 ≤ eo
first_positive str table p eo (here q rest k (e, lt)) = lt
first_positive str table p eo (there q rest r k fails first) = first_positive str rest p eo first

add_token-append :
    (strvec : Strvec) (p : RegexpPattern) (str : Bytes)
    → add_token strvec p str ≡ strvec ++ add_token [] p str
unfolding add_token
add_token-append strvec p str = elim (Bool-cases p.keep) [
  | inl e ↦ rw e refl
  | inr e ↦ rw e (sym (append-nil strvec))
]

module _ (q : RegexpPattern) (others : List RegexpPattern) where
  abbrev table : List RegexpPattern
  table = q ∷ others

  tokenize_loop-cases :
      (fuel c : ℕ) (str : Bytes) (strvec : Strvec)
      → ((find_match table (c ∷ str) ≡ none)
          × (tokenize_loop (suc fuel) table (c ∷ str) strvec ≡ null))
        ⊎ ((p : RegexpPattern) × (eo : ℕ) × (find_match table (c ∷ str) ≡ some (p, eo))
            × (tokenize_loop (suc fuel) table (c ∷ str) strvec
                ≡ tokenize_loop fuel table
                    (drop eo (c ∷ str))
                    (add_token strvec p (take eo (c ∷ str)))))
  unfolding tokenize_loop
  tokenize_loop-cases fuel c str strvec = elim (Option-cases (find_match table (c ∷ str))) [
    | inl e ↦ inl (e, rw (tokenize_loop, e) refl)
    | inr ((p, eo), e) ↦ inr (p, eo, e, rw (tokenize_loop, e) refl)
  ]

  tokenize_loop-Lexes :
      (fuel : ℕ) (str : Bytes) (before vec : Strvec)
      → tokenize_loop fuel table str before ≡ tokens vec
      → (strvec : Strvec) × (vec ≡ before ++ strvec) × Lexes table str strvec
  unfolding tokenize_loop
  tokenize_loop-Lexes fuel [] before vec h = ([], tokens_eq h ∙ sym (append-nil before), at_end)
    where
      tokens_eq : tokens before ≡ tokens vec → vec ≡ before
      tokens_eq e = cc
  tokenize_loop-Lexes zero (c ∷ str) before vec h = absurd (cc)
  tokenize_loop-Lexes (suc fuel) (c ∷ str) before vec h =
      elim (tokenize_loop-cases fuel c str before) [
        | inl (e, same) ↦ absurd (null_tokens (sym same ∙ h))
        | inr (p, eo, e, same) ↦
            let (strvec, split, lexes) =
              tokenize_loop-Lexes fuel (drop eo (c ∷ str)) (add_token before p (take eo (c ∷ str)))
                vec (sym same ∙ h) in
            (
              add_token [] p (take eo (c ∷ str)) ++ strvec,
              split
                  ∙ ap (λ v. v ++ strvec) (add_token-append before p (take eo (c ∷ str)))
                  ∙ append_assoc before (add_token [] p (take eo (c ∷ str))) strvec,
              piece p c str eo strvec (find_match-IsFirst table (c ∷ str) p eo e) lexes,
            )
      ]
    where
      null_tokens : null ≡ tokens vec → ⊥
      null_tokens e = cc

  Lexes-tokenize_loop :
      (str : Bytes) (strvec : Strvec)
      → Lexes table str strvec
      → (fuel : ℕ) (before : Strvec) → length str ≤ fuel
      → tokenize_loop fuel table str before ≡ tokens (before ++ strvec)
  unfolding tokenize_loop
  Lexes-tokenize_loop str strvec at_end fuel before le = ap tokens (sym (append-nil before))
  Lexes-tokenize_loop str strvec (piece p c rest eo vec first lexes) zero before le =
      absurd (omega (arith, le))
  Lexes-tokenize_loop str strvec (piece p c rest eo vec first lexes) (suc fuel) before le =
      let less : length (drop eo (c ∷ rest)) ≤ fuel =
        omega (arith, le, length-drop eo (c ∷ rest), first_positive (c ∷ rest) table p eo first) in
      let ih =
        Lexes-tokenize_loop (drop eo (c ∷ rest)) vec lexes fuel
          (add_token before p (take eo (c ∷ rest))) less in
      rw (tokenize_loop, IsFirst-find_match (c ∷ rest) table p eo first)
        (ih
          ∙ ap tokens (
              ap (λ v. v ++ vec) (add_token-append before p (take eo (c ∷ rest)))
              ∙ append_assoc before (add_token [] p (take eo (c ∷ rest))) vec))

  tokenize_loop-ne-unfinished :
      (fuel : ℕ) (str : Bytes) (before : Strvec)
      → length str ≤ fuel
      → tokenize_loop fuel table str before ≡ unfinished
      → ⊥
  unfolding tokenize_loop
  tokenize_loop-ne-unfinished fuel [] before le h = cc
  tokenize_loop-ne-unfinished zero (c ∷ str) before le h = omega (arith, le)
  tokenize_loop-ne-unfinished (suc fuel) (c ∷ str) before le h =
      elim (tokenize_loop-cases fuel c str before) [
        | inl (e, same) ↦ null_unfinished (sym same ∙ h)
        | inr (p, eo, e, same) ↦
            tokenize_loop-ne-unfinished fuel (drop eo (c ∷ str))
              (add_token before p (take eo (c ∷ str)))
              (omega (
                arith,
                le,
                length-drop eo (c ∷ str),
                first_positive (c ∷ str) table p eo (find_match-IsFirst table (c ∷ str) p eo e),
              ))
              (sym same ∙ h)
      ]
    where
      null_unfinished : null ≡ unfinished → ⊥
      null_unfinished e = cc

  -- Of a table that is not empty, tokenize returns, and it returns a vector just when the string is split into matches, each by the
  -- first pattern with a match at its place that is not empty, such that the matches of the patterns
  -- that keep, with their attributes, are the elements of the vector in their order.
  pub tokenize_iff :
      (str : Bytes) (strvec : Strvec)
      → ((tokenize table str ≡ tokens strvec) ↔ Lexes table str strvec)
        × (tokenize table str ≡ unfinished → ⊥)
  unfolding tokenize
  tokenize_iff str strvec = (
    (
      λ h.
          let (vec, same, lexes) = tokenize_loop-Lexes (length str) str [] strvec h in
          subst (Lexes table str) (sym same) lexes,
      λ lexes. Lexes-tokenize_loop str strvec lexes (length str) [] (omega arith),
    ),
    tokenize_loop-ne-unfinished (length str) str [] (omega arith),
  )
