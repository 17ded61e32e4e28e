-- ===== src/Tests/Ints.antt =====
-- A node int at concrete bounds, with a decimal strtoll.
use libecoli.Base.{
  ℕ, ◌+◌, ◌-◌, ◌*◌, ◌^◌, ◌≡◌, ◌↔◌, ◌⊎◌, refl, inl, inr, true, Bool-cases, ◌&&◌, if◌then◌else◌, leb,
  Bytes, codes, none, some, [], ◌∷◌, arith,
}
use libecoli.Base.Signed.{ℤ, pos, negsuc, ltb_ℤ}
use libecoli.Strvec.{Elt}
use libecoli.Parse.{matched, nil}
use libecoli.Int.{
  no_error, erange, Conversion, llong_max, IntUint, node_int, int_uint_parse, int_getval,
}
use libecoli.Int.Bounds.{IsStrtoll, Between, node_int_iff}

abbrev scan : ℕ → Bytes → ℕ × Bytes
scan n [] = (n, [])
scan n (c ∷ s) = if leb 48 c && leb c 57 then scan (n * 10 + (c - 48)) s else (n, c ∷ s)

abbrev clamp : ℕ × Bytes → Conversion ℤ
clamp (n, s) =
    if leb n (2 ^ 63 - 1)
    then record { value = pos n; rest = s; err = no_error }
    else record { value = llong_max; rest = s; err = erange }

abbrev decimal : Bytes → ℕ → Conversion ℤ
decimal s base = clamp (scan 0 s)

abbrev unsigned : Bytes → ℕ → Conversion ℕ
unsigned s base = record { value = (scan 0 s).0; rest = (scan 0 s).1; err = no_error }

decimal-IsStrtoll : IsStrtoll decimal
decimal-IsStrtoll s base = elim (Bool-cases (leb (scan 0 s).0 (2 ^ 63 - 1))) [
  | inl e ↦ rw e ((λ k. absurd (cc)), λ k. absurd (cc))
  | inr e ↦ rw e ((λ k. inl refl), λ k. absurd (cc))
]

abbrev digits : Elt
digits = record { str = codes "42"; attrs = none }

node_int_iff_example :
    ((ltb_ℤ (pos 100) (negsuc 4) ≡ true) × (node_int (negsuc 4) (pos 100) 10 ≡ none))
    ⊎ ((priv : IntUint) × (node_int (negsuc 4) (pos 100) 10 ≡ some priv)
        × ((v : ℤ)
            → (int_getval decimal unsigned priv (codes "42") ≡ some v)
              ↔ Between (decimal (codes "42") 10) (negsuc 4) (pos 100) v)
        × ((int_uint_parse decimal unsigned priv (digits ∷ []) ≡ matched 1 nil)
            ↔ ((v : ℤ) × Between (decimal (codes "42") 10) (negsuc 4) (pos 100) v)))
node_int_iff_example =
    node_int_iff decimal unsigned (negsuc 4) (pos 100) 10 digits [] decimal-IsStrtoll (omega arith)
      (omega arith) (omega arith)
