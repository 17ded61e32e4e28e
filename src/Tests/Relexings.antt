-- ===== src/Tests/Relexings.antt =====
-- Splitting concrete strings by patterns, after test/node_re_lex.c.
use libecoli.Base.{
  ℕ, suc, ◌≡◌, ◌↔◌, refl, Bool, true, false, if◌then◌else◌, leb, ◌==◌, ◌&&◌, codes, Bytes, Option,
  none, some, List, [], ◌∷◌,
}
use libecoli.Strvec.{Strvec, Elt}
use libecoli.ReLex.{
  RegexpPattern, tokens, null, unfinished, tokenize, tokenize_loop, find_match, add_token,
  token_attrs,
}
use libecoli.Relexing.{Lexes, tokenize_iff}

-- the number of characters at the start of a string that pass a test
abbrev span : (ℕ → Bool) → Bytes → ℕ
span test [] = 0
span test (c ∷ s) = let rest = span test s in if test c then suc rest else 0

-- what regexec reports of one or more such characters, at the start only
abbrev one_or_more : (ℕ → Bool) → Bytes → Option (ℕ × ℕ)
one_or_more test s = let n = span test s in if n == 0 then none else some (0, n)

abbrev letters : RegexpPattern
letters = record {
  regexec = one_or_more (λ c. leb 97 c && leb c 122);
  keep = true;
  attr_name = some (codes "word");
}

abbrev digits_and_spaces : List RegexpPattern
digits_and_spaces =
    record { regexec = one_or_more (λ c. leb 48 c && leb c 57); keep = true; attr_name = none }
    ∷ record { regexec = one_or_more (λ c. c == 32); keep = false; attr_name = none }
    ∷ []

abbrev table : List RegexpPattern
table = letters ∷ digits_and_spaces

-- without patterns, the loop goes on
endless : tokenize [] (codes "foo") ≡ unfinished
unfolding tokenize tokenize_loop
endless = refl

abbrev word : Bytes → Elt
word s = record { str = s; attrs = some ((codes "word", 0) ∷ []) }

abbrev number : Bytes → Elt
number s = record { str = s; attrs = none }

abbrev expected : Strvec
expected =
    word (codes "foo") ∷ number (codes "324") ∷ word (codes "bar") ∷ number (codes "234") ∷ []

splits : tokenize table (codes "  foo 324 bar234") ≡ tokens expected
unfolding tokenize tokenize_loop find_match add_token token_attrs
splits = refl

-- a character that no pattern matches
refused : tokenize table (codes "foo-bar") ≡ null
unfolding tokenize tokenize_loop find_match add_token token_attrs
refused = refl

tokenize_iff_example :
    ((tokenize table (codes "  foo 324 bar234") ≡ tokens expected)
      ↔ Lexes table (codes "  foo 324 bar234") expected)
    × (tokenize table (codes "  foo 324 bar234") ≡ unfinished → ⊥)
tokenize_iff_example = tokenize_iff letters digits_and_spaces (codes "  foo 324 bar234") expected
