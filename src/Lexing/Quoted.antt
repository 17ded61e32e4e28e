-- ===== src/Lexing/Quoted.antt =====
-- What ec_str_quote (src/string.c) writes in double quotes, ec_strvec_sh_lex_str
-- (src/strvec.c) reads back.
use libecoli.Base.{
  ℕ, suc, ◌+◌, ◌<◌, ◌≡◌, ◌≢◌, ◌⊎◌, inl, inr, sym, ◌∙◌, Bytes, is_print, Bool, true, some, [], ◌∷◌,
  ◌++◌, append_assoc, append-nil, length, length-append, take, take_all, arith, All,
}
use libecoli.Strvec.{Strvec}
use libecoli.Strvec.Lex.{
  LexerState, Lexer, in_double_quotes, get_char_class, buf_size, append, dispatch, loop,
}
use libecoli.Str.{quote_char, quote_body}

-- a character that ec_str_quote does not write in hexadecimal
abbrev pub IsPlain : ℕ → Type 0
IsPlain c = (is_print c ≡ true) ⊎ (c ≡ 0x0a)

abbrev pub lexer_at : LexerState → Bool → ℕ → ℕ → Bytes → ℕ → Strvec → Lexer
lexer_at st sp t first tok q vec = record {
  state = st;
  trailing_space = sp;
  t = t;
  arg_start = first;
  token = tok;
  quote = q;
  strvec = vec;
}

append_fits :
    (l : Lexer) (c : ℕ)
    → l.t + 1 < buf_size
    → append l c ≡ some (record l { token = take l.t l.token ++ (c ∷ []); t = l.t + 1 })
unfolding append
append_fits l c room = ground arith

-- Between double quotes only the quote and the backslash are special.
dispatch-neutral :
    (l : Lexer) (i c : ℕ)
    → c ≢ 0x22
    → c ≢ 0x5c
    → dispatch in_double_quotes l (get_char_class c) i c ≡ append l c
unfolding dispatch get_char_class
dispatch-neutral l i c a b = ground arith

quote_char-cases :
    (c : ℕ)
    → IsPlain c
    → ((c ≡ 0x22) × (quote_char 0x22 c ≡ 0x5c ∷ 0x22 ∷ []))
      ⊎ ((c ≡ 0x5c) × (quote_char 0x22 c ≡ 0x5c ∷ 0x5c ∷ []))
      ⊎ ((c ≢ 0x22) × (c ≢ 0x5c) × (quote_char 0x22 c ≡ c ∷ []))
unfolding quote_char
quote_char-cases c plain = ground arith

plus_zero : (i : ℕ) → i + 0 ≡ i
plus_zero i = omega arith

add_assoc : (a b c : ℕ) → (a + b) + c ≡ a + (b + c)
add_assoc a b c = omega arith

plus_one : (i : ℕ) → i + 1 ≡ suc i
plus_one i = omega arith

plus_two : (i : ℕ) → i + 2 ≡ suc (suc i)
plus_two i = omega arith

module _ (sp : Bool) (first q : ℕ) (vec : Strvec) where
  quoted_pair :
      (t : ℕ) (tok : Bytes) (i c : ℕ) (rest : Bytes)
      → t + 1 < buf_size
      → loop (lexer_at in_double_quotes sp t first tok q vec) i (0x5c ∷ c ∷ rest)
        ≡ loop
            (lexer_at in_double_quotes sp (t + 1) first (take t tok ++ (c ∷ [])) q vec)
            (i + 2)
            rest
  unfolding loop
  quoted_pair t tok i c rest room = rw (plus_two i) (ground arith)

  quoted_neutral :
      (t : ℕ) (tok : Bytes) (i c : ℕ) (rest : Bytes)
      → t + 1 < buf_size
      → c ≢ 0x22
      → c ≢ 0x5c
      → loop (lexer_at in_double_quotes sp t first tok q vec) i (c ∷ rest)
        ≡ loop
            (lexer_at in_double_quotes sp (t + 1) first (take t tok ++ (c ∷ [])) q vec)
            (i + 1)
            rest
  unfolding loop
  quoted_neutral t tok i c rest room a b =
      let l = lexer_at in_double_quotes sp t first tok q vec in
      rw (plus_one i, dispatch-neutral l i c a b, append_fits l c room, loop)

  -- One character of the text, as it stands between double quotes, is appended to the token.
  pub quoted_char :
      (t : ℕ) (tok : Bytes) (i c : ℕ) (rest : Bytes)
      → IsPlain c
      → t + 1 < buf_size
      → loop (lexer_at in_double_quotes sp t first tok q vec) i (quote_char 0x22 c ++ rest)
        ≡ loop
            (lexer_at in_double_quotes sp (t + 1) first (take t tok ++ (c ∷ [])) q vec)
            (i + length (quote_char 0x22 c))
            rest
  quoted_char t tok i c rest plain room = elim (quote_char-cases c plain) [
    | inl (e, w) ↦ rw w (rw e (quoted_pair t tok i 0x22 rest room))
    | inr (inl (e, w)) ↦ rw w (rw e (quoted_pair t tok i 0x5c rest room))
    | inr (inr (a, b, w)) ↦ rw w (quoted_neutral t tok i c rest room a b)
  ]

  -- The whole text, after a token that holds `acc`.
  pub quoted_body :
      (acc s : Bytes) (i : ℕ) (rest : Bytes)
      → All IsPlain s
      → length acc + length s < buf_size
      → loop
          (lexer_at in_double_quotes sp (length acc) first acc q vec)
          i
          (quote_body 0x22 s ++ rest)
        ≡ loop
            (lexer_at in_double_quotes sp (length (acc ++ s)) first (acc ++ s) q vec)
            (i + length (quote_body 0x22 s))
            rest
  unfolding quote_body
  quoted_body acc [] i rest plain room = rw (append-nil acc, plus_zero i)
  quoted_body acc (c ∷ s) i rest plain room =
      let acc' = acc ++ (c ∷ []) in
      let longer : length acc + 1 ≡ length acc' = sym (length-append acc (c ∷ [])) in
      let first_char =
        quoted_char (length acc) acc i c (quote_body 0x22 s ++ rest) plain.0 (omega arith) in
      let others =
        quoted_body acc' s (i + length (quote_char 0x22 c)) rest plain.1 (omega (arith, longer)) in
      let whole : length (quote_char 0x22 c ++ quote_body 0x22 s)
          ≡ length (quote_char 0x22 c) + length (quote_body 0x22 s) =
        length-append (quote_char 0x22 c) (quote_body 0x22 s) in
      rw (append_assoc (quote_char 0x22 c) (quote_body 0x22 s) rest, whole)
        ((rw (take_all acc, longer) at first_char)
          ∙ (rw
              (
                append_assoc acc (c ∷ []) s,
                add_assoc i (length (quote_char 0x22 c)) (length (quote_body 0x22 s)),
              )
              at others))
