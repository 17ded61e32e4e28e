-- ===== src/Lexing/RoundTrip.antt =====
-- A line of words quoted by ec_str_quote (src/string.c) is lexed back into the words
-- (src/strvec.c).
use libecoli.Base.{
  ℕ, suc, ◌+◌, ◌<◌, ◌≡◌, ◌≢◌, refl, ◌∙◌, Bytes, Bool, true, false, Option, none, some, List, [],
  ◌∷◌, ◌++◌, append_assoc, append-nil, length, length-append, arith, All,
}
use libecoli.Strvec.{Strvec}
use libecoli.Strvec.Lex.{
  Lexer, start, in_word, in_double_quotes, buf_size, loop, add_token, finish, Lexed, lexed, no_bufs,
  sh_lex_str,
}
use libecoli.Str.{quote_char, quote_body, str_quote}
use libecoli.Lexing.Quoted.{IsPlain, lexer_at, quoted_char, quoted_body}

-- ec_str_quote with double quotes
abbrev pub quoted : Bytes → Bytes
quoted w = str_quote w 0x22 true

-- the words in quotes, with a space between two of them
pub line : List Bytes → Bytes
line [] = []
line (w ∷ []) = quoted w
line (w ∷ x ∷ ws) = quoted w ++ (0x20 ∷ line (x ∷ ws))

-- The elements that the words become, where the line stands at offset `i`: each with the
-- offsets of its first byte and of the byte behind it.
pub tokens : ℕ → Strvec → List Bytes → Strvec
tokens i vec [] = vec
tokens i vec (w ∷ ws) =
    tokens (suc (i + length (quoted w))) (add_token vec w i (i + length (quoted w))) ws

-- A word that the lexer keeps: not empty, short enough for its buffer, and written by
-- ec_str_quote without hexadecimal escapes.
abbrev pub IsWord : Bytes → Type 0
IsWord w = (w ≢ []) × All IsPlain w × (length w < buf_size)

quoted_lem : (w : Bytes) → quoted w ≡ 0x22 ∷ (quote_body 0x22 w ++ (0x22 ∷ []))
unfolding str_quote
quoted_lem w = refl

quote_body-cons :
    (c : ℕ) (s : Bytes) → quote_body 0x22 (c ∷ s) ≡ quote_char 0x22 c ++ quote_body 0x22 s
unfolding quote_body
quote_body-cons c s = refl

quoted-append :
    (c : ℕ) (s rest : Bytes)
    → quoted (c ∷ s) ++ rest ≡ 0x22 ∷ (quote_char 0x22 c ++ (quote_body 0x22 s ++ (0x22 ∷ rest)))
quoted-append c s rest = rw (quoted_lem, quote_body-cons) (simp append_assoc)

length-quoted :
    (i c : ℕ) (s : Bytes)
    → suc (suc i + length (quote_char 0x22 c) + length (quote_body 0x22 s))
      ≡ i + length (quoted (c ∷ s))
length-quoted i c s = rw (quoted_lem, quote_body-cons, length-append, length-append) (omega arith)

open_quote :
    (sp : Bool) (first q : ℕ) (vec : Strvec) (tok : Bytes) (i : ℕ) (rest : Bytes)
    → loop (lexer_at start sp 0 first tok q vec) i (0x22 ∷ rest)
      ≡ loop (lexer_at in_double_quotes false 0 i tok 0x22 vec) (suc i) rest
unfolding loop
open_quote sp first q vec tok i rest = refl

close_quote :
    (sp : Bool) (t first q : ℕ) (vec : Strvec) (tok : Bytes) (i : ℕ) (rest : Bytes)
    → loop (lexer_at in_double_quotes sp t first tok q vec) i (0x22 ∷ rest)
      ≡ loop (lexer_at in_word sp t first tok q vec) (suc i) rest
unfolding loop
close_quote sp t first q vec tok i rest = refl

pub quoted_word :
    (sp : Bool) (first q : ℕ) (vec : Strvec) (tok : Bytes) (i : ℕ) (w rest : Bytes)
    → IsWord w
    → loop (lexer_at start sp 0 first tok q vec) i (quoted w ++ rest)
      ≡ loop (lexer_at in_word false (length w) i w 0x22 vec) (i + length (quoted w)) rest
quoted_word sp first q vec tok i [] rest h = absurd (h.0 refl)
quoted_word sp first q vec tok i (c ∷ s) rest (nonempty, plain, room) =
    let a = length (quote_char 0x22 c) in
    rw (quoted-append c s rest, ← length-quoted i c s)
      (open_quote sp first q vec tok i (quote_char 0x22 c ++ (quote_body 0x22 s ++ (0x22 ∷ rest)))
        ∙ quoted_char false i 0x22 vec 0 tok (suc i) c (quote_body 0x22 s ++ (0x22 ∷ rest)) plain.0
            (omega arith)
        ∙ quoted_body false i 0x22 vec (c ∷ []) s (suc i + a) (0x22 ∷ rest) plain.1 (omega arith)
        ∙ close_quote false (suc (length s)) i 0x22 vec (c ∷ s)
            (suc i + a + length (quote_body 0x22 s)) rest)

-- the space behind a word
pub word_space :
    (w : Bytes) (first : ℕ) (vec : Strvec) (i : ℕ) (rest : Bytes)
    → loop (lexer_at in_word false (length w) first w 0x22 vec) i (0x20 ∷ rest)
      ≡ loop (lexer_at start true 0 i w 0 (add_token vec w first i)) (suc i) rest
unfolding loop
word_space w first vec i rest = refl

-- the end of the line behind a word
finish-word :
    (w : Bytes) (first : ℕ) (vec : Strvec) (strict trailsp : Bool) (n : ℕ)
    → w ≢ []
    → finish (lexer_at in_word false (length w) first w 0x22 vec) strict trailsp n
      ≡ lexed (add_token vec w first n) none
unfolding finish
finish-word [] first vec strict trailsp n h = absurd (h refl)
finish-word (c ∷ s) first vec strict trailsp n h = ground arith

-- what ec_strvec_sh_lex_str makes of the loop's end
abbrev pub outcome : Bool → Bool → ℕ → Option Lexer → Lexed
outcome strict trailsp n none = no_bufs
outcome strict trailsp n (some l) = finish l strict trailsp n

last_word :
    (strict trailsp : Bool) (w : Bytes) (first : ℕ) (vec : Strvec) (n : ℕ)
    → w ≢ []
    → outcome strict trailsp n (loop (lexer_at in_word false (length w) first w 0x22 vec) n [])
      ≡ lexed (add_token vec w first n) none
unfolding loop
last_word strict trailsp w first vec n h = finish-word w first vec strict trailsp n h

pub sh_lex_str-outcome :
    (stack s : Bytes) (strict trailsp : Bool)
    → sh_lex_str stack s strict trailsp
      ≡ outcome strict trailsp (length s) (loop (lexer_at start true 0 0 stack 0 []) 0 s)
unfolding sh_lex_str
sh_lex_str-outcome stack s strict trailsp = ground arith

module _ (strict trailsp : Bool) where
  loop-line :
      (sp : Bool) (first q : ℕ) (vec : Strvec) (tok : Bytes) (i : ℕ) (w : Bytes) (ws : List Bytes)
      → All IsWord (w ∷ ws)
      → outcome strict trailsp
          (i + length (line (w ∷ ws)))
          (loop (lexer_at start sp 0 first tok q vec) i (line (w ∷ ws)))
        ≡ lexed (tokens i vec (w ∷ ws)) none
  unfolding line tokens
  loop-line sp first q vec tok i w [] (ok, none_left) =
      let run = quoted_word sp first q vec tok i w [] ok in
      rw (rw append-nil at run) (last_word strict trailsp w i vec (i + length (quoted w)) ok.0)
  loop-line sp first q vec tok i w (x ∷ ws) (ok, oks) =
      let n = i + length (quoted w) in
      let shift : i + length (quoted w ++ (0x20 ∷ line (x ∷ ws))) ≡ suc n + length (line (x ∷ ws)) =
        rw length-append (omega arith) in
      rw (shift, quoted_word sp first q vec tok i w (0x20 ∷ line (x ∷ ws)) ok, word_space)
        (loop-line true n 0 (add_token vec w i n) w (suc n) x ws oks)

  -- Words that are quoted by ec_str_quote with double quotes, and joined by spaces, are lexed back
  -- into the words, each with its offsets, whatever the flags and whatever stood on the stack. The
  -- words are at least one, not empty, without characters that are escaped in hexadecimal, and
  -- shorter than the lexer's buffer.
  pub sh_lex_str-line :
      (stack w : Bytes) (ws : List Bytes)
      → All IsWord (w ∷ ws)
      → sh_lex_str stack (line (w ∷ ws)) strict trailsp ≡ lexed (tokens 0 [] (w ∷ ws)) none
  sh_lex_str-line stack w ws ok =
      let e : 0 + length (line (w ∷ ws)) ≡ length (line (w ∷ ws)) = omega arith in
      sh_lex_str-outcome stack (line (w ∷ ws)) strict trailsp
      ∙ (rw e at (loop-line true 0 0 [] stack 0 w ws ok))
