-- ===== src/Tests/Lexing.antt =====
-- test/strvec.c: the lexer on concrete lines.
use libecoli.Base.{codes, ◌≡◌, refl, true, false, some, none, [], ◌∷◌, Bytes, List, map}
use libecoli.Strvec.{Strvec}
use libecoli.Strvec.Lex.{Lexed, lexed, bad_msg, sh_lex_str, buf_size}

strings : Lexed → List Bytes
strings (lexed vec q) = map (λ e. e.str) vec
strings _ = []

comment :
    strings (sh_lex_str [] (codes "  a    b\tc d   # comment") true false)
    ≡ codes "a" ∷ codes "b" ∷ codes "c" ∷ codes "d" ∷ []
unfolding strings sh_lex_str buf_size
comment = refl

escapes :
    strings (sh_lex_str [] (codes "a  b\\ e  \"c \\\" d\" ") true false)
    ≡ codes "a" ∷ codes "b e" ∷ codes "c \" d" ∷ []
unfolding strings sh_lex_str buf_size
escapes = refl

unclosed : sh_lex_str [] (codes "a  b  'c  d ") true false ≡ bad_msg 0x27
unfolding sh_lex_str buf_size
unclosed = refl

trailing :
    strings (sh_lex_str [] (codes "  a  b   c  d  ") false true)
    ≡ codes "a" ∷ codes "b" ∷ codes "c" ∷ codes "d" ∷ [] ∷ []
unfolding strings sh_lex_str buf_size
trailing = refl

-- the elements of a line of two words and a trailing space, with their offsets
abbrev pub trailing_vec : Strvec
trailing_vec =
    record { str = codes "a"; attrs = some ((codes "start", 1) ∷ (codes "end", 2) ∷ []) }
    ∷ record { str = codes "b c"; attrs = some ((codes "start", 3) ∷ (codes "end", 8) ∷ []) }
    ∷ record { str = []; attrs = some ((codes "start", 9) ∷ (codes "end", 10) ∷ []) }
    ∷ []

pub trailing_line : sh_lex_str [] (codes " a 'b c' ") false true ≡ lexed trailing_vec none
unfolding sh_lex_str buf_size
trailing_line = refl
