-- ===== src/Lexing/Quirks.antt =====
-- An empty quoted word in ec_strvec_sh_lex_str (src/strvec.c): the token array is not
-- terminated where a token starts, so the string that is added is the one before.
use libecoli.Base.{
  ℕ, suc, ◌+◌, ◌≡◌, refl, ap, ◌∙◌, Bytes, Bool, true, false, none, [], ◌∷◌, ◌++◌, length, arith,
}
use libecoli.Strvec.{Strvec}
use libecoli.Strvec.Lex.{start, loop, add_token, finish, lexed, sh_lex_str}
use libecoli.Lexing.Quoted.{lexer_at}
use libecoli.Lexing.RoundTrip.{quoted, IsWord, quoted_word, word_space, outcome, sh_lex_str-outcome}

empty_word :
    (strict : Bool) (first : ℕ) (vec : Strvec) (w : Bytes) (i n : ℕ)
    → outcome strict false n
        (loop (lexer_at start true 0 first w 0 vec) i (0x22 ∷ 0x22 ∷ 0x20 ∷ []))
      ≡ lexed (add_token vec w i (suc (suc i))) none
unfolding loop finish
empty_word strict first vec w i n = refl

-- Without TRAILSP, a line of a quoted word `w`, a space, an empty pair of double quotes and a space
-- gives `w` twice, and not `w` and the empty string. The word is not empty, has no character that is
-- escaped in hexadecimal, and is shorter than the lexer's buffer.
pub sh_lex_str-empty_word :
    (stack w : Bytes) (strict : Bool)
    → IsWord w
    → let n = length (quoted w) in
      sh_lex_str stack (quoted w ++ (0x20 ∷ 0x22 ∷ 0x22 ∷ 0x20 ∷ [])) strict false
      ≡ lexed (add_token (add_token [] w 0 n) w (suc n) (suc (suc (suc n)))) none
sh_lex_str-empty_word stack w strict ok =
    let n = length (quoted w) in
    let line = quoted w ++ (0x20 ∷ 0x22 ∷ 0x22 ∷ 0x20 ∷ []) in
    let zero_plus : 0 + n ≡ n = omega arith in
    sh_lex_str-outcome stack line strict false
    ∙ ap (outcome strict false (length line)) (
        (rw zero_plus at (quoted_word true 0 0 [] stack 0 w (0x20 ∷ 0x22 ∷ 0x22 ∷ 0x20 ∷ []) ok))
        ∙ word_space w 0 [] n (0x22 ∷ 0x22 ∷ 0x20 ∷ []))
    ∙ empty_word strict n (add_token [] w 0 n) w (suc n) (length line)
