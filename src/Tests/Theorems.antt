-- ===== src/Tests/Theorems.antt =====
-- The theorems at concrete inputs.
use libecoli.Base.{
  is_print, zero, suc, ◌-◌, ◌+◌, ◌<◌, ◌≡◌, ◌≢◌, ◌↔◌, inl, refl, codes, Bytes, true, false, none, [],
  ◌∷◌, ◌++◌, length, arith,
}
use libecoli.Strvec.Lex.{buf_size, lexed, sh_lex_str, add_token}
use libecoli.Str.{str_startswith}
use libecoli.Str.Prefix.{str_startswith_iff}
use libecoli.Lexing.{IsWord, line, quoted, tokens, sh_lex_str-line, Spans, sh_lex_str-Spans}
use libecoli.Lexing.Quirks.{sh_lex_str-empty_word}
use libecoli.Node.{children, too_deep, parse_strvec}
use libecoli.Total.{IsRanked, parse_strvec-ne-too_deep}
use libecoli.Tests.Parsing.{greeter, words}
use libecoli.Tests.Lexing.{trailing_vec, trailing_line}

pub greeter-IsRanked : IsRanked greeter (λ n. 9 - n)
unfolding children
greeter-IsRanked zero = omega arith
greeter-IsRanked (suc zero) = omega arith
greeter-IsRanked (suc (suc zero)) = omega arith
greeter-IsRanked (suc (suc (suc zero))) = omega arith
greeter-IsRanked (suc (suc (suc (suc zero)))) = tt
greeter-IsRanked (suc (suc (suc (suc (suc zero))))) = tt
greeter-IsRanked (suc (suc (suc (suc (suc (suc zero)))))) = tt
greeter-IsRanked (suc (suc (suc (suc (suc (suc (suc zero))))))) = omega arith
greeter-IsRanked (suc (suc (suc (suc (suc (suc (suc (suc zero)))))))) = tt
greeter-IsRanked (suc (suc (suc (suc (suc (suc (suc (suc (suc n))))))))) = tt

parse_strvec-ne-too_deep_example :
    parse_strvec greeter 10 0 (words (codes "hello \"John D\"" ∷ [])) ≢ too_deep
parse_strvec-ne-too_deep_example =
    parse_strvec-ne-too_deep greeter (λ n. 9 - n) 10 0 (words (codes "hello \"John D\"" ∷ []))
      greeter-IsRanked (omega arith)

ab : IsWord (codes "a \"b")
unfolding buf_size is_print
ab = ((λ e. cc), (inl refl, (inl refl, (inl refl, (inl refl, tt)))), omega arith)

c : IsWord (codes "\\c'")
unfolding buf_size is_print
c = ((λ e. cc), (inl refl, (inl refl, (inl refl, tt))), omega arith)

sh_lex_str-line_example :
    sh_lex_str [] (line (codes "a \"b" ∷ codes "\\c'" ∷ [])) true true
    ≡ lexed (tokens 0 [] (codes "a \"b" ∷ codes "\\c'" ∷ [])) none
sh_lex_str-line_example =
    sh_lex_str-line true true [] (codes "a \"b") (codes "\\c'" ∷ []) (ab, (c, tt))

sh_lex_str-empty_word_example :
    sh_lex_str (codes "junk") (quoted (codes "\\c'") ++ (0x20 ∷ 0x22 ∷ 0x22 ∷ 0x20 ∷ [])) true false
    ≡ lexed
        (add_token
          (add_token [] (codes "\\c'") 0 (length (quoted (codes "\\c'"))))
          (codes "\\c'")
          (suc (length (quoted (codes "\\c'"))))
          (suc (suc (suc (length (quoted (codes "\\c'")))))))
        none
sh_lex_str-empty_word_example = sh_lex_str-empty_word (codes "junk") (codes "\\c'") true c

str_startswith_iff_example :
    (str_startswith (codes "history") (codes "hist") ≡ true)
    ↔ ((rest : Bytes) × (codes "history" ≡ codes "hist" ++ rest))
str_startswith_iff_example = str_startswith_iff (codes "history") (codes "hist") (omega arith)

sh_lex_str-Spans_example : Spans 0 trailing_vec (length (codes " a 'b c' ") + 1)
sh_lex_str-Spans_example =
    sh_lex_str-Spans [] (codes " a 'b c' ") false true trailing_vec none room trailing_line
  where
    room : 0 < buf_size
    room = unfold buf_size in omega arith
