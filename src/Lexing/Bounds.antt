-- ===== src/Lexing/Bounds.antt =====
-- What ec_strvec_sh_lex_str (src/strvec.c) promises of any line: it does not write past its
-- buffer, and the offsets that it attaches are in order and end at most one byte behind the line.
use libecoli.Base.{
  ℕ, suc, ◌+◌, ◌≤◌, ◌<◌, ◌≡◌, refl, Bytes, codes, Bool, ◌&&◌, ◌||◌, ◌==◌, leb, ltb, Bool-cases, inl,
  inr, Option, none, some, [], ◌∷◌, ◌++◌, length, length-append, length-take, take, arith,
}
use libecoli.Strvec.{Strvec}
use libecoli.Strvec.Lex.{
  CharClass, LexerState, Lexer, start, in_word, escaping, escaping_quoted, in_double_quotes,
  in_single_quotes, in_comment, space, single_quote, double_quote, backslash, pound, other,
  get_char_class, buf_size, append, dispatch, step_start, mark_start, step_word, step_double_quotes,
  step_single_quotes, loop, begin, is_open, is_in_word, add_token, last_token, finish, lexed,
  sh_lex_str,
}

-- From offset `low` on, the elements are spans of the line, one behind the other, that end by
-- `high`; each string fits the lexer's buffer with its NUL.
abbrev pub Spans : ℕ → Strvec → ℕ → Type 0
Spans low [] high = low ≤ high
Spans low (e ∷ vec) high =
    (first : ℕ) × (last : ℕ) × (e.attrs ≡ some ((codes "start", first) ∷ (codes "end", last) ∷ []))
    × (low ≤ first)
    × (first ≤ last)
    × (length e.str < buf_size)
    × Spans last vec high

Spans-le :
    (low : ℕ) (vec : Strvec) (high high' : ℕ)
    → Spans low vec high
    → high ≤ high'
    → Spans low vec high'
Spans-le low [] high high' h le = omega arith
Spans-le low (e ∷ vec) high high' (first, last, a, b, c, d, rest) le =
    (first, last, a, b, c, d, Spans-le last vec high high' rest le)

Spans-add_token :
    (low : ℕ) (vec : Strvec) (high : ℕ) (str : Bytes) (first last : ℕ)
    → Spans low vec high
    → high ≤ first
    → first ≤ last
    → length str < buf_size
    → Spans low (add_token vec str first last) last
unfolding add_token
Spans-add_token low [] high str first last h le le' fits =
    (first, last, refl, omega arith, le', fits, omega arith)
Spans-add_token low (e ∷ vec) high str first last (f, l, a, b, c, d, rest) le le' fits =
    (f, l, a, b, c, d, Spans-add_token l vec high str first last rest le le' fits)

-- The loop's invariant before byte `i`.
record Inv (i : ℕ) (l : Lexer) : Type 0 where
  spans : Spans 0 l.strvec l.arg_start
  begun : l.arg_start ≤ i
  fits : length l.token < buf_size

abbrev Ensures : ℕ → Option Lexer → Type 0
Ensures i none = Unit
Ensures i (some l) = Inv i l

append-fits :
    (t : ℕ) (tok : Bytes) (c : ℕ) → t + 1 < buf_size → length (take t tok ++ (c ∷ [])) < buf_size
append-fits t tok c room = omega (arith, length-append (take t tok) (c ∷ []), length-take t tok)

append-Ensures : (i : ℕ) (l : Lexer) (c : ℕ) → Inv i l → Ensures (suc i) (append l c)
unfolding append
append-Ensures i l c inv = elim (Bool-cases (leb buf_size (l.t + 1))) [
  | inl e ↦ rw e tt
  | inr e ↦ rw e (record {
    spans = inv.spans;
    begun = omega arith;
    fits = append-fits l.t l.token c (ground arith);
  })
]

mark_start-Ensures :
    (i : ℕ) (o : Option Lexer) (cls : CharClass)
    → Ensures (suc i) o
    → ((l : Lexer) → o ≡ some l → l.arg_start ≤ i)
    → Ensures (suc i) (mark_start o cls i)
unfolding mark_start
mark_start-Ensures i none cls inv h = tt
mark_start-Ensures i (some l) cls inv h = record {
  spans = Spans-le 0 l.strvec l.arg_start i inv.spans (h l refl);
  begun = omega arith;
  fits = inv.fits;
}

zero_plus : (i : ℕ) → 0 + i ≡ i
zero_plus i = omega arith

plus_zero : (i : ℕ) → i + 0 ≡ i
plus_zero i = omega arith

plus_suc : (i n : ℕ) → i + suc n ≡ suc i + n
plus_suc i n = omega arith

-- a step that leaves the spans, the token and the start alone
later :
    (i : ℕ) (l l' : Lexer)
    → Inv i l
    → l'.strvec ≡ l.strvec
    → l'.arg_start ≡ l.arg_start
    → l'.token ≡ l.token
    → Inv (suc i) l'
later i l l' inv a b c = record {
  spans = rw (a, b) inv.spans;
  begun = omega arith;
  fits = rw c inv.fits;
}

step_start-Ensures :
    (i : ℕ) (l : Lexer) (cls : CharClass) (c : ℕ) → Inv i l → Ensures (suc i) (step_start l cls c)
unfolding step_start
step_start-Ensures i l space c inv = later i l l inv refl refl refl
step_start-Ensures i l pound c inv = later i l _ inv refl refl refl
step_start-Ensures i l double_quote c inv = later i l _ inv refl refl refl
step_start-Ensures i l single_quote c inv = later i l _ inv refl refl refl
step_start-Ensures i l backslash c inv = later i l _ inv refl refl refl
step_start-Ensures i l other c inv =
    append-Ensures i (record l { state = in_word }) c
      (record { spans = inv.spans; begun = inv.begun; fits = inv.fits })

-- the start of a token moves only behind the inner switch of START
step_start-arg_start :
    (l l' : Lexer) (cls : CharClass) (c : ℕ)
    → step_start l cls c ≡ some l'
    → l'.arg_start ≡ l.arg_start
unfolding step_start
step_start-arg_start l l' space c h = ground arith
step_start-arg_start l l' _ c h = ground arith

step_word-Ensures :
    (i : ℕ) (l : Lexer) (cls : CharClass) (c : ℕ) → Inv i l → Ensures (suc i) (step_word l cls i c)
unfolding step_word
step_word-Ensures i l space c inv = record {
  spans =
      Spans-add_token 0 l.strvec l.arg_start l.token l.arg_start i inv.spans (omega arith) inv.begun
        inv.fits;
  begun = omega arith;
  fits = inv.fits;
}
step_word-Ensures i l double_quote c inv = later i l _ inv refl refl refl
step_word-Ensures i l single_quote c inv = later i l _ inv refl refl refl
step_word-Ensures i l backslash c inv = later i l _ inv refl refl refl
step_word-Ensures i l _ c inv = append-Ensures i l c inv

step_double_quotes-Ensures :
    (i : ℕ) (l : Lexer) (cls : CharClass) (c : ℕ)
    → Inv i l
    → Ensures (suc i) (step_double_quotes l cls c)
unfolding step_double_quotes
step_double_quotes-Ensures i l double_quote c inv = later i l _ inv refl refl refl
step_double_quotes-Ensures i l backslash c inv = later i l _ inv refl refl refl
step_double_quotes-Ensures i l _ c inv = append-Ensures i l c inv

step_single_quotes-Ensures :
    (i : ℕ) (l : Lexer) (cls : CharClass) (c : ℕ)
    → Inv i l
    → Ensures (suc i) (step_single_quotes l cls c)
unfolding step_single_quotes
step_single_quotes-Ensures i l single_quote c inv = later i l _ inv refl refl refl
step_single_quotes-Ensures i l _ c inv = append-Ensures i l c inv

dispatch-Ensures :
    (i : ℕ) (st : LexerState) (l : Lexer) (cls : CharClass) (c : ℕ)
    → Inv i l
    → Ensures (suc i) (dispatch st l cls i c)
unfolding dispatch
dispatch-Ensures i start l cls c inv =
    mark_start-Ensures i (step_start l cls c) cls (step_start-Ensures i l cls c inv)
      (λ l' e. omega (arith, step_start-arg_start l l' cls c e, inv.begun))
dispatch-Ensures i in_word l cls c inv = step_word-Ensures i l cls c inv
dispatch-Ensures i escaping l cls c inv =
    append-Ensures i (record l { state = in_word }) c
      (record { spans = inv.spans; begun = inv.begun; fits = inv.fits })
dispatch-Ensures i escaping_quoted l cls c inv =
    append-Ensures i (record l { state = in_double_quotes }) c
      (record { spans = inv.spans; begun = inv.begun; fits = inv.fits })
dispatch-Ensures i in_double_quotes l cls c inv = step_double_quotes-Ensures i l cls c inv
dispatch-Ensures i in_single_quotes l cls c inv = step_single_quotes-Ensures i l cls c inv
dispatch-Ensures i in_comment l cls c inv = elim (Bool-cases (c == 0x0a || c == 0x0d)) [
  | inl e ↦ rw e (later i l (record l { state = start }) inv refl refl refl)
  | inr e ↦ rw e (later i l l inv refl refl refl)
]

loop-Ensures : (l : Lexer) (i : ℕ) (str : Bytes) → Inv i l → Ensures (i + length str) (loop l i str)
unfolding loop
loop-Ensures l i [] inv = rw plus_zero inv
loop-Ensures l i (c ∷ str) inv =
    go (dispatch l.state l (get_char_class c) i c) refl
      (dispatch-Ensures i l.state l (get_char_class c) c inv) (λ l'. loop-Ensures l' (suc i) str)
  where
    go :
        (o : Option Lexer)
        → dispatch l.state l (get_char_class c) i c ≡ o
        → Ensures (suc i) o
        → ((l' : Lexer) → Inv (suc i) l' → Ensures (suc i + length str) (loop l' (suc i) str))
        → Ensures (i + length (c ∷ str)) (loop l i (c ∷ str))
    go none e h rest = rw (e, loop) tt
    go (some l') e h rest = rw (e, loop, plus_suc) (rest l' h)

last_token-Spans :
    (l : Lexer) (trailsp : Bool) (n : ℕ) → Inv n l → Spans 0 (last_token l trailsp n) (n + 1)
unfolding last_token
last_token-Spans l trailsp n inv = elim (Bool-cases (is_in_word l.state && ltb 0 l.t)) [
  | inl e ↦ rw e (
      Spans-le 0 _ n (n + 1)
        (Spans-add_token 0 l.strvec l.arg_start l.token l.arg_start n inv.spans (omega arith)
          inv.begun inv.fits)
        (omega arith))
  | inr e ↦ elim (Bool-cases (l.trailing_space && trailsp)) [
    | inl f ↦
        rw (e, f)
          (Spans-add_token 0 l.strvec l.arg_start [] (l.arg_start + 1) (n + 1) inv.spans
            (omega arith) (omega (arith, inv.begun)) (omega (arith, inv.fits)))
    | inr f ↦
        rw (e, f) (Spans-le 0 l.strvec l.arg_start (n + 1) inv.spans (omega (arith, inv.begun)))
  ]
]

finish-Spans :
    (l : Lexer) (strict trailsp : Bool) (n : ℕ) (vec : Strvec) (q : Option ℕ)
    → Inv n l
    → finish l strict trailsp n ≡ lexed vec q
    → Spans 0 vec (n + 1)
unfolding finish
finish-Spans l strict trailsp n vec q inv h = elim (Bool-cases (is_open l.state)) [
  | inl e ↦
      let l' = record l { state = in_word } in
      let same : last_token l' trailsp n ≡ vec = ground arith in
      rw (← same) (
        last_token-Spans l' trailsp n
          (record { spans = inv.spans; begun = inv.begun; fits = inv.fits }))
  | inr e ↦
      let same : last_token l trailsp n ≡ vec = ground arith in
      rw (← same) (last_token-Spans l trailsp n inv)
]

-- Any line that ec_strvec_sh_lex_str accepts gives elements whose offsets are in order, one span
-- behind the other, and end at most one byte behind the line; and every element's string is
-- shorter than the buffer. The uninitialised array has to hold a string that fits it.
pub sh_lex_str-Spans :
    (stack str : Bytes) (strict trailsp : Bool) (vec : Strvec) (q : Option ℕ)
    → length stack < buf_size
    → sh_lex_str stack str strict trailsp ≡ lexed vec q
    → Spans 0 vec (length str + 1)
unfolding sh_lex_str
sh_lex_str-Spans stack str strict trailsp vec q small h = go (loop (begin stack) 0 str) refl (
    loop-Ensures (begin stack) 0 str
      (record { spans = omega arith; begun = omega arith; fits = small }))
  where
    go :
        (o : Option Lexer)
        → loop (begin stack) 0 str ≡ o
        → Ensures (0 + length str) o
        → Spans 0 vec (length str + 1)
    go none e inv = absurd (ground arith)
    go (some l) e inv =
        finish-Spans l strict trailsp (length str) vec q (rw zero_plus at inv) (ground arith)
