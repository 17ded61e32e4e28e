-- ===== src/Strvec/Lex.antt =====
-- src/strvec.c, ec_strvec_sh_lex_str: the shell-like lexer, one function for each state.
use libecoli.Base.{
  ℕ, suc, ◌+◌, Bytes, codes, is_space, Bool, true, false, if◌then◌else◌, leb, ltb, ◌==◌, ◌&&◌, ◌||◌,
  Option, none, some, [], ◌∷◌, ◌++◌, take, length,
}
use libecoli.Strvec.{Strvec}

pub data CharClass : Type 0 where
  space single_quote double_quote backslash pound other : CharClass

pub data LexerState : Type 0 where
  start in_word escaping escaping_quoted : LexerState
  in_double_quotes in_single_quotes in_comment : LexerState

unfoldable pub get_char_class : ℕ → CharClass
unfolding is_space
get_char_class c =
    if c == 0x27
    then single_quote
    else if c == 0x22
    then double_quote
    else if c == 0x5c
    then backslash
    else if c == 0x23
    then pound
    else if is_space c
    then space
    else other

-- BUFSIZ of the C library
unfoldable pub buf_size : ℕ
buf_size = 8192

-- The local variables. `token` is the C string that the array holds: what stood on the stack,
-- until the first write.
pub record Lexer : Type 0 where
  pub state : LexerState
  pub trailing_space : Bool
  pub t : ℕ
  pub arg_start : ℕ
  pub token : Bytes
  pub quote : ℕ
  pub strvec : Strvec

-- The macro `append`; `none` is the jump to `fail` with ENOBUFS.
unfoldable pub append : Lexer → ℕ → Option Lexer
append l c =
    if leb buf_size (l.t + 1)
    then none
    else some (record l { token = take l.t l.token ++ (c ∷ []); t = l.t + 1 })

-- ec_strvec_add, then sh_lex_set_attrs on the new element
unfoldable pub add_token : Strvec → Bytes → ℕ → ℕ → Strvec
add_token vec str first last =
    vec
    ++ record { str = str; attrs = some ((codes "start", first) ∷ (codes "end", last) ∷ []) } ∷ []

unfoldable pub step_start : Lexer → CharClass → ℕ → Option Lexer
unfolding append
step_start l space c = some l
step_start l pound c = some (record l { state = in_comment })
step_start l double_quote c = some (record l { state = in_double_quotes; quote = c })
step_start l single_quote c = some (record l { state = in_single_quotes; quote = c })
step_start l backslash c = some (record l { state = escaping })
step_start l other c = append (record l { state = in_word }) c

-- `trailing_space = cls == SPACE`
unfoldable pub is_space_class : CharClass → Bool
is_space_class space = true
is_space_class _ = false

-- what follows the inner switch of START
unfoldable pub mark_start : Option Lexer → CharClass → ℕ → Option Lexer
unfolding is_space_class
mark_start none cls i = none
mark_start (some l) cls i = some (record l { trailing_space = is_space_class cls; arg_start = i })

unfoldable pub step_word : Lexer → CharClass → ℕ → ℕ → Option Lexer
unfolding append add_token
step_word l space i c = some (record {
  state = start;
  trailing_space = true;
  t = 0;
  arg_start = i;
  token = l.token;
  quote = 0;
  strvec = add_token l.strvec l.token l.arg_start i;
})
step_word l double_quote i c = some (record l { state = in_double_quotes })
step_word l single_quote i c = some (record l { state = in_single_quotes })
step_word l backslash i c = some (record l { state = escaping })
step_word l _ i c = append l c

unfoldable pub step_double_quotes : Lexer → CharClass → ℕ → Option Lexer
unfolding append
step_double_quotes l double_quote c = some (record l { state = in_word })
step_double_quotes l backslash c = some (record l { state = escaping_quoted })
step_double_quotes l _ c = append l c

unfoldable pub step_single_quotes : Lexer → CharClass → ℕ → Option Lexer
unfolding append
step_single_quotes l single_quote c = some (record l { state = in_word })
step_single_quotes l _ c = append l c

-- the switch on the state
unfoldable pub dispatch : LexerState → Lexer → CharClass → ℕ → ℕ → Option Lexer
unfolding step_start mark_start step_word step_double_quotes step_single_quotes append
dispatch start l cls i c = mark_start (step_start l cls c) cls i
dispatch in_word l cls i c = step_word l cls i c
dispatch escaping l cls i c = append (record l { state = in_word }) c
dispatch escaping_quoted l cls i c = append (record l { state = in_double_quotes }) c
dispatch in_double_quotes l cls i c = step_double_quotes l cls c
dispatch in_single_quotes l cls i c = step_single_quotes l cls c
dispatch in_comment l cls i c =
    if c == 0x0a || c == 0x0d then some (record l { state = start }) else some l

-- The loop over the bytes of `str`, from index `i`.
unfoldable pub loop : Lexer → ℕ → Bytes → Option Lexer
unfolding dispatch get_char_class
loop l i [] = some l
loop l i (c ∷ str) = elim (dispatch l.state l (get_char_class c) i c) [
  | none ↦ none
  | some l' ↦ loop l' (suc i) str
]

-- `lexed` has the vector and what is written through `missing_quote`, if anything is.
pub data Lexed : Type 0 where
  lexed : Strvec → Option ℕ → Lexed
  bad_msg : ℕ → Lexed
  no_bufs : Lexed

-- Did the string end inside quotes or an escape?
unfoldable pub is_open : LexerState → Bool
is_open start = false
is_open in_word = false
is_open in_comment = false
is_open _ = true

unfoldable pub is_in_word : LexerState → Bool
is_in_word in_word = true
is_in_word _ = false

-- the last token, or the empty one for trailing white space; `i` is strlen(str)
unfoldable pub last_token : Lexer → Bool → ℕ → Strvec
unfolding add_token is_in_word
last_token l trailsp i =
    if is_in_word l.state && ltb 0 l.t
    then add_token l.strvec l.token l.arg_start i
    else if l.trailing_space && trailsp
    then add_token l.strvec [] (l.arg_start + 1) (i + 1)
    else l.strvec

-- what follows the loop
unfoldable pub finish : Lexer → Bool → Bool → ℕ → Lexed
unfolding is_open last_token
finish l strict trailsp i =
    if is_open l.state
    then (if strict
        then bad_msg l.quote
        else lexed (last_token (record l { state = in_word }) trailsp i) (some l.quote))
    else lexed (last_token l trailsp i) none

abbrev pub begin : Bytes → Lexer
begin stack = record {
  state = start;
  trailing_space = true;
  t = 0;
  arg_start = 0;
  token = stack;
  quote = 0;
  strvec = [];
}

-- `stack` is what the token array holds at the call; `strict` and `trailsp` are the two flags.
unfoldable pub sh_lex_str : Bytes → Bytes → Bool → Bool → Lexed
unfolding finish loop
sh_lex_str stack str strict trailsp = elim (loop (begin stack) 0 str) [
  | none ↦ no_bufs
  | some l ↦ finish l strict trailsp (length str)
]
