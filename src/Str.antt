-- ===== src/Str.antt =====
-- src/string.c: functions on C strings.
use libecoli.Base.{
  ℕ, zero, suc, ◌+◌, ◌*◌, ◌/◌, ◌%◌, Bytes, is_space, is_print, Bool, true, false, not, ◌&&◌, ◌||◌,
  if◌then◌else◌, ltb, ◌==◌, [], ◌∷◌, ◌++◌,
}
pub mod Prefix

-- ec_strcmp_count: the loop stops at the first NUL or difference
unfoldable pub strcmp_count : Bytes → Bytes → ℕ
strcmp_count [] t = 0
strcmp_count (a ∷ s) [] = 0
strcmp_count (a ∷ s) (b ∷ t) = let n = strcmp_count s t in if a == b then suc n else 0

-- `s[i]`, with the final NUL
unfoldable pub char_at : Bytes → ℕ → ℕ
char_at [] i = 0
char_at (c ∷ s) zero = c
char_at (c ∷ s) (suc i) = char_at s i

-- ec_str_startswith
unfoldable pub str_startswith : Bytes → Bytes → Bool
unfolding strcmp_count char_at
str_startswith s beginning = char_at beginning (strcmp_count s beginning) == 0

-- ec_str_is_space
unfoldable pub str_is_space : Bytes → Bool
unfolding is_space
str_is_space [] = true
str_is_space (c ∷ s) = is_space c && str_is_space s

-- strchr(str, c) != NULL
unfoldable pub has_char : Bytes → ℕ → Bool
has_char [] c = false
has_char (d ∷ s) c = d == c || has_char s c

-- a digit of `%2.2x`
unfoldable pub hex_digit : ℕ → ℕ
hex_digit d = if ltb d 10 then 0x30 + d else 0x57 + d

-- the loop of ec_str_quote: the bytes written for one character
unfoldable pub quote_char : ℕ → ℕ → Bytes
unfolding is_print hex_digit
quote_char quote c =
    if c == quote
    then 0x5c ∷ quote ∷ []
    else if c == 0x5c
    then 0x5c ∷ 0x5c ∷ []
    else if not (is_print c) && not (c == 0x0a)
    then 0x5c ∷ 0x78 ∷ hex_digit (c / 16) ∷ hex_digit (c % 16) ∷ []
    else c ∷ []

unfoldable pub quote_body : ℕ → Bytes → Bytes
unfolding quote_char
quote_body quote [] = []
quote_body quote (c ∷ s) = quote_char quote c ++ quote_body quote s

-- the first loop: does a character need quotes?
unfoldable pub needs_quote : ℕ → Bytes → Bool
unfolding is_space is_print
needs_quote quote [] = false
needs_quote quote (c ∷ s) =
    (is_space c || not (is_print c) || c == 0x22 || c == 0x27 || c == quote) || needs_quote quote s

-- the quote character that is used
unfoldable pub pick_quote : ℕ → Bytes → ℕ
unfolding has_char
pick_quote quote s = if quote == 0 then (if has_char s 0x22 then 0x27 else 0x22) else quote

-- ec_str_quote
unfoldable pub str_quote : Bytes → ℕ → Bool → Bytes
unfolding quote_body needs_quote pick_quote
str_quote s quote force =
    let quote' = pick_quote quote s in
    if not force && not (needs_quote quote s)
    then s
    else (quote' ∷ quote_body quote' s) ++ (quote' ∷ [])
