-- ===== src/Lexer/Scan.antt =====
-- lex.c: the state of the lexer and its tokens, and the routines that move `current`.
--
-- A pointer into the source is the list of the characters from it on, and reading behind them
-- gives the NUL that ends the source. The name of the module, which all locations share, is left
-- out. The names and suffixes that the code interns are their texts.
use sunder.Prelude.{
  ℕ, zero, suc, ◌+◌, ◌-◌, ◌*◌, List, [], ◌∷◌, Option, none, some, Bool, true, false,
}
use sunder.Prelude.{
  not, ◌&&◌, ◌||◌, ◌==◌, if◌then◌else◌, ◌>>=◌, length, get_or, take, drop, bit_or, u8, ◌^◌,
}
use sunder.Chars.{isspace, isalnum, isxdigit, isprint, ispunct}
use sunder.Bigint.Repr.{Bigint}
use sunder.Bigint.Text.{Radix, dec, bin, oct, hex, char_value}
use sunder.Lexer.Kind.{TokenKind, token_kind_vstr, token_eof}

pub record Lexer : Type 0 where
  pub current : List ℕ
  pub current_line : ℕ

pub record Location : Type 0 where
  pub line : ℕ
  pub psrc : List ℕ

-- The union `data` of `struct token`.
pub data TokenData (Double : Type 0) : Type 0 where
  no_data : TokenData Double
  identifier : List ℕ → TokenData Double
  integer : Bigint → List ℕ → TokenData Double
  ieee754 : Double → List ℕ → TokenData Double
  character : ℕ → TokenData Double
  bytes : List ℕ → TokenData Double

-- `text` stands for `start` and `count`.
pub record Token (Double : Type 0) : Type 0 where
  pub text : List ℕ
  pub location : Location
  pub kind : TokenKind
  pub contents : TokenData Double

-- `strncmp` of the C library with the length of the second text.
abbrev pub cstr_starts_with : List ℕ → List ℕ → Bool
cstr_starts_with cs [] = true
cstr_starts_with [] (t ∷ ts) = false
cstr_starts_with (c ∷ cs) (t ∷ ts) = c == t && cstr_starts_with cs ts

-- Equal counts and equal bytes.
abbrev pub same_text : List ℕ → List ℕ → Bool
same_text [] [] = true
same_text [] (t ∷ ts) = false
same_text (c ∷ cs) [] = false
same_text (c ∷ cs) (t ∷ ts) = c == t && same_text cs ts

-- `while (p(*self->current)) self->current += 1`, for a class `p` without NUL.
abbrev pub skip_while : (ℕ → Bool) → List ℕ → List ℕ
skip_while p [] = []
skip_while p (c ∷ cs) = let rest = skip_while p cs in if p c then rest else c ∷ cs

-- The characters from `start` up to `current`.
abbrev pub up_to : List ℕ → List ℕ → List ℕ
up_to start current = take (length start - length current) start

abbrev pub new : List ℕ → Lexer
new source = record { current = source; current_line = 1 }

unfoldable pub skip_space : List ℕ → ℕ → Lexer
unfolding isspace
skip_space [] line = record { current = []; current_line = line }
skip_space (c ∷ cs) line =
    let rest = skip_space cs (line + (if c == 10 then 1 else 0)) in
    if isspace c then rest else record { current = c ∷ cs; current_line = line }

abbrev pub skip_whitespace : Lexer → Lexer
skip_whitespace self = skip_space self.current self.current_line

-- The loop of `skip_comment`, with the end of the line behind it.
unfoldable pub skip_line : List ℕ → ℕ → Lexer
skip_line [] line = record { current = []; current_line = line }
skip_line (c ∷ cs) line =
    let rest = skip_line cs line in
    if c == 0
    then record { current = c ∷ cs; current_line = line }
    else if c == 10
    then record { current = cs; current_line = line + 1 }
    else rest

abbrev pub skip_comment : Lexer → Lexer
skip_comment self =
    if not (get_or self.current 0 0 == b'#') then self else skip_line self.current self.current_line

abbrev pub is_skipped : ℕ → Bool
is_skipped c = isspace c || c == b'#'

-- The loop of `skip_whitespace_and_comments`; a round takes one character at least.
abbrev pub skip_rounds : ℕ → Lexer → Lexer
skip_rounds zero self = self
skip_rounds (suc fuel) self =
    let rest = skip_rounds fuel (skip_comment (skip_whitespace self)) in
    if is_skipped (get_or self.current 0 0) then rest else self

unfoldable pub skip_whitespace_and_comments : Lexer → Lexer
unfolding skip_space skip_line isspace
skip_whitespace_and_comments self = skip_rounds (length self.current) self

-- The first of a range of kinds whose text passes the test.
abbrev pub find_kind : (List ℕ → Bool) → List TokenKind → Option TokenKind
find_kind p [] = none
find_kind p (k ∷ ks) = let rest = find_kind p ks in if p (token_kind_vstr k) then some k else rest

abbrev pub is_eof : TokenKind → Bool
is_eof token_eof = true
is_eof _ = false

-- The classes that the loops skip.
abbrev pub is_word : ℕ → Bool
is_word c = isalnum c || c == b'_'

-- The prefix of a number: its radix, and its digits.
abbrev pub number_prefix : List ℕ → Radix × List ℕ
number_prefix cs =
    if cstr_starts_with cs (b'0' ∷ b'b' ∷ [])
    then (bin, drop 2 cs)
    else if cstr_starts_with cs (b'0' ∷ b'o' ∷ [])
    then (oct, drop 2 cs)
    else if cstr_starts_with cs (b'0' ∷ b'x' ∷ [])
    then (hex, drop 2 cs)
    else (dec, cs)

abbrev pub is_decimal : Radix → Bool
is_decimal dec = true
is_decimal _ = false

-- A decimal point, and not an operator that begins with a dot.
unfoldable pub has_fraction : List ℕ → Bool
unfolding ispunct
has_fraction cs = get_or cs 0 0 == b'.' && not (ispunct (get_or cs 1 0))

abbrev pub skip_to : ℕ → ℕ → List ℕ → Option (ℕ × List ℕ)
skip_to result n cs = some (result, drop n cs)

-- The escape sequence at `current`, with its backslash.
unfoldable pub escape : List ℕ → Option (ℕ × List ℕ)
unfolding isxdigit char_value
escape cs =
    let c = get_or cs 1 0 in
    let high = get_or cs 2 0 in
    let low = get_or cs 3 0 in
    if c == b'0'
    then skip_to 0 2 cs
    else if c == b't'
    then skip_to 9 2 cs
    else if c == b'n'
    then skip_to 10 2 cs
    else if c == 39
    then skip_to 39 2 cs
    else if c == 34
    then skip_to 34 2 cs
    else if c == 92
    then skip_to 92 2 cs
    else if not (c == b'x')
    then none
    else if not (isxdigit high) || not (isxdigit low)
    then none
    else skip_to (bit_or (char_value high * 2 ^ 4) (char_value low)) 4 cs

unfoldable pub advance_character : List ℕ → Option (ℕ × List ℕ)
unfolding isprint escape
advance_character cs =
    if get_or cs 0 0 == 10
    then none
    else if not (isprint (get_or cs 0 0))
    then none
    else if not (get_or cs 0 0 == 92)
    then skip_to (get_or cs 0 0) 1 cs
    else escape cs

-- The loop of `lex_bytes` up to the closing quote; a round takes one character at least.
unfoldable pub bytes_loop : ℕ → List ℕ → Option (List ℕ × List ℕ)
unfolding advance_character
bytes_loop zero cs = none
bytes_loop (suc fuel) cs =
    let rest = advance_character cs >>= λ (c, cs').
    bytes_loop fuel cs' >>= λ (more, end). some (u8 c ∷ more, end) in
    if get_or cs 0 0 == 34 then some ([], cs) else rest
