-- ===== src/Lexer.antt =====
-- lex.c: the tokens. `strtod` of the C library is a parameter.
pub mod Kind
pub mod Scan
pub mod Munch
pub mod Skip
pub mod Escape
pub mod Bytes
mod Examples
use sunder.Prelude.{
  ℕ, zero, suc, ◌+◌, ◌-◌, ◌*◌, List, [], ◌∷◌, Option, none, some, Bool, true, false,
}
use sunder.Prelude.{
  not, ◌&&◌, ◌||◌, ◌==◌, leb, if◌then◌else◌, ◌>>=◌, ◌>>◌, assert, length, get_or, take, drop,
  bit_or, u8, ◌^◌,
}
use sunder.Chars.{isspace, isalpha, isalnum, isdigit, isxdigit, isprint, ispunct}
use sunder.Bigint.Repr.{Bigint}
use sunder.Bigint.Text.{Radix, dec, bin, oct, hex, radix_isdigit, char_value, new_text}
use sunder.Lexer.Kind.{
  TokenKind, token_kind_vstr, keywords, sigils, token_identifier, token_integer, token_ieee754,
  token_character, token_bytes, token_eof,
}
use sunder.Lexer.Scan.{
  Lexer, Location, TokenData, Token, cstr_starts_with, same_text, skip_while, up_to, new,
  skip_space, skip_whitespace, skip_line, skip_comment, is_skipped, skip_rounds,
  skip_whitespace_and_comments, find_kind, is_eof, is_word, number_prefix, is_decimal, has_fraction,
  skip_to, escape, advance_character, bytes_loop, no_data, identifier, integer, ieee754, character,
  bytes,
}

-- `strtod` of the C library; its `none` is an error number.
module _ {Double : Type 0} (strtod : List ℕ → Option Double) where
  abbrev pub token_init : List ℕ → Location → TokenKind → TokenData Double → Option (Token Double)
  token_init text location kind contents =
      assert (not (length text == 0) || is_eof kind)
      >> some (record { text = text; location = location; kind = kind; contents = contents })

  unfoldable pub token_init_integer : List ℕ → Location → List ℕ → List ℕ → Option (Token Double)
  unfolding new_text
  token_init_integer text location number suffix =
      assert (not (length number == 0)) >> new_text number >>= λ value. elim value [
        | none ↦ none
        | some v ↦ token_init text location token_integer (integer v suffix)
      ]

  unfoldable pub token_init_ieee754 : List ℕ → Location → List ℕ → List ℕ → Option (Token Double)
  token_init_ieee754 text location number suffix =
      assert (not (length number == 0)) >> strtod number >>= λ value.
      token_init text location token_ieee754 (ieee754 value suffix)

  unfoldable pub lex_keyword_or_identifier : Lexer → Location → Option (Token Double × Lexer)
  unfolding isalnum isalpha
  lex_keyword_or_identifier self location =
      let rest = skip_while is_word self.current in
      let word = up_to self.current rest in
      let self' = record self { current = rest } in
      assert (isalpha (get_or self.current 0 0) || get_or self.current 0 0 == b'_')
      >> elim (find_kind (same_text word) keywords) [
        | none ↦ token_init word location token_identifier (identifier word)
        | some k ↦ token_init word location k no_data
      ]
      >>= λ token. some (token, self')

  -- The part of `lex_number` behind the digits, at `current`.
  unfoldable pub lex_suffix : Lexer → Location → Bool → List ℕ → Option (Token Double × Lexer)
  unfolding token_init_integer token_init_ieee754 isalnum
  lex_suffix self location is_ieee754 current =
      let start = self.current in
      let number = up_to start current in
      let rest = skip_while isalnum current in
      let suffix = up_to current rest in
      assert (not (get_or start (length start - length current - 1) 0 == b'.'))
      >> (if is_ieee754
          then token_init_ieee754 (up_to start rest) location number suffix
          else token_init_integer (up_to start rest) location number suffix)
      >>= λ token. some (token, record self { current = rest })

  unfoldable pub lex_number : Lexer → Location → Option (Token Double × Lexer)
  unfolding lex_suffix has_fraction radix_isdigit isdigit
  lex_number self location =
      let (radix, digits) = number_prefix self.current in
      let current = skip_while (radix_isdigit radix) digits in
      let is_ieee754 = has_fraction current in
      assert (isdigit (get_or self.current 0 0))
      >> assert (radix_isdigit radix (get_or digits 0 0))
      >> assert (not is_ieee754 || is_decimal radix)
      >> lex_suffix self location is_ieee754
          (if is_ieee754 then skip_while (radix_isdigit radix) (drop 1 current) else current)

  unfoldable pub lex_character : Lexer → Location → Option (Token Double × Lexer)
  unfolding advance_character
  lex_character self location =
      assert (get_or self.current 0 0 == 39)
      >> advance_character (drop 1 self.current)
      >>= λ (c, current).
          assert (not (get_or current 0 0 == 10))
          >> assert (get_or current 0 0 == 39)
          >> token_init (up_to self.current (drop 1 current)) location token_character (character c)
          >>= λ token. some (token, record self { current = drop 1 current })

  unfoldable pub lex_bytes : Lexer → Location → Option (Token Double × Lexer)
  unfolding bytes_loop
  lex_bytes self location =
      assert (get_or self.current 0 0 == 34)
      >> bytes_loop (length self.current) (drop 1 self.current)
      >>= λ (read, current).
          token_init (up_to self.current (drop 1 current)) location token_bytes (bytes read)
          >>= λ token. some (token, record self { current = drop 1 current })

  unfoldable pub lex_sigil : Lexer → Location → Option (Token Double × Lexer)
  unfolding ispunct
  lex_sigil self location =
      assert (ispunct (get_or self.current 0 0))
      >> find_kind (cstr_starts_with self.current) sigils
      >>= λ k. token_init (token_kind_vstr k) location k no_data >>= λ token.
          some (token, record self { current = drop (length (token_kind_vstr k)) self.current })

  unfoldable pub lexer_next_token : Lexer → Option (Token Double × Lexer)
  unfolding skip_whitespace_and_comments lex_keyword_or_identifier lex_number lex_character
      lex_bytes lex_sigil isalpha isdigit ispunct
  lexer_next_token before =
      let self = skip_whitespace_and_comments before in
      let location : Location = record { line = self.current_line; psrc = self.current } in
      let ch = get_or self.current 0 0 in
      if isalpha ch || ch == b'_'
      then lex_keyword_or_identifier self location
      else if isdigit ch
      then lex_number self location
      else if ch == 39 && not (get_or self.current 1 0 == 39)
      then lex_character self location
      else if ch == 34
      then lex_bytes self location
      else if ispunct ch
      then lex_sigil self location
      else if ch == 0
      then (token_init (0 ∷ []) location token_eof no_data >>= λ token. some (token, self))
      else none
