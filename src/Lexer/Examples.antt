-- ===== src/Lexer/Examples.antt =====
-- The theorems at concrete sources, and runs of the lexer.
use sunder.Prelude.{ℕ, List, [], ◌∷◌, Option, none, refl, inl, inr}
use sunder.Chars.{ispunct, isgraph, isprint, isalnum, isalpha, isdigit, isupper, islower}
use sunder.Prelude.{arith}
use sunder.Lexer.Bytes.{Lexes, lex_bytes-Lexes}
use sunder.Lexer.Kind.{token_lt, sigils}
use sunder.Lexer.Scan.{Lexer, Location, skip_whitespace_and_comments}
use sunder.Lexer.{lex_sigil, lex_bytes}
use sunder.Lexer.Munch.{Munches, lex_sigil-Munches, Among}
use sunder.Lexer.Skip.{Skips, skip-Skips}

-- No number is read here.
abbrev no_strtod : List ℕ → Option ℕ
no_strtod text = none

-- "<<=1", which begins with a shorter sigil too.
abbrev shift : Lexer
shift = record { current = 60 ∷ 60 ∷ 61 ∷ 49 ∷ []; current_line = 3 }

abbrev here : Location
here = record { line = 3; psrc = [] }

lt-Among : Among token_lt sigils
lt-Among = inr (
    inr (
      inr (
        inr (
          inr (
            inr (
              inr (inr (inr (inr (inr (inr (inr (inr (inr (inr (inr (inr (inl refl))))))))))))))))))

lex_sigil-Munches_example : Munches shift here (lex_sigil no_strtod shift here)
unfolding ispunct isgraph isprint isalnum isalpha isdigit isupper islower
lex_sigil-Munches_example = lex_sigil-Munches no_strtod shift here token_lt refl lt-Among refl

-- White space and a comment in front of "+".
abbrev commented : Lexer
commented = record { current = 32 ∷ 35 ∷ 32 ∷ 97 ∷ 10 ∷ 9 ∷ 43 ∷ []; current_line = 1 }

skip-Skips_example : Skips commented (skip_whitespace_and_comments commented)
skip-Skips_example = skip-Skips commented

-- "a\n" with its closing quote.
abbrev quoted : List ℕ
quoted = 97 ∷ 92 ∷ 110 ∷ 34 ∷ []

lex_bytes-Lexes_example :
    Lexes quoted 3 here
      (lex_bytes no_strtod (record { current = 34 ∷ quoted; current_line = 3 }) here)
lex_bytes-Lexes_example = lex_bytes-Lexes no_strtod quoted 3 here (omega arith)
