-- ===== src/Parser/Examples.antt =====
-- The theorems on the tokens of a module, and runs of the parser.
use sunder.Prelude.{ℕ, List, [], ◌∷◌, refl, ◌≡◌, ◌≢◌, none}
use sunder.Lexer.Kind.{
  TokenKind, token_let, token_identifier, token_assign, token_integer, token_plus, token_dash,
  token_star, token_semicolon,
}
use sunder.Lexer.Scan.{Token, TokenData, no_data, identifier}
use sunder.Cst.{no_type, an_expr, expr_integer, expr_binary, expr_unary, decl_constant}
use sunder.Parser.Tokens.{
  ok, failed, out_of_fuel, expected, ◌>>=◌, ◌>>◌, pure, if_current, if_any, expect_current, on_kind,
  rounds, while_rounds, until_rounds,
}
use sunder.Prelude.{length, ◌<◌, arith}
use sunder.Parser.Module.{parse, calls}
use sunder.Parser.Progress.Rules.{Ends}
use sunder.Parser.Precedence.Grouped.{Parsed}
use sunder.Parser.Precedence.Whole.{parse_expr-Parsed}
use sunder.Parser.Progress.Whole.{parse-out_of_fuel}
use sunder.Prelude.{true, false, some, ltb, ◌≤◌}
use sunder.Lexer.Kind.{token_caret, token_eof}
use sunder.Parser.Tokens.{check_current}
use sunder.Parser.Operators.{parse_led, token_kind_precedence}
use sunder.Parser.Module.{parse_module}
use sunder.Parser.Precedence.Tables.{led-precedence}
use sunder.Parser.Ending.{module-at_end}

-- A text stands for its first character, as one that is interned.
abbrev first : List ℕ → ℕ
first [] = 0
first (c ∷ cs) = c

abbrev token : TokenKind → List ℕ → TokenData ℕ → Token ℕ
token kind text contents = record {
  text = text;
  location = record { line = 1; psrc = [] };
  kind = kind;
  contents = contents;
}

-- let x = 1 + 2 * -3 - 4;
abbrev constant : List (Token ℕ)
constant =
    token token_let [] no_data
    ∷ token token_identifier (120 ∷ []) (identifier (120 ∷ []))
    ∷ token token_assign [] no_data
    ∷ token token_integer (49 ∷ []) no_data
    ∷ token token_plus [] no_data
    ∷ token token_integer (50 ∷ []) no_data
    ∷ token token_star [] no_data
    ∷ token token_dash [] no_data
    ∷ token token_integer (51 ∷ []) no_data
    ∷ token token_dash [] no_data
    ∷ token token_integer (52 ∷ []) no_data
    ∷ token token_semicolon [] no_data
    ∷ []

parse-out_of_fuel_example : parse first constant ≢ out_of_fuel
parse-out_of_fuel_example = parse-out_of_fuel first constant

parse-constant :
    parse first constant
    ≡ ok (record {
      namespace = none;
      imports = [];
      decls =
          decl_constant 120 no_type (
            an_expr (
              expr_binary token_dash
                (expr_binary token_plus (expr_integer (49 ∷ [])) (
                  expr_binary token_star
                    (expr_integer (50 ∷ []))
                    (expr_unary token_dash (expr_integer (51 ∷ [])))))
                (expr_integer (52 ∷ []))))
          ∷ [];
    })
unfolding parse ◌>>=◌ ◌>>◌ pure if_current if_any expect_current on_kind rounds while_rounds
    until_rounds
parse-constant = refl

parse-let_only : parse first (token token_let [] no_data ∷ []) ≡ failed (expected token_identifier)
unfolding parse ◌>>=◌ ◌>>◌ pure if_current if_any expect_current on_kind rounds while_rounds
    until_rounds
parse-let_only = refl

-- 1 + 2 * -3
abbrev sum : List (Token ℕ)
sum =
    token token_integer (49 ∷ []) no_data
    ∷ token token_plus [] no_data
    ∷ token token_integer (50 ∷ []) no_data
    ∷ token token_star [] no_data
    ∷ token token_dash [] no_data
    ∷ token token_integer (51 ∷ []) no_data
    ∷ []

parse_expr-Parsed_example :
    Ends (λ r. length r.1 < length sum × Parsed 0 r.0 r.1) ((calls first 21).expr 0 sum)
parse_expr-Parsed_example = parse_expr-Parsed first 21 0 sum (omega arith)

led-precedence_example :
    elim (parse_led (calls {Double = ℕ} first 0) token_caret) [ none ↦ false | some led ↦ true ]
    ≡ ltb 0 (token_kind_precedence token_caret)
led-precedence_example = led-precedence (calls first 0) token_caret

module-at_end_example :
    Ends
      (λ r. length r.1 ≤ length constant × check_current r.1 token_eof ≡ true)
      (parse_module first (calls first 39) constant)
module-at_end_example = module-at_end first constant 39 (omega arith)
