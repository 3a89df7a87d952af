-- ===== src/Parser/Operators.antt =====
-- What stands behind an expression in parse.c, and `parse_expr_precedence`.
use sunder.Prelude.{ℕ, zero, suc, Option, none, some, true, ltb, if◌then◌else◌}
use sunder.Lexer.Kind.{
  TokenKind, token_or, token_and, token_shl, token_shr, token_eq, token_ne, token_le, token_lt,
  token_ge, token_gt, token_plus_percent, token_dash_percent, token_star_percent, token_plus,
  token_dash, token_star, token_fslash, token_percent, token_pipe, token_caret, token_ampersand,
  token_lparen, token_rparen, token_lbracket, token_rbracket, token_dot_star, token_dot,
  token_colon,
}
use sunder.Cst.{
  Expr, expr_access_dereference, expr_access_index, expr_access_member, expr_access_slice,
  expr_binary, expr_call,
}
use sunder.Parser.Tokens.{
  Parser, pure, ◌>>=◌, ◌>>◌, advance_token, expect_current, if_current, on_kind, rounds, stuck,
}
use sunder.Parser.Symbols.{Calls, parse_symbol_element}
use sunder.Parser.Types.{an_expression}
use sunder.Parser.Exprs.{arguments_rounds, parse_nud}

-- `token_kind_precedence`, with the places of `enum precedence` as numbers: 0 is PRECEDENCE_LOWEST, 6
-- PRECEDENCE_PREFIX and 7 PRECEDENCE_POSTFIX.
abbrev pub token_kind_precedence : TokenKind → ℕ
token_kind_precedence token_or = 1
token_kind_precedence token_and = 2
token_kind_precedence token_eq = 3
token_kind_precedence token_ne = 3
token_kind_precedence token_le = 3
token_kind_precedence token_lt = 3
token_kind_precedence token_ge = 3
token_kind_precedence token_gt = 3
token_kind_precedence token_plus_percent = 4
token_kind_precedence token_dash_percent = 4
token_kind_precedence token_plus = 4
token_kind_precedence token_dash = 4
token_kind_precedence token_pipe = 4
token_kind_precedence token_caret = 4
token_kind_precedence token_star_percent = 5
token_kind_precedence token_star = 5
token_kind_precedence token_fslash = 5
token_kind_precedence token_percent = 5
token_kind_precedence token_shl = 5
token_kind_precedence token_shr = 5
token_kind_precedence token_ampersand = 5
token_kind_precedence token_lparen = 7
token_kind_precedence token_lbracket = 7
token_kind_precedence token_dot_star = 7
token_kind_precedence token_dot = 7
token_kind_precedence kind = 0

module _ {Double : Type 0} (c : Calls Double) where
  unfoldable pub parse_expr_led_lparen : Expr → Parser Double Expr
  unfolding arguments_rounds
  parse_expr_led_lparen lhs =
      expect_current token_lparen >> rounds (arguments_rounds c true) >>= λ es.
      expect_current token_rparen >> pure (expr_call lhs es)

  unfoldable pub parse_expr_led_lbracket : Expr → Parser Double Expr
  parse_expr_led_lbracket lhs = expect_current token_lbracket >> an_expression c >>= λ idx.
      if_current token_colon
        (expect_current token_colon >> an_expression c >>= λ end.
          expect_current token_rbracket >> pure (expr_access_slice lhs idx end))
        (expect_current token_rbracket >> pure (expr_access_index lhs idx))

  unfoldable pub parse_expr_led_dot_star : Expr → Parser Double Expr
  parse_expr_led_dot_star lhs = expect_current token_dot_star >> pure (expr_access_dereference lhs)

  unfoldable pub parse_expr_led_dot : Expr → Parser Double Expr
  unfolding parse_symbol_element
  parse_expr_led_dot lhs =
      expect_current token_dot >> parse_symbol_element c >>= λ m. pure (expr_access_member lhs m)

  unfoldable pub parse_expr_led_binary : TokenKind → Expr → Parser Double Expr
  parse_expr_led_binary op lhs =
      advance_token >> c.expr (token_kind_precedence op) >>= λ rhs. pure (expr_binary op lhs rhs)

  -- `token_kind_led`.
  unfoldable pub parse_led : TokenKind → Option (Expr → Parser Double Expr)
  unfolding parse_expr_led_lparen parse_expr_led_lbracket parse_expr_led_dot_star parse_expr_led_dot
      parse_expr_led_binary
  parse_led token_lparen = some parse_expr_led_lparen
  parse_led token_lbracket = some parse_expr_led_lbracket
  parse_led token_dot_star = some parse_expr_led_dot_star
  parse_led token_dot = some parse_expr_led_dot
  parse_led token_or = some (parse_expr_led_binary token_or)
  parse_led token_and = some (parse_expr_led_binary token_and)
  parse_led token_shl = some (parse_expr_led_binary token_shl)
  parse_led token_shr = some (parse_expr_led_binary token_shr)
  parse_led token_eq = some (parse_expr_led_binary token_eq)
  parse_led token_ne = some (parse_expr_led_binary token_ne)
  parse_led token_le = some (parse_expr_led_binary token_le)
  parse_led token_lt = some (parse_expr_led_binary token_lt)
  parse_led token_ge = some (parse_expr_led_binary token_ge)
  parse_led token_gt = some (parse_expr_led_binary token_gt)
  parse_led token_plus = some (parse_expr_led_binary token_plus)
  parse_led token_plus_percent = some (parse_expr_led_binary token_plus_percent)
  parse_led token_dash = some (parse_expr_led_binary token_dash)
  parse_led token_dash_percent = some (parse_expr_led_binary token_dash_percent)
  parse_led token_star = some (parse_expr_led_binary token_star)
  parse_led token_star_percent = some (parse_expr_led_binary token_star_percent)
  parse_led token_fslash = some (parse_expr_led_binary token_fslash)
  parse_led token_percent = some (parse_expr_led_binary token_percent)
  parse_led token_pipe = some (parse_expr_led_binary token_pipe)
  parse_led token_caret = some (parse_expr_led_binary token_caret)
  parse_led token_ampersand = some (parse_expr_led_binary token_ampersand)
  parse_led kind = none

  -- The loop of `parse_expr_precedence` at an expression.
  unfoldable pub led_rounds : ℕ → ℕ → Expr → Parser Double Expr
  unfolding parse_led
  led_rounds precedence zero expr = stuck
  led_rounds precedence (suc n) expr =
      let rest = led_rounds precedence n in
      on_kind (λ kind.
        if ltb precedence (token_kind_precedence kind)
        then elim (parse_led kind) [ none ↦ pure expr | some led ↦ led expr >>= rest ]
        else pure expr)

  unfoldable pub parse_expr_precedence : ℕ → Parser Double Expr
  unfolding parse_nud led_rounds
  parse_expr_precedence precedence =
      on_kind (parse_nud c) >>= λ expr. rounds (λ n. led_rounds precedence n expr)
