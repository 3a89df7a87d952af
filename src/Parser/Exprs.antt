-- ===== src/Parser/Exprs.antt =====
-- The expressions of parse.c, by the precedence of their operators.
use sunder.Prelude.{ℕ, zero, suc, List, [], Bool, true, false, if◌then◌else◌}
use sunder.Lexer.Kind.{
  TokenKind, token_true, token_false, token_not, token_defined, token_alignof, token_startof,
  token_countof, token_sizeof, token_typeof, token_fileof, token_lineof, token_uninit, token_embed,
  token_assign, token_dash_percent, token_plus, token_dash, token_star, token_tilde,
  token_ampersand, token_lparen, token_rparen, token_lbrace, token_rbrace, token_lbracket,
  token_rbracket, token_comma, token_ellipsis, token_dot, token_colon_colon, token_colon,
  token_identifier, token_integer, token_ieee754, token_character, token_bytes,
}
use sunder.Cst.{
  CstType, Expr, Exprs, Initializers, MaybeExpr, an_expr, expr_alignof, expr_boolean, expr_integer,
  expr_ieee754, expr_character, expr_bytes, expr_cast, expr_defined, expr_embed, expr_fileof,
  expr_grouped, expr_init, expr_lineof, expr_list, expr_sizeof, expr_slice, expr_symbol, expr_unary,
  more_exprs, more_initializers, no_expr, no_exprs, no_initializers,
}
use sunder.Parser.Tokens.{
  Parser, pure, fatal, ◌>>=◌, ◌>>◌, advance_token, expect_current, if_current, if_next, rounds,
  stuck, unrecognized_prefix,
}
use sunder.Parser.Symbols.{Calls, parse_identifier, parse_symbol}
use sunder.Parser.Types.{an_expression}

-- `startof` and `countof` take their operand in parentheses.
abbrev pub is_paren : TokenKind → Bool
is_paren token_startof = true
is_paren token_countof = true
is_paren kind = false

-- A literal of one token.
abbrev pub parse_literal : {Double : Type 0} → TokenKind → (List ℕ → Expr) → Parser Double Expr
parse_literal kind literal = expect_current kind >>= λ token. pure (literal token.0)

module _ {Double : Type 0} (c : Calls Double) where
  unfoldable pub parse_member_initializer : Parser Double (ℕ × MaybeExpr)
  unfolding parse_identifier
  parse_member_initializer = expect_current token_dot >> parse_identifier c >>= λ name.
      expect_current token_assign
      >> if_current token_uninit (expect_current token_uninit >> pure no_expr)
          (an_expression c >>= λ e. pure (an_expr e))
      >>= λ e. pure (name, e)

  abbrev pub more_initializer : ℕ × MaybeExpr → Initializers → Initializers
  more_initializer i is = more_initializers i.0 i.1 is

  -- The loop of `parse_member_initializer_list`, behind an initializer.
  unfoldable pub initializers_rounds : ℕ → Parser Double Initializers
  unfolding parse_member_initializer
  initializers_rounds zero = stuck
  initializers_rounds (suc n) =
      let rest = initializers_rounds n in
      if_current token_comma
        (expect_current token_comma
          >> if_current token_rbrace (pure no_initializers)
              (parse_member_initializer >>= λ i. rest >>= λ is. pure (more_initializer i is)))
        (pure no_initializers)

  unfoldable pub parse_member_initializer_list : Parser Double Initializers
  unfolding parse_member_initializer initializers_rounds
  parse_member_initializer_list =
      if_current token_dot
        (parse_member_initializer >>= λ i.
          rounds initializers_rounds >>= λ is. pure (more_initializer i is))
        (pure no_initializers)

  -- The loop over the elements of an array: `first` when there is none before.
  unfoldable pub elements_rounds : Bool → ℕ → Parser Double (Exprs × MaybeExpr)
  elements_rounds first zero = stuck
  elements_rounds first (suc n) =
      let rest = elements_rounds false n in
      if_current token_rbracket (pure (no_exprs, no_expr)) (
        (if first then pure ([], []) else expect_current token_comma)
        >> if_current token_rbracket (pure (no_exprs, no_expr)) (
            an_expression c >>= λ e.
            if_current token_ellipsis (expect_current token_ellipsis >> pure (no_exprs, an_expr e))
              (rest >>= λ es. pure (more_exprs e es.0, es.1))))

  -- The loop over the arguments of a call.
  unfoldable pub arguments_rounds : Bool → ℕ → Parser Double Exprs
  arguments_rounds first zero = stuck
  arguments_rounds first (suc n) =
      let rest = arguments_rounds false n in
      let item = an_expression c >>= λ e. rest >>= λ es. pure (more_exprs e es) in
      if_current token_rparen (pure no_exprs) (
        if first
        then item
        else expect_current token_comma >> if_current token_rparen (pure no_exprs) item)

  -- `parse_expr_lparen` behind the type of a literal or a cast.
  unfoldable pub parse_typed : CstType → Parser Double Expr
  unfolding elements_rounds parse_member_initializer_list
  parse_typed t =
      if_current token_lbracket
        (expect_current token_lbracket >> rounds (elements_rounds true) >>= λ es.
          expect_current token_rbracket >> pure (expr_list t es.0 es.1))
        (if_current token_lbrace
          (if_next token_lbrace token_rbrace init (if_next token_lbrace token_dot init slice))
          (c.expr 6 >>= λ e. pure (expr_cast t e)))
    where
      init : Parser Double Expr
      init = expect_current token_lbrace >> parse_member_initializer_list >>= λ is.
          expect_current token_rbrace >> pure (expr_init t is)

      slice : Parser Double Expr
      slice = expect_current token_lbrace >> an_expression c >>= λ pointer.
          expect_current token_comma >> an_expression c >>= λ count.
          expect_current token_rbrace >> pure (expr_slice t pointer count)

  unfoldable pub parse_expr_lparen : Parser Double Expr
  unfolding parse_typed
  parse_expr_lparen =
      expect_current token_lparen
      >> if_current token_colon
          (expect_current token_colon >> c.cst_type >>= λ t.
            expect_current token_rparen >> parse_typed t)
          (an_expression c >>= λ e. expect_current token_rparen >> pure (expr_grouped e))

  unfoldable pub parse_expr_symbol : Parser Double Expr
  unfolding parse_symbol
  parse_expr_symbol = parse_symbol c >>= λ s. pure (expr_symbol s)

  unfoldable pub parse_expr_boolean : Parser Double Expr
  parse_expr_boolean = advance_token >>= λ token. pure (expr_boolean token.0)

  unfoldable pub parse_expr_defined : Parser Double Expr
  unfolding parse_symbol
  parse_expr_defined =
      expect_current token_defined >> expect_current token_lparen >> parse_symbol c >>= λ s.
      expect_current token_rparen >> pure (expr_defined s)

  unfoldable pub parse_expr_sizeof : Parser Double Expr
  parse_expr_sizeof =
      expect_current token_sizeof >> expect_current token_lparen >> c.cst_type >>= λ t.
      expect_current token_rparen >> pure (expr_sizeof t)

  unfoldable pub parse_expr_alignof : Parser Double Expr
  parse_expr_alignof =
      expect_current token_alignof >> expect_current token_lparen >> c.cst_type >>= λ t.
      expect_current token_rparen >> pure (expr_alignof t)

  unfoldable pub parse_expr_fileof : Parser Double Expr
  parse_expr_fileof =
      expect_current token_fileof
      >> expect_current token_lparen
      >> expect_current token_rparen
      >> pure expr_fileof

  unfoldable pub parse_expr_lineof : Parser Double Expr
  parse_expr_lineof =
      expect_current token_lineof
      >> expect_current token_lparen
      >> expect_current token_rparen
      >> pure expr_lineof

  unfoldable pub parse_expr_embed : Parser Double Expr
  parse_expr_embed =
      expect_current token_embed
      >> expect_current token_lparen
      >> expect_current token_bytes
      >>= λ token. expect_current token_rparen >> pure (expr_embed (c.intern token.1))

  unfoldable pub parse_expr_nud_unary : TokenKind → Parser Double Expr
  parse_expr_nud_unary op =
      advance_token
      >> (if is_paren op
          then (expect_current token_lparen >> c.expr 6 >>= λ rhs.
              expect_current token_rparen >> pure (expr_unary op rhs))
          else (c.expr 6 >>= λ rhs. pure (expr_unary op rhs)))

  -- `token_kind_nud` and the call of its result; a null pointer is a failure.
  unfoldable pub parse_nud : TokenKind → Parser Double Expr
  unfolding parse_expr_symbol parse_expr_boolean parse_expr_lparen parse_expr_defined
      parse_expr_sizeof parse_expr_alignof parse_expr_fileof parse_expr_lineof parse_expr_embed
      parse_expr_nud_unary
  parse_nud token_identifier = parse_expr_symbol
  parse_nud token_typeof = parse_expr_symbol
  parse_nud token_colon_colon = parse_expr_symbol
  parse_nud token_true = parse_expr_boolean
  parse_nud token_false = parse_expr_boolean
  parse_nud token_integer = parse_literal token_integer expr_integer
  parse_nud token_ieee754 = parse_literal token_ieee754 expr_ieee754
  parse_nud token_character = parse_literal token_character expr_character
  parse_nud token_bytes = parse_literal token_bytes expr_bytes
  parse_nud token_lparen = parse_expr_lparen
  parse_nud token_defined = parse_expr_defined
  parse_nud token_sizeof = parse_expr_sizeof
  parse_nud token_alignof = parse_expr_alignof
  parse_nud token_fileof = parse_expr_fileof
  parse_nud token_lineof = parse_expr_lineof
  parse_nud token_embed = parse_expr_embed
  parse_nud token_not = parse_expr_nud_unary token_not
  parse_nud token_startof = parse_expr_nud_unary token_startof
  parse_nud token_countof = parse_expr_nud_unary token_countof
  parse_nud token_plus = parse_expr_nud_unary token_plus
  parse_nud token_dash = parse_expr_nud_unary token_dash
  parse_nud token_dash_percent = parse_expr_nud_unary token_dash_percent
  parse_nud token_tilde = parse_expr_nud_unary token_tilde
  parse_nud token_star = parse_expr_nud_unary token_star
  parse_nud token_ampersand = parse_expr_nud_unary token_ampersand
  parse_nud kind = fatal (unrecognized_prefix kind)
