-- ===== src/Parser/Types.antt =====
-- The types of parse.c, with the members and the values that stand in them.
use sunder.Prelude.{ℕ, [], ◌∷◌}
use sunder.Lexer.Kind.{
  token_var, token_func, token_struct, token_union, token_enum, token_typeof, token_assign,
  token_star, token_lparen, token_rparen, token_lbrace, token_rbrace, token_lbracket,
  token_rbracket, token_comma, token_colon_colon, token_colon, token_semicolon, token_identifier,
}
use sunder.Cst.{
  CstType, EnumValues, Expr, MaybeExpr, MaybeType, Member, Members, a_type, an_expr,
  member_variable, more_members, more_types, more_values, no_expr, no_members, no_type, no_types,
  no_values, type_array, type_enum, type_function, type_pointer, type_slice, type_struct,
  type_symbol, type_typeof, type_union,
}
use sunder.Parser.Tokens.{
  Parser, pure, fatal, ◌>>=◌, ◌>>◌, expect_current, if_current, if_any, until, separated,
  expected_type,
}
use sunder.Parser.Symbols.{Calls, parse_identifier, parse_symbol}

module _ {Double : Type 0} (c : Calls Double) where
  -- `parse_expr`.
  abbrev pub an_expression : Parser Double Expr
  an_expression = c.expr 0

  -- An optional type behind a colon.
  abbrev pub type_specifier : Parser Double MaybeType
  type_specifier =
      if_current token_colon (expect_current token_colon >> c.cst_type >>= λ t. pure (a_type t))
        (pure no_type)

  unfoldable pub parse_member_variable : Parser Double Member
  unfolding parse_identifier
  parse_member_variable = expect_current token_var >> parse_identifier c >>= λ name.
      expect_current token_colon >> c.cst_type >>= λ t.
      expect_current token_semicolon >> pure (member_variable name t)

  unfoldable pub parse_enum_value : Parser Double (ℕ × MaybeExpr)
  unfolding parse_identifier
  parse_enum_value = parse_identifier c >>= λ name.
      if_current token_assign
        (expect_current token_assign >> an_expression >>= λ e. pure (an_expr e)) (pure no_expr)
      >>= λ e. expect_current token_semicolon >> pure (name, e)

  abbrev pub more_value : ℕ × MaybeExpr → EnumValues → EnumValues
  more_value v vs = more_values v.0 v.1 vs

  unfoldable pub parse_type_symbol : Parser Double CstType
  unfolding parse_symbol
  parse_type_symbol = parse_symbol c >>= λ s. pure (type_symbol s)

  unfoldable pub parse_type_function : Parser Double CstType
  parse_type_function =
      expect_current token_func
      >> expect_current token_lparen
      >> if_current token_rparen (pure no_types)
          (separated token_comma c.cst_type no_types more_types)
      >>= λ types. expect_current token_rparen >> c.cst_type >>= λ t. pure (type_function types t)

  unfoldable pub parse_type_pointer : Parser Double CstType
  parse_type_pointer = expect_current token_star >> c.cst_type >>= λ t. pure (type_pointer t)

  unfoldable pub parse_type_array_or_slice : Parser Double CstType
  parse_type_array_or_slice =
      expect_current token_lbracket
      >> if_current token_rbracket
          (expect_current token_rbracket >> c.cst_type >>= λ t. pure (type_slice t))
          (an_expression >>= λ count.
            expect_current token_rbracket >> c.cst_type >>= λ t. pure (type_array count t))

  -- The members between the braces of a struct or a union type.
  abbrev pub member_variables : Parser Double Members
  member_variables =
      expect_current token_lbrace
      >> until (token_rbrace ∷ []) parse_member_variable no_members more_members
      >>= λ members. expect_current token_rbrace >> pure members

  unfoldable pub parse_type_struct : Parser Double CstType
  unfolding parse_member_variable
  parse_type_struct =
      expect_current token_struct >> member_variables >>= λ ms. pure (type_struct ms)

  unfoldable pub parse_type_union : Parser Double CstType
  unfolding parse_member_variable
  parse_type_union = expect_current token_union >> member_variables >>= λ ms. pure (type_union ms)

  unfoldable pub parse_type_enum : Parser Double CstType
  unfolding parse_enum_value
  parse_type_enum = expect_current token_enum >> type_specifier >>= λ t.
      expect_current token_lbrace
      >> until (token_rbrace ∷ []) parse_enum_value no_values more_value
      >>= λ values. expect_current token_rbrace >> pure (type_enum t values)

  unfoldable pub parse_type_typeof : Parser Double CstType
  parse_type_typeof =
      expect_current token_typeof >> expect_current token_lparen >> an_expression >>= λ e.
      expect_current token_rparen >> pure (type_typeof e)

  unfoldable pub parse_type : Parser Double CstType
  unfolding parse_type_symbol parse_type_function parse_type_pointer parse_type_array_or_slice
      parse_type_struct parse_type_union parse_type_enum parse_type_typeof
  parse_type = if_any (token_identifier ∷ token_colon_colon ∷ []) parse_type_symbol (
      if_current token_func parse_type_function (
        if_current token_star parse_type_pointer (
          if_current token_lbracket parse_type_array_or_slice (
            if_current token_struct parse_type_struct (
              if_current token_union parse_type_union (
                if_current token_enum parse_type_enum
                  (if_current token_typeof parse_type_typeof (fatal expected_type))))))))
