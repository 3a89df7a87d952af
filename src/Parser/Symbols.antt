-- ===== src/Parser/Symbols.antt =====
-- The symbols and the template lists of parse.c.
use sunder.Prelude.{ℕ, List, [], ◌∷◌}
use sunder.Lexer.Kind.{
  token_typeof, token_lbracket, token_rbracket, token_comma, token_colon_colon, token_identifier,
}
use sunder.Cst.{
  Expr, CstType, Types, Symbol, Element, Elements, Decl, Stmt, start_none, start_root, start_typeof,
  no_types, more_types, no_type, a_type, symbol, element, no_elements, more_elements,
}
use sunder.Parser.Tokens.{
  Parser, pure, fatal, ◌>>=◌, ◌>>◌, expect_current, if_current, if_next, separated,
  no_template_parameters, no_template_arguments,
}

-- The functions of the parser that call one another, and the addresses of interned texts.
pub record Calls (Double : Type 0) : Type 0 where
  pub intern : List ℕ → ℕ
  pub expr : ℕ → Parser Double Expr
  pub cst_type : Parser Double CstType
  pub decl : Parser Double Decl
  pub stmt : Parser Double Stmt

module _ {Double : Type 0} (c : Calls Double) where
  unfoldable pub parse_identifier : Parser Double ℕ
  parse_identifier = expect_current token_identifier >>= λ token. pure (c.intern token.1)

  unfoldable pub parse_template_parameter_list : Parser Double (List ℕ)
  unfolding parse_identifier
  parse_template_parameter_list =
      if_current token_lbracket
        (expect_current token_lbracket
          >> expect_current token_lbracket
          >> if_current token_rbracket (fatal no_template_parameters) (
              separated token_comma parse_identifier [] (λ n ns. n ∷ ns) >>= λ names.
              expect_current token_rbracket >> expect_current token_rbracket >> pure names))
        (pure [])

  unfoldable pub parse_template_argument_list : Parser Double Types
  parse_template_argument_list =
      expect_current token_lbracket
      >> expect_current token_lbracket
      >> if_current token_rbracket (fatal no_template_arguments) (
          separated token_comma c.cst_type no_types more_types >>= λ types.
          expect_current token_rbracket >> expect_current token_rbracket >> pure types)

  unfoldable pub parse_symbol_element : Parser Double Element
  unfolding parse_identifier parse_template_argument_list
  parse_symbol_element = parse_identifier >>= λ name.
      if_next token_lbracket token_lbracket parse_template_argument_list (pure no_types)
      >>= λ types. pure (element name types)

  -- The elements of a symbol.
  abbrev pub symbol_elements : Parser Double Elements
  symbol_elements = separated token_colon_colon parse_symbol_element no_elements more_elements

  unfoldable pub parse_symbol : Parser Double Symbol
  unfolding parse_symbol_element
  parse_symbol =
      if_current token_colon_colon
        (expect_current token_colon_colon >> symbol_elements >>= λ elements.
          pure (symbol start_root no_type elements))
        (if_current token_typeof
          (c.cst_type >>= λ t. expect_current token_colon_colon >> symbol_elements >>= λ elements.
            pure (symbol start_typeof (a_type t) elements))
          (symbol_elements >>= λ elements. pure (symbol start_none no_type elements)))
