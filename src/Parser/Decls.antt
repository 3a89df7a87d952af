-- ===== src/Parser/Decls.antt =====
-- The declarations of parse.c, with blocks and members.
use sunder.Prelude.{ℕ, List, [], ◌∷◌}
use sunder.Lexer.Kind.{
  TokenKind, token_var, token_let, token_func, token_struct, token_union, token_enum, token_type,
  token_extend, token_extern, token_uninit, token_assign, token_lparen, token_rparen, token_lbrace,
  token_rbrace, token_comma, token_colon, token_semicolon, token_identifier,
}
use sunder.Cst.{
  Block, CstType, Decl, MaybeExpr, MaybeType, Member, Members, Parameters, a_type, an_expr,
  decl_alias, decl_constant, decl_enum, decl_extend, decl_extern_function, decl_extern_type,
  decl_extern_variable, decl_function, decl_struct, decl_union, decl_variable, member_alias,
  member_constant, member_function, more_members, more_parameters, more_stmts, no_expr, no_members,
  no_parameters, no_stmts, no_type, no_values,
}
use sunder.Parser.Tokens.{
  Parser, pure, fatal, ◌>>=◌, ◌>>◌, expect_current, if_current, if_next, until, separated,
  expected_declaration, expected_member, uninitialized_requires_type,
}
use sunder.Parser.Symbols.{Calls, parse_identifier, parse_template_parameter_list}
use sunder.Parser.Types.{
  an_expression, type_specifier, parse_member_variable, parse_enum_value, more_value,
}

module _ {Double : Type 0} (c : Calls Double) where
  unfoldable pub parse_block : Parser Double Block
  parse_block =
      expect_current token_lbrace >> until (token_rbrace ∷ []) c.stmt no_stmts more_stmts >>= λ b.
      expect_current token_rbrace >> pure b

  unfoldable pub parse_function_parameter : Parser Double (ℕ × CstType)
  unfolding parse_identifier
  parse_function_parameter = parse_identifier c >>= λ name.
      expect_current token_colon >> c.cst_type >>= λ t. pure (name, t)

  unfoldable pub parse_function_parameter_list : Parser Double Parameters
  unfolding parse_function_parameter
  parse_function_parameter_list =
      if_current token_identifier
        (separated token_comma parse_function_parameter no_parameters
          (λ p ps. more_parameters p.0 p.1 ps))
        (pure no_parameters)

  -- The value of a variable or a constant, which may be left out when there is a type.
  abbrev pub initial_value : ℕ → MaybeType → Parser Double MaybeExpr
  initial_value name (a_type t) =
      if_current token_uninit (expect_current token_uninit >> pure no_expr)
        (an_expression c >>= λ e. pure (an_expr e))
  initial_value name no_type =
      if_current token_uninit
        (expect_current token_uninit >> fatal (uninitialized_requires_type name))
        (an_expression c >>= λ e. pure (an_expr e))

  -- What `parse_decl_variable` and `parse_decl_constant` share, and `parse_member_constant` uses.
  unfoldable pub parse_binding :
      {A : Type 0} → TokenKind → (ℕ → MaybeType → MaybeExpr → A) → Parser Double A
  unfolding parse_identifier
  parse_binding keyword product = expect_current keyword >> parse_identifier c >>= λ name.
      type_specifier c >>= λ t. expect_current token_assign >> initial_value name t >>= λ e.
      expect_current token_semicolon >> pure (product name t e)

  -- `parse_decl_function`, also for `parse_member_function`.
  unfoldable pub parse_function :
      {A : Type 0} → (ℕ → List ℕ → Parameters → CstType → Block → A) → Parser Double A
  unfolding parse_identifier parse_template_parameter_list parse_function_parameter_list parse_block
  parse_function product = expect_current token_func >> parse_identifier c >>= λ name.
      parse_template_parameter_list c >>= λ templates.
      expect_current token_lparen >> parse_function_parameter_list >>= λ parameters.
      expect_current token_rparen >> c.cst_type >>= λ t.
      parse_block >>= λ body. pure (product name templates parameters t body)

  -- `parse_decl_alias`, also for `parse_member_alias`.
  unfoldable pub parse_alias : {A : Type 0} → (ℕ → CstType → A) → Parser Double A
  unfolding parse_identifier
  parse_alias product = expect_current token_type >> parse_identifier c >>= λ name.
      expect_current token_assign >> c.cst_type >>= λ t.
      expect_current token_semicolon >> pure (product name t)

  unfoldable pub parse_member : Parser Double Member
  unfolding parse_member_variable parse_binding parse_function parse_alias
  parse_member = if_current token_var (parse_member_variable c) (
      if_current token_let (parse_binding token_let member_constant) (
        if_current token_func (parse_function member_function)
          (if_current token_type (parse_alias member_alias) (fatal expected_member))))

  -- `parse_decl_struct` and `parse_decl_union`, which differ in the keyword and the node.
  unfoldable pub parse_compound : TokenKind → (ℕ → List ℕ → Members → Decl) → Parser Double Decl
  unfolding parse_identifier parse_template_parameter_list parse_member
  parse_compound keyword product = expect_current keyword >> parse_identifier c >>= λ name.
      parse_template_parameter_list c >>= λ templates.
      expect_current token_lbrace
      >> until (token_rbrace ∷ []) parse_member no_members more_members
      >>= λ members. expect_current token_rbrace >> pure (product name templates members)

  unfoldable pub parse_decl_enum : Parser Double Decl
  unfolding parse_identifier parse_enum_value parse_function
  parse_decl_enum = expect_current token_enum >> parse_identifier c >>= λ name.
      type_specifier c >>= λ t.
      expect_current token_lbrace
      >> until (token_rbrace ∷ token_func ∷ []) (parse_enum_value c) no_values (more_value c)
      >>= λ values.
          until (token_rbrace ∷ []) (parse_function member_function) no_members more_members
          >>= λ functions. expect_current token_rbrace >> pure (decl_enum name t values functions)

  unfoldable pub parse_decl_extend : Parser Double Decl
  parse_decl_extend =
      expect_current token_extend >> c.cst_type >>= λ t. c.decl >>= λ d. pure (decl_extend t d)

  unfoldable pub parse_decl_extern_variable : Parser Double Decl
  unfolding parse_identifier
  parse_decl_extern_variable =
      expect_current token_extern >> expect_current token_var >> parse_identifier c >>= λ name.
      expect_current token_colon >> c.cst_type >>= λ t.
      expect_current token_semicolon >> pure (decl_extern_variable name t)

  unfoldable pub parse_decl_extern_function : Parser Double Decl
  unfolding parse_identifier parse_function_parameter_list
  parse_decl_extern_function =
      expect_current token_extern >> expect_current token_func >> parse_identifier c >>= λ name.
      expect_current token_lparen >> parse_function_parameter_list >>= λ parameters.
      expect_current token_rparen >> c.cst_type >>= λ t.
      expect_current token_semicolon >> pure (decl_extern_function name parameters t)

  unfoldable pub parse_decl_extern_type : Parser Double Decl
  unfolding parse_identifier
  parse_decl_extern_type =
      expect_current token_extern >> expect_current token_type >> parse_identifier c >>= λ name.
      expect_current token_semicolon >> pure (decl_extern_type name)

  unfoldable pub parse_decl : Parser Double Decl
  unfolding parse_binding parse_function parse_compound parse_decl_enum parse_decl_extend
      parse_alias parse_decl_extern_variable parse_decl_extern_function parse_decl_extern_type
  parse_decl = if_current token_var (parse_binding token_var decl_variable) (
      if_current token_let (parse_binding token_let decl_constant) (
        if_current token_func (parse_function decl_function) (
          if_current token_struct (parse_compound token_struct decl_struct) (
            if_current token_union (parse_compound token_union decl_union) (
              if_current token_enum parse_decl_enum (
                if_current token_extend parse_decl_extend
                  (if_current token_type (parse_alias decl_alias) extern_decl)))))))
    where
      extern_decl : Parser Double Decl
      extern_decl = if_next token_extern token_var parse_decl_extern_variable (
          if_next token_extern token_func parse_decl_extern_function
            (if_next token_extern token_type parse_decl_extern_type (fatal expected_declaration)))
