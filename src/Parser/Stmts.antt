-- ===== src/Parser/Stmts.antt =====
-- The statements of parse.c.
use sunder.Prelude.{ℕ, zero, suc, List, [], ◌∷◌}
use sunder.Lexer.Kind.{
  TokenKind, token_or, token_var, token_let, token_func, token_type, token_switch, token_return,
  token_assert, token_defer, token_if, token_elif, token_else, token_when, token_elwhen, token_for,
  token_in, token_break, token_continue, token_plus_percent_assign, token_dash_percent_assign,
  token_star_percent_assign, token_plus_assign, token_dash_assign, token_star_assign,
  token_fslash_assign, token_percent_assign, token_shl_assign, token_shr_assign, token_pipe_assign,
  token_caret_assign, token_ampersand_assign, token_assign, token_lbrace, token_rbrace, token_colon,
  token_semicolon, token_identifier,
}
use sunder.Cst.{
  Block, Cases, Conditionals, Expr, Stmt, Symbols, an_expr, more_cases, more_conditionals,
  more_symbols, no_cases, no_conditionals, no_expr, no_symbols, stmt_assert, stmt_assign,
  stmt_break, stmt_continue, stmt_decl, stmt_defer_block, stmt_defer_expr, stmt_expr, stmt_for_expr,
  stmt_for_range, stmt_if, stmt_return, stmt_switch, stmt_when,
}
use sunder.Parser.Tokens.{
  Parser, pure, ◌>>=◌, ◌>>◌, expect_current, if_current, if_any, if_next, on_kind, rounds, stuck,
  separated,
}
use sunder.Parser.Symbols.{Calls, parse_identifier, parse_symbol}
use sunder.Parser.Types.{an_expression, type_specifier}
use sunder.Parser.Decls.{parse_block, parse_decl}

-- `assignment_ops`.
abbrev pub assignment_ops : List TokenKind
assignment_ops =
    token_assign ∷ token_plus_assign ∷ token_dash_assign ∷ token_star_assign ∷ token_fslash_assign
    ∷ token_percent_assign ∷ token_plus_percent_assign ∷ token_dash_percent_assign
    ∷ token_star_percent_assign ∷ token_shl_assign ∷ token_shr_assign ∷ token_pipe_assign
    ∷ token_caret_assign ∷ token_ampersand_assign ∷ []

module _ {Double : Type 0} (c : Calls Double) where
  unfoldable pub parse_stmt_defer : Parser Double Stmt
  unfolding parse_block
  parse_stmt_defer =
      expect_current token_defer
      >> if_current token_lbrace (parse_block c >>= λ b. pure (stmt_defer_block b))
          (an_expression c >>= λ e. expect_current token_semicolon >> pure (stmt_defer_expr e))

  -- A condition and its block, behind the keyword.
  unfoldable pub parse_conditional : Parser Double (Expr × Block)
  unfolding parse_block
  parse_conditional =
      an_expression c >>= λ condition. parse_block c >>= λ body. pure (condition, body)

  -- The further conditionals of `if` and `when`.
  unfoldable pub parse_else : Parser Double Conditionals
  unfolding parse_block
  parse_else =
      if_current token_else
        (expect_current token_else >> parse_block c >>= λ body.
          pure (more_conditionals no_expr body no_conditionals))
        (pure no_conditionals)

  abbrev more_conditional : Expr × Block → Conditionals → Conditionals
  more_conditional r rest = more_conditionals (an_expr r.0) r.1 rest

  unfoldable pub conditionals_rounds : TokenKind → ℕ → Parser Double Conditionals
  unfolding parse_conditional parse_else
  conditionals_rounds elif zero = stuck
  conditionals_rounds elif (suc n) =
      let rest = conditionals_rounds elif n in
      if_current elif
        (expect_current elif >> parse_conditional >>= λ r.
          rest >>= λ rs. pure (more_conditional r rs))
        parse_else

  -- `parse_stmt_if` and `parse_stmt_when`, which differ in the keywords and the node.
  unfoldable pub parse_conditionals :
      TokenKind → TokenKind → (Conditionals → Stmt) → Parser Double Stmt
  unfolding parse_conditional conditionals_rounds
  parse_conditionals keyword elif product = expect_current keyword >> parse_conditional >>= λ r.
      rounds (conditionals_rounds elif) >>= λ rs. pure (product (more_conditional r rs))

  -- `parse_stmt_for` over a range, at its identifier.
  unfoldable pub parse_for_range : Parser Double Stmt
  unfolding parse_identifier parse_block
  parse_for_range = parse_identifier c >>= λ name. type_specifier c >>= λ t.
      expect_current token_in >> an_expression c >>= λ begin.
      if_current token_colon
        (expect_current token_colon >> an_expression c >>= λ end.
          parse_block c >>= λ body. pure (stmt_for_range name t (an_expr begin) end body))
        (parse_block c >>= λ body. pure (stmt_for_range name t no_expr begin body))

  unfoldable pub parse_for_expr : Parser Double Stmt
  unfolding parse_block
  parse_for_expr = an_expression c >>= λ e. parse_block c >>= λ body. pure (stmt_for_expr e body)

  unfoldable pub parse_stmt_for : Parser Double Stmt
  unfolding parse_for_range parse_for_expr
  parse_stmt_for =
      expect_current token_for
      >> if_next token_identifier token_colon parse_for_range
          (if_next token_identifier token_in parse_for_range parse_for_expr)

  -- `parse_stmt_break` and `parse_stmt_continue`.
  unfoldable pub parse_jump : TokenKind → Stmt → Parser Double Stmt
  parse_jump keyword product =
      expect_current keyword >> expect_current token_semicolon >> pure product

  unfoldable pub parse_switch_case : Parser Double (Symbols × Block)
  unfolding parse_symbol parse_block
  parse_switch_case =
      if_current token_else (expect_current token_else >> pure no_symbols)
        (separated token_or (parse_symbol c) no_symbols more_symbols)
      >>= λ symbols. parse_block c >>= λ b. pure (symbols, b)

  -- The loop over the cases ends behind an `else`.
  unfoldable pub cases_rounds : ℕ → Parser Double Cases
  unfolding parse_switch_case
  cases_rounds zero = stuck
  cases_rounds (suc n) =
      let rest = cases_rounds n in
      if_current token_rbrace (pure no_cases) (
        if_current token_else (parse_switch_case >>= λ r. pure (more_cases r.0 r.1 no_cases))
          (parse_switch_case >>= λ r. rest >>= λ rs. pure (more_cases r.0 r.1 rs)))

  unfoldable pub parse_stmt_switch : Parser Double Stmt
  unfolding cases_rounds
  parse_stmt_switch = expect_current token_switch >> an_expression c >>= λ e.
      expect_current token_lbrace >> rounds cases_rounds >>= λ cases.
      expect_current token_rbrace >> pure (stmt_switch e cases)

  unfoldable pub parse_stmt_return : Parser Double Stmt
  parse_stmt_return =
      expect_current token_return
      >> if_current token_semicolon (pure no_expr) (an_expression c >>= λ e. pure (an_expr e))
      >>= λ e. expect_current token_semicolon >> pure (stmt_return e)

  unfoldable pub parse_stmt_assert : Parser Double Stmt
  parse_stmt_assert = expect_current token_assert >> an_expression c >>= λ e.
      expect_current token_semicolon >> pure (stmt_assert e)

  -- An assignment or an expression.
  unfoldable pub parse_stmt_expr : Parser Double Stmt
  parse_stmt_expr = an_expression c >>= λ e.
      if_any assignment_ops
        (on_kind (λ op. expect_current op >> an_expression c >>= λ rhs.
          expect_current token_semicolon >> pure (stmt_assign op e rhs)))
        (expect_current token_semicolon >> pure (stmt_expr e))

  unfoldable pub parse_stmt : Parser Double Stmt
  unfolding parse_decl parse_stmt_defer parse_conditionals parse_stmt_for parse_jump
      parse_stmt_switch parse_stmt_return parse_stmt_assert parse_stmt_expr
  parse_stmt =
      if_any (token_var ∷ token_let ∷ token_func ∷ token_type ∷ [])
        (parse_decl c >>= λ d. pure (stmt_decl d))
        (if_current token_defer parse_stmt_defer (
          if_current token_if (parse_conditionals token_if token_elif stmt_if) (
            if_current token_when (parse_conditionals token_when token_elwhen stmt_when) (
              if_current token_for parse_stmt_for (
                if_current token_break (parse_jump token_break stmt_break) (
                  if_current token_continue (parse_jump token_continue stmt_continue) (
                    if_current token_switch parse_stmt_switch (
                      if_current token_return parse_stmt_return
                        (if_current token_assert parse_stmt_assert parse_stmt_expr)))))))))
