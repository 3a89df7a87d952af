-- ===== src/Parser/Progress/Stmts.antt =====
-- The statements of parse.c take tokens.
use sunder.Prelude.{ℕ, zero, suc, ◌≤◌, ◌≡◌, false, arith, inr}
use sunder.Lexer.Kind.{TokenKind, token_typeof, token_semicolon, token_eof}
use sunder.Cst.{Conditionals, Expr, Stmt, stmt_assign, stmt_decl}
use sunder.Parser.Tokens.{pure, ◌>>=◌, ◌>>◌, expect_current, rounds}
use sunder.Parser.Kinds.{same_kind}
use sunder.Parser.Symbols.{Calls}
use sunder.Parser.Types.{an_expression}
use sunder.Parser.Stmts.{
  parse_stmt_defer, parse_conditional, parse_else, conditionals_rounds, parse_conditionals,
  parse_for_range, parse_for_expr, parse_stmt_for, parse_jump, parse_switch_case, cases_rounds,
  parse_stmt_switch, parse_stmt_return, parse_stmt_assert, parse_stmt_expr, parse_stmt,
}
use sunder.Parser.Decls.{parse_decl}
use sunder.Parser.Progress.Rules.{
  Shrinks-less, Shrinks, ShrinksAt, Keeps, Keeps-zero, Keeps-Shrinks, Shrinks-before,
}
use sunder.Parser.Progress.Branches.{Keeps-rounds, Keeps-on_kind_at}
use sunder.Parser.Progress.Loops.{steps}
use sunder.Parser.Progress.Types.{
  Weak, Weak-less, Weak-before, identifier-Keeps, expr-Keeps, type_specifier-Keeps, symbol-Shrinks,
}
use sunder.Parser.Progress.Decls.{block-Keeps, decl-Shrinks}

module _ {Double : Type 0} (c : Calls Double) where
  cases_round :
      (m : ℕ)
      → Shrinks (suc m) (parse_switch_case c)
      → Keeps m (cases_rounds c m)
      → Keeps (suc m) (cases_rounds c (suc m))
  unfolding cases_rounds
  cases_round m s rest = search (steps, Keeps-Shrinks) depth 20

  cases-Keeps :
      {n : ℕ} (m : ℕ) → m ≤ n → Shrinks n (parse_switch_case c) → Keeps m (cases_rounds c m)
  cases-Keeps zero le s = Keeps-zero _
  cases-Keeps (suc m) le s = cases_round m (Shrinks-less le s) (cases-Keeps m (omega arith) s)

module _ {Double : Type 0} {c : Calls Double} where
  conditional-Keeps : {n : ℕ} → Weak n c → Keeps n (parse_conditional c)
  unfolding parse_conditional
  conditional-Keeps w = search (steps, expr-Keeps, block-Keeps) depth 20

  else-Keeps : {n : ℕ} → Weak n c → Keeps n (parse_else c)
  unfolding parse_else
  else-Keeps w = search (steps, block-Keeps) depth 20

  module _ (elif : TokenKind) (e : same_kind token_eof elif ≡ false) where
    conditionals_round :
        (m : ℕ)
        → Weak (suc m) c
        → Keeps m (parse_conditional c)
        → Keeps m (conditionals_rounds c elif m)
        → Keeps (suc m) (conditionals_rounds c elif (suc m))
    unfolding conditionals_rounds
    conditionals_round m w condition rest = search (steps, e, Keeps-Shrinks, else-Keeps) depth 20

    conditionals-Keeps : (m : ℕ) → Weak m c → Keeps m (conditionals_rounds c elif m)
    conditionals-Keeps zero w = Keeps-zero _
    conditionals-Keeps (suc m) w =
        conditionals_round m w (conditional-Keeps (Weak-before w))
          (conditionals-Keeps m (Weak-before w))

module _ {Double : Type 0} {c : Calls Double} {n : ℕ} (w : Weak n c) where
  defer-Shrinks : Shrinks (suc n) (parse_stmt_defer c)
  unfolding parse_stmt_defer
  defer-Shrinks = search (steps, expr-Keeps, block-Keeps) depth 20

  all_conditionals-Keeps :
      (elif : TokenKind)
      → same_kind token_eof elif ≡ false
      → Keeps n (rounds (conditionals_rounds c elif))
  all_conditionals-Keeps elif e =
      Keeps-rounds _ (λ m le. conditionals-Keeps elif e m (Weak-less le w))

  conditionals-Shrinks :
      (keyword elif : TokenKind) (product : Conditionals → Stmt)
      → same_kind token_eof keyword ≡ false
      → same_kind token_eof elif ≡ false
      → Shrinks (suc n) (parse_conditionals c keyword elif product)
  unfolding parse_conditionals
  conditionals-Shrinks keyword elif product e e' =
      search (steps, e, e', conditional-Keeps, all_conditionals-Keeps) depth 20

  for_range-Keeps : Keeps n (parse_for_range c)
  unfolding parse_for_range
  for_range-Keeps =
      search (steps, identifier-Keeps, type_specifier-Keeps, expr-Keeps, block-Keeps) depth 30

  for_expr-Keeps : Keeps n (parse_for_expr c)
  unfolding parse_for_expr
  for_expr-Keeps = search (steps, expr-Keeps, block-Keeps) depth 20

  for-Shrinks : Shrinks (suc n) (parse_stmt_for c)
  unfolding parse_stmt_for
  for-Shrinks = search (steps, for_range-Keeps, for_expr-Keeps) depth 20

  jump-Shrinks :
      (keyword : TokenKind) (product : Stmt)
      → same_kind token_eof keyword ≡ false
      → Shrinks (suc n) (parse_jump c keyword product)
  unfolding parse_jump
  jump-Shrinks keyword product e = search (steps, e) depth 20

  return-Shrinks : Shrinks (suc n) (parse_stmt_return c)
  unfolding parse_stmt_return
  return-Shrinks = search (steps, expr-Keeps) depth 20

  assert-Shrinks : Shrinks (suc n) (parse_stmt_assert c)
  unfolding parse_stmt_assert
  assert-Shrinks = search (steps, expr-Keeps) depth 20

  assign-Keeps :
      (op : TokenKind) (lhs : Expr)
      → Keeps n (
          expect_current op >> an_expression c >>= λ rhs.
          expect_current token_semicolon >> pure (stmt_assign op lhs rhs))
  assign-Keeps op lhs = search (steps, expr-Keeps) depth 20

  -- An expression statement takes tokens when its expression does, and a symbol when its type does.
  module _ (expr : Shrinks (suc n) (an_expression c))
      (typeof : ShrinksAt token_typeof (suc n) c.cst_type) where
    stmt_expr-Shrinks : Shrinks (suc n) (parse_stmt_expr c)
    unfolding parse_stmt_expr
    stmt_expr-Shrinks = search (steps, expr, Keeps-on_kind_at, assign-Keeps, inr) depth 20

    case-Shrinks : Shrinks (suc n) (parse_switch_case c)
    unfolding parse_switch_case
    case-Shrinks = search (steps, symbol-Shrinks, block-Keeps) depth 20

    all_cases-Keeps : Keeps n (rounds (cases_rounds c))
    all_cases-Keeps = Keeps-rounds _ (λ m le. cases-Keeps c m le (Shrinks-before case-Shrinks))

    switch-Shrinks : Shrinks (suc n) (parse_stmt_switch c)
    unfolding parse_stmt_switch
    switch-Shrinks = search (steps, expr-Keeps, all_cases-Keeps) depth 20

    decl_stmt-Shrinks : Shrinks (suc n) (parse_decl c >>= λ d. pure (stmt_decl d))
    decl_stmt-Shrinks = search (steps, decl-Shrinks)

    pub stmt-Shrinks : Shrinks (suc n) (parse_stmt c)
    unfolding parse_stmt
    stmt-Shrinks =
        search
          (
            steps, decl_stmt-Shrinks, defer-Shrinks, conditionals-Shrinks, for-Shrinks,
            jump-Shrinks, switch-Shrinks, return-Shrinks, assert-Shrinks, stmt_expr-Shrinks,
          )
          depth 20
