-- ===== src/Parser/Progress/Exprs.antt =====
-- The expressions of parse.c take tokens.
use sunder.Prelude.{ℕ, zero, suc, ◌≡◌, refl, Bool, true, false}
use sunder.Lexer.Kind.{TokenKind, token_true, token_typeof, token_eof}
use sunder.Cst.{CstType}
use sunder.Parser.Tokens.{rounds}
use sunder.Parser.Kinds.{same_kind}
use sunder.Parser.Symbols.{Calls, parse_symbol}
use sunder.Parser.Exprs.{
  parse_member_initializer, initializers_rounds, parse_member_initializer_list, elements_rounds,
  arguments_rounds, parse_typed, parse_expr_lparen, parse_expr_symbol, parse_expr_boolean,
  parse_expr_defined, parse_expr_sizeof, parse_expr_alignof, parse_expr_fileof, parse_expr_lineof,
  parse_expr_embed, is_paren, parse_expr_nud_unary, parse_nud,
}
use sunder.Parser.Progress.Rules.{
  ShrinksAt, ShrinksAt->>=, ShrinksAt->>, ShrinksAt-advance_token, Shrinks, Keeps, Keeps-Shrinks,
  Keeps-before, Keeps-zero,
}
use sunder.Parser.Progress.Branches.{ShrinksAt-always, Keeps-rounds, Keeps-if}
use sunder.Parser.Progress.Loops.{steps}
use sunder.Parser.Progress.Types.{
  Weak, Weak-less, Weak-before, identifier-Keeps, expr-Keeps, type-Keeps, symbol-Shrinks,
}

module _ {Double : Type 0} {c : Calls Double} where
  initializer-Shrinks : {n : ℕ} → Weak n c → Shrinks (suc n) (parse_member_initializer c)
  unfolding parse_member_initializer
  initializer-Shrinks w = search (steps, identifier-Keeps, expr-Keeps) depth 20

  initializer-Keeps : {n : ℕ} → Weak n c → Keeps n (parse_member_initializer c)
  initializer-Keeps w = Keeps-before (initializer-Shrinks w)

  -- A round of each loop, given the rounds behind it.
  initializers_round :
      (m : ℕ)
      → Weak m c
      → Keeps m (initializers_rounds c m)
      → Keeps (suc m) (initializers_rounds c (suc m))
  unfolding initializers_rounds
  initializers_round m w rest = search (steps, Keeps-Shrinks, initializer-Keeps) depth 20

  elements_round :
      (first : Bool) (m : ℕ)
      → Weak (suc m) c
      → Keeps m (elements_rounds c false m)
      → Keeps (suc m) (elements_rounds c first (suc m))
  unfolding elements_rounds
  elements_round true m w rest = search (steps, Keeps-Shrinks, w.expr, expr-Keeps) depth 20
  elements_round false m w rest =
      search (steps, Keeps-Shrinks, Weak-before, w.expr, expr-Keeps) depth 20

  arguments_round :
      (first : Bool) (m : ℕ)
      → Weak (suc m) c
      → Keeps m (arguments_rounds c false m)
      → Keeps (suc m) (arguments_rounds c first (suc m))
  unfolding arguments_rounds
  arguments_round true m w rest = search (steps, Keeps-Shrinks, w.expr, expr-Keeps) depth 20
  arguments_round false m w rest =
      search (steps, Keeps-Shrinks, Weak-before, w.expr, expr-Keeps) depth 20

  initializers-Keeps : (m : ℕ) → Weak m c → Keeps m (initializers_rounds c m)
  initializers-Keeps zero w = Keeps-zero _
  initializers-Keeps (suc m) w =
      initializers_round m (Weak-before w) (initializers-Keeps m (Weak-before w))

  elements-Keeps : (first : Bool) (m : ℕ) → Weak m c → Keeps m (elements_rounds c first m)
  elements-Keeps first zero w = Keeps-zero _
  elements-Keeps first (suc m) w = elements_round first m w (elements-Keeps false m (Weak-before w))

  arguments-Keeps : (first : Bool) (m : ℕ) → Weak m c → Keeps m (arguments_rounds c first m)
  arguments-Keeps first zero w = Keeps-zero _
  arguments-Keeps first (suc m) w =
      arguments_round first m w (arguments-Keeps false m (Weak-before w))

module _ {Double : Type 0} {c : Calls Double} {n : ℕ} (w : Weak n c) where
  all_initializers-Keeps : Keeps n (rounds (initializers_rounds c))
  all_initializers-Keeps = Keeps-rounds _ (λ m le. initializers-Keeps m (Weak-less le w))

  all_elements-Keeps : Keeps n (rounds (elements_rounds c true))
  all_elements-Keeps = Keeps-rounds _ (λ m le. elements-Keeps true m (Weak-less le w))

  pub all_arguments-Keeps : Keeps n (rounds (arguments_rounds c true))
  all_arguments-Keeps = Keeps-rounds _ (λ m le. arguments-Keeps true m (Weak-less le w))

  initializer_list-Keeps : Keeps n (parse_member_initializer_list c)
  unfolding parse_member_initializer_list
  initializer_list-Keeps = search (steps, initializer-Keeps, all_initializers-Keeps) depth 20

  typed-Keeps : (t : CstType) → Keeps n (parse_typed c t)
  unfolding parse_typed
  typed-Keeps t = search (steps, initializer_list-Keeps, all_elements-Keeps, expr-Keeps) depth 20

  lparen-Shrinks : Shrinks (suc n) (parse_expr_lparen c)
  unfolding parse_expr_lparen
  lparen-Shrinks = search (steps, type-Keeps, typed-Keeps, expr-Keeps) depth 20

  unary-Shrinks :
      (op : TokenKind)
      → same_kind token_eof op ≡ false
      → ShrinksAt op (suc n) (parse_expr_nud_unary c op)
  unfolding parse_expr_nud_unary
  unary-Shrinks op e = ShrinksAt->> (ShrinksAt-advance_token (suc n) op e) (
      Keeps-if (is_paren op) (search (steps, expr-Keeps) depth 20)
        (search (steps, expr-Keeps) depth 20))

  fileof-Shrinks : Shrinks (suc n) (parse_expr_fileof c)
  unfolding parse_expr_fileof
  fileof-Shrinks = search (steps) depth 20

  lineof-Shrinks : Shrinks (suc n) (parse_expr_lineof c)
  unfolding parse_expr_lineof
  lineof-Shrinks = search (steps) depth 20

  sizeof-Shrinks : Shrinks (suc n) (parse_expr_sizeof c)
  unfolding parse_expr_sizeof
  sizeof-Shrinks = search (steps, type-Keeps) depth 20

  alignof-Shrinks : Shrinks (suc n) (parse_expr_alignof c)
  unfolding parse_expr_alignof
  alignof-Shrinks = search (steps, type-Keeps) depth 20

  embed-Shrinks : Shrinks (suc n) (parse_expr_embed c)
  unfolding parse_expr_embed
  embed-Shrinks = search (steps) depth 20

  boolean-Shrinks :
      (op : TokenKind)
      → same_kind token_eof op ≡ false
      → ShrinksAt op (suc n) (parse_expr_boolean c)
  unfolding parse_expr_boolean
  boolean-Shrinks op e =
      ShrinksAt->>= (ShrinksAt-advance_token (suc n) op e) (λ token. search (steps))

  -- The start of an expression, by its kind.
  module _ (typeof : ShrinksAt token_typeof (suc n) c.cst_type) where
    expr_symbol-Shrinks : Shrinks (suc n) (parse_expr_symbol c)
    unfolding parse_expr_symbol
    expr_symbol-Shrinks = search (steps, symbol-Shrinks)

    symbol-Keeps : Keeps n (parse_symbol c)
    symbol-Keeps = Keeps-before (symbol-Shrinks w typeof)

    defined-Shrinks : Shrinks (suc n) (parse_expr_defined c)
    unfolding parse_expr_defined
    defined-Shrinks = search (steps, symbol-Keeps) depth 20

    pub nud-Shrinks : (k : TokenKind) → ShrinksAt k (suc n) (parse_nud c k)
    unfolding parse_nud
    nud-Shrinks token_true = boolean-Shrinks token_true refl
    nud-Shrinks kind =
        search
          (
            steps, ShrinksAt-always, expr_symbol-Shrinks, boolean-Shrinks, lparen-Shrinks,
            defined-Shrinks, sizeof-Shrinks, alignof-Shrinks, fileof-Shrinks, lineof-Shrinks,
            embed-Shrinks, unary-Shrinks,
          )
          depth 20
