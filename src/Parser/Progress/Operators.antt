-- ===== src/Parser/Progress/Operators.antt =====
-- What stands behind an expression in parse.c takes tokens.
use sunder.Prelude.{
  ℕ, zero, suc, ◌≡◌, refl, Bool, true, false, if◌then◌else◌, inl, inr, ltb, Option, none, some, ◌⊎◌,
}
use sunder.Lexer.Kind.{TokenKind, token_or, token_typeof, token_eof}
use sunder.Cst.{Expr}
use sunder.Parser.Tokens.{Parser, pure, ◌>>=◌}
use sunder.Parser.Kinds.{same_kind}
use sunder.Parser.Symbols.{Calls, parse_symbol_element}
use sunder.Parser.Operators.{
  token_kind_precedence, parse_expr_led_lparen, parse_expr_led_lbracket, parse_expr_led_dot_star,
  parse_expr_led_dot, parse_expr_led_binary, parse_led, led_rounds, parse_expr_precedence,
}
use sunder.Parser.Progress.Rules.{
  ShrinksAt, ShrinksAt->>=, ShrinksAt->>, ShrinksAt-advance_token, Shrinks, Keeps, Keeps-before,
  Keeps-zero, Keeps-pure, Shrinks->>=,
}
use sunder.Parser.Progress.Branches.{
  ShrinksAt-always, Shrinks-on_kind, Keeps-on_kind_at, Keeps-rounds,
}
use sunder.Parser.Progress.Loops.{steps}
use sunder.Parser.Progress.Types.{Weak, Weak-less, Weak-before, expr-Keeps, symbol_element-Shrinks}
use sunder.Parser.Progress.Exprs.{all_arguments-Keeps, nud-Shrinks}

-- What stands behind an expression, by its kind.
LedAt : {Double : Type 0} → TokenKind → ℕ → Option (Expr → Parser Double Expr) → Type 0
LedAt kind n none = Unit
LedAt kind n (some led) = (lhs : Expr) → ShrinksAt kind n (led lhs)

module _ {Double : Type 0} {c : Calls Double} {n : ℕ} (w : Weak n c) where
  call-Shrinks : (lhs : Expr) → Shrinks (suc n) (parse_expr_led_lparen c lhs)
  unfolding parse_expr_led_lparen
  call-Shrinks lhs = search (steps, all_arguments-Keeps) depth 20

  index-Shrinks : (lhs : Expr) → Shrinks (suc n) (parse_expr_led_lbracket c lhs)
  unfolding parse_expr_led_lbracket
  index-Shrinks lhs = search (steps, expr-Keeps) depth 20

  dereference-Shrinks : (lhs : Expr) → Shrinks (suc n) (parse_expr_led_dot_star c lhs)
  unfolding parse_expr_led_dot_star
  dereference-Shrinks lhs = search (steps) depth 20

  element-Keeps : Keeps n (parse_symbol_element c)
  element-Keeps = Keeps-before (symbol_element-Shrinks w)

  member-Shrinks : (lhs : Expr) → Shrinks (suc n) (parse_expr_led_dot c lhs)
  unfolding parse_expr_led_dot
  member-Shrinks lhs = search (steps, element-Keeps) depth 20

  binary-Shrinks :
      (op : TokenKind)
      → same_kind token_eof op ≡ false
      → (lhs : Expr) → ShrinksAt op (suc n) (parse_expr_led_binary c op lhs)
  unfolding parse_expr_led_binary
  binary-Shrinks op e lhs =
      search (ShrinksAt->>=, ShrinksAt->>, ShrinksAt-advance_token, steps, e, expr-Keeps) depth 20

  led-Shrinks : (k : TokenKind) → LedAt k (suc n) (parse_led c k)
  unfolding parse_led LedAt
  led-Shrinks token_or = binary-Shrinks token_or refl
  led-Shrinks kind = search (
    steps, tt, ShrinksAt-always, call-Shrinks, index-Shrinks, dereference-Shrinks, member-Shrinks,
    binary-Shrinks,
  )

module _ {Double : Type 0} where
  led_step :
      {n : ℕ} (kind : TokenKind) (binds : Bool) (o : Option (Expr → Parser Double Expr))
      (lhs : Expr)
      → {rest : Expr → Parser Double Expr} → LedAt kind (suc n) o
      → ((e : Expr) → Keeps n (rest e))
      → ShrinksAt kind (suc n) (
          if binds
          then elim o as (λ led. Parser Double Expr) [
            | none ↦ pure lhs
            | some led ↦ led lhs >>= rest
          ]
          else pure lhs)
        ⊎ Keeps (suc n) (
            if binds
            then elim o as (λ led. Parser Double Expr) [
              | none ↦ pure lhs
              | some led ↦ led lhs >>= rest
            ]
            else pure lhs)
  unfolding LedAt
  led_step kind false o lhs s k = inr (Keeps-pure _ lhs)
  led_step kind true none lhs s k = inr (Keeps-pure _ lhs)
  led_step kind true (some led) lhs s k = inl (ShrinksAt->>= (s lhs) k)

module _ {Double : Type 0} {c : Calls Double} where
  led_rounds-Keeps :
      (precedence m : ℕ) → Weak m c → (lhs : Expr) → Keeps m (led_rounds c precedence m lhs)
  unfolding led_rounds
  led_rounds-Keeps precedence zero w lhs = Keeps-zero _
  led_rounds-Keeps precedence (suc m) w lhs = Keeps-on_kind_at (λ kind.
      led_step kind (ltb precedence (token_kind_precedence kind)) (parse_led c kind) lhs
        (led-Shrinks (Weak-before w) kind) (led_rounds-Keeps precedence m (Weak-before w)))

  -- So does an expression on `n` tokens, when the functions do that it calls on fewer.
  pub precedence-Shrinks :
      {n : ℕ}
      → Weak n c
      → ShrinksAt token_typeof (suc n) c.cst_type
      → (precedence : ℕ) → Shrinks (suc n) (parse_expr_precedence c precedence)
  unfolding parse_expr_precedence
  precedence-Shrinks w typeof precedence =
      Shrinks->>= (Shrinks-on_kind (nud-Shrinks w typeof))
        (λ lhs. Keeps-rounds _ (λ m le. led_rounds-Keeps precedence m (Weak-less le w) lhs))
