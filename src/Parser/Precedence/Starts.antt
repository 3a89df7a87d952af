-- ===== src/Parser/Precedence/Starts.antt =====
-- The starts of expressions are grouped.
use sunder.Prelude.{ℕ, List, ◌≤◌, inl, inr, arith, Bool-cases}
use sunder.Lexer.Kind.{TokenKind, token_lparen}
use sunder.Cst.{CstType, Expr, expr_cast, expr_unary}
use sunder.Parser.Tokens.{pure}
use native.Mathlib.Nat.{le_refl}
use sunder.Lexer.Scan.{Token}
use sunder.Parser.Symbols.{Calls}
use sunder.Parser.Exprs.{
  parse_typed, parse_expr_lparen, parse_expr_symbol, parse_expr_boolean, parse_expr_defined,
  parse_expr_sizeof, parse_expr_alignof, parse_expr_fileof, parse_expr_lineof, parse_expr_embed,
  is_paren, parse_expr_nud_unary, parse_nud,
}
use sunder.Parser.Precedence.Rules.{
  Gives, WhenOk, returned, Gives-pure, Gives-fatal, Gives-stuck, Gives-if_current, Gives-if_next,
  Gives-on_kind, Gives-rounds, Gives->>, Gives->>=-any, Gives->>=, Gives-kept, Gives-map,
  Gives-weaken,
}
use sunder.Parser.Precedence.Grouped.{
  Gives-Grouped, level, Grouped, binary, unary, cast, grouped, call, access_index, access_slice,
  access_member, access_dereference, slice, init, list, name, boolean, integer, ieee754, character,
  bytes, defined, sizeof, alignof, fileof, lineof, embed, Begun, Parsed, precedence_bound,
  Begun-closed,
}

module _ {Double : Type 0} where
  -- No binary operator stands at the top.
  abbrev pub Started : Expr → List (Token Double) → Type 0
  Started e ts = Begun e ts × 6 ≤ level e

  pub operand_level : {e : Expr} {ts : List (Token Double)} → Parsed 6 e ts → 6 ≤ level e
  operand_level p = elim p.binds [ inl lt ↦ omega arith | inr le ↦ le ]

  pub Gives-closed : (e : Expr) → Grouped e → 7 ≤ level e → Gives {Double = Double} Started (pure e)
  Gives-closed e g le = Gives-pure e (λ ts. (Begun-closed g le ts, omega arith))

-- What is closed in itself.
pub ruleset closed = (
  Gives-fatal, Gives-if_current, Gives-if_next, Gives->>, Gives-Grouped, Gives->>=-any,
  Gives-closed,
)

module _ {Double : Type 0} (c : Calls Double) (s : (q : ℕ) → Gives (Parsed q) (c.expr q)) where
  pub operand : (q : ℕ) → Gives (λ e ts. Grouped e) (c.expr q)
  operand q = Gives-weaken (s q) (λ e ts p. p.grouping)

  typed-Begun : (t : CstType) → Gives Started (parse_typed c t)
  unfolding parse_typed
  typed-Begun t = Gives-if_current _ (search (closed, list, le_refl) depth 20) (
      Gives-if_current _ (search (closed, operand, init, slice, le_refl) depth 20) (
        Gives-map (expr_cast t) (s 6) (λ e ts p.
          (record { grouping = cast t (operand_level p) p.grouping; next = p.next }, le_refl 6))))

  lparen-Begun : Gives Started (parse_expr_lparen c)
  unfolding parse_expr_lparen
  lparen-Begun = search (closed, typed-Begun, operand, grouped, le_refl) depth 20

  unary-Begun : (op : TokenKind) → Gives Started (parse_expr_nud_unary c op)
  unfolding parse_expr_nud_unary
  unary-Begun op = Gives->> _ (elim (Bool-cases (is_paren op)) [
    | inl paren ↦ rw paren (
        Gives-kept (λ e. Grouped e × 6 ≤ level e)
          (Gives->> _ (Gives-weaken (s 6) (λ e ts p. (p.grouping, operand_level p))))
          (λ e g. Gives->> _ (Gives-closed _ (unary op g.1 g.0) (rw paren (le_refl 7)))))
    | inr bare ↦ rw bare (
        Gives-map (expr_unary op) (s 6) (λ e ts p. (
          record { grouping = unary op (operand_level p) p.grouping; next = rw bare p.next },
          rw bare (le_refl 6),
        )))
  ])

  -- The starts of one kind.
  atom-Begun :
      Gives Started (parse_expr_symbol c)
      × Gives Started (parse_expr_boolean c)
      × Gives Started (parse_expr_defined c)
  unfolding parse_expr_symbol parse_expr_boolean parse_expr_defined
  atom-Begun = search (closed, name, boolean, defined, le_refl) depth 20

  size-Begun :
      Gives Started (parse_expr_sizeof c)
      × Gives Started (parse_expr_alignof c)
      × Gives Started (parse_expr_fileof c)
      × Gives Started (parse_expr_lineof c)
      × Gives Started (parse_expr_embed c)
  unfolding parse_expr_sizeof parse_expr_alignof parse_expr_fileof parse_expr_lineof
      parse_expr_embed
  size-Begun = search (closed, sizeof, alignof, fileof, lineof, embed, le_refl) depth 20

  pub nud-Begun : (k : TokenKind) → Gives Started (parse_nud c k)
  unfolding parse_nud
  nud-Begun token_lparen = lparen-Begun
  nud-Begun k =
      search
        (
          closed, unary-Begun, atom-Begun.0, atom-Begun.1, atom-Begun.2, size-Begun.0, size-Begun.1,
          size-Begun.2, size-Begun.3, size-Begun.4, integer, ieee754, character, bytes, le_refl,
        )
        depth 20
