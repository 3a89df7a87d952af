-- ===== src/Parser/Precedence/Behind.antt =====
-- What stands behind an expression keeps the grouping.
use sunder.Prelude.{ℕ, List, true, ltb, ◌≡◌, refl, ◌≤◌, ◌<◌, inl, inr, arith, Option, none, some}
use sunder.Lexer.Kind.{TokenKind, token_or}
use sunder.Cst.{Expr}
use sunder.Parser.Tokens.{Parser, pure}
use native.Mathlib.Nat.{le_refl}
use sunder.Lexer.Scan.{Token}
use sunder.Parser.Symbols.{Calls}
use sunder.Parser.Operators.{
  token_kind_precedence, parse_led, parse_expr_led_lparen, parse_expr_led_lbracket,
  parse_expr_led_dot_star, parse_expr_led_dot, parse_expr_led_binary,
}
use sunder.Parser.Precedence.Rules.{
  Gives, Gives-pure, Gives-if_current, Gives->>, Gives->>=-any, Gives-map,
}
use sunder.Parser.Precedence.Grouped.{
  Gives-Grouped, level, Grouped, binary, call, access_index, access_slice, access_member,
  access_dereference, Begun, Parsed, Begun-closed,
}
use sunder.Prelude.{ltb→lt}
use sunder.Parser.Precedence.Starts.{operand}

-- What a function behind an expression is to return at the kind `k`, if that binds no stronger than
-- the expression.
unfoldable pub LedGroups :
    {Double : Type 0} → TokenKind → Option (Expr → Parser Double Expr) → Type 0
LedGroups k none = token_kind_precedence k ≡ 0
LedGroups k (some led) =
    (lhs : Expr)
    → Grouped lhs
    → token_kind_precedence k ≤ level lhs
    → Gives (λ e ts. Begun e ts × token_kind_precedence k ≤ level e) (led lhs)

module _ {Double : Type 0} where
  closed_behind :
      (e : Expr)
      → Grouped e
      → 7 ≤ level e
      → Gives {Double = Double} (λ e ts. Begun e ts × 7 ≤ level e) (pure e)
  closed_behind e g le = Gives-pure e (λ ts. (Begun-closed g le ts, le))

module _ {Double : Type 0} (c : Calls Double) (s : (q : ℕ) → Gives (Parsed q) (c.expr q)) where
  binary_behind :
      (op : TokenKind) (lhs : Expr)
      → ltb (token_kind_precedence op) 6 ≡ true
      → Grouped lhs
      → token_kind_precedence op ≤ level lhs
      → Gives
          (λ e ts. Begun e ts × token_kind_precedence op ≤ level e)
          (parse_expr_led_binary c op lhs)
  unfolding parse_expr_led_binary
  binary_behind op lhs low g le = Gives-map _ (Gives->> _ (s (token_kind_precedence op))) (λ e ts p.
      (record { grouping = binary op le (stronger p) g p.grouping; next = p.next }, le_refl _))
    where
      stronger :
          {e : Expr} {ts : List (Token Double)}
          → Parsed (token_kind_precedence op) e ts
          → token_kind_precedence op < level e
      stronger p = elim p.binds [ inl lt ↦ lt | inr six ↦ omega (arith, ltb→lt _ _ low) ]

  module _ (lhs : Expr) (g : Grouped lhs) (le : 7 ≤ level lhs) where
    call_behind : Gives (λ e ts. Begun e ts × 7 ≤ level e) (parse_expr_led_lparen c lhs)
    unfolding parse_expr_led_lparen
    call_behind = search (Gives->>, Gives->>=-any, closed_behind, call, le_refl) depth 20

    index_behind : Gives (λ e ts. Begun e ts × 7 ≤ level e) (parse_expr_led_lbracket c lhs)
    unfolding parse_expr_led_lbracket
    index_behind =
        search
          (
            Gives-Grouped, Gives->>, Gives-if_current, operand, closed_behind, access_slice,
            access_index, le_refl,
          )
          depth 20

    dereference_behind : Gives (λ e ts. Begun e ts × 7 ≤ level e) (parse_expr_led_dot_star c lhs)
    unfolding parse_expr_led_dot_star
    dereference_behind = search (Gives->>, closed_behind, access_dereference, le_refl) depth 20

    member_behind : Gives (λ e ts. Begun e ts × 7 ≤ level e) (parse_expr_led_dot c lhs)
    unfolding parse_expr_led_dot
    member_behind = search (Gives->>, Gives->>=-any, closed_behind, access_member, le_refl) depth 20

  pub led-Groups : (k : TokenKind) → LedGroups k (parse_led c k)
  unfolding parse_led LedGroups
  led-Groups token_or = λ lhs. binary_behind token_or lhs refl
  led-Groups k =
      search (refl, binary_behind, call_behind, index_behind, dereference_behind, member_behind)
