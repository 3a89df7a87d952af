-- ===== src/Parser/Precedence/Whole.antt =====
-- `parse_expr_precedence` groups by the precedence.
use sunder.Prelude.{
  ℕ, zero, suc, List, Bool, true, false, ltb, if◌then◌else◌, ◌≡◌, refl, ◌≤◌, ◌<◌, ◌⊎◌, inl, inr,
  arith, Option, none, some,
}
use sunder.Cst.{Expr}
use sunder.Parser.Tokens.{Parser, pure, ◌>>=◌, on_kind, rounds, stuck}
use sunder.Lexer.Scan.{Token}
use sunder.Parser.Tokens.{current_kind}
use sunder.Parser.Symbols.{Calls}
use sunder.Parser.Operators.{token_kind_precedence, led_rounds, parse_expr_precedence}
use sunder.Parser.Precedence.Rules.{Gives, WhenOk, returned, Gives-stuck, Gives-on_kind, Gives->>=}
use sunder.Parser.Precedence.Grouped.{level, Begun, Parsed}
use sunder.Prelude.{length, ◌*◌, ltb→lt}
use sunder.Parser.Module.{calls}
use sunder.Parser.Progress.Rules.{Ends}
use sunder.Parser.Progress.Whole.{enough_fuel}
use sunder.Parser.Precedence.Rules.{Ends-WhenOk, WhenOk-bind, exhausted}
use sunder.Parser.Precedence.Starts.{nud-Begun}
use sunder.Parser.Precedence.Behind.{LedGroups, led-Groups}

not_ltb : (a b : ℕ) → ltb a b ≡ false → b ≤ a
not_ltb a b e = ground arith

module _ {Double : Type 0} (p : ℕ) where
  -- A loop that goes on with an expression and the tokens behind it.
  Loops : (Expr → Parser Double Expr) → Type 0
  Loops loop =
      (e : Expr) (ts : List (Token Double))
      → Begun e ts
      → p < level e ⊎ 6 ≤ level e
      → WhenOk (λ r. Parsed p r.0 r.1) (loop e ts)

  step :
      (b : Bool) (o : Option (Expr → Parser Double Expr)) (rest : Expr → Parser Double Expr)
      → Loops rest
      → (e : Expr) (ts : List (Token Double)) → Begun e ts
      → p < level e ⊎ 6 ≤ level e
      → LedGroups (current_kind ts) o
      → ltb p (token_kind_precedence (current_kind ts)) ≡ b
      → WhenOk
          (λ r. Parsed p r.0 r.1)
          ((if b
              then elim o as (λ o. Parser Double Expr) [ none ↦ pure e | some led ↦ led e >>= rest ]
              else pure e)
            ts)
  unfolding Loops LedGroups pure ◌>>=◌
  step false o rest loops e ts begun binds groups weak =
      returned (record { grouping = begun.grouping; binds = binds; next = not_ltb _ _ weak })
  step true none rest loops e ts begun binds groups strong =
      absurd (omega (arith, ltb→lt _ _ strong, groups))
  step true (some led) rest loops e ts begun binds groups strong =
      WhenOk-bind ((groups e begun.grouping begun.next).gives ts)
        (λ r q. loops r.0 r.1 q.0 (inl (omega (arith, ltb→lt _ _ strong, q.1))))

  module _ (c : Calls Double) (s : (q : ℕ) → Gives (Parsed q) (c.expr q)) where
    loop-Parsed : (n : ℕ) → Loops (led_rounds c p n)
    unfolding led_rounds on_kind Loops stuck
    loop-Parsed zero e ts begun binds = exhausted
    loop-Parsed (suc n) e ts begun binds =
        step _ _ (led_rounds c p n) (loop-Parsed n) e ts begun binds
          (led-Groups c s (current_kind ts)) refl

    precedence-Parsed : Gives (Parsed p) (parse_expr_precedence c p)
    unfolding parse_expr_precedence Loops rounds
    precedence-Parsed =
        Gives->>= (Gives-on_kind (nud-Begun c s))
          (λ e ts q. loop-Parsed (suc (length ts)) e ts q.0 (inr q.1))

module _ {Double : Type 0} (intern : List ℕ → ℕ) where
  all-Parsed : (f p : ℕ) → Gives (Parsed p) ((calls {Double = Double} intern f).expr p)
  unfolding calls
  all-Parsed zero p = Gives-stuck
  all-Parsed (suc f) p = precedence-Parsed p (calls intern f) (all-Parsed f)

  -- With three units of fuel for each token and three more, `parse_expr_precedence` at any precedence
  -- ends with an error, or it takes a token at least and returns an expression that is grouped: a left
  -- operand binds no weaker than its operator and a right operand binds stronger, below a prefix
  -- operator or a cast stands no binary operator, and below a postfix operator neither of these,
  -- unless in parentheses. The expression binds stronger than the precedence or has no binary
  -- operator at its top, and the token behind it binds no stronger than the precedence.
  pub parse_expr-Parsed :
      (f p : ℕ) (ts : List (Token Double))
      → 3 * suc (length ts) ≤ f
      → Ends (λ r. length r.1 < length ts × Parsed p r.0 r.1) ((calls intern f).expr p ts)
  parse_expr-Parsed f p ts le =
      Ends-WhenOk (((enough_fuel intern (suc (length ts)) f le).expr p).run ts (omega arith))
        ((all-Parsed f p).gives ts)
