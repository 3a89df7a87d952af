-- ===== src/Parser/Precedence/Tables.antt =====
-- `token_kind_precedence` and `token_kind_led` of parse.c agree.
use sunder.Prelude.{true, false, ltb, ◌≡◌, refl, none, some}
use sunder.Lexer.Kind.{TokenKind, token_or}
use sunder.Parser.Symbols.{Calls}
use sunder.Parser.Operators.{token_kind_precedence, parse_led}

-- `token_kind_led` has a function for a token exactly if `token_kind_precedence` is not the lowest
-- one: the loop of `parse_expr_precedence` never returns for want of a function.
pub led-precedence :
    {Double : Type 0} (c : Calls Double) (k : TokenKind)
    → elim (parse_led c k) [ none ↦ false | some led ↦ true ] ≡ ltb 0 (token_kind_precedence k)
unfolding parse_led
led-precedence c token_or = refl
led-precedence c k = refl
