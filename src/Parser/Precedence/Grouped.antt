-- ===== src/Parser/Precedence/Grouped.antt =====
-- How operators and operands stand in an expression.
use sunder.Prelude.{ℕ, List, if◌then◌else◌, ◌≤◌, ◌<◌, ◌⊎◌, arith}
use sunder.Lexer.Kind.{TokenKind, token_or}
use sunder.Cst.{
  CstType, Expr, Exprs, Initializers, MaybeExpr, Symbol, expr_access_dereference, expr_access_index,
  expr_access_member, expr_access_slice, expr_alignof, expr_binary, expr_boolean, expr_integer,
  expr_ieee754, expr_character, expr_bytes, expr_call, expr_cast, expr_defined, expr_embed,
  expr_fileof, expr_grouped, expr_init, expr_lineof, expr_list, expr_sizeof, expr_slice,
  expr_symbol, expr_unary,
}
use sunder.Parser.Tokens.{Parser, ◌>>=◌}
use sunder.Lexer.Scan.{Token}
use sunder.Parser.Tokens.{current_kind}
use sunder.Cst.{Element}
use sunder.Parser.Exprs.{is_paren}
use sunder.Parser.Operators.{token_kind_precedence}
use sunder.Parser.Precedence.Rules.{Gives, Gives-kept}

-- The precedence of the operator that an expression ends with, and that of the postfix operators for
-- one that is closed.
abbrev pub level : Expr → ℕ
level (expr_binary op l r) = token_kind_precedence op
level (expr_unary op e) = if is_paren op then 7 else 6
level (expr_cast t e) = 6
level e = 7

-- The left operand of an operator does not bind weaker, and the right operand binds stronger; no
-- binary operator stands below a prefix operator or a cast, and neither stands below a postfix
-- operator, unless they are in parentheses.
pub data Grouped : Expr → Type 0 where
  binary :
      (op : TokenKind) {l r : Expr}
      → token_kind_precedence op ≤ level l
      → token_kind_precedence op < level r
      → Grouped l
      → Grouped r
      → Grouped (expr_binary op l r)
  unary : (op : TokenKind) {e : Expr} → 6 ≤ level e → Grouped e → Grouped (expr_unary op e)
  cast : (t : CstType) {e : Expr} → 6 ≤ level e → Grouped e → Grouped (expr_cast t e)
  grouped : {e : Expr} → Grouped e → Grouped (expr_grouped e)
  call : (es : Exprs) {e : Expr} → 7 ≤ level e → Grouped e → Grouped (expr_call e es)
  access_index :
      {e i : Expr} → 7 ≤ level e → Grouped e → Grouped i → Grouped (expr_access_index e i)
  access_slice :
      {e i j : Expr}
      → 7 ≤ level e
      → Grouped e
      → Grouped i
      → Grouped j
      → Grouped (expr_access_slice e i j)
  access_member :
      (m : Element) {e : Expr} → 7 ≤ level e → Grouped e → Grouped (expr_access_member e m)
  access_dereference : {e : Expr} → 7 ≤ level e → Grouped e → Grouped (expr_access_dereference e)
  slice : (t : CstType) {e i : Expr} → Grouped e → Grouped i → Grouped (expr_slice t e i)
  init : (t : CstType) (is : Initializers) → Grouped (expr_init t is)
  list : (t : CstType) (es : Exprs) (e : MaybeExpr) → Grouped (expr_list t es e)
  name : (s : Symbol) → Grouped (expr_symbol s)
  boolean : (text : List ℕ) → Grouped (expr_boolean text)
  integer : (text : List ℕ) → Grouped (expr_integer text)
  ieee754 : (text : List ℕ) → Grouped (expr_ieee754 text)
  character : (text : List ℕ) → Grouped (expr_character text)
  bytes : (text : List ℕ) → Grouped (expr_bytes text)
  defined : (s : Symbol) → Grouped (expr_defined s)
  sizeof : (t : CstType) → Grouped (expr_sizeof t)
  alignof : (t : CstType) → Grouped (expr_alignof t)
  fileof : Grouped expr_fileof
  lineof : Grouped expr_lineof
  embed : (path : ℕ) → Grouped (expr_embed path)

module _ {Double : Type 0} where
  -- `e` is grouped, and the next token binds no stronger than its last operator.
  pub record Begun (e : Expr) (ts : List (Token Double)) : Type 0 where
    pub grouping : Grouped e
    pub next : token_kind_precedence (current_kind ts) ≤ level e

  -- What `parse_expr_precedence` promises at a precedence.
  pub record Parsed (precedence : ℕ) (e : Expr) (ts : List (Token Double)) : Type 0 where
    pub grouping : Grouped e
    pub binds : precedence < level e ⊎ 6 ≤ level e
    pub next : token_kind_precedence (current_kind ts) ≤ precedence

pub precedence_bound : (k : TokenKind) → token_kind_precedence k ≤ 7
precedence_bound token_or = omega arith
precedence_bound k = omega arith

pub Gives-Grouped :
    {Double A : Type 0} {P : A → List (Token Double) → Type 0} {p : Parser Double Expr}
    {f : Expr → Parser Double A}
    → Gives (λ e ts. Grouped e) p
    → ((e : Expr) → Grouped e → Gives P (f e))
    → Gives P (p >>= f)
Gives-Grouped s k = Gives-kept Grouped s k

pub Begun-closed :
    {Double : Type 0} {e : Expr} → Grouped e → 7 ≤ level e → (ts : List (Token Double)) → Begun e ts
Begun-closed g c ts = record {
  grouping = g;
  next = omega (arith, precedence_bound (current_kind ts));
}
