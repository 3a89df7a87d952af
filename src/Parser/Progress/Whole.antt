-- ===== src/Parser/Progress/Whole.antt =====
-- `parse` comes to an end on the tokens of every module.
use sunder.Prelude.{ℕ, zero, suc, ◌+◌, ◌*◌, ◌≤◌, ◌≢◌, List, length, arith}
use sunder.Lexer.Kind.{token_typeof}
use sunder.Cst.{CstModule}
use sunder.Lexer.Scan.{Token}
use sunder.Parser.Tokens.{out_of_fuel}
use sunder.Parser.Symbols.{Calls}
use sunder.Parser.Module.{calls, parse_namespace, parse_import, parse_module, parse}
use sunder.Parser.Progress.Rules.{
  succeeds, Ends-out_of_fuel, Ends-bind, Shrinks, ShrinksAt, Keeps, Shrinks-before,
}
use sunder.Parser.Progress.Loops.{steps}
use sunder.Parser.Progress.Types.{Weak, identifier-Keeps, typeof-Shrinks, type-Shrinks}
use sunder.Parser.Progress.Operators.{precedence-Shrinks}
use sunder.Parser.Progress.Decls.{decl-Shrinks}
use sunder.Parser.Progress.Stmts.{stmt-Shrinks}

module _ {Double : Type 0} (intern : List ℕ → ℕ) where
  -- Three steps of the fuel for each token that a call may read.
  Weak-zero : (c : Calls Double) → Weak 0 c
  Weak-zero c = record {
    expr = λ precedence. record { run = λ ts h. absurd (omega arith) };
    cst_type = record { run = λ ts h. absurd (omega arith) };
    decl = record { run = λ ts h. absurd (omega arith) };
    stmt = record { run = λ ts h. absurd (omega arith) };
  }

  typeof_step :
      (n f : ℕ)
      → Weak n (calls {Double = Double} intern f)
      → ShrinksAt token_typeof (suc n) ((calls {Double = Double} intern (suc f)).cst_type)
  unfolding calls
  typeof_step n f w = typeof-Shrinks w

  expr_step :
      (n f : ℕ)
      → Weak n (calls {Double = Double} intern f)
      → ShrinksAt token_typeof (suc n) ((calls {Double = Double} intern f).cst_type)
      → (precedence : ℕ)
      → Shrinks (suc n) ((calls {Double = Double} intern (suc f)).expr precedence)
  unfolding calls
  expr_step n f w typeof precedence = precedence-Shrinks w typeof precedence

  all_step :
      (n f : ℕ)
      → Weak n (calls {Double = Double} intern f)
      → ShrinksAt token_typeof (suc n) ((calls {Double = Double} intern f).cst_type)
      → Shrinks (suc n) ((calls {Double = Double} intern f).expr 0)
      → ((precedence : ℕ)
          → Shrinks (suc n) ((calls {Double = Double} intern (suc f)).expr precedence))
      → Weak (suc n) (calls {Double = Double} intern (suc f))
  unfolding calls
  all_step n f w typeof expr exprs = record {
    expr = exprs;
    cst_type = type-Shrinks w typeof;
    decl = decl-Shrinks w;
    stmt = stmt-Shrinks w expr typeof;
  }

  -- Enough fuel for fewer than `n` tokens, and what it gives on `n` tokens.
  module _ (n : ℕ) (enough : (f : ℕ) → 3 * n ≤ f → Weak n (calls {Double = Double} intern f)) where
    typeof_on :
        (f : ℕ)
        → 3 * n + 1 ≤ f
        → ShrinksAt token_typeof (suc n) (calls {Double = Double} intern f).cst_type
    typeof_on zero le = absurd (omega arith)
    typeof_on (suc f) le = typeof_step n f (enough f (omega arith))

    expr_on :
        (f : ℕ)
        → 3 * n + 2 ≤ f
        → (precedence : ℕ) → Shrinks (suc n) ((calls {Double = Double} intern f).expr precedence)
    expr_on zero le precedence = absurd (omega arith)
    expr_on (suc f) le precedence =
        expr_step n f (enough f (omega arith)) (typeof_on f (omega arith)) precedence

    all_on : (f : ℕ) → 3 * suc n ≤ f → Weak (suc n) (calls {Double = Double} intern f)
    all_on zero le = absurd (omega arith)
    all_on (suc f) le =
        all_step n f (enough f (omega arith)) (typeof_on f (omega arith))
          (expr_on f (omega arith) 0) (expr_on (suc f) (omega arith))

  pub enough_fuel : (n f : ℕ) → 3 * n ≤ f → Weak n (calls {Double = Double} intern f)
  enough_fuel zero f le = Weak-zero (calls intern f)
  enough_fuel (suc n) f le = all_on n (enough_fuel n) f le

  module _ {c : Calls Double} {n : ℕ} (w : Weak n c) where
    namespace-Keeps : Keeps n (parse_namespace {Double = Double} intern c)
    unfolding parse_namespace
    namespace-Keeps = search (steps, identifier-Keeps, Shrinks-before) depth 20

    import-Shrinks : Shrinks n (parse_import {Double = Double} intern c)
    unfolding parse_import
    import-Shrinks = Shrinks-before (search (steps) depth 20)

    pub module-Keeps : Keeps n (parse_module {Double = Double} intern c)
    unfolding parse_module
    module-Keeps = search (steps, namespace-Keeps, import-Shrinks, w) depth 20

  -- The parser of the tokens of a module comes to an end, whatever the tokens are: it gives a module
  -- or an error.
  pub parse-out_of_fuel : (ts : List (Token Double)) → parse intern ts ≢ out_of_fuel
  unfolding parse
  parse-out_of_fuel ts = Ends-out_of_fuel (
      Ends-bind {Q = λ (m : CstModule). Unit} _
        ((module-Keeps (enough_fuel (suc (length ts)) (3 * length ts + 3) (omega arith))).run ts
          (omega arith))
        (λ r le. succeeds tt))
