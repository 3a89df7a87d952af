-- ===== src/Parser/Module.antt =====
-- `parse_module` and `parse`, and the knot of the recursive calls.
use sunder.Prelude.{ℕ, zero, suc, List, [], ◌∷◌, none, some}
use sunder.Lexer.Kind.{
  token_namespace, token_import, token_colon_colon, token_semicolon, token_bytes, token_eof,
}
use sunder.Cst.{CstModule}
use sunder.Parser.Tokens.{
  Parser, pure, ◌>>=◌, ◌>>◌, expect_current, if_current, stuck, until, while_current,
}
use sunder.Prelude.{length, ◌+◌, ◌*◌}
use sunder.Lexer.Scan.{Token}
use sunder.Parser.Tokens.{Result, bind}
use sunder.Parser.Symbols.{Calls, parse_identifier}
use sunder.Parser.Types.{parse_type}
use sunder.Parser.Operators.{parse_expr_precedence}
use sunder.Parser.Decls.{parse_decl}
use sunder.Parser.Stmts.{parse_stmt}

module _ {Double : Type 0} (intern : List ℕ → ℕ) where
  -- The recursive calls, with the fuel `n` for those that they make.
  unfoldable pub calls : ℕ → Calls Double
  unfolding parse_type parse_expr_precedence parse_decl parse_stmt
  calls zero = record {
    intern = intern;
    expr = λ precedence. stuck;
    cst_type = stuck;
    decl = stuck;
    stmt = stuck;
  }
  calls (suc n) =
      let c = calls n in
      record {
        intern = intern;
        expr = parse_expr_precedence c;
        cst_type = parse_type c;
        decl = parse_decl c;
        stmt = parse_stmt c;
      }

  module _ (c : Calls Double) where
    unfoldable pub parse_namespace : Parser Double (List ℕ)
    unfolding parse_identifier
    parse_namespace = expect_current token_namespace >> parse_identifier c >>= λ name.
        until (token_semicolon ∷ []) (expect_current token_colon_colon >> parse_identifier c) []
          (λ n ns. n ∷ ns)
        >>= λ names. expect_current token_semicolon >> pure (name ∷ names)

    unfoldable pub parse_import : Parser Double ℕ
    parse_import = expect_current token_import >> expect_current token_bytes >>= λ token.
        expect_current token_semicolon >> pure (c.intern token.1)

    unfoldable pub parse_module : Parser Double CstModule
    unfolding parse_namespace parse_import
    parse_module =
        if_current token_namespace (parse_namespace >>= λ names. pure (some names)) (pure none)
        >>= λ namespace. while_current token_import parse_import [] (λ i is. i ∷ is) >>= λ imports.
            until (token_eof ∷ []) c.decl [] (λ d ds. d ∷ ds) >>= λ decls.
            pure (record { namespace = namespace; imports = imports; decls = decls })

  -- `parse`, of the tokens of a module.
  unfoldable pub parse : List (Token Double) → Result CstModule
  unfolding parse_module calls
  parse ts = bind (parse_module (calls (3 * length ts + 3)) ts) (λ r. Result.ok r.0)
