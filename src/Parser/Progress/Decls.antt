-- ===== src/Parser/Progress/Decls.antt =====
-- The declarations of parse.c take tokens.
use sunder.Prelude.{ℕ, suc, ◌≡◌, List, false}
use sunder.Lexer.Kind.{TokenKind, token_eof}
use sunder.Cst.{Block, CstType, Decl, MaybeExpr, MaybeType, Members, Parameters, a_type, no_type}
use sunder.Parser.Kinds.{same_kind}
use sunder.Parser.Symbols.{Calls}
use sunder.Parser.Decls.{
  parse_block, parse_function_parameter, parse_function_parameter_list, parse_binding,
  parse_function, parse_alias, parse_member, parse_compound, parse_decl_enum, parse_decl_extend,
  parse_decl_extern_variable, parse_decl_extern_function, parse_decl_extern_type, parse_decl,
  initial_value,
}
use sunder.Parser.Progress.Rules.{Shrinks, Keeps, Keeps-Shrinks, Shrinks-before, Keeps-before}
use sunder.Parser.Progress.Loops.{steps}
use sunder.Parser.Progress.Types.{
  Weak, identifier-Shrinks, identifier-Keeps, template_parameters-Keeps, expr-Keeps, type-Keeps,
  type_specifier-Keeps, member_variable-Shrinks, enum_value-Shrinks,
}

module _ {Double : Type 0} {c : Calls Double} {n : ℕ} (w : Weak n c) where
  decl-Keeps : Keeps n c.decl
  decl-Keeps = Keeps-Shrinks w.decl

  pub block-Shrinks : Shrinks (suc n) (parse_block c)
  unfolding parse_block
  block-Shrinks = search (steps, w) depth 20

  pub block-Keeps : Keeps n (parse_block c)
  block-Keeps = Keeps-before block-Shrinks

  parameter-Shrinks : Shrinks (suc n) (parse_function_parameter c)
  unfolding parse_function_parameter
  parameter-Shrinks = search (steps, identifier-Shrinks, type-Keeps) depth 20

  parameters-Keeps : Keeps n (parse_function_parameter_list c)
  unfolding parse_function_parameter_list
  parameters-Keeps = search (steps, Shrinks-before, parameter-Shrinks) depth 20

  initial_value-Keeps : (name : ℕ) (t : MaybeType) → Keeps n (initial_value c name t)
  initial_value-Keeps name (a_type t) = search (steps, expr-Keeps) depth 20
  initial_value-Keeps name no_type = search (steps, expr-Keeps) depth 20

  module _ {A : Type 0} where
    binding-Shrinks :
        (keyword : TokenKind) (product : ℕ → MaybeType → MaybeExpr → A)
        → same_kind token_eof keyword ≡ false
        → Shrinks (suc n) (parse_binding c keyword product)
    unfolding parse_binding
    binding-Shrinks keyword product e =
        search (steps, e, identifier-Keeps, type_specifier-Keeps, initial_value-Keeps) depth 20

    function-Shrinks :
        (product : ℕ → List ℕ → Parameters → CstType → Block → A)
        → Shrinks (suc n) (parse_function c product)
    unfolding parse_function
    function-Shrinks product =
        search
          (
            steps, identifier-Keeps, template_parameters-Keeps, parameters-Keeps, type-Keeps,
            block-Keeps,
          )
          depth 30

    alias-Shrinks : (product : ℕ → CstType → A) → Shrinks (suc n) (parse_alias c product)
    unfolding parse_alias
    alias-Shrinks product = search (steps, identifier-Keeps, type-Keeps) depth 20

  member-Shrinks : Shrinks (suc n) (parse_member c)
  unfolding parse_member
  member-Shrinks =
      search (steps, member_variable-Shrinks, binding-Shrinks, function-Shrinks, alias-Shrinks)
        depth 20

  compound-Shrinks :
      (keyword : TokenKind) (product : ℕ → List ℕ → Members → Decl)
      → same_kind token_eof keyword ≡ false
      → Shrinks (suc n) (parse_compound c keyword product)
  unfolding parse_compound
  compound-Shrinks keyword product e =
      search (steps, e, identifier-Keeps, template_parameters-Keeps, Shrinks-before, member-Shrinks)
        depth 20

  enum-Shrinks : Shrinks (suc n) (parse_decl_enum c)
  unfolding parse_decl_enum
  enum-Shrinks =
      search
        (
          steps, identifier-Keeps, type_specifier-Keeps, Shrinks-before, enum_value-Shrinks,
          function-Shrinks,
        )
        depth 20

  extend-Shrinks : Shrinks (suc n) (parse_decl_extend c)
  unfolding parse_decl_extend
  extend-Shrinks = search (steps, type-Keeps, decl-Keeps) depth 20

  extern_variable-Shrinks : Shrinks (suc n) (parse_decl_extern_variable c)
  unfolding parse_decl_extern_variable
  extern_variable-Shrinks = search (steps, identifier-Keeps, type-Keeps) depth 20

  extern_function-Shrinks : Shrinks (suc n) (parse_decl_extern_function c)
  unfolding parse_decl_extern_function
  extern_function-Shrinks = search (steps, identifier-Keeps, parameters-Keeps, type-Keeps) depth 20

  extern_type-Shrinks : Shrinks (suc n) (parse_decl_extern_type c)
  unfolding parse_decl_extern_type
  extern_type-Shrinks = search (steps, identifier-Keeps) depth 20

  pub decl-Shrinks : Shrinks (suc n) (parse_decl c)
  unfolding parse_decl
  decl-Shrinks =
      search
        (
          steps, binding-Shrinks, function-Shrinks, compound-Shrinks, enum-Shrinks, extend-Shrinks,
          alias-Shrinks, extern_variable-Shrinks, extern_function-Shrinks, extern_type-Shrinks,
        )
        depth 20
