-- ===== src/Parser/Progress/Types.antt =====
-- The symbols and the types of parse.c take tokens.
use sunder.Prelude.{ℕ, suc, ◌≤◌, arith}
use sunder.Lexer.Kind.{token_typeof, token_colon_colon}
use sunder.Parser.Symbols.{
  Calls, parse_identifier, parse_template_parameter_list, parse_template_argument_list,
  parse_symbol_element, symbol_elements, parse_symbol,
}
use sunder.Parser.Types.{
  type_specifier, parse_member_variable, parse_enum_value, parse_type_symbol, parse_type_function,
  parse_type_pointer, parse_type_array_or_slice, parse_type_struct, parse_type_union,
  parse_type_enum, parse_type_typeof, parse_type,
}
use sunder.Parser.Progress.Rules.{
  ShrinksAt, ShrinksAt->>=, Shrinks, Keeps, Keeps-Shrinks, Shrinks-before, Keeps-before,
  Shrinks-less,
}
use sunder.Parser.Progress.Branches.{
  ShrinksAt-here, ShrinksAt-else, ShrinksAt-neither, ShrinksAt-always, Shrinks-at,
  Shrinks-if_current,
}
use sunder.Parser.Progress.Loops.{steps}

-- The recursive calls take tokens when there are fewer than `n`.
pub record Weak {Double : Type 0} (n : ℕ) (c : Calls Double) : Type 0 where
  pub expr : (precedence : ℕ) → Shrinks n (c.expr precedence)
  pub cst_type : Shrinks n c.cst_type
  pub decl : Shrinks n c.decl
  pub stmt : Shrinks n c.stmt

module _ {Double : Type 0} {c : Calls Double} where
  pub Weak-less : {m n : ℕ} → m ≤ n → Weak n c → Weak m c
  Weak-less le w = record {
    expr = λ precedence. Shrinks-less le (w.expr precedence);
    cst_type = Shrinks-less le w.cst_type;
    decl = Shrinks-less le w.decl;
    stmt = Shrinks-less le w.stmt;
  }

  pub Weak-before : {n : ℕ} → Weak (suc n) c → Weak n c
  Weak-before w = Weak-less (omega arith) w

module _ {Double : Type 0} (c : Calls Double) where
  pub identifier-Shrinks : (n : ℕ) → Shrinks n (parse_identifier c)
  unfolding parse_identifier
  identifier-Shrinks n = Shrinks-before (search (steps))

  pub identifier-Keeps : (n : ℕ) → Keeps n (parse_identifier c)
  identifier-Keeps n = Keeps-Shrinks (identifier-Shrinks n)

  pub template_parameters-Keeps : (n : ℕ) → Keeps n (parse_template_parameter_list c)
  unfolding parse_template_parameter_list
  template_parameters-Keeps n = search (steps, identifier-Shrinks) depth 20

module _ {Double : Type 0} {c : Calls Double} {n : ℕ} (w : Weak n c) where
  pub expr-Keeps : (precedence : ℕ) → Keeps n (c.expr precedence)
  expr-Keeps precedence = Keeps-Shrinks (w.expr precedence)

  pub type-Keeps : Keeps n c.cst_type
  type-Keeps = Keeps-Shrinks w.cst_type

  pub type_specifier-Keeps : Keeps n (type_specifier c)
  type_specifier-Keeps = search (steps, type-Keeps)

  pub template_arguments-Shrinks : Shrinks (suc n) (parse_template_argument_list c)
  unfolding parse_template_argument_list
  template_arguments-Shrinks = search (steps, type-Keeps, w) depth 20

  template_arguments-Keeps : Keeps n (parse_template_argument_list c)
  template_arguments-Keeps = Keeps-before template_arguments-Shrinks

  pub symbol_element-Shrinks : Shrinks (suc n) (parse_symbol_element c)
  unfolding parse_symbol_element
  symbol_element-Shrinks = search (steps, identifier-Shrinks, template_arguments-Keeps) depth 20

  pub symbol_elements-Shrinks : Shrinks (suc n) (symbol_elements c)
  symbol_elements-Shrinks = search (steps, symbol_element-Shrinks)

  pub symbol_elements-Keeps : Keeps n (symbol_elements c)
  symbol_elements-Keeps = Keeps-before symbol_elements-Shrinks

  pub member_variable-Shrinks : Shrinks (suc n) (parse_member_variable c)
  unfolding parse_member_variable
  member_variable-Shrinks = search (steps, identifier-Keeps, type-Keeps) depth 20

  pub enum_value-Shrinks : Shrinks (suc n) (parse_enum_value c)
  unfolding parse_enum_value
  enum_value-Shrinks = search (steps, identifier-Shrinks, expr-Keeps) depth 20

  type_function-Shrinks : Shrinks (suc n) (parse_type_function c)
  unfolding parse_type_function
  type_function-Shrinks = search (steps, type-Keeps, w) depth 20

  type_pointer-Shrinks : Shrinks (suc n) (parse_type_pointer c)
  unfolding parse_type_pointer
  type_pointer-Shrinks = search (steps, type-Keeps) depth 20

  type_array-Shrinks : Shrinks (suc n) (parse_type_array_or_slice c)
  unfolding parse_type_array_or_slice
  type_array-Shrinks = search (steps, type-Keeps, expr-Keeps) depth 20

  type_struct-Shrinks : Shrinks (suc n) (parse_type_struct c)
  unfolding parse_type_struct
  type_struct-Shrinks = search (steps, Shrinks-before member_variable-Shrinks) depth 20

  type_union-Shrinks : Shrinks (suc n) (parse_type_union c)
  unfolding parse_type_union
  type_union-Shrinks = search (steps, Shrinks-before member_variable-Shrinks) depth 20

  type_enum-Shrinks : Shrinks (suc n) (parse_type_enum c)
  unfolding parse_type_enum
  type_enum-Shrinks =
      search (steps, Shrinks-before enum_value-Shrinks, type_specifier-Keeps) depth 20

  type_typeof-Shrinks : Shrinks (suc n) (parse_type_typeof c)
  unfolding parse_type_typeof
  type_typeof-Shrinks = search (steps, expr-Keeps) depth 20

  pub typeof-Shrinks : ShrinksAt token_typeof (suc n) (parse_type c)
  unfolding parse_type
  typeof-Shrinks =
      search
        (
          steps, ShrinksAt-here, ShrinksAt-else, ShrinksAt-neither, ShrinksAt-always,
          type_typeof-Shrinks,
        )
        depth 20

  -- A symbol that begins with a type takes tokens when the type does.
  module _ (typeof : ShrinksAt token_typeof (suc n) c.cst_type) where
    pub symbol-Shrinks : Shrinks (suc n) (parse_symbol c)
    unfolding parse_symbol
    symbol-Shrinks =
        Shrinks-if_current token_colon_colon (search (steps, symbol_elements-Keeps) depth 20) (
          Shrinks-at token_typeof
            (ShrinksAt->>= typeof (search (steps, symbol_elements-Keeps) depth 20))
            (search (steps, symbol_elements-Shrinks)))

    pub type-Shrinks : Shrinks (suc n) (parse_type c)
    unfolding parse_type parse_type_symbol
    type-Shrinks =
        search
          (
            steps, symbol-Shrinks, type_function-Shrinks, type_pointer-Shrinks, type_array-Shrinks,
            type_struct-Shrinks, type_union-Shrinks, type_enum-Shrinks, type_typeof-Shrinks,
          )
          depth 20
