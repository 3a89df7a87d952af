-- ===== src/Cst.antt =====
-- sunder.h and cst.c: the concrete syntax tree. The locations of its nodes, which only messages
-- show, are left out. An interned name is the address of its text, a number; a literal is the text
-- of its token and an operator the kind of its token. Lists and optional parts of nodes are data
-- types of the block. The declaration inside a member is one of a constant, a function or an alias,
-- and its parts are written out there.
use sunder.Prelude.{ℕ, List, Option}
use sunder.Lexer.Kind.{TokenKind}

pub data SymbolStart : Type 0 where
  start_none start_root start_typeof : SymbolStart

mutual
  pub data Expr : Type 0 where
    expr_symbol : Symbol → Expr
    expr_boolean expr_integer expr_ieee754 expr_character expr_bytes : List ℕ → Expr
    expr_list : CstType → Exprs → MaybeExpr → Expr
    expr_slice : CstType → Expr → Expr → Expr
    expr_init : CstType → Initializers → Expr
    expr_cast : CstType → Expr → Expr
    expr_grouped : Expr → Expr
    expr_call : Expr → Exprs → Expr
    expr_access_index : Expr → Expr → Expr
    expr_access_slice : Expr → Expr → Expr → Expr
    expr_access_member : Expr → Element → Expr
    expr_access_dereference : Expr → Expr
    expr_defined : Symbol → Expr
    expr_sizeof expr_alignof : CstType → Expr
    expr_fileof expr_lineof : Expr
    expr_embed : ℕ → Expr
    expr_unary : TokenKind → Expr → Expr
    expr_binary : TokenKind → Expr → Expr → Expr

  pub data Exprs : Type 0 where
    no_exprs : Exprs
    more_exprs : Expr → Exprs → Exprs

  pub data MaybeExpr : Type 0 where
    no_expr : MaybeExpr
    an_expr : Expr → MaybeExpr

  -- The member and its expression.
  pub data Initializers : Type 0 where
    no_initializers : Initializers
    more_initializers : ℕ → MaybeExpr → Initializers → Initializers

  pub data CstType : Type 0 where
    type_symbol : Symbol → CstType
    type_function : Types → CstType → CstType
    type_pointer : CstType → CstType
    type_array : Expr → CstType → CstType
    type_slice : CstType → CstType
    type_struct type_union : Members → CstType
    type_enum : MaybeType → EnumValues → CstType
    type_typeof : Expr → CstType

  pub data Types : Type 0 where
    no_types : Types
    more_types : CstType → Types → Types

  pub data MaybeType : Type 0 where
    no_type : MaybeType
    a_type : CstType → MaybeType

  -- The type is present for `start_typeof`.
  pub data Symbol : Type 0 where
    symbol : SymbolStart → MaybeType → Elements → Symbol

  -- The identifier and the template arguments.
  pub data Element : Type 0 where
    element : ℕ → Types → Element

  pub data Elements : Type 0 where
    no_elements : Elements
    more_elements : Element → Elements → Elements

  pub data EnumValues : Type 0 where
    no_values : EnumValues
    more_values : ℕ → MaybeExpr → EnumValues → EnumValues

  pub data Parameters : Type 0 where
    no_parameters : Parameters
    more_parameters : ℕ → CstType → Parameters → Parameters

  pub data Member : Type 0 where
    member_variable : ℕ → CstType → Member
    member_constant : ℕ → MaybeType → MaybeExpr → Member
    member_function : ℕ → List ℕ → Parameters → CstType → Block → Member
    member_alias : ℕ → CstType → Member

  pub data Members : Type 0 where
    no_members : Members
    more_members : Member → Members → Members

  pub data Decl : Type 0 where
    decl_variable decl_constant : ℕ → MaybeType → MaybeExpr → Decl
    decl_function : ℕ → List ℕ → Parameters → CstType → Block → Decl
    decl_struct decl_union : ℕ → List ℕ → Members → Decl
    decl_enum : ℕ → MaybeType → EnumValues → Members → Decl
    decl_extend : CstType → Decl → Decl
    decl_alias decl_extern_variable : ℕ → CstType → Decl
    decl_extern_function : ℕ → Parameters → CstType → Decl
    decl_extern_type : ℕ → Decl

  pub data Block : Type 0 where
    no_stmts : Block
    more_stmts : Stmt → Block → Block

  pub data Stmt : Type 0 where
    stmt_decl : Decl → Stmt
    stmt_defer_block : Block → Stmt
    stmt_defer_expr : Expr → Stmt
    stmt_if stmt_when : Conditionals → Stmt
    stmt_for_range : ℕ → MaybeType → MaybeExpr → Expr → Block → Stmt
    stmt_for_expr : Expr → Block → Stmt
    stmt_break stmt_continue : Stmt
    stmt_switch : Expr → Cases → Stmt
    stmt_return : MaybeExpr → Stmt
    stmt_assert : Expr → Stmt
    stmt_assign : TokenKind → Expr → Expr → Stmt
    stmt_expr : Expr → Stmt

  -- The condition is missing in an `else`.
  pub data Conditionals : Type 0 where
    no_conditionals : Conditionals
    more_conditionals : MaybeExpr → Block → Conditionals → Conditionals

  -- The symbols of a case are missing in the final `else`.
  pub data Cases : Type 0 where
    no_cases : Cases
    more_cases : Symbols → Block → Cases → Cases

  pub data Symbols : Type 0 where
    no_symbols : Symbols
    more_symbols : Symbol → Symbols → Symbols

pub record CstModule : Type 0 where
  pub namespace : Option (List ℕ)
  pub imports : List ℕ
  pub decls : List Decl

-- `decl->name`: that of the identifier, and for an extension that of its declaration.
abbrev pub decl_name : Decl → ℕ
decl_name (decl_variable n t e) = n
decl_name (decl_constant n t e) = n
decl_name (decl_function n ts ps t b) = n
decl_name (decl_struct n ts ms) = n
decl_name (decl_union n ts ms) = n
decl_name (decl_enum n t vs ms) = n
decl_name (decl_extend t d) = decl_name d
decl_name (decl_alias n t) = n
decl_name (decl_extern_variable n t) = n
decl_name (decl_extern_function n ps t) = n
decl_name (decl_extern_type n) = n
