-- ===== src/Order/Mentions.antt =====
-- Which names the parts of a declaration mention, by the syntax alone: a symbol without `::` in
-- front mentions the name of its first element. Four places are left out, which `order_expr` and
-- `order_type` pass over: the type of a list or a slice expression, the underlying type of an enum
-- type, and the template arguments of an accessed member. The body of a function is none of the
-- parts that an order is needed for.
use sunder.Prelude.{ℕ, List, [], ◌∷◌, ◌≡◌, ◌⊎◌}
use sunder.Cst.{
  start_none, start_root, start_typeof, Expr, expr_symbol, expr_boolean, expr_integer, expr_ieee754,
  expr_character, expr_bytes, expr_list, expr_slice, expr_init, expr_cast, expr_grouped, expr_call,
  expr_access_index, expr_access_slice, expr_access_member, expr_access_dereference, expr_defined,
  expr_sizeof, expr_alignof, expr_fileof, expr_lineof, expr_embed, expr_unary, expr_binary, Exprs,
  no_exprs, more_exprs, MaybeExpr, no_expr, an_expr, Initializers, no_initializers,
  more_initializers, CstType, type_symbol, type_function, type_pointer, type_array, type_slice,
  type_struct, type_union, type_enum, type_typeof, Types, no_types, more_types, MaybeType, no_type,
  a_type, Symbol, symbol, element, Elements, no_elements, more_elements, EnumValues, no_values,
  more_values, Parameters, no_parameters, more_parameters, Member, member_variable, member_constant,
  member_function, member_alias, Members, no_members, more_members, Decl, decl_variable,
  decl_constant, decl_function, decl_struct, decl_union, decl_enum, decl_extend, decl_alias,
  decl_extern_variable, decl_extern_function, decl_extern_type,
}

module _ (n : ℕ) where
  unfoldable mutual
    pub ExprMentions : Expr → Type 0
    ExprMentions (expr_symbol s) = SymbolMentions s
    ExprMentions (expr_boolean t) = ⊥
    ExprMentions (expr_integer t) = ⊥
    ExprMentions (expr_ieee754 t) = ⊥
    ExprMentions (expr_character t) = ⊥
    ExprMentions (expr_bytes t) = ⊥
    ExprMentions (expr_list t es e) = ExprsMentions es ⊎ MaybeExprMentions e
    ExprMentions (expr_slice t start count) = ExprMentions start ⊎ ExprMentions count
    ExprMentions (expr_init t is) = TypeMentions t ⊎ InitializersMentions is
    ExprMentions (expr_cast t e) = TypeMentions t ⊎ ExprMentions e
    ExprMentions (expr_grouped e) = ExprMentions e
    ExprMentions (expr_call f es) = ExprMentions f ⊎ ExprsMentions es
    ExprMentions (expr_access_index lhs idx) = ExprMentions lhs ⊎ ExprMentions idx
    ExprMentions (expr_access_slice lhs begin end) =
        ExprMentions lhs ⊎ (ExprMentions begin ⊎ ExprMentions end)
    ExprMentions (expr_access_member lhs m) = ExprMentions lhs
    ExprMentions (expr_access_dereference lhs) = ExprMentions lhs
    ExprMentions (expr_defined s) = SymbolMentions s
    ExprMentions (expr_sizeof rhs) = TypeMentions rhs
    ExprMentions (expr_alignof rhs) = TypeMentions rhs
    ExprMentions expr_fileof = ⊥
    ExprMentions expr_lineof = ⊥
    ExprMentions (expr_embed path) = ⊥
    ExprMentions (expr_unary op rhs) = ExprMentions rhs
    ExprMentions (expr_binary op lhs rhs) = ExprMentions lhs ⊎ ExprMentions rhs

    pub ExprsMentions : Exprs → Type 0
    ExprsMentions no_exprs = ⊥
    ExprsMentions (more_exprs e es) = ExprMentions e ⊎ ExprsMentions es

    pub MaybeExprMentions : MaybeExpr → Type 0
    MaybeExprMentions no_expr = ⊥
    MaybeExprMentions (an_expr e) = ExprMentions e

    pub InitializersMentions : Initializers → Type 0
    InitializersMentions no_initializers = ⊥
    InitializersMentions (more_initializers m e is) = MaybeExprMentions e ⊎ InitializersMentions is

    pub TypesMentions : Types → Type 0
    TypesMentions no_types = ⊥
    TypesMentions (more_types t ts) = TypeMentions t ⊎ TypesMentions ts

    pub TypeMentions : CstType → Type 0
    TypeMentions (type_symbol s) = SymbolMentions s
    TypeMentions (type_function ts t) = TypesMentions ts ⊎ TypeMentions t
    TypeMentions (type_pointer t) = TypeMentions t
    TypeMentions (type_array count t) = ExprMentions count ⊎ TypeMentions t
    TypeMentions (type_slice t) = TypeMentions t
    TypeMentions (type_struct ms) = VariablesMentions ms
    TypeMentions (type_union ms) = VariablesMentions ms
    TypeMentions (type_enum t vs) = ValuesMentions vs
    TypeMentions (type_typeof e) = ExprMentions e

    pub MaybeTypeMentions : MaybeType → Type 0
    MaybeTypeMentions no_type = ⊥
    MaybeTypeMentions (a_type t) = TypeMentions t

    pub VariablesMentions : Members → Type 0
    VariablesMentions no_members = ⊥
    VariablesMentions (more_members m ms) = VariableMentions m ⊎ VariablesMentions ms

    pub VariableMentions : Member → Type 0
    VariableMentions (member_variable m t) = TypeMentions t
    VariableMentions (member_constant m t e) = ⊥
    VariableMentions (member_function m ts ps t b) = ⊥
    VariableMentions (member_alias m t) = ⊥

    pub ValuesMentions : EnumValues → Type 0
    ValuesMentions no_values = ⊥
    ValuesMentions (more_values m e vs) = MaybeExprMentions e ⊎ ValuesMentions vs

    pub ElementsMentions : Elements → Type 0
    ElementsMentions no_elements = ⊥
    ElementsMentions (more_elements (element m ts) es) = TypesMentions ts ⊎ ElementsMentions es

    pub SymbolMentions : Symbol → Type 0
    SymbolMentions (symbol start t no_elements) = ⊥
    SymbolMentions (symbol start_none t (more_elements (element m ts) es)) =
        (m ≡ n) ⊎ ElementsMentions (more_elements (element m ts) es)
    SymbolMentions (symbol start_root t (more_elements e es)) =
        ElementsMentions (more_elements e es)
    SymbolMentions (symbol start_typeof t (more_elements e es)) = MaybeTypeMentions t

  abbrev pub ParametersMentions : Parameters → Type 0
  ParametersMentions no_parameters = ⊥
  ParametersMentions (more_parameters m t ps) = TypeMentions t ⊎ ParametersMentions ps

  -- A template mentions nothing until it is instantiated.
  abbrev pub FunctionMentions : List ℕ → Parameters → CstType → Type 0
  FunctionMentions [] ps t = ParametersMentions ps ⊎ TypeMentions t
  FunctionMentions (_ ∷ _) ps t = ⊥

  abbrev pub MemberMentions : Member → Type 0
  MemberMentions (member_variable m t) = TypeMentions t
  MemberMentions (member_constant m t e) = MaybeTypeMentions t ⊎ MaybeExprMentions e
  MemberMentions (member_function m ts ps t b) = FunctionMentions ts ps t
  MemberMentions (member_alias m t) = TypeMentions t

  abbrev pub MembersMentions : Members → Type 0
  MembersMentions no_members = ⊥
  MembersMentions (more_members m ms) = MemberMentions m ⊎ MembersMentions ms

  -- The members of an enum are functions.
  abbrev pub FunctionsMentions : Members → Type 0
  FunctionsMentions no_members = ⊥
  FunctionsMentions (more_members (member_function m ts ps t b) ms) =
      FunctionMentions ts ps t ⊎ FunctionsMentions ms
  FunctionsMentions (more_members m ms) = FunctionsMentions ms

  abbrev pub CompoundMentions : List ℕ → Members → Type 0
  CompoundMentions [] ms = MembersMentions ms
  CompoundMentions (_ ∷ _) ms = ⊥

  -- Extensions are resolved behind all other declarations, and need no order.
  abbrev pub Mentions : Decl → Type 0
  Mentions (decl_variable m t e) = MaybeTypeMentions t ⊎ MaybeExprMentions e
  Mentions (decl_constant m t e) = MaybeTypeMentions t ⊎ MaybeExprMentions e
  Mentions (decl_function m ts ps t b) = FunctionMentions ts ps t
  Mentions (decl_struct m ts ms) = CompoundMentions ts ms
  Mentions (decl_union m ts ms) = CompoundMentions ts ms
  Mentions (decl_enum m t vs ms) = MaybeTypeMentions t ⊎ (ValuesMentions vs ⊎ FunctionsMentions ms)
  Mentions (decl_extend t d) = ⊥
  Mentions (decl_alias m t) = TypeMentions t
  Mentions (decl_extern_variable m t) = TypeMentions t
  Mentions (decl_extern_function m ps t) = ParametersMentions ps ⊎ TypeMentions t
  Mentions (decl_extern_type m) = ⊥
