-- ===== src/Order/Events.antt =====
-- What the parts of a declaration depend on, as the events of a graph: a declaration of the module
-- that they name is needed, and a struct, a union or an enum is marked before its members.
use sunder.Prelude.{ℕ, List, [], ◌∷◌, ◌++◌, Option, none, some, get_elem?}
use sunder.Cst.{
  SymbolStart, start_none, start_root, start_typeof, Expr, expr_symbol, expr_boolean, expr_integer,
  expr_ieee754, expr_character, expr_bytes, expr_list, expr_slice, expr_init, expr_cast,
  expr_grouped, expr_call, expr_access_index, expr_access_slice, expr_access_member,
  expr_access_dereference, expr_defined, expr_sizeof, expr_alignof, expr_fileof, expr_lineof,
  expr_embed, expr_unary, expr_binary, Exprs, no_exprs, more_exprs, MaybeExpr, no_expr, an_expr,
  Initializers, no_initializers, more_initializers, CstType, type_symbol, type_function,
  type_pointer, type_array, type_slice, type_struct, type_union, type_enum, type_typeof, Types,
  no_types, more_types, MaybeType, no_type, a_type, Symbol, symbol, element, Elements, no_elements,
  more_elements, EnumValues, no_values, more_values, Parameters, no_parameters, more_parameters,
  Member, member_variable, member_constant, member_function, member_alias, Members, no_members,
  more_members, Decl, decl_variable, decl_constant, decl_function, decl_struct, decl_union,
  decl_enum, decl_extend, decl_alias, decl_extern_variable, decl_extern_function, decl_extern_type,
}
use sunder.Order.State.{tldecl_lookup, symbol_target}
use sunder.Order.Graph.{Event, need, mark, halt}
use sunder.Order.Walk.{element_names}

-- What the parts of declarations do: they use a declaration, or fail an assertion.
pub data Use : Type 0 where
  uses : ℕ → Use
  halts : Use

abbrev pub plain : Use → Event
plain (uses i) = need i
plain halts = halt

abbrev pub plains : List Use → List Event
plains [] = []
plains (u ∷ us) = plain u ∷ plains us

module _ (namespace : Option (List ℕ)) (decls : List Decl) where
  abbrev pub found_uses : Option ℕ → List Use
  found_uses none = []
  found_uses (some i) = uses i ∷ []

  unfoldable pub name_uses : ℕ → List Use
  unfolding tldecl_lookup
  name_uses name = found_uses (tldecl_lookup decls name)

  abbrev pub target_uses : Option ℕ → List Use
  target_uses none = []
  target_uses (some name) = name_uses name

  unfoldable pub path_uses : SymbolStart → List ℕ → List Use
  unfolding name_uses symbol_target
  path_uses start names = target_uses (symbol_target namespace decls start names)

  unfoldable mutual
    unfolding path_uses

    pub expr_uses : Expr → List Use
    expr_uses (expr_symbol s) = symbol_uses s
    expr_uses (expr_boolean t) = []
    expr_uses (expr_integer t) = []
    expr_uses (expr_ieee754 t) = []
    expr_uses (expr_character t) = []
    expr_uses (expr_bytes t) = []
    expr_uses (expr_list t es e) = exprs_uses es ++ maybe_expr_uses e
    expr_uses (expr_slice t start count) = expr_uses start ++ expr_uses count
    expr_uses (expr_init t is) = type_uses t ++ initializers_uses is
    expr_uses (expr_cast t e) = type_uses t ++ expr_uses e
    expr_uses (expr_grouped e) = expr_uses e
    expr_uses (expr_call f es) = expr_uses f ++ exprs_uses es
    expr_uses (expr_access_index lhs idx) = expr_uses lhs ++ expr_uses idx
    expr_uses (expr_access_slice lhs begin end) = expr_uses lhs ++ expr_uses begin ++ expr_uses end
    expr_uses (expr_access_member lhs m) = expr_uses lhs
    expr_uses (expr_access_dereference lhs) = expr_uses lhs
    expr_uses (expr_defined s) = symbol_uses s
    expr_uses (expr_sizeof rhs) = type_uses rhs
    expr_uses (expr_alignof rhs) = type_uses rhs
    expr_uses expr_fileof = []
    expr_uses expr_lineof = []
    expr_uses (expr_embed path) = []
    expr_uses (expr_unary op rhs) = expr_uses rhs
    expr_uses (expr_binary op lhs rhs) = expr_uses lhs ++ expr_uses rhs

    pub exprs_uses : Exprs → List Use
    exprs_uses no_exprs = []
    exprs_uses (more_exprs e es) = expr_uses e ++ exprs_uses es

    pub maybe_expr_uses : MaybeExpr → List Use
    maybe_expr_uses no_expr = []
    maybe_expr_uses (an_expr e) = expr_uses e

    pub initializers_uses : Initializers → List Use
    initializers_uses no_initializers = []
    initializers_uses (more_initializers n e is) = maybe_expr_uses e ++ initializers_uses is

    -- Template arguments, and the parameters of a function type.
    pub types_uses : Types → List Use
    types_uses no_types = []
    types_uses (more_types t ts) = type_uses t ++ types_uses ts

    pub type_uses : CstType → List Use
    type_uses (type_symbol s) = symbol_uses s
    type_uses (type_function ts t) = types_uses ts ++ type_uses t
    type_uses (type_pointer t) = type_uses t
    type_uses (type_array count t) = expr_uses count ++ type_uses t
    type_uses (type_slice t) = type_uses t
    type_uses (type_struct ms) = variables_uses ms
    type_uses (type_union ms) = variables_uses ms
    type_uses (type_enum t vs) = values_uses vs
    type_uses (type_typeof e) = expr_uses e

    -- The type that is asserted not to be null.
    pub present_type_uses : MaybeType → List Use
    present_type_uses no_type = halts ∷ []
    present_type_uses (a_type t) = type_uses t

    -- The members of a struct or union type; each is a variable.
    pub variables_uses : Members → List Use
    variables_uses no_members = []
    variables_uses (more_members m ms) = variable_uses m ++ variables_uses ms

    pub variable_uses : Member → List Use
    variable_uses (member_variable n t) = type_uses t
    variable_uses (member_constant n t e) = halts ∷ []
    variable_uses (member_function n ts ps t b) = halts ∷ []
    variable_uses (member_alias n t) = halts ∷ []

    pub values_uses : EnumValues → List Use
    values_uses no_values = []
    values_uses (more_values n e vs) = maybe_expr_uses e ++ values_uses vs

    pub symbol_uses : Symbol → List Use
    symbol_uses (symbol start t no_elements) = halts ∷ []
    symbol_uses (symbol start_none t (more_elements e es)) =
        elements_uses (more_elements e es)
        ++ path_uses start_none (element_names (more_elements e es))
    symbol_uses (symbol start_root t (more_elements e es)) =
        elements_uses (more_elements e es)
        ++ path_uses start_root (element_names (more_elements e es))
    symbol_uses (symbol start_typeof t (more_elements e es)) = present_type_uses t

    pub elements_uses : Elements → List Use
    elements_uses no_elements = []
    elements_uses (more_elements (element n ts) es) = types_uses ts ++ elements_uses es

  abbrev pub maybe_type_uses : MaybeType → List Use
  maybe_type_uses no_type = []
  maybe_type_uses (a_type t) = type_uses t

  abbrev pub parameters_uses : Parameters → List Use
  parameters_uses no_parameters = []
  parameters_uses (more_parameters n t ps) = type_uses t ++ parameters_uses ps

  -- What `order_decl` orders for a variable or constant, a function and an alias.
  abbrev pub value_uses : MaybeType → MaybeExpr → List Use
  value_uses t e = maybe_type_uses t ++ maybe_expr_uses e

  abbrev pub function_uses : List ℕ → Parameters → CstType → List Use
  function_uses [] ps t = parameters_uses ps ++ type_uses t
  function_uses (_ ∷ _) ps t = []

  abbrev pub member_uses : Member → List Use
  member_uses (member_variable n t) = type_uses t
  member_uses (member_constant n t e) = value_uses t e
  member_uses (member_function n ts ps t b) = function_uses ts ps t
  member_uses (member_alias n t) = type_uses t

  abbrev pub members_uses : Members → List Use
  members_uses no_members = []
  members_uses (more_members m ms) = member_uses m ++ members_uses ms

  -- The members of an enum; each is a function.
  abbrev pub member_function_uses : Member → List Use
  member_function_uses (member_function n ts ps t b) = function_uses ts ps t
  member_function_uses (member_variable n t) = halts ∷ []
  member_function_uses (member_constant n t e) = halts ∷ []
  member_function_uses (member_alias n t) = halts ∷ []

  abbrev pub member_functions_uses : Members → List Use
  member_functions_uses no_members = []
  member_functions_uses (more_members m ms) = member_function_uses m ++ member_functions_uses ms

  -- A struct, a union or an enum is marked before its members.
  abbrev pub self_events : Option ℕ → List Use → List Event
  self_events none rest = []
  self_events (some i) rest = mark i ∷ plains rest

  abbrev pub compound_events : ℕ → List ℕ → Members → List Event
  compound_events n [] ms = self_events (tldecl_lookup decls n) (members_uses ms)
  compound_events n (_ ∷ _) ms = []

  unfoldable pub decl_events : Decl → List Event
  unfolding expr_uses tldecl_lookup
  decl_events (decl_variable n t e) = plains (value_uses t e)
  decl_events (decl_constant n t e) = plains (value_uses t e)
  decl_events (decl_function n ts ps t b) = plains (function_uses ts ps t)
  decl_events (decl_struct n ts ms) = compound_events n ts ms
  decl_events (decl_union n ts ms) = compound_events n ts ms
  decl_events (decl_enum n t vs ms) =
      plains (maybe_type_uses t ++ values_uses vs)
      ++ self_events (tldecl_lookup decls n) (member_functions_uses ms)
  decl_events (decl_extend t d) = []
  decl_events (decl_alias n t) = plains (type_uses t)
  decl_events (decl_extern_variable n t) = plains (type_uses t)
  decl_events (decl_extern_function n ps t) = plains (parameters_uses ps ++ type_uses t)
  decl_events (decl_extern_type n) = []

  abbrev pub events_of : Option Decl → List Event
  events_of none = []
  events_of (some d) = decl_events d

  -- The graph of the module.
  abbrev pub events_at : ℕ → List Event
  events_at i = events_of (get_elem? decls i)
