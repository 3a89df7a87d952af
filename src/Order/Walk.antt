-- ===== src/Order/Walk.antt =====
-- order.c: `order_decl` and what it calls on the parts of a declaration, down to `order_name`. The
-- call of `order_tldecl` in `order_name`, which goes on with another declaration, is a parameter.
use sunder.Prelude.{ℕ, List, [], ◌∷◌, Option, none, some}
use sunder.Cst.{
  SymbolStart, start_none, start_root, start_typeof, Expr, expr_symbol, expr_boolean, expr_integer,
  expr_ieee754, expr_character, expr_bytes, expr_list, expr_slice, expr_init, expr_cast,
  expr_grouped, expr_call, expr_access_index, expr_access_slice, expr_access_member,
  expr_access_dereference, expr_defined, expr_sizeof, expr_alignof, expr_fileof, expr_lineof,
  expr_embed, expr_unary, expr_binary, Exprs, no_exprs, more_exprs, MaybeExpr, no_expr, an_expr,
  Initializers, no_initializers, more_initializers, CstType, type_symbol, type_function,
  type_pointer, type_array, type_slice, type_struct, type_union, type_enum, type_typeof, Types,
  no_types, more_types, MaybeType, no_type, a_type, Symbol, symbol, element, Elements, no_elements,
  more_elements, EnumValues, no_values, more_values, Parameters, no_parameters, more_parameters,
  Member, member_variable, member_constant, member_function, member_alias, Members, no_members,
  more_members, Decl, decl_variable, decl_constant, decl_function, decl_struct, decl_union,
  decl_enum, decl_extend, decl_alias, decl_extern_variable, decl_extern_function, decl_extern_type,
}
use sunder.Order.State.{
  Orderer, Result, ok, stop, failed_assertion, ◌>>=◌, tldecl_lookup, set_state, ordered,
  symbol_target,
}

abbrev pub element_names : Elements → List ℕ
element_names no_elements = []
element_names (more_elements (element n ts) es) = n ∷ element_names es

module _ (visit : ℕ → Orderer → Result Orderer) where
  abbrev pub visit_found : Option ℕ → Orderer → Result Orderer
  visit_found none o = ok o
  visit_found (some i) o = visit i o

  unfoldable pub order_name : ℕ → Orderer → Result Orderer
  unfolding tldecl_lookup
  order_name name o = visit_found (tldecl_lookup o.decls name) o

  abbrev pub order_target : Option ℕ → Orderer → Result Orderer
  order_target none o = ok o
  order_target (some name) o = order_name name o

  -- `order_symbol` behind the template arguments.
  unfoldable pub order_path : SymbolStart → List ℕ → Orderer → Result Orderer
  unfolding order_name symbol_target
  order_path start names o = order_target (symbol_target o.cst.namespace o.decls start names) o

  unfoldable mutual
    unfolding order_path

    pub order_expr : Expr → Orderer → Result Orderer
    order_expr (expr_symbol s) o = order_symbol s o
    order_expr (expr_boolean t) o = ok o
    order_expr (expr_integer t) o = ok o
    order_expr (expr_ieee754 t) o = ok o
    order_expr (expr_character t) o = ok o
    order_expr (expr_bytes t) o = ok o
    order_expr (expr_list t es e) o = order_exprs es o >>= order_maybe_expr e
    order_expr (expr_slice t start count) o = order_expr start o >>= order_expr count
    order_expr (expr_init t is) o = order_type t o >>= order_initializers is
    order_expr (expr_cast t e) o = order_type t o >>= order_expr e
    order_expr (expr_grouped e) o = order_expr e o
    order_expr (expr_call f es) o = order_expr f o >>= order_exprs es
    order_expr (expr_access_index lhs idx) o = order_expr lhs o >>= order_expr idx
    order_expr (expr_access_slice lhs begin end) o =
        order_expr lhs o >>= order_expr begin >>= order_expr end
    order_expr (expr_access_member lhs m) o = order_expr lhs o
    order_expr (expr_access_dereference lhs) o = order_expr lhs o
    order_expr (expr_defined s) o = order_symbol s o
    order_expr (expr_sizeof rhs) o = order_type rhs o
    order_expr (expr_alignof rhs) o = order_type rhs o
    order_expr expr_fileof o = ok o
    order_expr expr_lineof o = ok o
    order_expr (expr_embed path) o = ok o
    order_expr (expr_unary op rhs) o = order_expr rhs o
    order_expr (expr_binary op lhs rhs) o = order_expr lhs o >>= order_expr rhs

    pub order_exprs : Exprs → Orderer → Result Orderer
    order_exprs no_exprs o = ok o
    order_exprs (more_exprs e es) o = order_expr e o >>= order_exprs es

    pub order_maybe_expr : MaybeExpr → Orderer → Result Orderer
    order_maybe_expr no_expr o = ok o
    order_maybe_expr (an_expr e) o = order_expr e o

    pub order_initializers : Initializers → Orderer → Result Orderer
    order_initializers no_initializers o = ok o
    order_initializers (more_initializers n e is) o = order_maybe_expr e o >>= order_initializers is

    -- `order_template_argument_list`, and the parameters of a function type.
    pub order_types : Types → Orderer → Result Orderer
    order_types no_types o = ok o
    order_types (more_types t ts) o = order_type t o >>= order_types ts

    pub order_type : CstType → Orderer → Result Orderer
    order_type (type_symbol s) o = order_symbol s o
    order_type (type_function ts t) o = order_types ts o >>= order_type t
    order_type (type_pointer t) o = order_type t o
    order_type (type_array count t) o = order_expr count o >>= order_type t
    order_type (type_slice t) o = order_type t o
    order_type (type_struct ms) o = order_variables ms o
    order_type (type_union ms) o = order_variables ms o
    order_type (type_enum t vs) o = order_values vs o
    order_type (type_typeof e) o = order_expr e o

    -- The type that `order_type` asserts not to be null.
    pub order_present_type : MaybeType → Orderer → Result Orderer
    order_present_type no_type o = stop failed_assertion
    order_present_type (a_type t) o = order_type t o

    -- The members of a struct or union type; each is a variable.
    pub order_variables : Members → Orderer → Result Orderer
    order_variables no_members o = ok o
    order_variables (more_members m ms) o = order_variable m o >>= order_variables ms

    pub order_variable : Member → Orderer → Result Orderer
    order_variable (member_variable n t) o = order_type t o
    order_variable (member_constant n t e) o = stop failed_assertion
    order_variable (member_function n ts ps t b) o = stop failed_assertion
    order_variable (member_alias n t) o = stop failed_assertion

    pub order_values : EnumValues → Orderer → Result Orderer
    order_values no_values o = ok o
    order_values (more_values n e vs) o = order_maybe_expr e o >>= order_values vs

    pub order_symbol : Symbol → Orderer → Result Orderer
    order_symbol (symbol start t no_elements) o = stop failed_assertion
    order_symbol (symbol start_none t (more_elements e es)) o =
        order_elements (more_elements e es) o
        >>= order_path start_none (element_names (more_elements e es))
    order_symbol (symbol start_root t (more_elements e es)) o =
        order_elements (more_elements e es) o
        >>= order_path start_root (element_names (more_elements e es))
    order_symbol (symbol start_typeof t (more_elements e es)) o = order_present_type t o

    pub order_elements : Elements → Orderer → Result Orderer
    order_elements no_elements o = ok o
    order_elements (more_elements (element n ts) es) o = order_types ts o >>= order_elements es

  abbrev pub order_maybe_type : MaybeType → Orderer → Result Orderer
  order_maybe_type no_type o = ok o
  order_maybe_type (a_type t) o = order_type t o

  abbrev pub order_parameters : Parameters → Orderer → Result Orderer
  order_parameters no_parameters o = ok o
  order_parameters (more_parameters n t ps) o = order_type t o >>= order_parameters ps

  -- The cases of `order_decl` for a variable or constant, a function and an alias.
  abbrev pub order_value : MaybeType → MaybeExpr → Orderer → Result Orderer
  order_value t e o = order_maybe_type t o >>= order_maybe_expr e

  abbrev pub order_function : List ℕ → Parameters → CstType → Orderer → Result Orderer
  order_function [] ps t o = order_parameters ps o >>= order_type t
  order_function (_ ∷ _) ps t o = ok o

  abbrev pub order_member : Member → Orderer → Result Orderer
  order_member (member_variable n t) o = order_type t o
  order_member (member_constant n t e) o = order_value t e o
  order_member (member_function n ts ps t b) o = order_function ts ps t o
  order_member (member_alias n t) o = order_type t o

  abbrev pub order_members : Members → Orderer → Result Orderer
  order_members no_members o = ok o
  order_members (more_members m ms) o = order_member m o >>= order_members ms

  -- The members of an enum; each is a function.
  abbrev pub order_member_function : Member → Orderer → Result Orderer
  order_member_function (member_function n ts ps t b) o = order_function ts ps t o
  order_member_function (member_variable n t) o = stop failed_assertion
  order_member_function (member_constant n t e) o = stop failed_assertion
  order_member_function (member_alias n t) o = stop failed_assertion

  abbrev pub order_member_functions : Members → Orderer → Result Orderer
  order_member_functions no_members o = ok o
  order_member_functions (more_members m ms) o =
      order_member_function m o >>= order_member_functions ms

  -- A struct, a union or an enum is ordered before its members are.
  abbrev pub order_self : ℕ → (Orderer → Result Orderer) → Orderer → Result Orderer
  order_self name order_rest o = elim (tldecl_lookup o.decls name) [
    | none ↦ ok o
    | some i ↦ order_rest (set_state i ordered o)
  ]

  abbrev pub order_compound : ℕ → List ℕ → Members → Orderer → Result Orderer
  order_compound n [] ms o = order_self n (order_members ms) o
  order_compound n (_ ∷ _) ms o = ok o

  unfoldable pub order_decl : Decl → Orderer → Result Orderer
  unfolding order_expr tldecl_lookup
  order_decl (decl_variable n t e) o = order_value t e o
  order_decl (decl_constant n t e) o = order_value t e o
  order_decl (decl_function n ts ps t b) o = order_function ts ps t o
  order_decl (decl_struct n ts ms) o = order_compound n ts ms o
  order_decl (decl_union n ts ms) o = order_compound n ts ms o
  order_decl (decl_enum n t vs ms) o =
      order_maybe_type t o >>= order_values vs >>= order_self n (order_member_functions ms)
  order_decl (decl_extend t d) o = ok o
  order_decl (decl_alias n t) o = order_type t o
  order_decl (decl_extern_variable n t) o = order_type t o
  order_decl (decl_extern_function n ps t) o = order_parameters ps o >>= order_type t
  order_decl (decl_extern_type n) o = ok o
