-- ===== src/Order/Named.antt =====
-- A declaration needs the declarations whose names it mentions.
use sunder.Prelude.{ℕ, List, [], ◌∷◌, ◌++◌, ◌≡◌, ◌⊎◌, inl, inr, Option, some, refl, false, get_or}
use sunder.Cst.{
  start_none, start_root, start_typeof, Expr, expr_symbol, expr_boolean, expr_integer, expr_ieee754,
  expr_character, expr_bytes, expr_list, expr_slice, expr_init, expr_cast, expr_grouped, expr_call,
  expr_access_index, expr_access_slice, expr_access_member, expr_access_dereference, expr_defined,
  expr_sizeof, expr_alignof, expr_fileof, expr_lineof, expr_embed, expr_unary, expr_binary, Exprs,
  no_exprs, more_exprs, MaybeExpr, no_expr, an_expr, Initializers, no_initializers,
  more_initializers, CstType, type_symbol, type_function, type_pointer, type_array, type_slice,
  type_struct, type_union, type_enum, type_typeof, Types, no_types, more_types, MaybeType, no_type,
  a_type, Symbol, symbol, element, Elements, no_elements, more_elements, EnumValues, no_values,
  more_values, Parameters, no_parameters, more_parameters, Member, member_variable, member_constant,
  member_function, member_alias, Members, no_members, more_members, Decl, decl_variable,
  decl_constant, decl_function, decl_struct, decl_union, decl_enum, decl_extend, decl_alias,
  decl_extern_variable, decl_extern_function, decl_extern_type,
}
use sunder.Cst.{decl_name}
use sunder.Order.State.{tldecl_lookup, symbol_target, is_extend}
use sunder.Order.Graph.{Event, need}
use sunder.Order.Walk.{element_names}
use sunder.Order.Advances.{Among}
use sunder.Order.Events.{
  Use, uses, plains, path_uses, name_uses, expr_uses, exprs_uses, maybe_expr_uses,
  initializers_uses, types_uses, type_uses, present_type_uses, variables_uses, variable_uses,
  values_uses, symbol_uses, elements_uses, maybe_type_uses, parameters_uses, value_uses,
  function_uses, member_uses, members_uses, member_functions_uses, decl_events,
}
use sunder.Order.Mentions.{
  ExprMentions, ExprsMentions, MaybeExprMentions, InitializersMentions, TypesMentions, TypeMentions,
  MaybeTypeMentions, VariablesMentions, VariableMentions, ValuesMentions, ElementsMentions,
  SymbolMentions, ParametersMentions, FunctionMentions, MemberMentions, MembersMentions,
  FunctionsMentions, Mentions,
}

abbrev Using : ℕ → List Use → Type 0
Using j [] = ⊥
Using j (u ∷ us) = (u ≡ uses j) ⊎ Using j us

left_part : (j : ℕ) (us vs : List Use) → Using j us → Using j (us ++ vs)
left_part j [] vs h = absurd h
left_part j (u ∷ us) vs (inl e) = inl e
left_part j (u ∷ us) vs (inr h) = inr (left_part j us vs h)

right_part : (j : ℕ) (us vs : List Use) → Using j vs → Using j (us ++ vs)
right_part j [] vs h = h
right_part j (u ∷ us) vs h = inr (right_part j us vs h)

-- Two parts in a row.
both_parts {ℓ κ} :
    {P : Type ℓ} {Q : Type κ} (j : ℕ) (us vs : List Use)
    → (P → Using j us)
    → (Q → Using j vs)
    → P ⊎ Q
    → Using j (us ++ vs)
both_parts j us vs f g (inl p) = left_part j us vs (f p)
both_parts j us vs f g (inr q) = right_part j us vs (g q)

module _ (namespace : Option (List ℕ)) (decls : List Decl) (n j : ℕ)
    (declared : tldecl_lookup decls n ≡ some j) where
  path_lem :
      (names : List ℕ) → get_or names 0 0 ≡ n → Using j (path_uses namespace decls start_none names)
  unfolding path_uses name_uses symbol_target
  path_lem names e = rw (e, declared, declared) (inl refl)

  mutual
    unfolding ExprMentions expr_uses

    expr_lem : (x : Expr) → ExprMentions n x → Using j (expr_uses namespace decls x)
    expr_lem (expr_symbol s) h = symbol_lem s h
    expr_lem (expr_boolean t) h = absurd h
    expr_lem (expr_integer t) h = absurd h
    expr_lem (expr_ieee754 t) h = absurd h
    expr_lem (expr_character t) h = absurd h
    expr_lem (expr_bytes t) h = absurd h
    expr_lem (expr_list t es e) h =
        both_parts j (exprs_uses namespace decls es) (maybe_expr_uses namespace decls e)
          (exprs_lem es) (maybe_expr_lem e) h
    expr_lem (expr_slice t start count) h =
        both_parts j (expr_uses namespace decls start) (expr_uses namespace decls count)
          (expr_lem start) (expr_lem count) h
    expr_lem (expr_init t is) h =
        both_parts j (type_uses namespace decls t) (initializers_uses namespace decls is)
          (type_lem t) (initializers_lem is) h
    expr_lem (expr_cast t e) h =
        both_parts j (type_uses namespace decls t) (expr_uses namespace decls e) (type_lem t)
          (expr_lem e) h
    expr_lem (expr_grouped e) h = expr_lem e h
    expr_lem (expr_call f es) h =
        both_parts j (expr_uses namespace decls f) (exprs_uses namespace decls es) (expr_lem f)
          (exprs_lem es) h
    expr_lem (expr_access_index lhs idx) h =
        both_parts j (expr_uses namespace decls lhs) (expr_uses namespace decls idx) (expr_lem lhs)
          (expr_lem idx) h
    expr_lem (expr_access_slice lhs begin end) (inl h) =
        left_part j (expr_uses namespace decls lhs ++ expr_uses namespace decls begin)
          (expr_uses namespace decls end)
          (left_part j (expr_uses namespace decls lhs) (expr_uses namespace decls begin)
            (expr_lem lhs h))
    expr_lem (expr_access_slice lhs begin end) (inr (inl h)) =
        left_part j (expr_uses namespace decls lhs ++ expr_uses namespace decls begin)
          (expr_uses namespace decls end)
          (right_part j (expr_uses namespace decls lhs) (expr_uses namespace decls begin)
            (expr_lem begin h))
    expr_lem (expr_access_slice lhs begin end) (inr (inr h)) =
        right_part j (expr_uses namespace decls lhs ++ expr_uses namespace decls begin)
          (expr_uses namespace decls end) (expr_lem end h)
    expr_lem (expr_access_member lhs m) h = expr_lem lhs h
    expr_lem (expr_access_dereference lhs) h = expr_lem lhs h
    expr_lem (expr_defined s) h = symbol_lem s h
    expr_lem (expr_sizeof rhs) h = type_lem rhs h
    expr_lem (expr_alignof rhs) h = type_lem rhs h
    expr_lem expr_fileof h = absurd h
    expr_lem expr_lineof h = absurd h
    expr_lem (expr_embed path) h = absurd h
    expr_lem (expr_unary op rhs) h = expr_lem rhs h
    expr_lem (expr_binary op lhs rhs) h =
        both_parts j (expr_uses namespace decls lhs) (expr_uses namespace decls rhs) (expr_lem lhs)
          (expr_lem rhs) h

    exprs_lem : (x : Exprs) → ExprsMentions n x → Using j (exprs_uses namespace decls x)
    exprs_lem no_exprs h = absurd h
    exprs_lem (more_exprs e es) h =
        both_parts j (expr_uses namespace decls e) (exprs_uses namespace decls es) (expr_lem e)
          (exprs_lem es) h

    maybe_expr_lem :
        (x : MaybeExpr) → MaybeExprMentions n x → Using j (maybe_expr_uses namespace decls x)
    maybe_expr_lem no_expr h = absurd h
    maybe_expr_lem (an_expr e) h = expr_lem e h

    initializers_lem :
        (x : Initializers)
        → InitializersMentions n x
        → Using j (initializers_uses namespace decls x)
    initializers_lem no_initializers h = absurd h
    initializers_lem (more_initializers m e is) h =
        both_parts j (maybe_expr_uses namespace decls e) (initializers_uses namespace decls is)
          (maybe_expr_lem e) (initializers_lem is) h

    types_lem : (x : Types) → TypesMentions n x → Using j (types_uses namespace decls x)
    types_lem no_types h = absurd h
    types_lem (more_types t ts) h =
        both_parts j (type_uses namespace decls t) (types_uses namespace decls ts) (type_lem t)
          (types_lem ts) h

    type_lem : (x : CstType) → TypeMentions n x → Using j (type_uses namespace decls x)
    type_lem (type_symbol s) h = symbol_lem s h
    type_lem (type_function ts t) h =
        both_parts j (types_uses namespace decls ts) (type_uses namespace decls t) (types_lem ts)
          (type_lem t) h
    type_lem (type_pointer t) h = type_lem t h
    type_lem (type_array count t) h =
        both_parts j (expr_uses namespace decls count) (type_uses namespace decls t)
          (expr_lem count) (type_lem t) h
    type_lem (type_slice t) h = type_lem t h
    type_lem (type_struct ms) h = variables_lem ms h
    type_lem (type_union ms) h = variables_lem ms h
    type_lem (type_enum t vs) h = values_lem vs h
    type_lem (type_typeof e) h = expr_lem e h

    variables_lem :
        (x : Members) → VariablesMentions n x → Using j (variables_uses namespace decls x)
    variables_lem no_members h = absurd h
    variables_lem (more_members m ms) h =
        both_parts j (variable_uses namespace decls m) (variables_uses namespace decls ms)
          (variable_lem m) (variables_lem ms) h

    variable_lem : (x : Member) → VariableMentions n x → Using j (variable_uses namespace decls x)
    variable_lem (member_variable m t) h = type_lem t h
    variable_lem (member_constant m t e) h = absurd h
    variable_lem (member_function m ts ps t b) h = absurd h
    variable_lem (member_alias m t) h = absurd h

    values_lem : (x : EnumValues) → ValuesMentions n x → Using j (values_uses namespace decls x)
    values_lem no_values h = absurd h
    values_lem (more_values m e vs) h =
        both_parts j (maybe_expr_uses namespace decls e) (values_uses namespace decls vs)
          (maybe_expr_lem e) (values_lem vs) h

    elements_lem : (x : Elements) → ElementsMentions n x → Using j (elements_uses namespace decls x)
    elements_lem no_elements h = absurd h
    elements_lem (more_elements (element m ts) es) h =
        both_parts j (types_uses namespace decls ts) (elements_uses namespace decls es)
          (types_lem ts) (elements_lem es) h

    present_type_lem :
        (x : MaybeType) → MaybeTypeMentions n x → Using j (present_type_uses namespace decls x)
    present_type_lem no_type h = absurd h
    present_type_lem (a_type t) h = type_lem t h

    symbol_lem : (x : Symbol) → SymbolMentions n x → Using j (symbol_uses namespace decls x)
    symbol_lem (symbol start t no_elements) h = absurd h
    symbol_lem (symbol start_none t (more_elements (element m ts) es)) (inl h) =
        right_part j (elements_uses namespace decls (more_elements (element m ts) es)) _
          (path_lem (element_names (more_elements (element m ts) es)) h)
    symbol_lem (symbol start_none t (more_elements (element m ts) es)) (inr h) =
        left_part j (elements_uses namespace decls (more_elements (element m ts) es)) _
          (elements_lem (more_elements (element m ts) es) h)
    symbol_lem (symbol start_root t (more_elements e es)) h =
        left_part j (elements_uses namespace decls (more_elements e es)) _
          (elements_lem (more_elements e es) h)
    symbol_lem (symbol start_typeof t (more_elements e es)) h = present_type_lem t h

  parameters_lem :
      (x : Parameters) → ParametersMentions n x → Using j (parameters_uses namespace decls x)
  parameters_lem no_parameters h = absurd h
  parameters_lem (more_parameters m t ps) h =
      both_parts j (type_uses namespace decls t) (parameters_uses namespace decls ps) (type_lem t)
        (parameters_lem ps) h

  maybe_type_lem :
      (x : MaybeType) → MaybeTypeMentions n x → Using j (maybe_type_uses namespace decls x)
  unfolding MaybeTypeMentions
  maybe_type_lem no_type h = absurd h
  maybe_type_lem (a_type t) h = type_lem t h

  value_lem :
      (t : MaybeType) (e : MaybeExpr)
      → MaybeTypeMentions n t ⊎ MaybeExprMentions n e
      → Using j (value_uses namespace decls t e)
  value_lem t e h =
      both_parts j (maybe_type_uses namespace decls t) (maybe_expr_uses namespace decls e)
        (maybe_type_lem t) (maybe_expr_lem e) h

  function_lem :
      (ts : List ℕ) (ps : Parameters) (t : CstType)
      → FunctionMentions n ts ps t
      → Using j (function_uses namespace decls ts ps t)
  function_lem [] ps t h =
      both_parts j (parameters_uses namespace decls ps) (type_uses namespace decls t)
        (parameters_lem ps) (type_lem t) h
  function_lem (_ ∷ _) ps t h = absurd h

  member_lem : (x : Member) → MemberMentions n x → Using j (member_uses namespace decls x)
  member_lem (member_variable m t) h = type_lem t h
  member_lem (member_constant m t e) h = value_lem t e h
  member_lem (member_function m ts ps t b) h = function_lem ts ps t h
  member_lem (member_alias m t) h = type_lem t h

  members_lem : (x : Members) → MembersMentions n x → Using j (members_uses namespace decls x)
  members_lem no_members h = absurd h
  members_lem (more_members m ms) h =
      both_parts j (member_uses namespace decls m) (members_uses namespace decls ms) (member_lem m)
        (members_lem ms) h

  functions_lem :
      (x : Members) → FunctionsMentions n x → Using j (member_functions_uses namespace decls x)
  functions_lem no_members h = absurd h
  functions_lem (more_members (member_function m ts ps t b) ms) h =
      both_parts j (function_uses namespace decls ts ps t)
        (member_functions_uses namespace decls ms) (function_lem ts ps t) (functions_lem ms) h
  functions_lem (more_members (member_variable m t) ms) h = inr (functions_lem ms h)
  functions_lem (more_members (member_constant m t e) ms) h = inr (functions_lem ms h)
  functions_lem (more_members (member_alias m t) ms) h = inr (functions_lem ms h)

  plains_lem : (us : List Use) → Using j us → Among (need j) (plains us)
  plains_lem [] h = absurd h
  plains_lem (u ∷ us) (inl e) = rw e (inl refl)
  plains_lem (u ∷ us) (inr h) = inr (plains_lem us h)

  left_events : (es fs : List Event) → Among (need j) es → Among (need j) (es ++ fs)
  left_events [] fs h = absurd h
  left_events (e ∷ es) fs (inl h) = inl h
  left_events (e ∷ es) fs (inr h) = inr (left_events es fs h)

  right_events : (es fs : List Event) → Among (need j) fs → Among (need j) (es ++ fs)
  right_events [] fs h = h
  right_events (e ∷ es) fs h = inr (right_events es fs h)

  -- `d` is a declaration that its name finds, or an extension.
  pub Mentions-need :
      (i : ℕ) (d : Decl)
      → (is_extend d ≡ false → tldecl_lookup decls (decl_name d) ≡ some i)
      → Mentions n d
      → Among (need j) (decl_events namespace decls d)
  unfolding decl_events
  Mentions-need i (decl_variable m t e) itself h = plains_lem _ (value_lem t e h)
  Mentions-need i (decl_constant m t e) itself h = plains_lem _ (value_lem t e h)
  Mentions-need i (decl_function m ts ps t b) itself h = plains_lem _ (function_lem ts ps t h)
  Mentions-need i (decl_struct m [] ms) itself h =
      rw (itself refl) (inr (plains_lem _ (members_lem ms h)))
  Mentions-need i (decl_struct m (_ ∷ _) ms) itself h = absurd h
  Mentions-need i (decl_union m [] ms) itself h =
      rw (itself refl) (inr (plains_lem _ (members_lem ms h)))
  Mentions-need i (decl_union m (_ ∷ _) ms) itself h = absurd h
  Mentions-need i (decl_enum m t vs ms) itself (inl h) = left_events _ _ (
      plains_lem _ (
        left_part j (maybe_type_uses namespace decls t) (values_uses namespace decls vs)
          (maybe_type_lem t h)))
  Mentions-need i (decl_enum m t vs ms) itself (inr (inl h)) = left_events _ _ (
      plains_lem _ (
        right_part j (maybe_type_uses namespace decls t) (values_uses namespace decls vs)
          (values_lem vs h)))
  Mentions-need i (decl_enum m t vs ms) itself (inr (inr h)) = rw (itself refl) (
      right_events (plains (maybe_type_uses namespace decls t ++ values_uses namespace decls vs)) _
        (inr (plains_lem _ (functions_lem ms h))))
  Mentions-need i (decl_extend t d) itself h = absurd h
  Mentions-need i (decl_alias m t) itself h = plains_lem _ (type_lem t h)
  Mentions-need i (decl_extern_variable m t) itself h = plains_lem _ (type_lem t h)
  Mentions-need i (decl_extern_function m ps t) itself h = plains_lem _ (
      both_parts j (parameters_uses namespace decls ps) (type_uses namespace decls t)
        (parameters_lem ps) (type_lem t) h)
  Mentions-need i (decl_extern_type m) itself h = absurd h
