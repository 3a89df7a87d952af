-- ===== src/Order/Refines.antt =====
-- The walk through a declaration does what the events of the declaration say.
use sunder.Prelude.{ℕ, List, [], ◌∷◌, ◌++◌, ◌≡◌, refl, Option, none, some, ap, sym, ◌∙◌}
use sunder.Cst.{
  SymbolStart, start_none, start_root, start_typeof, Expr, expr_symbol, expr_boolean, expr_integer,
  expr_ieee754, expr_character, expr_bytes, expr_list, expr_slice, expr_init, expr_cast,
  expr_grouped, expr_call, expr_access_index, expr_access_slice, expr_access_member,
  expr_access_dereference, expr_defined, expr_sizeof, expr_alignof, expr_fileof, expr_lineof,
  expr_embed, expr_unary, expr_binary, Exprs, no_exprs, more_exprs, MaybeExpr, no_expr, an_expr,
  Initializers, no_initializers, more_initializers, CstType, type_symbol, type_function,
  type_pointer, type_array, type_slice, type_struct, type_union, type_enum, type_typeof, Types,
  no_types, more_types, MaybeType, no_type, a_type, Symbol, symbol, element, Elements, no_elements,
  more_elements, EnumValues, no_values, more_values, Parameters, no_parameters, more_parameters,
  Member, member_variable, member_constant, member_function, member_alias, Members, no_members,
  more_members, Decl, decl_variable, decl_constant, decl_function, decl_struct, decl_union,
  decl_enum, decl_extend, decl_alias, decl_extern_variable, decl_extern_function, decl_extern_type,
  CstModule,
}
use sunder.Order.State.{
  Orderer, Result, ok, stop, failed_assertion, ◌>>=◌, tldecl_lookup, set_state, ordered,
  symbol_target,
}
use sunder.Order.Graph.{Event, Dfs, put, run, run-append}
use sunder.Order.Walk.{
  order_expr, order_exprs, order_maybe_expr, order_initializers, order_types, order_type,
  order_present_type, order_variables, order_variable, order_values, order_symbol, order_elements,
  order_maybe_type, order_parameters, order_value, order_function, order_member, order_members,
  order_member_function, order_member_functions, order_path, order_name, order_decl, order_self,
  order_compound, visit_found, order_target, element_names,
}
use sunder.Order.Events.{
  expr_uses, exprs_uses, maybe_expr_uses, initializers_uses, types_uses, type_uses,
  present_type_uses, variables_uses, variable_uses, values_uses, symbol_uses, elements_uses,
  maybe_type_uses, parameters_uses, value_uses, function_uses, member_uses, members_uses,
  member_function_uses, member_functions_uses, path_uses, name_uses, target_uses, found_uses, Use,
  halts, plain, plains, self_events, compound_events, decl_events,
}

plains-append : (us ws : List Use) → plains (us ++ ws) ≡ plains us ++ plains ws
plains-append [] ws = refl
plains-append (u ∷ us) ws = ap (λ (es : List Event). plain u ∷ es) (plains-append us ws)

-- The orderer with the states and the result of a search.
abbrev pub lift : CstModule → List Decl → List ℕ → Dfs → Orderer
lift cst decls deps s = record {
  cst = cst;
  decls = decls;
  states = s.states;
  topological_order = s.out;
  dependencies = deps;
}

abbrev pub answer : CstModule → List Decl → List ℕ → Result Dfs → Result Orderer
answer cst decls deps (ok s) = ok (lift cst decls deps s)
answer cst decls deps (stop e) = stop e

module _ (cst : CstModule) (decls : List Decl) (deps : List ℕ) (cv : ℕ → Orderer → Result Orderer)
    (v : ℕ → Dfs → Result Dfs)
    (follow : (i : ℕ) (s : Dfs)
      → cv i (lift cst decls deps s) ≡ answer cst decls deps (v i s)) where
  abbrev ns : Option (List ℕ)
  ns = cst.namespace

  -- A walk that does what a list of events says.
  pub record Obeys (f : Orderer → Result Orderer) (es : List Event) : Type 0 where
    pub apply : (s : Dfs) → f (lift cst decls deps s) ≡ answer cst decls deps (run v es s)

  pub record Simulates (f : Orderer → Result Orderer) (us : List Use) : Type 0 where
    pub obeys : Obeys f (plains us)

  after :
      (x : Result Orderer) (r : Result Dfs) (g : Orderer → Result Orderer) (es : List Event)
      → x ≡ answer cst decls deps r
      → Obeys g es
      → (x >>= g) ≡ answer cst decls deps (r >>= run v es)
  after x (ok s) g es e h = rw e (h.apply s)
  after x (stop d) g es e h = rw e

  chain :
      {f g : Orderer → Result Orderer} {es fs : List Event}
      → Obeys f es
      → Obeys g fs
      → Obeys (λ o. f o >>= g) (es ++ fs)
  chain {f} {g} {es} {fs} hf hg = record {
    apply = λ s.
        rw (run-append v es fs s)
          (after (f (lift cst decls deps s)) (run v es s) g fs (hf.apply s) hg);
  }

  infixl 6 ◌then_run◌
  ◌then_run◌ :
      {f g : Orderer → Result Orderer} {us ws : List Use}
      → Simulates f us
      → Simulates g ws
      → Simulates (λ o. f o >>= g) (us ++ ws)
  ◌then_run◌ {us} {ws} hf hg = record { obeys = rw (plains-append us ws) (chain hf.obeys hg.obeys) }

  skips : Simulates ok []
  unfolding run
  skips = record { obeys = record { apply = λ s. refl } }

  halts_lem : Simulates (λ o. stop failed_assertion) (halts ∷ [])
  unfolding run
  halts_lem = record { obeys = record { apply = λ s. refl } }

  answer_lem : (r : Result Dfs) → answer cst decls deps (r >>= run v []) ≡ answer cst decls deps r
  unfolding run
  answer_lem (ok s) = refl
  answer_lem (stop e) = refl

  found_lem : (r : Option ℕ) → Simulates (visit_found cv r) (found_uses ns decls r)
  unfolding run
  found_lem none = skips
  found_lem (some i) = record {
    obeys = record { apply = λ s. follow i s ∙ sym (answer_lem (v i s)) };
  }

  name_lem : (n : ℕ) → Simulates (order_name cv n) (name_uses ns decls n)
  unfolding order_name name_uses
  name_lem n = record {
    obeys = record { apply = λ s. (found_lem (tldecl_lookup decls n)).obeys.apply s };
  }

  target_lem : (r : Option ℕ) → Simulates (order_target cv r) (target_uses ns decls r)
  target_lem none = skips
  target_lem (some n) = name_lem n

  path_lem :
      (st : SymbolStart) (names : List ℕ)
      → Simulates (order_path cv st names) (path_uses ns decls st names)
  unfolding order_path path_uses
  path_lem st names = record {
    obeys = record { apply = λ s. (target_lem (symbol_target ns decls st names)).obeys.apply s };
  }

  mutual
    unfolding order_expr expr_uses

    expr_lem : (x0 : Expr) → Simulates (order_expr cv x0) (expr_uses ns decls x0)
    expr_lem (expr_symbol s) = symbol_lem s
    expr_lem (expr_boolean t) = skips
    expr_lem (expr_integer t) = skips
    expr_lem (expr_ieee754 t) = skips
    expr_lem (expr_character t) = skips
    expr_lem (expr_bytes t) = skips
    expr_lem (expr_list t es e) = (exprs_lem es) then_run (maybe_expr_lem e)
    expr_lem (expr_slice t start count) = (expr_lem start) then_run (expr_lem count)
    expr_lem (expr_init t is) = (type_lem t) then_run (initializers_lem is)
    expr_lem (expr_cast t e) = (type_lem t) then_run (expr_lem e)
    expr_lem (expr_grouped e) = expr_lem e
    expr_lem (expr_call f es) = (expr_lem f) then_run (exprs_lem es)
    expr_lem (expr_access_index lhs idx) = (expr_lem lhs) then_run (expr_lem idx)
    expr_lem (expr_access_slice lhs begin end) =
        ((expr_lem lhs) then_run (expr_lem begin)) then_run (expr_lem end)
    expr_lem (expr_access_member lhs m) = expr_lem lhs
    expr_lem (expr_access_dereference lhs) = expr_lem lhs
    expr_lem (expr_defined s) = symbol_lem s
    expr_lem (expr_sizeof rhs) = type_lem rhs
    expr_lem (expr_alignof rhs) = type_lem rhs
    expr_lem expr_fileof = skips
    expr_lem expr_lineof = skips
    expr_lem (expr_embed path) = skips
    expr_lem (expr_unary op rhs) = expr_lem rhs
    expr_lem (expr_binary op lhs rhs) = (expr_lem lhs) then_run (expr_lem rhs)

    exprs_lem : (x0 : Exprs) → Simulates (order_exprs cv x0) (exprs_uses ns decls x0)
    exprs_lem no_exprs = skips
    exprs_lem (more_exprs e es) = (expr_lem e) then_run (exprs_lem es)

    maybe_expr_lem :
        (x0 : MaybeExpr) → Simulates (order_maybe_expr cv x0) (maybe_expr_uses ns decls x0)
    maybe_expr_lem no_expr = skips
    maybe_expr_lem (an_expr e) = expr_lem e

    initializers_lem :
        (x0 : Initializers) → Simulates (order_initializers cv x0) (initializers_uses ns decls x0)
    initializers_lem no_initializers = skips
    initializers_lem (more_initializers n e is) = (maybe_expr_lem e) then_run (initializers_lem is)

    types_lem : (x0 : Types) → Simulates (order_types cv x0) (types_uses ns decls x0)
    types_lem no_types = skips
    types_lem (more_types t ts) = (type_lem t) then_run (types_lem ts)

    type_lem : (x0 : CstType) → Simulates (order_type cv x0) (type_uses ns decls x0)
    type_lem (type_symbol s) = symbol_lem s
    type_lem (type_function ts t) = (types_lem ts) then_run (type_lem t)
    type_lem (type_pointer t) = type_lem t
    type_lem (type_array count t) = (expr_lem count) then_run (type_lem t)
    type_lem (type_slice t) = type_lem t
    type_lem (type_struct ms) = variables_lem ms
    type_lem (type_union ms) = variables_lem ms
    type_lem (type_enum t vs) = values_lem vs
    type_lem (type_typeof e) = expr_lem e

    present_type_lem :
        (x0 : MaybeType) → Simulates (order_present_type cv x0) (present_type_uses ns decls x0)
    present_type_lem no_type = halts_lem
    present_type_lem (a_type t) = type_lem t

    variables_lem : (x0 : Members) → Simulates (order_variables cv x0) (variables_uses ns decls x0)
    variables_lem no_members = skips
    variables_lem (more_members m ms) = (variable_lem m) then_run (variables_lem ms)

    variable_lem : (x0 : Member) → Simulates (order_variable cv x0) (variable_uses ns decls x0)
    variable_lem (member_variable n t) = type_lem t
    variable_lem (member_constant n t e) = halts_lem
    variable_lem (member_function n ts ps t b) = halts_lem
    variable_lem (member_alias n t) = halts_lem

    values_lem : (x0 : EnumValues) → Simulates (order_values cv x0) (values_uses ns decls x0)
    values_lem no_values = skips
    values_lem (more_values n e vs) = (maybe_expr_lem e) then_run (values_lem vs)

    symbol_lem : (x0 : Symbol) → Simulates (order_symbol cv x0) (symbol_uses ns decls x0)
    symbol_lem (symbol start t no_elements) = halts_lem
    symbol_lem (symbol start_none t (more_elements e es)) =
        (elements_lem (more_elements e es))
        then_run (path_lem start_none (element_names (more_elements e es)))
    symbol_lem (symbol start_root t (more_elements e es)) =
        (elements_lem (more_elements e es))
        then_run (path_lem start_root (element_names (more_elements e es)))
    symbol_lem (symbol start_typeof t (more_elements e es)) = present_type_lem t

    elements_lem : (x0 : Elements) → Simulates (order_elements cv x0) (elements_uses ns decls x0)
    elements_lem no_elements = skips
    elements_lem (more_elements (element n ts) es) = (types_lem ts) then_run (elements_lem es)

  maybe_type_lem :
      (x0 : MaybeType) → Simulates (order_maybe_type cv x0) (maybe_type_uses ns decls x0)
  maybe_type_lem no_type = skips
  maybe_type_lem (a_type t) = type_lem t

  parameters_lem :
      (x0 : Parameters) → Simulates (order_parameters cv x0) (parameters_uses ns decls x0)
  parameters_lem no_parameters = skips
  parameters_lem (more_parameters n t ps) = (type_lem t) then_run (parameters_lem ps)

  value_lem :
      (x0 : MaybeType) (x1 : MaybeExpr)
      → Simulates (order_value cv x0 x1) (value_uses ns decls x0 x1)
  value_lem t e = (maybe_type_lem t) then_run (maybe_expr_lem e)

  function_lem :
      (x0 : List ℕ) (x1 : Parameters) (x2 : CstType)
      → Simulates (order_function cv x0 x1 x2) (function_uses ns decls x0 x1 x2)
  function_lem [] ps t = (parameters_lem ps) then_run (type_lem t)
  function_lem (x ∷ xs) ps t = skips

  member_lem : (x0 : Member) → Simulates (order_member cv x0) (member_uses ns decls x0)
  member_lem (member_variable n t) = type_lem t
  member_lem (member_constant n t e) = value_lem t e
  member_lem (member_function n ts ps t b) = function_lem ts ps t
  member_lem (member_alias n t) = type_lem t

  members_lem : (x0 : Members) → Simulates (order_members cv x0) (members_uses ns decls x0)
  members_lem no_members = skips
  members_lem (more_members m ms) = (member_lem m) then_run (members_lem ms)

  member_function_lem :
      (x0 : Member) → Simulates (order_member_function cv x0) (member_function_uses ns decls x0)
  member_function_lem (member_function n ts ps t b) = function_lem ts ps t
  member_function_lem (member_variable n t) = halts_lem
  member_function_lem (member_constant n t e) = halts_lem
  member_function_lem (member_alias n t) = halts_lem

  member_functions_lem :
      (x0 : Members) → Simulates (order_member_functions cv x0) (member_functions_uses ns decls x0)
  member_functions_lem no_members = skips
  member_functions_lem (more_members m ms) =
      (member_function_lem m) then_run (member_functions_lem ms)

  self_cases :
      (r : Option ℕ) {f : Orderer → Result Orderer} {us : List Use}
      → Simulates f us
      → (s : Dfs)
      → (elim r [
        | none ↦ ok (lift cst decls deps s)
        | some i ↦ f (set_state i ordered (lift cst decls deps s))
      ])
        ≡ answer cst decls deps (run v (self_events ns decls r us) s)
  unfolding run
  self_cases none h s = refl
  self_cases (some i) h s = h.obeys.apply (put i ordered s)

  self_lem :
      (n : ℕ) {f : Orderer → Result Orderer} {us : List Use}
      → Simulates f us
      → Obeys (order_self cv n f) (self_events ns decls (tldecl_lookup decls n) us)
  self_lem n h = record { apply = self_cases (tldecl_lookup decls n) h }

  compound_lem :
      (n : ℕ) (ts : List ℕ) (ms : Members)
      → Obeys (order_compound cv n ts ms) (compound_events ns decls n ts ms)
  compound_lem n [] ms = self_lem n (members_lem ms)
  compound_lem n (x ∷ xs) ms = skips.obeys

  pub decl_lem : (d : Decl) → Obeys (order_decl cv d) (decl_events ns decls d)
  unfolding order_decl decl_events
  decl_lem (decl_variable n t e) = (value_lem t e).obeys
  decl_lem (decl_constant n t e) = (value_lem t e).obeys
  decl_lem (decl_function n ts ps t b) = (function_lem ts ps t).obeys
  decl_lem (decl_struct n ts ms) = compound_lem n ts ms
  decl_lem (decl_union n ts ms) = compound_lem n ts ms
  decl_lem (decl_enum n t vs ms) =
      chain (maybe_type_lem t then_run values_lem vs).obeys (self_lem n (member_functions_lem ms))
  decl_lem (decl_extend t d) = skips.obeys
  decl_lem (decl_alias n t) = (type_lem t).obeys
  decl_lem (decl_extern_variable n t) = (type_lem t).obeys
  decl_lem (decl_extern_function n ps t) = (parameters_lem ps then_run type_lem t).obeys
  decl_lem (decl_extern_type n) = skips.obeys
