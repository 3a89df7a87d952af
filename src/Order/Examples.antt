-- ===== src/Order/Examples.antt =====
-- The theorems at concrete modules, and runs of `order`.
use sunder.Prelude.{ℕ, [], ◌∷◌, none, ◌≡◌, ◌≢◌}
use sunder.Cst.{
  CstModule, Decl, decl_constant, decl_struct, decl_alias, no_type, an_expr, expr_symbol,
  expr_integer, type_symbol, type_pointer, Symbol, symbol, start_none, more_elements, no_elements,
  element, no_types, more_members, no_members, member_variable,
}
use sunder.Order.State.{stop, out_of_fuel}
use sunder.Order.{order, order_tldecl}
use sunder.Order.Graph.{visit}
use sunder.Order.Whole.{start}
use sunder.Order.Refines.{lift, answer}
use sunder.Order.Correct.{graph, order_tldecl_lem}
use sunder.Order.Outcome.{order-ne-out_of_fuel}

abbrev named : ℕ → Symbol
named n = symbol start_none no_type (more_elements (element n no_types) no_elements)

-- let a = b; struct node { var next: *node; var count: c; } alias c = ssize; let b = 1;
abbrev a_decl : Decl
a_decl = decl_constant 1 no_type (an_expr (expr_symbol (named 2)))

abbrev b_decl : Decl
b_decl = decl_constant 2 no_type (an_expr (expr_integer (49 ∷ [])))

abbrev node_decl : Decl
node_decl = decl_struct 3 [] (
    more_members (member_variable 10 (type_pointer (type_symbol (named 3))))
      (more_members (member_variable 11 (type_symbol (named 4))) no_members))

abbrev c_decl : Decl
c_decl = decl_alias 4 (type_symbol (named 5))

abbrev some_decls : CstModule
some_decls = record {
  namespace = none;
  imports = [];
  decls = a_decl ∷ node_decl ∷ c_decl ∷ b_decl ∷ [];
}

order-ne-out_of_fuel_example : order some_decls ≢ stop out_of_fuel
order-ne-out_of_fuel_example = order-ne-out_of_fuel some_decls

-- let a = b; alias b = a;
abbrev cyclic_decls : CstModule
cyclic_decls = record {
  namespace = none;
  imports = [];
  decls = a_decl ∷ decl_alias 2 (type_symbol (named 1)) ∷ [];
}

order_tldecl_lem_example :
    order_tldecl 3 0 (lift some_decls (a_decl ∷ b_decl ∷ []) [] (start 2))
    ≡ answer some_decls
        (a_decl ∷ b_decl ∷ [])
        []
        (visit (graph some_decls (a_decl ∷ b_decl ∷ [])) 3 0 (start 2))
order_tldecl_lem_example = order_tldecl_lem some_decls (a_decl ∷ b_decl ∷ []) 3 0 [] (start 2)
