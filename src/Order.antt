-- ===== src/Order.antt =====
-- order.c: the order of the declarations of a module.
--
-- `order_tldecl` goes from declaration to declaration and takes fuel; `State` and `Walk` have what
-- comes before it, and the other children are about it. The text of messages is left out.
pub mod State
pub mod Walk
pub mod Graph
pub mod States
pub mod Advances
pub mod Search
pub mod Whole
pub mod Failure
pub mod Before
pub mod Mentions
mod Named
pub mod Events
pub mod Refines
pub mod Names
pub mod Correct
pub mod Behind
pub mod Outcome
mod Examples
use sunder.Prelude.{
  ℕ, zero, suc, ◌+◌, ◌-◌, List, [], ◌∷◌, ◌++◌, Option, none, some, Bool, true, not, ◌&&◌, ◌||◌,
  ◌==◌, if◌then◌else◌, length, get_or, get_elem?, take,
}
use sunder.Cst.{Decl, CstModule}
use sunder.Order.State.{
  TldeclState, unordered, ordering, ordered, Orderer, Result, ok, stop, circular, misplaced_extend,
  out_of_fuel, ◌>>=◌, assert, is_extend, set_state, orderer_new,
}
use sunder.Order.Walk.{order_decl}

-- `tldecl->decl` behind `order_decl`.
abbrev pub order_decl_at : (ℕ → Orderer → Result Orderer) → ℕ → Orderer → Result Orderer
order_decl_at visit i o = elim (get_elem? o.decls i) [ none ↦ ok o | some d ↦ order_decl visit d o ]

abbrev pub begin : ℕ → Orderer → Orderer
begin i o = record (set_state i ordering o) { dependencies = o.dependencies ++ i ∷ [] }

abbrev pub finish : ℕ → Orderer → Orderer
finish i o = record (set_state i ordered o) {
  dependencies = take (length o.dependencies - 1) o.dependencies;
  topological_order = o.topological_order ++ i ∷ [];
}

unfoldable pub order_tldecl : ℕ → ℕ → Orderer → Result Orderer
unfolding order_decl
order_tldecl zero i o = stop out_of_fuel
order_tldecl (suc fuel) i o = elim (get_or o.states i ordered) [
  | ordered ↦ ok o
  | ordering ↦ stop circular
  | unordered ↦ order_decl_at (order_tldecl fuel) i (begin i o) >>= λ o'. ok (finish i o')
]

-- The test that no other declaration stands behind an extension.
abbrev pub extends_last : List Decl → Bool
extends_last [] = true
extends_last (d ∷ []) = true
extends_last (prev ∷ d ∷ ds) = not (not (is_extend d) && is_extend prev) && extends_last (d ∷ ds)

-- The loop of `order` over `n` declarations from the index `i`.
unfoldable pub order_from : ℕ → ℕ → ℕ → Orderer → Result Orderer
unfolding order_tldecl
order_from fuel zero i o = ok o
order_from fuel (suc n) i o = order_tldecl fuel i o >>= order_from fuel n (i + 1)

abbrev pub picked : Option Decl → List Decl → List Decl
picked none ds = ds
picked (some d) ds = d ∷ ds

abbrev pub pick : List Decl → List ℕ → List Decl
pick decls [] = []
pick decls (i ∷ is) = picked (get_elem? decls i) (pick decls is)

-- `order`, from the state that `orderer_new` makes to `orderer_del`.
unfoldable pub order_new : Orderer → Result (List Decl)
unfolding order_from
order_new o =
    let decl_count = length o.decls in
    (if extends_last o.decls
      then order_from (decl_count + 1) decl_count 0 o
      else stop misplaced_extend)
    >>= λ o'. assert (decl_count == length o'.topological_order) >>= λ _.
        assert (length o'.dependencies == 0) >>= λ _. ok (pick o'.decls o'.topological_order)

unfoldable pub order : CstModule → Result (List Decl)
unfolding orderer_new order_new
order cst = orderer_new cst >>= order_new
