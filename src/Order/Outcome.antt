-- ===== src/Order/Outcome.antt =====
-- What `order` returns, and why it stops.
use sunder.Prelude.{
  ℕ, List, [], ◌∷◌, ◌+◌, ◌≡◌, ◌≢◌, refl, inl, inr, Option, none, some, length, Bool-cases, arith,
  ltb, if◌then◌else◌,
}
use sunder.Cst.{Decl, decl_name, CstModule}
use sunder.Order.State.{
  Result, ok, stop, Stop, circular, misplaced_extend, out_of_fuel, redeclared, failed_assertion,
  ◌>>=◌, orderer_new, new_decls, tldecl_lookup, admit, decl_at, Result-cases,
}
use sunder.Order.Graph.{Dfs}
use sunder.Order.Whole.{start, visit_from-IsSorted}
use sunder.Order.States.{count}
use sunder.Order.Before.{visit_from-InOrder}
use sunder.Order.Behind.{Behind, InOrder-Behind}
use sunder.Order.Failure.{Chain, visit_from-ne-out_of_fuel, visit_from-circular}
use sunder.Order.Refines.{lift}
use sunder.Order.Names.{FindsItself, own_mark, new_decls-FindsItself}
use sunder.Order.Correct.{graph, search, order_new_lem}
use sunder.Order.{extends_last, pick, order_new, order}

-- The declarations that `orderer_new` admits, each once, with those that a declaration mentions in
-- front of it unless a struct, a union or an enum is in a cycle with it.
pub record Ordered (cst : CstModule) (out : List Decl) : Type 0 where
  pub decls : List Decl
  pub admitted : new_decls cst.decls [] ≡ ok decls
  pub indices : List ℕ
  pub once : (j : ℕ) → count j indices ≡ (if ltb j (length decls) then 1 else 0)
  pub complete : length indices ≡ length decls
  pub behind : Behind cst decls indices
  pub result : out ≡ pick decls indices

-- A chain of needs from a declaration to itself.
pub record Cyclic (cst : CstModule) : Type 0 where
  pub decls : List Decl
  pub admitted : new_decls cst.decls [] ≡ ok decls
  pub index : ℕ
  pub chain : Chain (graph cst decls) index index

-- What each way to end says of the module.
abbrev Ends : CstModule → Result (List Decl) → Type 0
Ends cst (ok out) = Ordered cst out
Ends cst (stop circular) = Cyclic cst
Ends cst (stop out_of_fuel) = ⊥
Ends cst (stop _) = Unit {0}

admit-redeclared :
    (d : Decl) (r : Option Decl) (decls : List Decl) (e : Stop)
    → admit d r decls ≡ stop e
    → e ≡ redeclared
admit-redeclared d none decls e h = cc
admit-redeclared d (some c) decls e h = ground arith

new_decls-redeclared :
    (ds decls : List Decl) (e : Stop) → new_decls ds decls ≡ stop e → e ≡ redeclared
unfolding new_decls
new_decls-redeclared [] decls e h = cc
new_decls-redeclared (d ∷ ds) decls e h =
    elim (Result-cases (admit d (decl_at decls (tldecl_lookup decls (decl_name d))) decls)) [
      | inl (decls', a) ↦ new_decls-redeclared ds decls' e (rw a at h)
      | inr (e', a) ↦
          let same : e' ≡ redeclared =
            admit-redeclared d (decl_at decls (tldecl_lookup decls (decl_name d))) decls e' a in
          let h' = rw a at h in cc
    ]

none-FindsItself : FindsItself []
none-FindsItself i d h e = cc

module _ (cst : CstModule) (decls : List Decl) (admitted : new_decls cst.decls [] ≡ ok decls) where
  itself : FindsItself decls
  itself = new_decls-FindsItself cst.decls [] decls none-FindsItself admitted

  search-Ends :
      (r : Result Dfs) → search cst decls ≡ r → Ends cst (r >>= λ t. ok (pick decls t.out))
  search-Ends (ok t) e =
      let sorted =
        visit_from-IsSorted (length decls) (graph cst decls) (own_mark cst.namespace decls itself)
          (length decls + 1) t e in
      record {
        decls = decls;
        admitted = admitted;
        indices = t.out;
        once = sorted.once;
        complete = sorted.complete;
        behind = InOrder-Behind cst decls itself t.out (
            visit_from-InOrder (length decls) (graph cst decls)
              (own_mark cst.namespace decls itself) (length decls + 1) t e);
        result = refl;
      }
  search-Ends (stop circular) e =
      let c =
        visit_from-circular (length decls) (graph cst decls) (own_mark cst.namespace decls itself)
          (length decls + 1) e in
      record { decls = decls; admitted = admitted; index = c.0; chain = c.1 }
  search-Ends (stop out_of_fuel) e =
      visit_from-ne-out_of_fuel (length decls) (graph cst decls)
        (own_mark cst.namespace decls itself) e
  search-Ends (stop redeclared) e = tt
  search-Ends (stop misplaced_extend) e = tt
  search-Ends (stop failed_assertion) e = tt

  order_new-Ends : Ends cst (order_new (lift cst decls [] (start (length decls))))
  order_new-Ends = rw (order_new_lem cst decls itself) (elim (Bool-cases (extends_last decls)) [
    | inl e ↦ rw e (search-Ends (search cst decls) refl)
    | inr e ↦ rw e tt
  ])

order-Ends : (cst : CstModule) → Ends cst (order cst)
order-Ends cst = unfold order orderer_new in go (new_decls cst.decls []) refl
  where
    go :
        (r : Result (List Decl))
        → new_decls cst.decls [] ≡ r
        → Ends cst ((r >>= λ decls. ok (lift cst decls [] (start (length decls)))) >>= order_new)
    go (ok decls) e = order_new-Ends cst decls e
    go (stop d) e = let same = new_decls-redeclared cst.decls [] d e in rw same tt

-- The fuel of the model, one more than the declarations, is enough for every module.
pub order-ne-out_of_fuel : (cst : CstModule) → order cst ≢ stop out_of_fuel
order-ne-out_of_fuel cst h = rw h at (order-Ends cst)
