-- ===== src/Order/Correct.antt =====
-- `order` against the graph of its module.
use sunder.Prelude.{
  ℕ, zero, suc, ◌+◌, ◌-◌, List, [], ◌∷◌, ◌++◌, ◌≡◌, refl, sym, ap, ◌∙◌, inl, inr, Option, none,
  some, arith, true, ◌==◌, if◌then◌else◌, length, get_elem?, take, get_or, Bool-cases, ==_iff,
  length-append,
}
use sunder.Cst.{Decl, CstModule}
use sunder.Order.State.{
  unordered, ordering, ordered, Orderer, Result, ok, stop, circular, misplaced_extend, out_of_fuel,
  ◌>>=◌, assert, state-cases,
}
use sunder.Order.Graph.{
  Event, Dfs, state, put, push, run, visit, visit_from, visit_unordered, visit_ordering,
  visit_ordered, visit-zero,
}
use sunder.Order.Whole.{start, visit_from-IsSorted}
use sunder.Order.Events.{events_of, events_at}
use sunder.Order.Walk.{order_decl}
use sunder.Order.Refines.{lift, answer, decl_lem}
use sunder.Order.Names.{FindsItself, own_mark}
use sunder.Order.{
  order_decl_at, begin, finish, order_tldecl, extends_last, order_from, pick, order_new,
}

take-append_self : (xs ys : List ℕ) → take (length xs) (xs ++ ys) ≡ xs
take-append_self [] ys = refl
take-append_self (x ∷ xs) ys = ap (λ (l : List ℕ). x ∷ l) (take-append_self xs ys)

take_all_but_last : (xs : List ℕ) (i : ℕ) → take (length (xs ++ i ∷ []) - 1) (xs ++ i ∷ []) ≡ xs
take_all_but_last xs i =
    let shorter : length (xs ++ i ∷ []) - 1 ≡ length xs =
      omega (arith, length-append xs (i ∷ [])) in
    rw shorter (take-append_self xs (i ∷ []))

nothing :
    {cst : CstModule} {decls : List Decl} {deps : List ℕ} (v : ℕ → Dfs → Result Dfs) (s : Dfs)
    → ok (lift cst decls deps s) ≡ answer cst decls deps (run v [] s)
unfolding run
nothing v s = refl

order_tldecl-zero : (i : ℕ) (o : Orderer) → order_tldecl zero i o ≡ stop out_of_fuel
unfolding order_tldecl
order_tldecl-zero i o = refl

order_tldecl_unordered :
    (fuel i : ℕ) (o : Orderer)
    → get_or o.states i ordered ≡ unordered
    → order_tldecl (suc fuel) i o
      ≡ (order_decl_at (order_tldecl fuel) i (begin i o) >>= λ o'. ok (finish i o'))
unfolding order_tldecl
order_tldecl_unordered fuel i o e = rw (e, order_tldecl)

order_tldecl_ordering :
    (fuel i : ℕ) (o : Orderer)
    → get_or o.states i ordered ≡ ordering
    → order_tldecl (suc fuel) i o ≡ stop circular
unfolding order_tldecl
order_tldecl_ordering fuel i o e = rw (e, order_tldecl)

order_tldecl_ordered :
    (fuel i : ℕ) (o : Orderer)
    → get_or o.states i ordered ≡ ordered
    → order_tldecl (suc fuel) i o ≡ ok o
unfolding order_tldecl
order_tldecl_ordered fuel i o e = rw (e, order_tldecl)

module _ (cst : CstModule) (decls : List Decl) where
  abbrev pub graph : ℕ → List Event
  graph = events_at cst.namespace decls

  -- The body of a visit, behind `begin`.
  order_decl_at_lem :
      (fuel i : ℕ) (deps : List ℕ)
      → ((j : ℕ) (s : Dfs)
          → order_tldecl fuel j (lift cst decls deps s)
            ≡ answer cst decls deps (visit graph fuel j s))
      → (s : Dfs)
      → order_decl_at (order_tldecl fuel) i (lift cst decls deps s)
        ≡ answer cst decls deps (run (visit graph fuel) (graph i) s)
  order_decl_at_lem fuel i deps ih s = go (get_elem? decls i)
    where
      go :
          (r : Option Decl)
          → (elim r [
            | none ↦ ok (lift cst decls deps s)
            | some d ↦ order_decl (order_tldecl fuel) d (lift cst decls deps s)
          ])
            ≡ answer cst decls deps (run (visit graph fuel) (events_of cst.namespace decls r) s)
      go none = nothing (visit graph fuel) s
      go (some d) = (decl_lem cst decls deps (order_tldecl fuel) (visit graph fuel) ih d).apply s

  finish_lem :
      (i : ℕ) (deps : List ℕ) (r : Result Dfs)
      → (answer cst decls (deps ++ i ∷ []) r >>= λ o'. ok (finish i o'))
        ≡ answer cst decls deps (r >>= λ t. ok (push i t))
  finish_lem i deps (ok t) = rw (take_all_but_last deps i)
  finish_lem i deps (stop e) = refl

  -- What `order_tldecl` does to the states and the result is the visit of the node.
  pub order_tldecl_lem :
      (fuel i : ℕ) (deps : List ℕ) (s : Dfs)
      → order_tldecl fuel i (lift cst decls deps s) ≡ answer cst decls deps (visit graph fuel i s)
  order_tldecl_lem zero i deps s =
      rw (visit-zero graph i s) (order_tldecl-zero i (lift cst decls deps s))
  order_tldecl_lem (suc fuel) i deps s = elim (state-cases (state s i)) [
    | inl u ↦ rw (visit_unordered graph fuel i s u) (
        order_tldecl_unordered fuel i (lift cst decls deps s) u
        ∙ ap (λ (r : Result Orderer). r >>= λ o'. ok (finish i o'))
            (order_decl_at_lem fuel i (deps ++ i ∷ [])
              (λ j t. order_tldecl_lem fuel j (deps ++ i ∷ []) t) (put i ordering s))
        ∙ finish_lem i deps (run (visit graph fuel) (graph i) (put i ordering s)))
    | inr (inl o) ↦
        rw (visit_ordering graph fuel i s o)
          (order_tldecl_ordering fuel i (lift cst decls deps s) o)
    | inr (inr o) ↦
        rw (visit_ordered graph fuel i s o) (order_tldecl_ordered fuel i (lift cst decls deps s) o)
  ]

  order_from_lem :
      (fuel n i : ℕ) (s : Dfs)
      → order_from fuel n i (lift cst decls [] s)
        ≡ answer cst decls [] (visit_from graph fuel n i s)
  unfolding order_from visit_from
  order_from_lem fuel zero i s = refl
  order_from_lem fuel (suc n) i s =
      rw (order_tldecl_lem fuel i [] s) (go (visit graph fuel i s) (order_from_lem fuel n (i + 1)))
    where
      go :
          (r : Result Dfs)
          → ((t : Dfs)
              → order_from fuel n (i + 1) (lift cst decls [] t)
                ≡ answer cst decls [] (visit_from graph fuel n (i + 1) t))
          → (answer cst decls [] r >>= order_from fuel n (i + 1))
            ≡ answer cst decls [] (r >>= visit_from graph fuel n (i + 1))
      go (ok t) ih = ih t
      go (stop e) ih = refl

  abbrev pub search : Result Dfs
  search = visit_from graph (length decls + 1) (length decls) 0 (start (length decls))

  -- `order` behind `orderer_new` gives the declarations in the order of the search: neither of its
  -- assertions at the end fails.
  pub order_new_lem :
      FindsItself decls
      → order_new (lift cst decls [] (start (length decls))) ≡ (
          if extends_last decls
          then (search >>= λ t. ok (pick decls t.out))
          else stop misplaced_extend)
  unfolding order_new
  order_new_lem all = elim (Bool-cases (extends_last decls)) [
    | inl e ↦
        rw (e, order_from_lem (length decls + 1) (length decls) 0 (start (length decls)))
          (go search refl)
    | inr e ↦ rw e refl
  ]
    where
      go :
          (r : Result Dfs)
          → search ≡ r
          → (answer cst decls [] r >>= λ o'.
              assert (length decls == length o'.topological_order) >>= λ _.
              assert (length o'.dependencies == 0) >>= λ _. ok (pick o'.decls o'.topological_order))
            ≡ (r >>= λ t. ok (pick decls t.out))
      go (ok t) e =
          let sorted =
            visit_from-IsSorted (length decls) graph (own_mark cst.namespace decls all)
              (length decls + 1) t e in
          let full : (length decls == length t.out) ≡ true = (==_iff _ _).1 (sym sorted.complete) in
          rw full refl
      go (stop d) e = refl
