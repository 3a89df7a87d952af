-- ===== src/Order/Graph.antt =====
-- The search of order.c on a graph: the events of a node are the nodes that it needs, its own early
-- mark as ordered, and a failed assertion.
use sunder.Prelude.{ℕ, zero, suc, ◌+◌, List, [], ◌∷◌, ◌++◌, ◌≡◌, refl, get_or, set}
use sunder.Order.State.{
  TldeclState, unordered, ordering, ordered, Result, ok, stop, circular, failed_assertion,
  out_of_fuel, ◌>>=◌,
}

pub data Event : Type 0 where
  need : ℕ → Event
  mark : ℕ → Event
  halt : Event

pub record Dfs : Type 0 where
  pub states : List TldeclState
  pub out : List ℕ

abbrev pub state : Dfs → ℕ → TldeclState
state s i = get_or s.states i ordered

abbrev pub put : ℕ → TldeclState → Dfs → Dfs
put i x s = record s { states = set s.states i x }

unfoldable pub run : (ℕ → Dfs → Result Dfs) → List Event → Dfs → Result Dfs
run visit [] s = ok s
run visit (need i ∷ es) s = visit i s >>= run visit es
run visit (mark i ∷ es) s = run visit es (put i ordered s)
run visit (halt ∷ es) s = stop failed_assertion

pub run-append :
    (visit : ℕ → Dfs → Result Dfs) (es fs : List Event) (s : Dfs)
    → run visit (es ++ fs) s ≡ (run visit es s >>= run visit fs)
unfolding run
run-append visit [] fs s = refl
run-append visit (need i ∷ es) fs s = after (visit i s) (run-append visit es fs)
  where
    after :
        (r : Result Dfs)
        → ((t : Dfs) → run visit (es ++ fs) t ≡ (run visit es t >>= run visit fs))
        → (r >>= run visit (es ++ fs)) ≡ (r >>= run visit es >>= run visit fs)
    after (ok t) ih = ih t
    after (stop e) ih = refl
run-append visit (mark i ∷ es) fs s = run-append visit es fs (put i ordered s)
run-append visit (halt ∷ es) fs s = refl

abbrev pub push : ℕ → Dfs → Dfs
push i s = record { states = set s.states i ordered; out = s.out ++ i ∷ [] }

module _ (events : ℕ → List Event) where
  unfoldable pub visit : ℕ → ℕ → Dfs → Result Dfs
  unfolding run
  visit zero i s = stop out_of_fuel
  visit (suc fuel) i s = elim (state s i) [
    | ordered ↦ ok s
    | ordering ↦ stop circular
    | unordered ↦ run (visit fuel) (events i) (put i ordering s) >>= λ s'. ok (push i s')
  ]

  unfoldable pub visit_from : ℕ → ℕ → ℕ → Dfs → Result Dfs
  unfolding visit
  visit_from fuel zero i s = ok s
  visit_from fuel (suc n) i s = visit fuel i s >>= visit_from fuel n (i + 1)

  pub visit_unordered :
      (fuel i : ℕ) (s : Dfs)
      → state s i ≡ unordered
      → visit (suc fuel) i s
        ≡ (run (visit fuel) (events i) (put i ordering s) >>= λ s'. ok (push i s'))
  unfolding visit
  visit_unordered fuel i s u = rw (u, visit)

  pub visit_ordering :
      (fuel i : ℕ) (s : Dfs) → state s i ≡ ordering → visit (suc fuel) i s ≡ stop circular
  unfolding visit
  visit_ordering fuel i s u = rw (u, visit)

  pub visit_ordered : (fuel i : ℕ) (s : Dfs) → state s i ≡ ordered → visit (suc fuel) i s ≡ ok s
  unfolding visit
  visit_ordered fuel i s u = rw (u, visit)

  pub visit-zero : (i : ℕ) (s : Dfs) → visit zero i s ≡ stop out_of_fuel
  unfolding visit
  visit-zero i s = refl
