-- ===== src/Order/Failure.antt =====
-- Why the search of a graph stops: never for want of fuel, and for a cycle only where there is one.
use sunder.Prelude.{
  ℕ, zero, suc, ◌+◌, ◌<◌, List, [], ◌∷◌, ◌≡◌, ◌≢◌, refl, inl, inr, sym, arith, ◌==◌, ◌∙◌,
  Bool-cases, ap,
}
use sunder.Order.State.{
  unordered, ordering, ordered, Result, ok, stop, circular, failed_assertion, out_of_fuel, ◌>>=◌,
  Stop, Result-cases, state-cases,
}
use sunder.Order.Graph.{
  Event, need, mark, halt, Dfs, state, put, run, push, visit, visit_from, visit_unordered,
  visit_ordering, visit_ordered, visit-zero,
}
use sunder.Order.States.{
  left, left_count, get_or-set_if, get_or-replicate, index-lt, left_count-set, left_count-replicate,
}
use sunder.Order.Search.{
  Marks, IsSearch, IsSearch-mark, IsSearch-begin, Visits, MarksSeen, MarksSeen-begin, visit_lem,
}
use sunder.Order.Advances.{Among, Advances, Advances-refl, Advances-trans, Advances-mark}
use sunder.Order.Whole.{start, start-IsSearch}

-- Two nodes with a chain of needs, of one at least, from the first to the second.
pub data Chain (events : ℕ → List Event) (i : ℕ) : ℕ → Type 0 where
  direct : {j : ℕ} → Among (need j) (events i) → Chain events i j
  further : {j k : ℕ} → Chain events i j → Among (need k) (events j) → Chain events i k

stop_injective : {d e : Stop} → ◌≡◌ {A = Result Dfs} (stop d) (stop e) → d ≡ e
stop_injective h = cc

failed : (r : Result Dfs) (i : ℕ) {e : Stop} → (r >>= λ s. ok (push i s)) ≡ stop e → r ≡ stop e
failed (ok s) i h = cc
failed (stop d) i h = h

module _ (n : ℕ) (events : ℕ → List Event) where
  pub IsSearch-put :
      (i : ℕ) (s : Dfs)
      → IsSearch n events s
      → left (state s i) ≡ 0
      → Marks n events i
      → IsSearch n events (put i ordered s)
  IsSearch-put i s inv seen marked = record {
    placed = IsSearch-mark n events i s inv marked;
    follows = inv.follows;
    sized = (Advances-mark i s seen).same_length ∙ inv.sized;
  }

  pub MarksSeen-rest :
      (e : Event) (es : List Event) (s t : Dfs)
      → MarksSeen n events (e ∷ es) s
      → Advances s t
      → MarksSeen n events es t
  MarksSeen-rest e es s t ms a k m =
      (omega (arith, a.less_left k, (ms k (inr m)).0), (ms k (inr m)).1)

  -- A failure of a run is one of a visit, in a state that the run has reached.
  record FailsAt (v : ℕ → Dfs → Result Dfs) (e : Stop) (s : Dfs) (es : List Event) : Type 0 where
    node : ℕ
    needed : Among (need node) es
    reached : Dfs
    advances : Advances s reached
    keeps : IsSearch n events reached
    fails : v node reached ≡ stop e

  FailsAt-later :
      {v : ℕ → Dfs → Result Dfs} {e : Stop} {s t : Dfs} {f : Event} {es : List Event}
      → Advances s t
      → FailsAt v e t es
      → FailsAt v e s (f ∷ es)
  FailsAt-later a r = record {
    node = r.node;
    needed = inr r.needed;
    reached = r.reached;
    advances = Advances-trans a r.advances;
    keeps = r.keeps;
    fails = r.fails;
  }

  run-FailsAt :
      (v : ℕ → Dfs → Result Dfs) (e : Stop)
      → e ≢ failed_assertion
      → Visits n events v
      → (es : List Event) (s : Dfs) → IsSearch n events s
      → MarksSeen n events es s
      → run v es s ≡ stop e
      → FailsAt v e s es
  unfolding run
  run-FailsAt v e ne spec [] s inv ms h = cc
  run-FailsAt v e ne spec (halt ∷ es) s inv ms h = absurd (ne (stop_injective (sym h)))
  run-FailsAt v e ne spec (mark i ∷ es) s inv ms h =
      let seen = ms i (inl refl) in
      let a = Advances-mark i s seen.0 in
      FailsAt-later a (
        run-FailsAt v e ne spec es (put i ordered s) (IsSearch-put i s inv seen.0 seen.1)
          (MarksSeen-rest (mark i) es s (put i ordered s) ms a) h)
  run-FailsAt v e ne spec (need i ∷ es) s inv ms h = elim (Result-cases (v i s)) [
    | inl (t, r) ↦
        let first = spec i s t inv r in
        FailsAt-later first.advances (
          run-FailsAt v e ne spec es t first.keeps
            (MarksSeen-rest (need i) es s t ms first.advances) (rw r at h))
    | inr (e', r) ↦
        let same : e' ≡ e = stop_injective (rw r at h) in
        record {
          node = i;
          needed = inl refl;
          reached = s;
          advances = Advances-refl s;
          keeps = inv;
          fails = rw same at r;
        }
  ]

  module _ (own : (i k : ℕ) → Among (mark k) (events i) → k ≡ i) where
    -- A visit that fails in the events of its node.
    visit-FailsAt :
        (fuel i : ℕ) (e : Stop) (s : Dfs)
        → e ≢ failed_assertion
        → IsSearch n events s
        → state s i ≡ unordered
        → visit events (suc fuel) i s ≡ stop e
        → FailsAt (visit events fuel) e (put i ordering s) (events i)
    visit-FailsAt fuel i e s ne inv u h =
        run-FailsAt (visit events fuel) e ne (visit_lem n events own fuel) (events i)
          (put i ordering s) (IsSearch-begin n events own i s inv u)
          (MarksSeen-begin n events own i s u)
          (failed (run (visit events fuel) (events i) (put i ordering s)) i
            (rw (visit_unordered events fuel i s u) at h))

    visit_enough :
        (fuel i : ℕ) (s : Dfs)
        → IsSearch n events s
        → left_count s.states < fuel
        → visit events fuel i s ≢ stop out_of_fuel
    visit_enough zero i s inv lt h = omega arith
    visit_enough (suc fuel) i s inv lt h = elim (state-cases (state s i)) [
      | inl u ↦
          let f = visit-FailsAt fuel i out_of_fuel s (λ e. cc) inv u h in
          let fewer = left_count-set s.states i ordering refl (index-lt s.states i u) in
          visit_enough fuel f.node f.reached f.keeps
            (omega (arith, fewer, f.advances.fewer_left, ap left u)) f.fails
      | inr (inl o) ↦ let h' = rw (visit_ordering events fuel i s o) at h in cc
      | inr (inr o) ↦ let h' = rw (visit_ordered events fuel i s o) at h in cc
    ]

    visit_cycle :
        (fuel i : ℕ) (s : Dfs)
        → IsSearch n events s
        → ((j : ℕ) → state s j ≡ ordering → Chain events j i)
        → visit events fuel i s ≡ stop circular
        → (j : ℕ) × Chain events j j
    visit_cycle zero i s inv above h = let h' = rw (visit-zero events i s) at h in cc
    visit_cycle (suc fuel) i s inv above h = elim (state-cases (state s i)) [
      | inl u ↦
          let f = visit-FailsAt fuel i circular s (λ e. cc) inv u h in
          let lt = index-lt s.states i u in
          visit_cycle fuel f.node f.reached f.keeps
            (λ j o. elim (Bool-cases (i == j)) [
              | inl e ↦ let same : i ≡ j = ground arith in rw (sym same) (direct f.needed)
              | inr e ↦
                  further
                    (above j (
                      ground (
                        arith,
                        f.advances.keeps_ordering j,
                        get_or-set_if s.states i j ordering lt,
                      )))
                    f.needed
            ])
            f.fails
      | inr (inl o) ↦ (i, above i o)
      | inr (inr o) ↦ let h' = rw (visit_ordered events fuel i s o) at h in cc
    ]

    -- The loop over all nodes, from a state in which no visit is under way.
    visit_from_enough :
        (fuel m i : ℕ) (s : Dfs)
        → IsSearch n events s
        → left_count s.states < fuel
        → visit_from events fuel m i s ≢ stop out_of_fuel
    unfolding visit_from
    visit_from_enough fuel zero i s inv lt h = cc
    visit_from_enough fuel (suc m) i s inv lt h = elim (Result-cases (visit events fuel i s)) [
      | inl (t, r) ↦
          let first = visit_lem n events own fuel i s t inv r in
          visit_from_enough fuel m (i + 1) t first.keeps (omega (arith, first.advances.fewer_left))
            (rw r at h)
      | inr (e, r) ↦
          let same : e ≡ out_of_fuel = stop_injective (rw r at h) in
          visit_enough fuel i s inv lt (rw same at r)
    ]

    visit_from_cycle :
        (fuel m i : ℕ) (s : Dfs)
        → IsSearch n events s
        → ((j : ℕ) → state s j ≢ ordering)
        → visit_from events fuel m i s ≡ stop circular
        → (j : ℕ) × Chain events j j
    unfolding visit_from
    visit_from_cycle fuel zero i s inv idle h = cc
    visit_from_cycle fuel (suc m) i s inv idle h = elim (Result-cases (visit events fuel i s)) [
      | inl (t, r) ↦
          let first = visit_lem n events own fuel i s t inv r in
          visit_from_cycle fuel m (i + 1) t first.keeps
            (λ j o. idle j (first.advances.keeps_ordering j o)) (rw r at h)
      | inr (e, r) ↦
          let same : e ≡ circular = stop_injective (rw r at h) in
          visit_cycle fuel i s inv (λ j o. absurd (idle j o)) (rw same at r)
    ]

    pub visit_from-ne-out_of_fuel : visit_from events (n + 1) n 0 (start n) ≢ stop out_of_fuel
    visit_from-ne-out_of_fuel h =
        visit_from_enough (n + 1) n 0 (start n) (start-IsSearch n events)
          (omega (arith, left_count-replicate n)) h

    pub visit_from-circular :
        (fuel : ℕ)
        → visit_from events fuel n 0 (start n) ≡ stop circular
        → (j : ℕ) × Chain events j j
    visit_from-circular fuel h =
        visit_from_cycle fuel n 0 (start n) (start-IsSearch n events)
          (λ j o. ground (arith, get_or-replicate n j)) h
