-- ===== src/Order/Before.antt =====
-- In the result of a search, what a node needs stands in front of it, unless the two are in a cycle.
use sunder.Prelude.{
  ℕ, zero, suc, ◌+◌, ◌<◌, List, [], ◌∷◌, ◌++◌, ◌≡◌, refl, ◌⊎◌, inl, inr, sym, arith, ◌==◌,
  Bool-cases,
}
use mathlib.Core.List.{append-nil, append_assoc}
use native.Mathlib.Decide.{dec_lt}
use sunder.Order.State.{unordered, ordering, ordered, Result, ok, Result-cases, state-cases}
use sunder.Order.Graph.{
  Event, need, mark, halt, Dfs, state, put, run, push, visit, visit_from, visit_unordered,
  visit_ordering, visit_ordered, visit-zero,
}
use sunder.Order.States.{count, left, get_or-set_if, get_or-replicate, index-lt}
use sunder.Order.Search.{
  Needs, Marks, IsSearch, IsSearch-begin, Visits, MarksSeen, MarksSeen-begin, visit_lem, run-Ran,
}
use sunder.Order.Advances.{Among, Advances, Advances-mark, ok_injective, ok-ne-stop}
use sunder.Order.Whole.{start, start-IsSearch}
use sunder.Order.Failure.{Chain, direct, further, IsSearch-put, MarksSeen-rest}

module _ (n : ℕ) (events : ℕ → List Event) where
  -- What `i` needs stands in `before`, or marks itself early and needs `i` through a chain.
  abbrev pub Preceded : List ℕ → ℕ → Type 0
  Preceded before i =
      (j : ℕ)
      → j < n
      → Needs n events i j
      → (0 < count j before) ⊎ (Marks n events j × Chain events j i)

  abbrev pub InOrder : List ℕ → List ℕ → Type 0
  InOrder before [] = Unit
  InOrder before (i ∷ is) = Preceded before i × InOrder (before ++ i ∷ []) is

  InOrder-append :
      (before is : List ℕ) (i : ℕ)
      → InOrder before is
      → Preceded (before ++ is) i
      → InOrder before (is ++ i ∷ [])
  InOrder-append before [] i f r = (rw (append-nil before) at r, tt)
  InOrder-append before (k ∷ is) i f r =
      (f.0, InOrder-append (before ++ k ∷ []) is i f.1 (rw (append_assoc before (k ∷ []) is) r))

  -- A node whose visit has begun and not ended.
  record Open (s : Dfs) (j : ℕ) : Type 0 where
    begun : left (state s j) ≡ 0
    not_out : count j s.out ≡ 0

  -- Every open node needs `k` through a chain.
  abbrev Above : ℕ → Dfs → Type 0
  Above k s = (j : ℕ) → j < n → Open s j → Chain events j k

  abbrev OnPath : ℕ → Dfs → Type 0
  OnPath k s = (j : ℕ) → j < n → Open s j → (j ≡ k) ⊎ Chain events j k

  Open-back : {s t : Dfs} (j : ℕ) → Advances s t → Open t j → Open s j
  Open-back j a o = record {
    begun = omega (arith, a.conserved j, o.begun, o.not_out);
    not_out = omega (arith, a.conserved j, o.begun, o.not_out);
  }

  Above-need : {k c : ℕ} {s : Dfs} → OnPath k s → Needs n events k c → Above c s
  Above-need {k} {c} {s} path m j lt o = elim (path j lt o) [
    | inl same ↦ rw same (direct m)
    | inr chain ↦ further chain m
  ]

  abbrev KeepsOrder : (ℕ → Dfs → Result Dfs) → Type 0
  KeepsOrder v =
      (i : ℕ) (s t : Dfs)
      → IsSearch n events s
      → Above i s
      → InOrder [] s.out
      → v i s ≡ ok t
      → InOrder [] t.out

  run-InOrder :
      (v : ℕ → Dfs → Result Dfs)
      → Visits n events v
      → KeepsOrder v
      → (k : ℕ) (es : List Event) (s t : Dfs) → IsSearch n events s
      → MarksSeen n events es s
      → ((c : ℕ) → Among (need c) es → Needs n events k c)
      → OnPath k s
      → InOrder [] s.out
      → run v es s ≡ ok t
      → InOrder [] t.out
  unfolding run
  run-InOrder v spec keep k [] s t inv ms sub path f h =
      let e : s ≡ t = ok_injective h in rw (sym e) f
  run-InOrder v spec keep k (halt ∷ es) s t inv ms sub path f h = cc
  run-InOrder v spec keep k (mark i ∷ es) s t inv ms sub path f h =
      let seen = ms i (inl refl) in
      let a = Advances-mark i s seen.0 in
      run-InOrder v spec keep k es (put i ordered s) t (IsSearch-put n events i s inv seen.0 seen.1)
        (MarksSeen-rest n events (mark i) es s (put i ordered s) ms a) (λ c m. sub c (inr m))
        (λ j lt o. path j lt (Open-back j a o)) f h
  run-InOrder v spec keep k (need i ∷ es) s t inv ms sub path f h = elim (Result-cases (v i s)) [
    | inl (s', e) ↦
        let first = spec i s s' inv e in
        run-InOrder v spec keep k es s' t first.keeps
          (MarksSeen-rest n events (need i) es s s' ms first.advances) (λ c m. sub c (inr m))
          (λ j lt o. path j lt (Open-back j first.advances o))
          (keep i s s' inv (Above-need path (sub i (inl refl))) f e) (rw e at h)
    | inr (stopped, e) ↦ absurd (ok-ne-stop (rw e at h))
  ]

  module _ (own : (i k : ℕ) → Among (mark k) (events i) → k ≡ i) where
    OnPath-begin :
        (i : ℕ) (s : Dfs) → state s i ≡ unordered → Above i s → OnPath i (put i ordering s)
    OnPath-begin i s u above j lt o = elim (Bool-cases (i == j)) [
      | inl e ↦ inl (ground arith)
      | inr e ↦
          let size = index-lt s.states i u in
          inr (
            above j lt (record {
              begun = ground (arith, o.begun, get_or-set_if s.states i j ordering size);
              not_out = o.not_out;
            }))
    ]

    Preceded-needs :
        (i : ℕ) (t : Dfs)
        → IsSearch n events t
        → ((j : ℕ) → Among (need j) (events i) → state t j ≡ ordered)
        → OnPath i t
        → Preceded t.out i
    Preceded-needs i t keeps done path j lt m = elim (dec_lt 0 (count j t.out)) [
      | yes p ↦ inl p
      | no p ↦ elim (keeps.placed j lt (done j m)) [
        | inl q ↦ inl q
        | inr marked ↦
            let o : Open t j = record { begun = ground (arith, done j m); not_out = omega arith } in
            elim (path j lt o) [
              | inl same ↦ inr (marked, rw same (direct (rw same at m)))
              | inr chain ↦ inr (marked, chain)
            ]
      ]
    ]

    visit-InOrder : (fuel : ℕ) → KeepsOrder (visit events fuel)
    visit-InOrder zero i s t inv above f h = absurd (ok-ne-stop (rw (visit-zero events i s) at h))
    visit-InOrder (suc fuel) i s t inv above f h = elim (state-cases (state s i)) [
      | inl u ↦ elim (Result-cases (run (visit events fuel) (events i) (put i ordering s))) [
        | inl (t', e) ↦
            let begun = IsSearch-begin n events own i s inv u in
            let marks = MarksSeen-begin n events own i s u in
            let spec = visit_lem n events own fuel in
            let path = OnPath-begin i s u above in
            let r =
              run-Ran n events (visit events fuel) spec (events i) (put i ordering s) t' begun marks
                e in
            let before =
              run-InOrder (visit events fuel) spec (visit-InOrder fuel) i (events i)
                (put i ordering s) t' begun marks (λ c m. m) path f e in
            let same : push i t' ≡ t =
              ok_injective (rw (visit_unordered events fuel i s u, e) at h) in
            rw (sym same) (
              InOrder-append [] t'.out i before (
                Preceded-needs i t' r.keeps r.done
                  (λ j lt o. path j lt (Open-back j r.advances o))))
        | inr (stopped, e) ↦ absurd (ok-ne-stop (rw (visit_unordered events fuel i s u, e) at h))
      ]
      | inr (inl o) ↦ absurd (ok-ne-stop (rw (visit_ordering events fuel i s o) at h))
      | inr (inr o) ↦
          let same : s ≡ t = ok_injective (rw (visit_ordered events fuel i s o) at h) in
          rw (sym same) f
    ]

    rounds-InOrder :
        (fuel m i : ℕ) (s t : Dfs)
        → IsSearch n events s
        → ((j : ℕ) → j < n → ¬ Open s j)
        → InOrder [] s.out
        → visit_from events fuel m i s ≡ ok t
        → InOrder [] t.out
    unfolding visit_from
    rounds-InOrder fuel zero i s t inv idle f h =
        let same : s ≡ t = ok_injective h in rw (sym same) f
    rounds-InOrder fuel (suc m) i s t inv idle f h = elim (Result-cases (visit events fuel i s)) [
      | inl (s', e) ↦
          let first = visit_lem n events own fuel i s s' inv e in
          rounds-InOrder fuel m (i + 1) s' t first.keeps
            (λ j lt o. idle j lt (Open-back j first.advances o))
            (visit-InOrder fuel i s s' inv (λ j lt o. absurd (idle j lt o)) f e) (rw e at h)
      | inr (stopped, e) ↦ absurd (ok-ne-stop (rw e at h))
    ]

    pub visit_from-InOrder :
        (fuel : ℕ) (t : Dfs) → visit_from events fuel n 0 (start n) ≡ ok t → InOrder [] t.out
    visit_from-InOrder fuel t h =
        rounds-InOrder fuel n 0 (start n) t (start-IsSearch n events)
          (λ j lt o. ground (arith, o.begun, get_or-replicate n j)) tt h
