-- ===== src/Order/Search.antt =====
-- What the search of a graph leaves: every node once, behind the nodes that it needs.
use sunder.Prelude.{
  ℕ, zero, suc, ◌<◌, List, [], ◌∷◌, ◌++◌, ◌≡◌, refl, ◌⊎◌, inl, inr, sym, arith, ◌==◌, length,
  Bool-cases, length-set, ◌∙◌, length-append, ap,
}
use mathlib.Core.List.{append-nil, append_assoc}
use sunder.Order.Advances.{
  ok_injective, ok-ne-stop, need_injective, Among, Advances, Advances-refl, Advances-trans,
  Advances-mark,
}
use sunder.Order.State.{unordered, ordering, ordered, Result, ok, Result-cases, state-cases}
use sunder.Order.Graph.{
  Event, need, mark, halt, Dfs, state, put, run, push, visit, visit_unordered, visit_ordering,
  visit_ordered, visit-zero,
}
use sunder.Order.States.{
  count, count-append, left, get_or-set_if, get_or-set_ordered, index-lt, left_count-set,
  left_count-set_le, left_count-set_seen,
}

module _ (n : ℕ) (events : ℕ → List Event) where
  abbrev pub Needs : ℕ → ℕ → Type 0
  Needs i j = Among (need j) (events i)

  abbrev pub Marks : ℕ → Type 0
  Marks i = Among (mark i) (events i)

  -- Behind `before`, what `i` needs is there, or is a node that is ordered before its own needs.
  abbrev pub Ready : List ℕ → ℕ → Type 0
  Ready before i = (j : ℕ) → j < n → Needs i j → (0 < count j before) ⊎ Marks j

  abbrev pub Follows : List ℕ → List ℕ → Type 0
  Follows before [] = Unit
  Follows before (i ∷ is) = Ready before i × Follows (before ++ i ∷ []) is

  Follows-append :
      (before is : List ℕ) (i : ℕ)
      → Follows before is
      → Ready (before ++ is) i
      → Follows before (is ++ i ∷ [])
  Follows-append before [] i f r = (rw (append-nil before) at r, tt)
  Follows-append before (k ∷ is) i f r =
      (f.0, Follows-append (before ++ k ∷ []) is i f.1 (rw (append_assoc before (k ∷ []) is) r))

  pub record IsSearch (s : Dfs) : Type 0 where
    pub placed : (j : ℕ) → j < n → state s j ≡ ordered → (0 < count j s.out) ⊎ Marks j
    pub follows : Follows [] s.out
    pub sized : length s.states ≡ n

  pub IsSearch-mark :
      (i : ℕ) (s : Dfs)
      → IsSearch s
      → Marks i
      → (j : ℕ) → j < n
      → state (put i ordered s) j ≡ ordered
      → (0 < count j s.out) ⊎ Marks j
  IsSearch-mark i s inv marked j lt o = elim (Bool-cases (i == j)) [
    | inl e ↦ let same : i ≡ j = ground arith in inr (rw same at marked)
    | inr e ↦ inv.placed j lt (sym (rw e at (get_or-set_ordered s.states i j)) ∙ o)
  ]

  pub record Visited (s : Dfs) (i : ℕ) (t : Dfs) : Type 0 where
    pub advances : Advances s t
    pub keeps : IsSearch t
    pub done : state t i ≡ ordered

  pub record Ran (s : Dfs) (es : List Event) (t : Dfs) : Type 0 where
    pub advances : Advances s t
    pub keeps : IsSearch t
    pub done : (j : ℕ) → Among (need j) es → state t j ≡ ordered

  abbrev pub Visits : (ℕ → Dfs → Result Dfs) → Type 0
  Visits v = (i : ℕ) (s t : Dfs) → IsSearch s → v i s ≡ ok t → Visited s i t

  -- The marks among the events are of nodes that are no longer left.
  abbrev pub MarksSeen : List Event → Dfs → Type 0
  MarksSeen es s = (k : ℕ) → Among (mark k) es → (left (state s k) ≡ 0) × Marks k

  pub run-Ran :
      (v : ℕ → Dfs → Result Dfs)
      → Visits v
      → (es : List Event) (s t : Dfs) → IsSearch s
      → MarksSeen es s
      → run v es s ≡ ok t
      → Ran s es t
  unfolding run
  run-Ran v spec [] s t inv ms h =
      let e : s ≡ t = ok_injective h in
      rw (sym e) (record { advances = Advances-refl s; keeps = inv; done = λ j m. elim m [ ] })
  run-Ran v spec (need i ∷ es) s t inv ms h = elim (Result-cases (v i s)) [
    | inl (s', e) ↦
        let first = spec i s s' inv e in
        let rest =
          run-Ran v spec es s' t first.keeps
            (λ k m. (omega (arith, first.advances.less_left k, (ms k (inr m)).0), (ms k (inr m)).1))
            (rw e at h) in
        record {
          advances = Advances-trans first.advances rest.advances;
          keeps = rest.keeps;
          done = λ j m. elim m [
            | inl same ↦ rest.advances.keeps_ordered j (rw (need_injective same) at first.done)
            | inr later ↦ rest.done j later
          ];
        }
    | inr (stopped, e) ↦ absurd (ok-ne-stop (rw e at h))
  ]
  run-Ran v spec (mark i ∷ es) s t inv ms h =
      let seen = ms i (inl refl) in
      let first = Advances-mark i s seen.0 in
      let rest =
        run-Ran v spec es (put i ordered s) t
          (record {
            placed = IsSearch-mark i s inv seen.1;
            follows = inv.follows;
            sized = first.same_length ∙ inv.sized;
          })
          (λ k m. (omega (arith, first.less_left k, (ms k (inr m)).0), (ms k (inr m)).1)) h in
      record {
        advances = Advances-trans first rest.advances;
        keeps = rest.keeps;
        done = λ j m. elim m [ inl same ↦ cc | inr later ↦ rest.done j later ];
      }
  run-Ran v spec (halt ∷ es) s t inv ms h = cc

  -- What begins, and what ends, the visit of a node that is left.
  Advances-begin :
      (i : ℕ) (s t : Dfs)
      → state s i ≡ unordered
      → Advances (put i ordering s) t
      → Advances s (push i t)
  Advances-begin i s t u a =
      let lt = index-lt s.states i u in
      let fewer = left_count-set s.states i ordering refl lt in
      let seen : left (state t i) ≡ 0 =
        ground (arith, a.less_left i, get_or-set_if s.states i i ordering lt) in
      record {
        conserved = λ j. ground (
          arith,
          a.conserved j,
          count-append j t.out (i ∷ []),
          get_or-set_if s.states i j ordering lt,
          get_or-set_ordered t.states i j,
          a.less_left j,
        );
        less_left = λ j. ground (
          arith,
          a.less_left j,
          get_or-set_if s.states i j ordering lt,
          get_or-set_ordered t.states i j,
        );
        fewer_left = omega (arith, fewer, a.fewer_left, left_count-set_le t.states i);
        same_total = omega (
          arith,
          fewer,
          a.same_total,
          length-append t.out (i ∷ []),
          left_count-set_seen t.states i seen,
          ap left u,
        );
        keeps_ordered = λ j h. ground (
          arith,
          a.keeps_ordered j,
          get_or-set_if s.states i j ordering lt,
          get_or-set_ordered t.states i j,
        );
        keeps_ordering = λ j h. ground (
          arith,
          a.keeps_ordering j,
          get_or-set_if s.states i j ordering lt,
          get_or-set_ordered t.states i j,
        );
        same_length =
            length-set t.states i ordered ∙ a.same_length ∙ length-set s.states i ordering;
      }

  module _ (own : (i k : ℕ) → Among (mark k) (events i) → k ≡ i) where
    -- A visit by a node's events, behind its begin.
    IsSearch-push :
        (i : ℕ) (s t : Dfs)
        → state s i ≡ unordered
        → Ran (put i ordering s) (events i) t
        → IsSearch (push i t)
    IsSearch-push i s t u r = record {
      placed = λ j lt o. elim (Bool-cases (i == j)) [
        | inl e ↦ inl (ground (arith, count-append j t.out (i ∷ [])))
        | inr e ↦ elim (r.keeps.placed j lt (sym (rw e at (get_or-set_ordered t.states i j)) ∙ o)) [
          | inl c ↦ inl (omega (arith, count-append j t.out (i ∷ [])))
          | inr m ↦ inr m
        ]
      ];
      follows =
          Follows-append [] t.out i r.keeps.follows
            (λ j lt needs. r.keeps.placed j lt (r.done j needs));
      sized = length-set t.states i ordered ∙ r.keeps.sized;
    }

    pub IsSearch-begin :
        (i : ℕ) (s : Dfs) → IsSearch s → state s i ≡ unordered → IsSearch (put i ordering s)
    IsSearch-begin i s inv u =
        let lt = index-lt s.states i u in
        record {
          placed =
              λ j lt' o. inv.placed j lt' (ground (arith, get_or-set_if s.states i j ordering lt));
          follows = inv.follows;
          sized = length-set s.states i ordering ∙ inv.sized;
        }

    pub MarksSeen-begin :
        (i : ℕ) (s : Dfs) → state s i ≡ unordered → MarksSeen (events i) (put i ordering s)
    MarksSeen-begin i s u k m =
        let same : k ≡ i = own i k m in
        let lt = index-lt s.states i u in
        (rw same (ground (arith, get_or-set_if s.states i i ordering lt)), rw (sym same) at m)

    pub visit_lem : (fuel : ℕ) → Visits (visit events fuel)
    visit_lem zero i s t inv h = absurd (ok-ne-stop (rw (visit-zero events i s) at h))
    visit_lem (suc fuel) i s t inv h = elim (state-cases (state s i)) [
      | inl u ↦ elim (Result-cases (run (visit events fuel) (events i) (put i ordering s))) [
        | inl (t', e) ↦
            let r =
              run-Ran (visit events fuel) (visit_lem fuel) (events i) (put i ordering s) t'
                (IsSearch-begin i s inv u) (MarksSeen-begin i s u) e in
            let same : push i t' ≡ t =
              ok_injective (rw (visit_unordered events fuel i s u, e) at h) in
            rw (sym same) (record {
              advances = Advances-begin i s t' u r.advances;
              keeps = IsSearch-push i s t' u r;
              done = ground (arith, get_or-set_ordered t'.states i i);
            })
        | inr (stopped, e) ↦ absurd (ok-ne-stop (rw (visit_unordered events fuel i s u, e) at h))
      ]
      | inr (inl o) ↦ absurd (ok-ne-stop (rw (visit_ordering events fuel i s o) at h))
      | inr (inr o) ↦
          let same : s ≡ t = ok_injective (rw (visit_ordered events fuel i s o) at h) in
          rw (sym same) (record { advances = Advances-refl s; keeps = inv; done = o })
    ]
