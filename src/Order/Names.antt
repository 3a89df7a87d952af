-- ===== src/Order/Names.antt =====
-- `orderer_new`: a declaration that is not an extension is the one that its name finds. So the only
-- mark among the events of a declaration is its own.
use sunder.Prelude.{
  ℕ, zero, suc, List, [], ◌∷◌, ◌++◌, ◌≡◌, refl, sym, ap, ◌⊎◌, inl, inr, Option, none, some, Bool,
  true, false, not, ◌&&◌, ◌==◌, length, get_elem?, Bool-cases, ==_iff,
}
use sunder.Cst.{
  Decl, decl_name, decl_variable, decl_constant, decl_function, decl_struct, decl_union, decl_enum,
  decl_extend, decl_alias, decl_extern_variable, decl_extern_function, decl_extern_type, Members,
}
use sunder.Order.State.{
  ok, is_extend, tldecl_lookup, new_decls, found, admit, decl_at, both_extern, Result-cases,
}
use sunder.Order.Graph.{Event, mark}
use sunder.Order.Advances.{Among, ok_injective, ok-ne-stop}
use sunder.Order.Events.{
  Use, uses, halts, plains, self_events, compound_events, decl_events, events_of, events_at,
  maybe_type_uses, values_uses, member_functions_uses,
}

-- Every declaration but an extension is found by its name.
abbrev pub FindsItself : List Decl → Type 0
FindsItself decls =
    (i : ℕ) (d : Decl)
    → get_elem? decls i ≡ some d
    → is_extend d ≡ false
    → tldecl_lookup decls (decl_name d) ≡ some i

found_kept :
    (b : Bool) (r r' : Option ℕ) (i : ℕ)
    → ((j : ℕ) → r ≡ some j → r' ≡ some j)
    → found b r ≡ some i
    → found b r' ≡ some i
found_kept true r r' i h e = e
found_kept false none r' i h e = cc
found_kept false (some j) r' i h e = rw (h j refl) e

found_none : (b : Bool) (r : Option ℕ) → found b r ≡ none → (b ≡ false) × (r ≡ none)
found_none true r h = cc
found_none false none h = (refl, refl)
found_none false (some i) h = cc

lookup_concat :
    (decls : List Decl) (d : Decl) (name i : ℕ)
    → tldecl_lookup decls name ≡ some i
    → tldecl_lookup (decls ++ d ∷ []) name ≡ some i
unfolding tldecl_lookup
lookup_concat [] d name i h = cc
lookup_concat (x ∷ xs) d name i h =
    found_kept (decl_name x == name && not (is_extend x)) (tldecl_lookup xs name)
      (tldecl_lookup (xs ++ d ∷ []) name) i (λ j e. lookup_concat xs d name j e) h

lookup_new :
    (decls : List Decl) (d : Decl)
    → is_extend d ≡ false
    → tldecl_lookup decls (decl_name d) ≡ none
    → tldecl_lookup (decls ++ d ∷ []) (decl_name d) ≡ some (length decls)
unfolding tldecl_lookup
lookup_new [] d e h =
    let same : (decl_name d == decl_name d) ≡ true = (==_iff _ _).1 refl in rw (same, e) refl
lookup_new (x ∷ xs) d e h =
    let f =
      found_none (decl_name x == decl_name d && not (is_extend x)) (tldecl_lookup xs (decl_name d))
        h in
    rw (f.0, lookup_new xs d e f.1) refl

get_concat :
    (decls : List Decl) (d c : Decl) (i : ℕ)
    → get_elem? (decls ++ d ∷ []) i ≡ some c
    → (get_elem? decls i ≡ some c) ⊎ ((i ≡ length decls) × (c ≡ d))
get_concat [] d c zero h = inr (refl, cc)
get_concat [] d c (suc i) h = cc
get_concat (x ∷ xs) d c zero h = inl h
get_concat (x ∷ xs) d c (suc i) h = elim (get_concat xs d c i h) [
  | inl e ↦ inl e
  | inr (e, f) ↦ inr (ap suc e, f)
]

get-lookup :
    (decls : List Decl) (name i : ℕ)
    → tldecl_lookup decls name ≡ some i
    → (d : Decl) × (get_elem? decls i ≡ some d)
unfolding tldecl_lookup
get-lookup [] name i h = cc
get-lookup (x ∷ xs) name i h =
    go (decl_name x == name && not (is_extend x)) (tldecl_lookup xs name) i (get-lookup xs name) h
  where
    go :
        (b : Bool) (r : Option ℕ) (k : ℕ)
        → ((j : ℕ) → r ≡ some j → (d : Decl) × (get_elem? xs j ≡ some d))
        → found b r ≡ some k
        → (d : Decl) × (get_elem? (x ∷ xs) k ≡ some d)
    go true r zero ih e = (x, refl)
    go true r (suc k) ih e = cc
    go false none k ih e = cc
    go false (some j) zero ih e = cc
    go false (some j) (suc k) ih e = let same : j ≡ k = cc in rw (sym same) (ih j refl)

-- A declaration that is put behind the others.
FindsItself-concat :
    (decls : List Decl) (d : Decl)
    → FindsItself decls
    → (is_extend d ≡ false → tldecl_lookup decls (decl_name d) ≡ none)
    → FindsItself (decls ++ d ∷ [])
FindsItself-concat decls d all new i c h e = elim (get_concat decls d c i h) [
  | inl old ↦ lookup_concat decls d (decl_name c) i (all i c old e)
  | inr (at_end, same) ↦
      let plain_d : is_extend d ≡ false = rw same at e in
      rw (same, at_end) (lookup_new decls d plain_d (new plain_d))
]

pub new_decls-FindsItself :
    (ds decls out : List Decl) → FindsItself decls → new_decls ds decls ≡ ok out → FindsItself out
unfolding new_decls
new_decls-FindsItself [] decls out all h = rw (sym (ok_injective h)) all
new_decls-FindsItself (d ∷ ds) decls out all h =
    elim (Result-cases (admit d (decl_at decls (tldecl_lookup decls (decl_name d))) decls)) [
      | inl (decls', e) ↦
          new_decls-FindsItself ds decls' out
            (admitted (tldecl_lookup decls (decl_name d)) refl decls' e) (rw e at h)
      | inr (stopped, e) ↦ absurd (ok-ne-stop (rw e at h))
    ]
  where
    extension :
        (c : Decl) (decls' : List Decl) → admit d (some c) decls ≡ ok decls' → FindsItself decls'
    extension c decls' e = elim (Bool-cases (decl_name c == decl_name d && both_extern c d)) [
      | inl again ↦ rw (sym (ok_injective (rw again at e))) all
      | inr other ↦ elim (Bool-cases (is_extend d)) [
        | inl extends ↦
            rw (sym (ok_injective (rw (other, extends) at e)))
              (FindsItself-concat decls d all (λ no_extension. cc))
        | inr not_extends ↦ absurd (ok-ne-stop (rw (other, not_extends) at e))
      ]
    ]

    admitted :
        (r : Option ℕ)
        → tldecl_lookup decls (decl_name d) ≡ r
        → (decls' : List Decl) → admit d (decl_at decls r) decls ≡ ok decls'
        → FindsItself decls'
    admitted none none_found decls' e =
        rw (sym (ok_injective e)) (FindsItself-concat decls d all (λ no_extension. none_found))
    admitted (some i) is_found decls' e =
        let there = get-lookup decls (decl_name d) i is_found in
        extension there.0 decls' (rw there.1 at e)

plains-no_mark : (us : List Use) (k : ℕ) → Among (mark k) (plains us) → ⊥
plains-no_mark (uses i ∷ us) k (inl e) = cc
plains-no_mark (halts ∷ us) k (inl e) = cc
plains-no_mark (u ∷ us) k (inr m) = plains-no_mark us k m
plains-no_mark [] k m = elim m [ ]

Among-append : (e : Event) (es fs : List Event) → Among e (es ++ fs) → Among e es ⊎ Among e fs
Among-append e [] fs m = inr m
Among-append e (x ∷ es) fs (inl same) = inl (inl same)
Among-append e (x ∷ es) fs (inr m) = elim (Among-append e es fs m) [
  | inl l ↦ inl (inr l)
  | inr r ↦ inr r
]

module _ (ns : Option (List ℕ)) (decls : List Decl) where
  self_mark :
      (r : Option ℕ) (us : List Use) (k : ℕ)
      → Among (mark k) (self_events ns decls r us)
      → r ≡ some k
  self_mark none us k m = elim m [ ]
  self_mark (some i) us k (inl e) = cc
  self_mark (some i) us k (inr m) = absurd (plains-no_mark us k m)

  compound_mark :
      (n : ℕ) (ts : List ℕ) (ms : Members) (k : ℕ)
      → Among (mark k) (compound_events ns decls n ts ms)
      → tldecl_lookup decls n ≡ some k
  compound_mark n [] ms k m = self_mark (tldecl_lookup decls n) _ k m
  compound_mark n (x ∷ xs) ms k m = elim m [ ]

  -- The marks of a declaration are of what its name finds, and an extension has none.
  decl_mark :
      (d : Decl) (k : ℕ)
      → Among (mark k) (decl_events ns decls d)
      → (is_extend d ≡ false) × (tldecl_lookup decls (decl_name d) ≡ some k)
  unfolding decl_events
  decl_mark (decl_variable n t e) k m = absurd (plains-no_mark _ k m)
  decl_mark (decl_constant n t e) k m = absurd (plains-no_mark _ k m)
  decl_mark (decl_function n ts ps t b) k m = absurd (plains-no_mark _ k m)
  decl_mark (decl_struct n ts ms) k m = (refl, compound_mark n ts ms k m)
  decl_mark (decl_union n ts ms) k m = (refl, compound_mark n ts ms k m)
  decl_mark (decl_enum n t vs ms) k m =
      let values = maybe_type_uses ns decls t ++ values_uses ns decls vs in
      let functions = member_functions_uses ns decls ms in
      elim (Among-append (mark k) (plains values)
        (self_events ns decls (tldecl_lookup decls n) functions) m) [
          | inl before ↦ absurd (plains-no_mark values k before)
          | inr self ↦ (refl, self_mark (tldecl_lookup decls n) functions k self)
        ]
  decl_mark (decl_extend t d) k m = elim m [ ]
  decl_mark (decl_alias n t) k m = absurd (plains-no_mark _ k m)
  decl_mark (decl_extern_variable n t) k m = absurd (plains-no_mark _ k m)
  decl_mark (decl_extern_function n ps t) k m = absurd (plains-no_mark _ k m)
  decl_mark (decl_extern_type n) k m = elim m [ ]

  pub own_mark : FindsItself decls → (i k : ℕ) → Among (mark k) (events_at ns decls i) → k ≡ i
  own_mark all i k m = go (get_elem? decls i) refl m
    where
      go : (r : Option Decl) → get_elem? decls i ≡ r → Among (mark k) (events_of ns decls r) → k ≡ i
      go none e m' = elim m' [ ]
      go (some d) e m' =
          let marked = decl_mark d k m' in
          let own : tldecl_lookup decls (decl_name d) ≡ some i = all i d e marked.0 in
          let at_k : tldecl_lookup decls (decl_name d) ≡ some k = marked.1 in cc
