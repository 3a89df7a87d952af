-- ===== src/Order/Behind.antt =====
-- The order of declarations that a search in order gives, in terms of the names they mention.
use sunder.Prelude.{
  ℕ, zero, suc, ◌<◌, List, [], ◌∷◌, ◌++◌, ◌≡◌, ◌⊎◌, inl, inr, some, false, arith, length, get_elem?,
}
use mathlib.Core.List.{append-nil, append_assoc}
use sunder.Cst.{
  Decl, decl_name, decl_variable, decl_constant, decl_function, decl_struct, decl_union, decl_enum,
  decl_extend, decl_alias, decl_extern_variable, decl_extern_function, decl_extern_type, CstModule,
}
use sunder.Order.State.{is_extend}
use sunder.Order.Graph.{need, mark}
use sunder.Order.Advances.{Among}
use sunder.Order.States.{count}
use sunder.Order.Events.{Use, uses, halts, plains, decl_events}
use sunder.Order.Names.{FindsItself}
use sunder.Order.Correct.{graph}
use sunder.Order.Failure.{Chain}
use sunder.Order.Before.{InOrder, Preceded}
use sunder.Order.Mentions.{Mentions}
use sunder.Order.Named.{Mentions-need}

-- What can hold a pointer to itself: a struct, a union or an enum that is no template.
abbrev pub IsCompound : Decl → Type 0
IsCompound (decl_struct n [] ms) = Unit
IsCompound (decl_union n [] ms) = Unit
IsCompound (decl_enum n t vs ms) = Unit
IsCompound _ = ⊥

-- A declaration stands in front of each that mentions its name, or is a compound one and needs it
-- through a chain.
abbrev pub Behind : CstModule → List Decl → List ℕ → Type 0
Behind cst decls indices =
    (before after : List ℕ) (i j : ℕ) (d c : Decl)
    → indices ≡ before ++ i ∷ after
    → get_elem? decls i ≡ some d
    → get_elem? decls j ≡ some c
    → is_extend c ≡ false
    → Mentions (decl_name c) d
    → (0 < count j before) ⊎ (IsCompound c × Chain (graph cst decls) j i)

get_elem?-lt :
    (decls : List Decl) (i : ℕ) {d : Decl} → get_elem? decls i ≡ some d → i < length decls
get_elem?-lt [] i h = cc
get_elem?-lt (x ∷ decls) zero h = omega arith
get_elem?-lt (x ∷ decls) (suc i) h = omega (arith, get_elem?-lt decls i h)

unmarked : (k : ℕ) (us : List Use) → ¬ Among (mark k) (plains us)
unmarked k [] h = h
unmarked k (uses i ∷ us) (inl e) = cc
unmarked k (halts ∷ us) (inl e) = cc
unmarked k (u ∷ us) (inr h) = unmarked k us h

module _ (cst : CstModule) (decls : List Decl) where
  mark-IsCompound :
      (k : ℕ) (d : Decl) → Among (mark k) (decl_events cst.namespace decls d) → IsCompound d
  unfolding decl_events
  mark-IsCompound k (decl_variable n t e) h = unmarked k _ h
  mark-IsCompound k (decl_constant n t e) h = unmarked k _ h
  mark-IsCompound k (decl_function n ts ps t b) h = unmarked k _ h
  mark-IsCompound k (decl_struct n [] ms) h = tt
  mark-IsCompound k (decl_struct n (_ ∷ _) ms) h = h
  mark-IsCompound k (decl_union n [] ms) h = tt
  mark-IsCompound k (decl_union n (_ ∷ _) ms) h = h
  mark-IsCompound k (decl_enum n t vs ms) h = tt
  mark-IsCompound k (decl_extend t d) h = h
  mark-IsCompound k (decl_alias n t) h = unmarked k _ h
  mark-IsCompound k (decl_extern_variable n t) h = unmarked k _ h
  mark-IsCompound k (decl_extern_function n ps t) h = unmarked k _ h
  mark-IsCompound k (decl_extern_type n) h = h

  InOrder-Preceded :
      (start before after : List ℕ) (i : ℕ)
      → InOrder (length decls) (graph cst decls) start (before ++ i ∷ after)
      → Preceded (length decls) (graph cst decls) (start ++ before) i
  InOrder-Preceded start [] after i h = rw (append-nil start) h.0
  InOrder-Preceded start (k ∷ before) after i h =
      rw (← append_assoc start (k ∷ []) before)
        (InOrder-Preceded (start ++ k ∷ []) before after i h.1)

  pub InOrder-Behind :
      FindsItself decls
      → (indices : List ℕ) → InOrder (length decls) (graph cst decls) [] indices
      → Behind cst decls indices
  InOrder-Behind itself indices sorted before after i j d c split at_i at_j plain mentioned =
      let needed : Among (need j) (graph cst decls i) = rw at_i (
        Mentions-need cst.namespace decls (decl_name c) j (itself j c at_j plain) i d
          (itself i d at_i) mentioned) in
      elim (InOrder-Preceded [] before after i (rw split at sorted) j (get_elem?-lt decls j at_j)
        needed) [
          | inl front ↦ inl front
          | inr (marked, chain) ↦ inr (mark-IsCompound j c (rw at_j at marked), chain)
        ]
