-- ===== src/Lexer/Munch.antt =====
-- `lex_sigil` finds the longest sigil.
use sunder.Prelude.{
  ℕ, ◌≤◌, List, [], ◌∷◌, Option, some, Bool, true, false, not, ◌&&◌, ◌≡◌, refl, arith, length, ltb,
  ◌==◌, Bool-cases, inl, inr, ◌⊎◌, sym, drop, get_or,
}
use sunder.Chars.{ispunct}
use sunder.Lexer.Kind.{TokenKind, token_kind_vstr, sigils}
use sunder.Lexer.Scan.{cstr_starts_with, find_kind, Lexer, Location, Token, no_data}
use sunder.Lexer.{lex_sigil}

-- No text in the list is longer than `k` and begins with it.
abbrev none_longer : List ℕ → List TokenKind → Bool
none_longer k [] = true
none_longer k (j ∷ js) =
    not (ltb (length k) (length (token_kind_vstr j)) && cstr_starts_with (token_kind_vstr j) k)
    && none_longer k js

-- Every text stands in front of its own beginnings.
abbrev longest_first : List TokenKind → Bool
longest_first [] = true
longest_first (k ∷ ks) = none_longer (token_kind_vstr k) ks && longest_first ks

sigils_order : longest_first sigils ≡ true
sigils_order = refl

-- Of two beginnings of a text the longer begins with the shorter.
starts_with_both :
    (cs t k : List ℕ)
    → cstr_starts_with cs t ≡ true
    → cstr_starts_with cs k ≡ true
    → length k ≤ length t
    → cstr_starts_with t k ≡ true
starts_with_both cs t [] ht hk le = refl
starts_with_both [] [] (y ∷ k) ht hk le = absurd (omega arith)
starts_with_both [] (x ∷ t) (y ∷ k) ht hk le = cc
starts_with_both (c ∷ cs) [] (y ∷ k) ht hk le = absurd (omega arith)
starts_with_both (c ∷ cs) (x ∷ t) (y ∷ k) ht hk le =
    let rest = starts_with_both cs t k (ground arith) (ground arith) (omega arith) in ground arith

-- `k` stands in the list.
abbrev pub Among : TokenKind → List TokenKind → Type 0
Among k [] = ⊥
Among k (j ∷ js) = (j ≡ k) ⊎ Among k js

none_longer_lem :
    (k : List ℕ) (j : TokenKind) (js : List TokenKind)
    → none_longer k js ≡ true
    → Among j js
    → cstr_starts_with (token_kind_vstr j) k ≡ true
    → length (token_kind_vstr j) ≤ length k
none_longer_lem k j [] h m starts = elim m [ ]
none_longer_lem k j (i ∷ js) h (inl e) starts =
    rw (sym e)
      (let starts' : cstr_starts_with (token_kind_vstr i) k ≡ true = rw e starts in ground arith)
none_longer_lem k j (i ∷ js) h (inr m) starts = none_longer_lem k j js (ground arith) m starts

-- The first entry is as long as any other beginning of the text.
head_longest :
    (cs : List ℕ) (i j : TokenKind) (ks : List TokenKind)
    → none_longer (token_kind_vstr i) ks ≡ true
    → cstr_starts_with cs (token_kind_vstr i) ≡ true
    → Among j (i ∷ ks)
    → cstr_starts_with cs (token_kind_vstr j) ≡ true
    → length (token_kind_vstr j) ≤ length (token_kind_vstr i)
head_longest cs i j ks h here (inl e) starts = rw e (omega arith)
head_longest cs i j ks h here (inr m) starts =
    elim (Bool-cases (ltb (length (token_kind_vstr i)) (length (token_kind_vstr j)))) [
      | inl e ↦
          none_longer_lem (token_kind_vstr i) j ks h m
            (starts_with_both cs (token_kind_vstr j) (token_kind_vstr i) starts here (ground arith))
      | inr e ↦ ground arith
    ]

tail_listed :
    (cs : List ℕ) (i j : TokenKind) (ks : List TokenKind)
    → cstr_starts_with cs (token_kind_vstr i) ≡ false
    → Among j (i ∷ ks)
    → cstr_starts_with cs (token_kind_vstr j) ≡ true
    → Among j ks
tail_listed cs i j ks e (inl same) starts =
    let starts' : cstr_starts_with cs (token_kind_vstr i) ≡ true = rw same starts in cc
tail_listed cs i j ks e (inr m) starts = m

-- What the search for the first kind finds.
record Finds (cs : List ℕ) (ks : List TokenKind) : Type 0 where
  kind : TokenKind
  found : find_kind (cstr_starts_with cs) ks ≡ some kind
  listed : Among kind ks
  here : cstr_starts_with cs (token_kind_vstr kind) ≡ true
  longest :
      (j : TokenKind)
      → Among j ks
      → cstr_starts_with cs (token_kind_vstr j) ≡ true
      → length (token_kind_vstr j) ≤ length (token_kind_vstr kind)

find_kind-Finds :
    (cs : List ℕ) (ks : List TokenKind) (j : TokenKind)
    → longest_first ks ≡ true
    → Among j ks
    → cstr_starts_with cs (token_kind_vstr j) ≡ true
    → Finds cs ks
find_kind-Finds cs [] j h m starts = elim m [ ]
find_kind-Finds cs (i ∷ ks) j h m starts =
    elim (Bool-cases (cstr_starts_with cs (token_kind_vstr i))) [
      | inl e ↦ record {
        kind = i;
        found = rw e;
        listed = inl refl;
        here = e;
        longest = λ j' m' starts'. head_longest cs i j' ks (ground arith) e m' starts';
      }
      | inr e ↦
          let f =
            find_kind-Finds cs ks j (ground arith) (tail_listed cs i j ks e m starts) starts in
          record {
            kind = f.kind;
            found = rw (e, f.found);
            listed = inr f.listed;
            here = f.here;
            longest = λ j' m' starts'. f.longest j' (tail_listed cs i j' ks e m' starts') starts';
          }
    ]

abbrev all_full : List TokenKind → Bool
all_full [] = true
all_full (k ∷ ks) = not (length (token_kind_vstr k) == 0) && all_full ks

all_full_lem :
    (k : TokenKind) (ks : List TokenKind)
    → all_full ks ≡ true
    → Among k ks
    → (length (token_kind_vstr k) == 0) ≡ false
all_full_lem k [] h m = elim m [ ]
all_full_lem k (i ∷ ks) h (inl e) = rw (sym e) (ground arith)
all_full_lem k (i ∷ ks) h (inr m) = all_full_lem k ks (ground arith) m

-- What `lex_sigil` returns: a sigil that begins the source, no shorter than any other, and the
-- source behind it.
pub record Munches {Double : Type 0} (self : Lexer) (location : Location)
    (r : Option (Token Double × Lexer)) : Type 0 where
  pub kind : TokenKind
  pub listed : Among kind sigils
  pub here : cstr_starts_with self.current (token_kind_vstr kind) ≡ true
  pub longest :
      (j : TokenKind)
      → Among j sigils
      → cstr_starts_with self.current (token_kind_vstr j) ≡ true
      → length (token_kind_vstr j) ≤ length (token_kind_vstr kind)
  pub returns :
      r
      ≡ some (
        record {
          text = token_kind_vstr kind;
          location = location;
          kind = kind;
          contents = no_data;
        },
        record self { current = drop (length (token_kind_vstr kind)) self.current },
      )

module _ {Double : Type 0} (strtod : List ℕ → Option Double) where
  -- On a source that begins with a sigil, `lex_sigil` does not stop the process; it returns a
  -- sigil that begins the source such that no longer one does, and moves behind it.
  pub lex_sigil-Munches :
      (self : Lexer) (location : Location) (j : TokenKind)
      → ispunct (get_or self.current 0 0) ≡ true
      → Among j sigils
      → cstr_starts_with self.current (token_kind_vstr j) ≡ true
      → Munches self location (lex_sigil strtod self location)
  lex_sigil-Munches self location j punct m starts =
      let f = find_kind-Finds self.current sigils j sigils_order m starts in
      record {
        kind = f.kind;
        listed = f.listed;
        here = f.here;
        longest = f.longest;
        returns =
            unfold lex_sigil in rw (punct, f.found, all_full_lem f.kind sigils refl f.listed) refl;
      }
