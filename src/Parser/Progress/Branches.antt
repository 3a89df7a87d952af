-- ===== src/Parser/Progress/Branches.antt =====
-- Rules for the branches on the kinds of tokens, and for the rounds of loops.
use sunder.Prelude.{
  ℕ, suc, ◌≤◌, ◌<◌, ◌≡◌, List, [], ◌∷◌, Bool, true, false, ◌&&◌, if◌then◌else◌, length, arith, ◌⊎◌,
  Bool-cases, inl, inr,
}
use sunder.Lexer.Kind.{TokenKind}
use sunder.Lexer.Scan.{Token}
use sunder.Parser.Tokens.{
  Parser, if_current, if_any, if_next, on_kind, rounds, current_kind, check_current, check_peek,
  check_any,
}
use sunder.Parser.Kinds.{same_kind}
use sunder.Parser.Progress.Rules.{Ends, Ends-weaken, Shrinks, Ends-if, Keeps, ShrinksAt}

same_kind_self : (k : TokenKind) → same_kind k k ≡ true
same_kind_self k = ground arith

one_kind :
    (m k l : TokenKind) → same_kind m k ≡ true → same_kind k l ≡ false → same_kind m l ≡ false
one_kind m k l at apart = ground arith

module _ {Double : Type 0} where
  -- The branches on kinds.
  module _ {A : Type 0} {n : ℕ} {p q : Parser Double A} where
    pub Shrinks-if_current :
        (kind : TokenKind) → Shrinks n p → Shrinks n q → Shrinks n (if_current kind p q)
    Shrinks-if_current kind s t = record {
      run = λ ts h. unfold if_current in Ends-if (check_current ts kind) (s.run ts h) (t.run ts h);
    }

    pub Shrinks-at :
        (kind : TokenKind) → ShrinksAt kind n p → Shrinks n q → Shrinks n (if_current kind p q)
    Shrinks-at kind s t = record {
      run = λ ts h. unfold if_current in go ts h (Bool-cases (check_current ts kind));
    }
      where
        go :
            (ts : List (Token Double))
            → length ts < n
            → check_current ts kind ≡ true ⊎ check_current ts kind ≡ false
            → Ends (λ r. length r.1 < length ts) (if check_current ts kind then p ts else q ts)
        go ts h (inl e) = rw e (s.run ts h e)
        go ts h (inr e) = rw e (t.run ts h)

    pub Keeps-if : (b : Bool) → Keeps n p → Keeps n q → Keeps n (if b then p else q)
    Keeps-if true s t = s
    Keeps-if false s t = t

    pub Keeps-if_current :
        (kind : TokenKind) → Keeps n p → Keeps n q → Keeps n (if_current kind p q)
    Keeps-if_current kind s t = record {
      run = λ ts h. unfold if_current in Ends-if (check_current ts kind) (s.run ts h) (t.run ts h);
    }

    pub Shrinks-if_any :
        (kinds : List TokenKind) → Shrinks n p → Shrinks n q → Shrinks n (if_any kinds p q)
    Shrinks-if_any kinds s t = record {
      run = λ ts h. unfold if_any in Ends-if (check_any ts kinds) (s.run ts h) (t.run ts h);
    }

    pub Keeps-if_any : (kinds : List TokenKind) → Keeps n p → Keeps n q → Keeps n (if_any kinds p q)
    Keeps-if_any kinds s t = record {
      run = λ ts h. unfold if_any in Ends-if (check_any ts kinds) (s.run ts h) (t.run ts h);
    }

    pub Shrinks-if_next :
        (kind peek : TokenKind) → Shrinks n p → Shrinks n q → Shrinks n (if_next kind peek p q)
    Shrinks-if_next kind peek s t = record {
      run = λ ts h.
          unfold if_next in
          Ends-if (check_current ts kind && check_peek ts peek) (s.run ts h) (t.run ts h);
    }

    pub Keeps-if_next :
        (kind peek : TokenKind) → Keeps n p → Keeps n q → Keeps n (if_next kind peek p q)
    Keeps-if_next kind peek s t = record {
      run = λ ts h.
          unfold if_next in
          Ends-if (check_current ts kind && check_peek ts peek) (s.run ts h) (t.run ts h);
    }

  -- The branches, when the kind of the token is known.
  module _ {A : Type 0} {n : ℕ} (p : Parser Double A) {q : Parser Double A} {kind : TokenKind} where
    pub ShrinksAt-else :
        (other : TokenKind)
        → same_kind kind other ≡ false
        → ShrinksAt kind n q
        → ShrinksAt kind n (if_current other p q)
    ShrinksAt-else other e s = record {
      run = λ ts h at.
          unfold if_current in rw (one_kind (current_kind ts) kind other at e) (s.run ts h at);
    }

    pub ShrinksAt-neither :
        (a b : TokenKind)
        → same_kind kind a ≡ false
        → same_kind kind b ≡ false
        → ShrinksAt kind n q
        → ShrinksAt kind n (if_any (a ∷ b ∷ []) p q)
    ShrinksAt-neither a b ea eb s = record {
      run = λ ts h at.
          unfold if_any in
          rw (one_kind (current_kind ts) kind a at ea, one_kind (current_kind ts) kind b at eb)
            (s.run ts h at);
    }

  pub ShrinksAt-here :
      {A : Type 0} {n : ℕ} {p : Parser Double A} (q : Parser Double A) {kind : TokenKind}
      → ShrinksAt kind n p
      → ShrinksAt kind n (if_current kind p q)
  ShrinksAt-here q s = record { run = λ ts h at. unfold if_current in rw at (s.run ts h at) }

  module _ {A : Type 0} {n : ℕ} where
    pub Shrinks-on_kind :
        {f : TokenKind → Parser Double A}
        → ((k : TokenKind) → ShrinksAt k n (f k))
        → Shrinks n (on_kind f)
    Shrinks-on_kind s = record {
      run = λ ts h. unfold on_kind in (s (current_kind ts)).run ts h (same_kind_self _);
    }

    pub Keeps-on_kind_at :
        {f : TokenKind → Parser Double A}
        → ((k : TokenKind) → ShrinksAt k n (f k) ⊎ Keeps n (f k))
        → Keeps n (on_kind f)
    Keeps-on_kind_at {f} s = record {
      run = λ ts h. unfold on_kind in go ts h (s (current_kind ts));
    }
      where
        go :
            (ts : List (Token Double))
            → length ts < n
            → ShrinksAt (current_kind ts) n (f (current_kind ts)) ⊎ Keeps n (f (current_kind ts))
            → Ends (λ r. length r.1 ≤ length ts) (f (current_kind ts) ts)
        go ts h (inl s) = Ends-weaken (s.run ts h (same_kind_self _)) (λ r lt. omega arith)
        go ts h (inr k) = k.run ts h

    pub ShrinksAt-always : {p : Parser Double A} (k : TokenKind) → Shrinks n p → ShrinksAt k n p
    ShrinksAt-always k s = record { run = λ ts h at. s.run ts h }

    -- A loop is run with a round for each token and one more.
    pub Keeps-rounds :
        (loop : ℕ → Parser Double A) → ((m : ℕ) → m ≤ n → Keeps m (loop m)) → Keeps n (rounds loop)
    Keeps-rounds loop k = record {
      run = λ ts h. unfold rounds in (k (suc (length ts)) (omega arith)).run ts (omega arith);
    }
