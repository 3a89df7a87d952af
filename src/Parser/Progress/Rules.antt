-- ===== src/Parser/Progress/Rules.antt =====
-- Rules for what a parser leaves of the tokens.
use sunder.Prelude.{
  ℕ, suc, ◌≤◌, ◌<◌, ◌≡◌, ◌≢◌, List, [], ◌∷◌, Bool, true, false, if◌then◌else◌, length, arith,
  Bool-cases, inl, inr,
}
use sunder.Lexer.Kind.{TokenKind, token_eof}
use sunder.Lexer.Scan.{Token}
use sunder.Parser.Tokens.{
  Parser, Result, ok, failed, out_of_fuel, bind, pure, fatal, ◌>>=◌, ◌>>◌, advance_token,
  expect_current, check_current, ParseError, expected,
}
use sunder.Parser.Kinds.{same_kind}

-- The fuel lasts, and `P` succeeds of the result if there is one.
pub data Ends {A : Type 0} (P : A → Type 0) : Result A → Type 0 where
  stops : (e : ParseError) → Ends P (failed e)
  succeeds : {a : A} → P a → Ends P (ok a)

module _ {A : Type 0} {P : A → Type 0} where
  pub Ends-out_of_fuel : {r : Result A} → Ends P r → r ≢ out_of_fuel
  Ends-out_of_fuel (stops e) = λ same. cc
  Ends-out_of_fuel (succeeds h) = λ same. cc

  -- What follows is run on what is ensured.
  pub Ends-bind :
      {B : Type 0} {Q : B → Type 0} {r : Result A} (f : A → Result B)
      → Ends P r
      → ((a : A) → P a → Ends Q (f a))
      → Ends Q (bind r f)
  Ends-bind f (stops e) next = stops e
  Ends-bind f (succeeds {a} h) next = next a h

  pub Ends-weaken : {Q : A → Type 0} {r : Result A} → Ends P r → ((a : A) → P a → Q a) → Ends Q r
  Ends-weaken (stops e) less = stops e
  Ends-weaken (succeeds {a} h) less = succeeds (less a h)

  pub Ends-if : {x y : Result A} (b : Bool) → Ends P x → Ends P y → Ends P (if b then x else y)
  Ends-if true s t = s
  Ends-if false s t = t

module _ {Double : Type 0} where
  -- On fewer than `n` tokens the fuel lasts, and a result leaves fewer tokens than there were.
  pub record Shrinks {A : Type 0} (n : ℕ) (p : Parser Double A) : Type 0 where
    pub run : (ts : List (Token Double)) → length ts < n → Ends (λ r. length r.1 < length ts) (p ts)

  -- Or no more tokens.
  pub record Keeps {A : Type 0} (n : ℕ) (p : Parser Double A) : Type 0 where
    pub run : (ts : List (Token Double)) → length ts < n → Ends (λ r. length r.1 ≤ length ts) (p ts)

  -- The same on tokens that begin with the kind `k`.
  pub record ShrinksAt {A : Type 0} (k : TokenKind) (n : ℕ) (p : Parser Double A) : Type 0 where
    pub run :
        (ts : List (Token Double))
        → length ts < n
        → check_current ts k ≡ true
        → Ends (λ r. length r.1 < length ts) (p ts)

  pub Keeps-Shrinks : {A : Type 0} {n : ℕ} {p : Parser Double A} → Shrinks n p → Keeps n p
  Keeps-Shrinks s = record { run = λ ts h. Ends-weaken (s.run ts h) (λ r lt. omega arith) }

  pub Shrinks-less :
      {A : Type 0} {m n : ℕ} {p : Parser Double A} → m ≤ n → Shrinks n p → Shrinks m p
  Shrinks-less le s = record { run = λ ts h. s.run ts (omega arith) }

  pub Shrinks-before : {A : Type 0} {n : ℕ} {p : Parser Double A} → Shrinks (suc n) p → Shrinks n p
  Shrinks-before s = Shrinks-less (omega arith) s

  pub Keeps-before : {A : Type 0} {n : ℕ} {p : Parser Double A} → Shrinks (suc n) p → Keeps n p
  Keeps-before s = Keeps-Shrinks (Shrinks-before s)

  pub Keeps-zero : {A : Type 0} (p : Parser Double A) → Keeps 0 p
  Keeps-zero p = record { run = λ ts h. absurd (omega arith) }

  pub Keeps-pure : {A : Type 0} (n : ℕ) (a : A) → Keeps n (pure {Double = Double} a)
  Keeps-pure n a = record { run = λ ts h. unfold pure in succeeds {a = (a, ts)} (omega arith) }

  pub Shrinks-fatal :
      {A : Type 0} (n : ℕ) (e : ParseError) → Shrinks n (fatal {Double = Double} {A = A} e)
  Shrinks-fatal n e = record { run = λ ts h. unfold fatal in stops e }

  pub Keeps-fatal :
      {A : Type 0} (n : ℕ) (e : ParseError) → Keeps n (fatal {Double = Double} {A = A} e)
  Keeps-fatal n e = Keeps-Shrinks (Shrinks-fatal n e)

  read_current :
      (kind : TokenKind) (ts : List (Token Double))
      → same_kind token_eof kind ≡ false
      → Ends (λ r. length r.1 < length ts) (expect_current kind ts)
  unfolding expect_current advance_token
  read_current kind [] e = rw e (stops (expected kind))
  read_current kind (t ∷ ts) e = elim (Bool-cases (same_kind t.kind kind)) [
    | inl same ↦ rw same (succeeds (omega arith))
    | inr other ↦ rw other (stops (expected kind))
  ]

  pub Shrinks-expect_current :
      (n : ℕ) (kind : TokenKind)
      → same_kind token_eof kind ≡ false
      → Shrinks n (expect_current {Double = Double} kind)
  Shrinks-expect_current n kind e = record { run = λ ts h. read_current kind ts e }

  keep_current :
      (kind : TokenKind) (ts : List (Token Double))
      → Ends (λ r. length r.1 ≤ length ts) (expect_current kind ts)
  unfolding expect_current advance_token
  keep_current kind [] =
      Ends-if (same_kind token_eof kind) (succeeds (omega arith)) (stops (expected kind))
  keep_current kind (t ∷ ts) =
      Ends-if (same_kind t.kind kind) (succeeds (omega arith)) (stops (expected kind))

  pub Keeps-expect_current :
      (n : ℕ) (kind : TokenKind) → Keeps n (expect_current {Double = Double} kind)
  Keeps-expect_current n kind = record { run = λ ts h. keep_current kind ts }

  read_at :
      (kind : TokenKind) (ts : List (Token Double))
      → same_kind token_eof kind ≡ false
      → check_current ts kind ≡ true
      → Ends (λ r. length r.1 < length ts) (advance_token ts)
  unfolding advance_token
  read_at kind [] e at = absurd (cc (at, e))
  read_at kind (t ∷ ts) e at = succeeds (omega arith)

  pub ShrinksAt-advance_token :
      (n : ℕ) (kind : TokenKind)
      → same_kind token_eof kind ≡ false
      → ShrinksAt kind n (advance_token {Double = Double})
  ShrinksAt-advance_token n kind e = record { run = λ ts h at. read_at kind ts e at }

  -- Two steps, one behind the other.
  module _ {A B : Type 0} {n : ℕ} {p : Parser Double A} where
    pub Shrinks->>= :
        {f : A → Parser Double B}
        → Shrinks (suc n) p
        → ((a : A) → Keeps n (f a))
        → Shrinks (suc n) (p >>= f)
    Shrinks->>= s k = record {
      run = λ ts h.
          unfold ◌>>=◌ in
          Ends-bind _ (s.run ts h)
            (λ r lt. Ends-weaken ((k r.0).run r.1 (omega arith)) (λ r' le. omega arith));
    }

    pub Shrinks->> :
        {q : Parser Double B} → Shrinks (suc n) p → Keeps n q → Shrinks (suc n) (p >> q)
    Shrinks->> s k = record {
      run = λ ts h.
          unfold ◌>>◌ in
          Ends-bind _ (s.run ts h)
            (λ r lt. Ends-weaken (k.run r.1 (omega arith)) (λ r' le. omega arith));
    }

    pub ShrinksAt->>= :
        {kind : TokenKind} {f : A → Parser Double B}
        → ShrinksAt kind (suc n) p
        → ((a : A) → Keeps n (f a))
        → ShrinksAt kind (suc n) (p >>= f)
    ShrinksAt->>= s k = record {
      run = λ ts h at.
          unfold ◌>>=◌ in
          Ends-bind _ (s.run ts h at)
            (λ r lt. Ends-weaken ((k r.0).run r.1 (omega arith)) (λ r' le. omega arith));
    }

    pub ShrinksAt->> :
        {kind : TokenKind} {q : Parser Double B}
        → ShrinksAt kind (suc n) p
        → Keeps n q
        → ShrinksAt kind (suc n) (p >> q)
    ShrinksAt->> s k = record {
      run = λ ts h at.
          unfold ◌>>◌ in
          Ends-bind _ (s.run ts h at)
            (λ r lt. Ends-weaken (k.run r.1 (omega arith)) (λ r' le. omega arith));
    }

    pub Keeps->>= :
        {f : A → Parser Double B} → Keeps n p → ((a : A) → Keeps n (f a)) → Keeps n (p >>= f)
    Keeps->>= s k = record {
      run = λ ts h.
          unfold ◌>>=◌ in
          Ends-bind _ (s.run ts h)
            (λ r le. Ends-weaken ((k r.0).run r.1 (omega arith)) (λ r' le'. omega arith));
    }

    pub Keeps->> : {q : Parser Double B} → Keeps n p → Keeps n q → Keeps n (p >> q)
    Keeps->> s k = record {
      run = λ ts h.
          unfold ◌>>◌ in
          Ends-bind _ (s.run ts h)
            (λ r le. Ends-weaken (k.run r.1 (omega arith)) (λ r' le'. omega arith));
    }

    -- What may leave all tokens stands first.
    pub Shrinks-late :
        {f : A → Parser Double B} → Keeps n p → ((a : A) → Shrinks n (f a)) → Shrinks n (p >>= f)
    Shrinks-late s k = record {
      run = λ ts h.
          unfold ◌>>=◌ in
          Ends-bind _ (s.run ts h)
            (λ r le. Ends-weaken ((k r.0).run r.1 (omega arith)) (λ r' lt. omega arith));
    }
