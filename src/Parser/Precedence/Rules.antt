-- ===== src/Parser/Precedence/Rules.antt =====
-- Rules for what the parsers of parse.c return.
use sunder.Prelude.{ℕ, List, Bool, true, false, if◌then◌else◌}
use sunder.Lexer.Kind.{TokenKind}
use sunder.Parser.Tokens.{
  Parser, pure, fatal, ◌>>=◌, ◌>>◌, if_current, if_next, on_kind, rounds, stuck,
}
use sunder.Lexer.Scan.{Token}
use sunder.Parser.Tokens.{
  Result, ok, failed, out_of_fuel, bind, ParseError, check_current, check_peek, current_kind,
}
use sunder.Parser.Progress.Rules.{Ends, succeeds, stops}
use sunder.Prelude.{◌&&◌}

-- `P` succeeds of the result if there is one.
pub data WhenOk {A : Type 0} (P : A → Type 0) : Result A → Type 0 where
  returned : {a : A} → P a → WhenOk P (ok a)
  rejects : (e : ParseError) → WhenOk P (failed e)
  exhausted : WhenOk P out_of_fuel

pub WhenOk-bind :
    {A B : Type 0} {P : A → Type 0} {Q : B → Type 0} {r : Result A} {f : A → Result B}
    → WhenOk P r
    → ((a : A) → P a → WhenOk Q (f a))
    → WhenOk Q (bind r f)
WhenOk-bind (returned {a} h) k = k a h
WhenOk-bind (rejects e) k = rejects e
WhenOk-bind exhausted k = exhausted

WhenOk-weaken :
    {A : Type 0} {P Q : A → Type 0} {r : Result A} → WhenOk P r → ((a : A) → P a → Q a) → WhenOk Q r
WhenOk-weaken (returned {a} h) w = returned (w a h)
WhenOk-weaken (rejects e) w = rejects e
WhenOk-weaken exhausted w = exhausted

WhenOk-trivial : {A : Type 0} (r : Result A) → WhenOk (λ a. Unit) r
WhenOk-trivial (ok a) = returned tt
WhenOk-trivial (failed e) = rejects e
WhenOk-trivial out_of_fuel = exhausted

WhenOk-if :
    {A : Type 0} {P : A → Type 0} {x y : Result A} (b : Bool)
    → WhenOk P x
    → WhenOk P y
    → WhenOk P (if b then x else y)
WhenOk-if true s t = s
WhenOk-if false s t = t

pub Ends-WhenOk :
    {A : Type 0} {P Q : A → Type 0} {r : Result A} → Ends P r → WhenOk Q r → Ends (λ a. P a × Q a) r
Ends-WhenOk (succeeds p) (returned q) = succeeds (p, q)
Ends-WhenOk (stops e) w = stops e

module _ {Double : Type 0} where
  -- What the parser returns, with the tokens that are left.
  pub record Gives {A : Type 0} (P : A → List (Token Double) → Type 0) (p : Parser Double A)
      : Type 0 where
    pub gives : (ts : List (Token Double)) → WhenOk (λ r. P r.0 r.1) (p ts)

  module _ {A : Type 0} {P : A → List (Token Double) → Type 0} where
    pub Gives-pure : (a : A) → ((ts : List (Token Double)) → P a ts) → Gives P (pure a)
    Gives-pure a h = record { gives = λ ts. unfold pure in returned (h ts) }

    pub Gives-fatal : (e : ParseError) → Gives P (fatal e)
    Gives-fatal e = record { gives = λ ts. unfold fatal in rejects e }

    pub Gives-stuck : Gives P stuck
    Gives-stuck = record { gives = λ ts. unfold stuck in exhausted }

    pub Gives-if_current :
        (k : TokenKind) {p q : Parser Double A} → Gives P p → Gives P q → Gives P (if_current k p q)
    Gives-if_current k s t = record {
      gives = λ ts. unfold if_current in WhenOk-if (check_current ts k) (s.gives ts) (t.gives ts);
    }

    pub Gives-if_next :
        (k l : TokenKind) {p q : Parser Double A}
        → Gives P p
        → Gives P q
        → Gives P (if_next k l p q)
    Gives-if_next k l s t = record {
      gives = λ ts.
          unfold if_next in
          WhenOk-if (check_current ts k && check_peek ts l) (s.gives ts) (t.gives ts);
    }

    pub Gives-on_kind :
        {f : TokenKind → Parser Double A} → ((k : TokenKind) → Gives P (f k)) → Gives P (on_kind f)
    Gives-on_kind s = record { gives = λ ts. unfold on_kind in (s (current_kind ts)).gives ts }

    pub Gives-rounds :
        {loop : ℕ → Parser Double A} → ((n : ℕ) → Gives P (loop n)) → Gives P (rounds loop)
    Gives-rounds s = record { gives = λ ts. unfold rounds in (s _).gives ts }

  module _ {A B : Type 0} {P : B → List (Token Double) → Type 0} (p : Parser Double A) where
    -- What the first parser returns makes no difference.
    pub Gives->> : {q : Parser Double B} → Gives P q → Gives P (p >> q)
    Gives->> s = record {
      gives = λ ts. unfold ◌>>◌ in WhenOk-bind (WhenOk-trivial (p ts)) (λ r t. s.gives r.1);
    }

    pub Gives->>=-any : {f : A → Parser Double B} → ((a : A) → Gives P (f a)) → Gives P (p >>= f)
    Gives->>=-any s = record {
      gives = λ ts. unfold ◌>>=◌ in WhenOk-bind (WhenOk-trivial (p ts)) (λ r t. (s r.0).gives r.1);
    }

  pub Gives-weaken :
      {A : Type 0} {P Q : A → List (Token Double) → Type 0} {p : Parser Double A}
      → Gives Q p
      → ((a : A) (ts : List (Token Double)) → Q a ts → P a ts)
      → Gives P p
  Gives-weaken s w = record { gives = λ ts. WhenOk-weaken (s.gives ts) (λ r q. w r.0 r.1 q) }

  module _ {A B : Type 0} {P : B → List (Token Double) → Type 0} {p : Parser Double A} where
    pub Gives->>= :
        {Q : A → List (Token Double) → Type 0} {f : A → Parser Double B}
        → Gives Q p
        → ((a : A) (ts : List (Token Double)) → Q a ts → WhenOk (λ r. P r.0 r.1) (f a ts))
        → Gives P (p >>= f)
    Gives->>= s k = record {
      gives = λ ts. unfold ◌>>=◌ in WhenOk-bind (s.gives ts) (λ r q. k r.0 r.1 q);
    }

    -- It matters for what is returned, wherever the tokens end.
    pub Gives-kept :
        (R : A → Type 0) {f : A → Parser Double B}
        → Gives (λ a ts. R a) p
        → ((a : A) → R a → Gives P (f a))
        → Gives P (p >>= f)
    Gives-kept R s k = Gives->>= s (λ a ts q. (k a q).gives ts)

    pub Gives-map :
        {Q : A → List (Token Double) → Type 0} (g : A → B)
        → Gives Q p
        → ((a : A) (ts : List (Token Double)) → Q a ts → P (g a) ts)
        → Gives P (p >>= λ a. pure (g a))
    Gives-map g s k = Gives->>= s (λ a ts q. unfold pure in returned (k a ts q))
