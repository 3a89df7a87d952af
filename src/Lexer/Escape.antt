-- ===== src/Lexer/Escape.antt =====
-- `lex_bytes`, `advance_character` and its escape sequences, against the literals as the language
-- describes them.
use sunder.Prelude.{
  ℕ, ◌+◌, ◌*◌, ◌^◌, ◌≤◌, ◌<◌, List, [], ◌∷◌, Option, none, some, Bool, true, false, not, ◌||◌, ◌≡◌,
  ◌≢◌, refl, arith, length, get_or, ◌==◌, if◌then◌else◌, bit_or, ◌∙◌, ◌/◌, ◌%◌, passed_under,
  passed_under-at, ==_iff, ap,
}
use sunder.Chars.{isxdigit, isprint}
use sunder.Bigint.Text.{char_value, radix_isdigit}
use sunder.Bigint.Text.Numeral.{IsDigit, hexadecimal}
use sunder.Bigint.Text.Alphabet.{IsDigit-Taken, taken-IsDigit}
use sunder.Bigint.Text.Read.{IsText}
use sunder.Lexer.Scan.{skip_to, escape, advance_character}

-- The letters behind a backslash that name a byte.
pub data Names : ℕ → ℕ → Type 0 where
  nul : Names b'0' 0
  tab : Names b't' 9
  newline : Names b'n' 10
  single_quote : Names 39 39
  double_quote : Names 34 34
  backslash : Names 92 92

-- `Shows cs b rest`: the text `cs` begins with a character or an escape sequence for the byte `b`,
-- and goes on with `rest`.
pub data Shows : List ℕ → ℕ → List ℕ → Type 0 where
  plain : (c : ℕ) (rest : List ℕ) → 32 ≤ c → c ≤ 126 → c ≢ 92 → Shows (c ∷ rest) c rest
  named : (c b : ℕ) (rest : List ℕ) → Names c b → Shows (92 ∷ c ∷ rest) b rest
  in_hex :
      (h l x y : ℕ) (rest : List ℕ)
      → IsDigit 16 h x
      → IsDigit 16 l y
      → Shows (92 ∷ b'x' ∷ h ∷ l ∷ rest) (x * 16 + y) rest

-- `Quotes cs bs rest`: the text `cs` shows the bytes `bs` up to the next quote, where `rest` begins.
pub data Quotes : List ℕ → List ℕ → List ℕ → Type 0 where
  closing : (rest : List ℕ) → Quotes (34 ∷ rest) [] (34 ∷ rest)
  byte :
      (cs cs' bs rest : List ℕ) (b : ℕ)
      → get_or cs 0 0 ≢ 34
      → Shows cs b cs'
      → Quotes cs' bs rest
      → Quotes cs (b ∷ bs) rest

-- Two hexadecimal digits.
or_table : passed_under (λ k. bit_or (k / 16 * 16) (k % 16) == k) 256 ≡ true
unfolding passed_under
or_table = refl

or_lem : (x y : ℕ) → x < 16 → y < 16 → bit_or (x * 2 ^ 4) y ≡ x * 16 + y
or_lem x y hx hy =
    let whole = (==_iff _ _).0 (passed_under-at _ 256 (x * 16 + y) (omega arith) or_table) in
    let high : (x * 16 + y) / 16 ≡ x = omega arith in
    let low : (x * 16 + y) % 16 ≡ y = omega arith in rw (high, low) at whole

-- What a result says of the text in front of it.
pub data Advance (cs : List ℕ) : Option (ℕ × List ℕ) → Type 0 where
  fails : Advance cs none
  reads : (b : ℕ) (rest : List ℕ) → Shows cs b rest → Advance cs (some (b, rest))

if-Advance :
    (b : Bool) {cs : List ℕ} {x y : Option (ℕ × List ℕ)}
    → (b ≡ true → Advance cs x)
    → (b ≡ false → Advance cs y)
    → Advance cs (if b then x else y)
if-Advance true hx hy = hx refl
if-Advance false hx hy = hy refl

named-Advance :
    (c n b : ℕ) (rest : List ℕ)
    → Names n b
    → (c == n) ≡ true
    → Advance (92 ∷ c ∷ rest) (some (b, rest))
named-Advance c n b rest h e =
    let same : c ≡ n = ground arith in rw same (reads b rest (named n b rest h))

both : (a b : Bool) → (not a || not b) ≡ false → (a ≡ true) × (b ≡ true)
both a b h = ground arith

no_hex : isxdigit 0 ≢ true
unfolding isxdigit
no_hex h = cc

hex-IsDigit : (c : ℕ) → c < 2 ^ 32 → isxdigit c ≡ true → IsDigit 16 c (char_value c)
unfolding radix_isdigit
hex-IsDigit c b h = taken-IsDigit hexadecimal c b h

hex-Advance :
    (c : ℕ) (cs : List ℕ)
    → IsText cs
    → c ≡ 120
    → (not (isxdigit (get_or cs 0 0)) || not (isxdigit (get_or cs 1 0))) ≡ false
    → Advance (92 ∷ c ∷ cs) (
        skip_to
          (bit_or (char_value (get_or cs 0 0) * 2 ^ 4) (char_value (get_or cs 1 0)))
          4
          (92 ∷ c ∷ cs))
hex-Advance c [] t e h = absurd (no_hex (both _ _ h).1)
hex-Advance c (x ∷ []) t e h = absurd (no_hex (both _ _ h).1)
hex-Advance c (x ∷ y ∷ cs) t e h =
    let first : isxdigit x ≡ true = (both _ _ h).0 in
    let second : isxdigit y ≡ true = (both _ _ h).1 in
    let high = hex-IsDigit x t.0 first in
    let low = hex-IsDigit y t.1.0 second in
    rw (or_lem (char_value x) (char_value y) high.below low.below, e)
      (reads _ cs (in_hex x y (char_value x) (char_value y) cs high low))

escape-Advance : (cs : List ℕ) → IsText cs → Advance (92 ∷ cs) (escape (92 ∷ cs))
unfolding escape
escape-Advance [] t = fails
escape-Advance (c ∷ cs) t = if-Advance (c == 48) (named-Advance c 48 0 cs nul) (λ _.
    if-Advance (c == 116) (named-Advance c 116 9 cs tab) (λ _.
      if-Advance (c == 110) (named-Advance c 110 10 cs newline) (λ _.
        if-Advance (c == 39) (named-Advance c 39 39 cs single_quote) (λ _.
          if-Advance (c == 34) (named-Advance c 34 34 cs double_quote) (λ _.
            if-Advance (c == 92) (named-Advance c 92 92 cs backslash) (λ _.
              if-Advance (not (c == 120)) (λ _. fails)
                (λ is_x.
                  if-Advance (not (isxdigit (get_or cs 0 0)) || not (isxdigit (get_or cs 1 0)))
                    (λ _. fails) (hex-Advance c cs t.1 (ground arith)))))))))

pub advance_character-Advance : (cs : List ℕ) → IsText cs → Advance cs (advance_character cs)
unfolding advance_character isprint
advance_character-Advance [] t = fails
advance_character-Advance (c ∷ cs) t =
    if-Advance (c == 10) (λ _. fails)
      (λ _.
        if-Advance (not (isprint c)) (λ _. fails)
          (λ printable.
            if-Advance (not (c == 92))
              (λ other. reads c cs (plain c cs (ground arith) (ground arith) (ground arith)))
              (λ e. let same : c ≡ 92 = ground arith in rw same (escape-Advance cs t.1))))

-- A character or an escape sequence is read as the byte that it shows.
Names-advance :
    (c b : ℕ) (rest : List ℕ) → Names c b → advance_character (92 ∷ c ∷ rest) ≡ some (b, rest)
unfolding advance_character isprint escape
Names-advance _ _ rest nul = refl
Names-advance _ _ rest tab = refl
Names-advance _ _ rest newline = refl
Names-advance _ _ rest single_quote = refl
Names-advance _ _ rest double_quote = refl
Names-advance _ _ rest backslash = refl

plain-advance :
    (c : ℕ) (rest : List ℕ)
    → 32 ≤ c
    → c ≤ 126
    → c ≢ 92
    → advance_character (c ∷ rest) ≡ some (c, rest)
unfolding advance_character isprint
plain-advance c rest low high ne = ground arith

hex-advance :
    (h l : ℕ) (rest : List ℕ)
    → isxdigit h ≡ true
    → isxdigit l ≡ true
    → advance_character (92 ∷ 120 ∷ h ∷ l ∷ rest)
      ≡ some (bit_or (char_value h * 2 ^ 4) (char_value l), rest)
unfolding advance_character isprint escape
hex-advance h l rest p q = rw (p, q) refl

pub Shows-advance :
    {cs rest : List ℕ} {b : ℕ} → Shows cs b rest → advance_character cs ≡ some (b, rest)
Shows-advance (plain c rest low high ne) = plain-advance c rest low high ne
Shows-advance (named c b rest n) = Names-advance c b rest n
Shows-advance (in_hex h l x y rest hx hy) =
    let p = IsDigit-Taken hexadecimal h x hx in
    let q = IsDigit-Taken hexadecimal l y hy in
    let read =
      hex-advance h l rest (unfold radix_isdigit in p.taken) (unfold radix_isdigit in q.taken) in
    read ∙ rw (p.value_eq, q.value_eq) (ap (λ b. some (b, rest)) (or_lem x y hx.below hy.below))

-- A byte is shown by at least one character, which leaves a text behind.
pub record Shown (cs : List ℕ) (b : ℕ) (rest : List ℕ) : Type 0 where
  pub shorter : length rest < length cs
  pub small : b < 256
  pub text_rest : IsText cs → IsText rest

Names-lt : {c b : ℕ} → Names c b → b < 256
Names-lt nul = omega arith
Names-lt tab = omega arith
Names-lt newline = omega arith
Names-lt single_quote = omega arith
Names-lt double_quote = omega arith
Names-lt backslash = omega arith

pub Shows-Shown : {cs rest : List ℕ} {b : ℕ} → Shows cs b rest → Shown cs b rest
Shows-Shown (plain c rest low high ne) = record {
  shorter = omega arith;
  small = omega arith;
  text_rest = λ t. t.1;
}
Shows-Shown (named c b rest n) = record {
  shorter = omega arith;
  small = Names-lt n;
  text_rest = λ t. t.1.1;
}
Shows-Shown (in_hex h l x y rest hx hy) = record {
  shorter = omega arith;
  small = omega (arith, hx.below, hy.below);
  text_rest = λ t. t.1.1.1.1;
}
