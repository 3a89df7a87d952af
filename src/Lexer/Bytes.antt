-- ===== src/Lexer/Bytes.antt =====
-- `lex_bytes` reads the bytes that a literal shows.
use sunder.Prelude.{
  ℕ, zero, suc, ◌<◌, List, [], ◌∷◌, ◌++◌, Option, none, some, true, false, ◌≡◌, ◌≢◌, inl, inr, refl,
  arith, length, get_or, drop, ◌==◌, ◌>>=◌, u8, ◌∙◌, sym, Bool-cases, ap, ◌-◌, length-append, take,
}
use sunder.Bigint.Text.Read.{IsText}
use mathlib.Core.List.{append_assoc}
use sunder.Lexer.Kind.{token_bytes}
use sunder.Lexer.{token_init, lex_bytes}
use sunder.Lexer.Scan.{Lexer, Location, Token, bytes, up_to, advance_character, bytes_loop}
use sunder.Lexer.Escape.{
  Quotes, closing, byte, Shows, plain, named, in_hex, Advance, fails, reads,
  advance_character-Advance, Shows-advance, Shows-Shown,
}

-- A round of the loop with `n` rounds behind it, on what `advance_character` returns.
abbrev after : ℕ → Option (ℕ × List ℕ) → Option (List ℕ × List ℕ)
after n r = r >>= λ (c, cs'). bytes_loop n cs' >>= λ (more, end). some (u8 c ∷ more, end)

bytes_loop-round :
    (fuel : ℕ) (cs : List ℕ)
    → (get_or cs 0 0 == 34) ≡ false
    → bytes_loop (suc fuel) cs ≡ after fuel (advance_character cs)
unfolding bytes_loop
bytes_loop-round fuel cs e = rw e refl

-- The bytes of a literal are read, with a round for each character and one more.
Quotes-bytes_loop :
    {cs bs rest : List ℕ}
    → Quotes cs bs rest
    → (fuel : ℕ) → length cs < fuel
    → bytes_loop fuel cs ≡ some (bs, rest)
Quotes-bytes_loop q zero h = absurd (omega arith)
Quotes-bytes_loop (closing rest) (suc fuel) h = unfold bytes_loop in refl
Quotes-bytes_loop (byte cs cs' bs rest b ne s q) (suc fuel) h =
    let shown = Shows-Shown s in
    let same : u8 b ≡ b = omega (arith, shown.small) in
    let later = Quotes-bytes_loop q fuel (omega (arith, shown.shorter)) in
    let other : (get_or cs 0 0 == 34) ≡ false = ground arith in
    bytes_loop-round fuel cs other ∙ rw (Shows-advance s, later, same) refl

-- What the loop returns is the bytes of a literal.
data Result (cs : List ℕ) : Option (List ℕ × List ℕ) → Type 0 where
  stopped : Result cs none
  quoted : (bs rest : List ℕ) → Quotes cs bs rest → Result cs (some (bs, rest))

Result-byte :
    (cs cs' : List ℕ) (b : ℕ) (r : Option (List ℕ × List ℕ))
    → get_or cs 0 0 ≢ 34
    → Shows cs b cs'
    → Result cs' r
    → Result cs (r >>= λ (more, end). some (u8 b ∷ more, end))
Result-byte cs cs' b none ne s stopped = stopped
Result-byte cs cs' b (some (bs, rest)) ne s (quoted _ _ q) =
    let same : u8 b ≡ b = omega (arith, (Shows-Shown s).small) in
    rw same (quoted (b ∷ bs) rest (byte cs cs' bs rest b ne s q))

bytes_loop-Result : (fuel : ℕ) (cs : List ℕ) → IsText cs → Result cs (bytes_loop fuel cs)
bytes_loop-Result zero cs t = unfold bytes_loop in stopped
bytes_loop-Result (suc fuel) cs t = elim (Bool-cases (get_or cs 0 0 == 34)) [
  | inl e ↦ at_quote cs e
  | inr e ↦ rw (bytes_loop-round fuel cs e) (
      behind (advance_character cs) (ground arith) (advance_character-Advance cs t)
        (bytes_loop-Result fuel))
]
  where
    at_quote : (cs : List ℕ) → (get_or cs 0 0 == 34) ≡ true → Result cs (bytes_loop (suc fuel) cs)
    at_quote [] e = absurd (cc)
    at_quote (c ∷ cs) e =
        let same : c ≡ 34 = ground arith in
        rw same (unfold bytes_loop in quoted [] (34 ∷ cs) (closing cs))

    behind :
        (r : Option (ℕ × List ℕ))
        → get_or cs 0 0 ≢ 34
        → Advance cs r
        → ((cs' : List ℕ) → IsText cs' → Result cs' (bytes_loop fuel cs'))
        → Result cs (after fuel r)
    behind none ne fails ih = stopped
    behind (some (b, cs')) ne (reads _ _ s) ih =
        Result-byte cs cs' b (bytes_loop fuel cs') ne s (ih cs' ((Shows-Shown s).text_rest t))

-- The text in front of `rest` ends with the quote, and `up_to` gives it back.
Shows-before :
    {cs rest : List ℕ} {b : ℕ} → Shows cs b rest → (before : List ℕ) × (cs ≡ before ++ rest)
Shows-before (plain c rest low high ne) = (c ∷ [], refl)
Shows-before (named c b rest n) = (92 ∷ c ∷ [], refl)
Shows-before (in_hex h l x y rest hx hy) = (92 ∷ 120 ∷ h ∷ l ∷ [], refl)

record Split (cs rest : List ℕ) : Type 0 where
  before : List ℕ
  tail : List ℕ
  joined : cs ≡ before ++ rest
  quote : rest ≡ 34 ∷ tail

Quotes-Split : {cs bs rest : List ℕ} → Quotes cs bs rest → Split cs rest
Quotes-Split (closing rest) = record { before = []; tail = rest; joined = refl; quote = refl }
Quotes-Split (byte cs cs' bs rest b ne s q) =
    let (front, e) = Shows-before s in
    let split = Quotes-Split q in
    record {
      before = front ++ split.before;
      tail = split.tail;
      joined = e ∙ ap (λ l. front ++ l) split.joined ∙ sym (append_assoc front split.before rest);
      quote = split.quote;
    }

up_to-append : (before rest : List ℕ) → up_to (before ++ rest) rest ≡ before
up_to-append before rest =
    let size : length (before ++ rest) - length rest ≡ length before =
      omega (arith, length-append before rest) in
    rw size (front before)
  where
    front : (before : List ℕ) → take (length before) (before ++ rest) ≡ before
    front [] = refl
    front (c ∷ before) = ap (λ l. c ∷ l) (front before)

-- What `lex_bytes` makes of a quote with the text `cs` behind it.
pub data Lexes {Double : Type 0} (cs : List ℕ) (line : ℕ) (location : Location)
    : Option (Token Double × Lexer) → Type 0 where
  refused : ((bs rest : List ℕ) → ¬ Quotes cs bs rest) → Lexes cs line location none
  lexed :
      (before bs rest : List ℕ)
      → cs ≡ before ++ 34 ∷ rest
      → Quotes cs bs (34 ∷ rest)
      → Lexes cs line location (
          some (
            record {
              text = 34 ∷ (before ++ 34 ∷ []);
              location = location;
              kind = token_bytes;
              contents = bytes bs;
            },
            record { current = rest; current_line = line },
          ))

module _ {Double : Type 0} (strtod : List ℕ → Option Double) where
  -- `lex_bytes` behind its loop.
  finish : List ℕ → ℕ → Location → Option (List ℕ × List ℕ) → Option (Token Double × Lexer)
  finish cs line location r = r >>= λ (read, current).
      token_init strtod (up_to (34 ∷ cs) (drop 1 current)) location token_bytes (bytes read)
      >>= λ token. some (token, record { current = drop 1 current; current_line = line })

  lex_bytes-finish :
      (cs : List ℕ) (line : ℕ) (location : Location)
      → lex_bytes strtod (record { current = 34 ∷ cs; current_line = line }) location
        ≡ finish cs line location (bytes_loop (suc (length cs)) cs)
  unfolding lex_bytes finish
  lex_bytes-finish cs line location = refl

  finish_at :
      (before tail bs : List ℕ) (line : ℕ) (location : Location)
      → Quotes (before ++ 34 ∷ tail) bs (34 ∷ tail)
      → Lexes
          (before ++ 34 ∷ tail)
          line
          location
          (finish (before ++ 34 ∷ tail) line location (some (bs, 34 ∷ tail)))
  unfolding finish
  finish_at before tail bs line location q =
      let shape : (before ++ 34 ∷ []) ++ tail ≡ before ++ 34 ∷ tail =
        append_assoc before (34 ∷ []) tail in
      let whole : up_to (34 ∷ (before ++ 34 ∷ tail)) tail ≡ 34 ∷ (before ++ 34 ∷ []) =
        rw (← shape) (up_to-append (34 ∷ (before ++ 34 ∷ [])) tail) in
      let present : (suc (length (before ++ 34 ∷ [])) == 0) ≡ false = ground arith in
      rw (whole, present) (lexed before bs tail refl q)

  finish-Lexes :
      (cs : List ℕ) (line : ℕ) (location : Location) (r : Option (List ℕ × List ℕ))
      → bytes_loop (suc (length cs)) cs ≡ r
      → Result cs r
      → Lexes cs line location (finish cs line location r)
  finish-Lexes cs line location none e stopped =
      unfold finish in
      refused (λ bs rest q. cc (Quotes-bytes_loop q (suc (length cs)) (omega arith)))
  finish-Lexes cs line location (some (bs, rest)) e (quoted _ _ q) =
      let split = Quotes-Split q in
      at_split split.before split.tail rest (rw (← split.quote) split.joined) split.quote q
    where
      at_split :
          (before tail rest : List ℕ)
          → cs ≡ before ++ 34 ∷ tail
          → rest ≡ 34 ∷ tail
          → Quotes cs bs rest
          → Lexes cs line location (finish cs line location (some (bs, rest)))
      at_split before tail rest joined quote q =
          rw (joined, quote) (finish_at before tail bs line location (rw (joined, quote) at q))

  -- At a quote `lex_bytes` makes a token of the bytes that the literal shows, and goes on behind
  -- the closing quote; it stops the process exactly if no literal begins there. The characters are
  -- values of `unsigned`.
  pub lex_bytes-Lexes :
      (cs : List ℕ) (line : ℕ) (location : Location)
      → IsText cs
      → Lexes cs line location
          (lex_bytes strtod (record { current = 34 ∷ cs; current_line = line }) location)
  lex_bytes-Lexes cs line location t = rw (lex_bytes-finish cs line location) (
      finish-Lexes cs line location (bytes_loop (suc (length cs)) cs) refl
        (bytes_loop-Result (suc (length cs)) cs t))
