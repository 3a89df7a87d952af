-- ===== src/Bigint/Text/Numeral.antt =====
-- The texts that write an integer, as the language describes them: a sign or none, a prefix or
-- none, and digits of the base, of which the leftmost weighs most. Nothing here is taken from
-- `bigint_new_text`.
use sunder.Prelude.{ℕ, ◌+◌, ◌*◌, ◌^◌, ◌<◌, List, [], ◌∷◌, ◌++◌, ◌≡◌, ◌≢◌, ◌⊎◌, length, get_or}
use sunder.Prelude.Int.{ℤ}
use sunder.Bigint.Repr.{Sign, minus, plus}
use sunder.Bigint.Value.{signed}

-- "0123456789abcdef" and "0123456789ABCDEF"
abbrev pub lower_digits : List ℕ
lower_digits = 48 ∷ 49 ∷ 50 ∷ 51 ∷ 52 ∷ 53 ∷ 54 ∷ 55 ∷ 56 ∷ 57 ∷ 97 ∷ 98 ∷ 99 ∷ 100 ∷ 101 ∷ 102 ∷ []

abbrev pub upper_digits : List ℕ
upper_digits = 48 ∷ 49 ∷ 50 ∷ 51 ∷ 52 ∷ 53 ∷ 54 ∷ 55 ∷ 56 ∷ 57 ∷ 65 ∷ 66 ∷ 67 ∷ 68 ∷ 69 ∷ 70 ∷ []

-- The character writes the digit, in either case.
pub record IsDigit (base c d : ℕ) : Type 0 where
  pub below : d < base
  pub spelled : (get_or lower_digits d 0 ≡ c) ⊎ (get_or upper_digits d 0 ≡ c)

-- The digits write the number: each counts for its value times a power of the base.
abbrev pub Digits : ℕ → List ℕ → ℕ → Type 0
Digits base [] n = n ≡ 0
Digits base (c ∷ cs) n =
    (d : ℕ) × (m : ℕ) × IsDigit base c d × Digits base cs m × (n ≡ d * base ^ length cs + m)

pub data Mark : Type 0 where
  no_mark plus_mark minus_mark : Mark

abbrev pub mark_text : Mark → List ℕ
mark_text no_mark = []
mark_text plus_mark = b'+' ∷ []
mark_text minus_mark = b'-' ∷ []

abbrev pub mark_sign : Mark → Sign
mark_sign no_mark = plus
mark_sign plus_mark = plus
mark_sign minus_mark = minus

pub data Notation : Type 0 where
  decimal binary octal hexadecimal : Notation

abbrev pub prefix : Notation → List ℕ
prefix decimal = []
prefix binary = b'0' ∷ b'b' ∷ []
prefix octal = b'0' ∷ b'o' ∷ []
prefix hexadecimal = b'0' ∷ b'x' ∷ []

abbrev pub base : Notation → ℕ
base decimal = 10
base binary = 2
base octal = 8
base hexadecimal = 16

-- The text writes the integer.
pub record Writes (text : List ℕ) (z : ℤ) : Type 0 where
  pub mark : Mark
  pub notation : Notation
  pub digits : List ℕ
  pub magnitude : ℕ
  pub spelled : text ≡ mark_text mark ++ (prefix notation ++ digits)
  pub some_digit : digits ≢ []
  pub written : Digits (base notation) digits magnitude
  pub worth : z ≡ signed (mark_sign mark) magnitude
