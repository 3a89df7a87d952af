-- ===== src/Bigint/Text/Alphabet.antt =====
-- The characters that the code takes for digits are those that write digits.
use sunder.Prelude.{
  ℕ, ◌^◌, ◌<◌, List, Bool, true, ◌≡◌, inl, inr, refl, arith, get_or, not, ◌&&◌, ◌||◌, ◌==◌, ltb,
  passed_under, passed_under-at,
}
use sunder.Bigint.Text.{Radix, dec, bin, oct, hex, radix_isdigit, char_value}
use sunder.Bigint.Text.Numeral.{
  lower_digits, upper_digits, IsDigit, Notation, decimal, binary, octal, hexadecimal, base,
}

abbrev pub notation_radix : Notation → Radix
notation_radix decimal = dec
notation_radix binary = bin
notation_radix octal = oct
notation_radix hexadecimal = hex

-- What the code makes of the character of a digit, and of a character that it takes for a digit.
abbrev digit_test : Notation → List ℕ → ℕ → Bool
digit_test n alphabet d =
    let c = get_or alphabet d 0 in
    radix_isdigit (notation_radix n) c && char_value c == d && ltb c 128

abbrev char_test : Notation → ℕ → Bool
char_test n c =
    not (radix_isdigit (notation_radix n) c)
    || ltb (char_value c) (base n)
      && (get_or lower_digits (char_value c) 0 == c || get_or upper_digits (char_value c) 0 == c)

lower_table : (n : Notation) → passed_under (digit_test n lower_digits) (base n) ≡ true
unfolding passed_under radix_isdigit char_value
lower_table decimal = refl
lower_table binary = refl
lower_table octal = refl
lower_table hexadecimal = refl

upper_table : (n : Notation) → passed_under (digit_test n upper_digits) (base n) ≡ true
unfolding passed_under radix_isdigit char_value
upper_table decimal = refl
upper_table binary = refl
upper_table octal = refl
upper_table hexadecimal = refl

char_table : (n : Notation) → passed_under (char_test n) 128 ≡ true
unfolding passed_under radix_isdigit char_value
char_table decimal = refl
char_table binary = refl
char_table octal = refl
char_table hexadecimal = refl

pub record Taken (n : Notation) (c d : ℕ) : Type 0 where
  pub taken : radix_isdigit (notation_radix n) c ≡ true
  pub value_eq : char_value c ≡ d
  pub ascii : c < 128

pub IsDigit-Taken : (n : Notation) (c d : ℕ) → IsDigit (base n) c d → Taken n c d
IsDigit-Taken n c d h = elim h.spelled [
  | inl e ↦ of_test lower_digits (passed_under-at _ (base n) d h.below (lower_table n)) e
  | inr e ↦ of_test upper_digits (passed_under-at _ (base n) d h.below (upper_table n)) e
]
  where
    of_test :
        (alphabet : List ℕ) → digit_test n alphabet d ≡ true → get_or alphabet d 0 ≡ c → Taken n c d
    of_test alphabet t e =
        let t' = rw e at t in
        record { taken = ground arith; value_eq = ground arith; ascii = ground arith }

taken-ascii :
    (n : Notation) (c : ℕ) → c < 2 ^ 32 → radix_isdigit (notation_radix n) c ≡ true → c < 128
unfolding radix_isdigit
taken-ascii decimal c b h = ground arith
taken-ascii n c b h = ground arith

pub taken-IsDigit :
    (n : Notation) (c : ℕ)
    → c < 2 ^ 32
    → radix_isdigit (notation_radix n) c ≡ true
    → IsDigit (base n) c (char_value c)
taken-IsDigit n c b h =
    let t = passed_under-at _ 128 c (taken-ascii n c b h) (char_table n) in
    let t' = rw h at t in record { below = ground arith; spelled = ground arith }
