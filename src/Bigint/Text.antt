-- ===== src/Bigint/Text.antt =====
-- util.c: `bigint_new_text` and `bigint_to_new_cstr`. A text is the list of its characters.
pub mod Read
pub mod Numeral
pub mod Alphabet
pub mod Reading
mod Tenth
pub mod Print
pub mod RoundTrip
use sunder.Prelude.{
  ℕ, zero, suc, ◌+◌, ◌-◌, List, [], ◌∷◌, ◌++◌, Option, none, some, Bool, true, false, map,
}
use sunder.Prelude.{not, ◌&&◌, ltb, leb, ◌==◌, if◌then◌else◌, ◌>>=◌, ◌>>◌, assert, length, get_or}
use sunder.Chars.{isdigit, islower, isupper, isbdigit, isodigit, isxdigit}
use sunder.Bigint.Repr.{
  Sign, minus, nought, plus, Bigint, bigint_zero, bigint_dec, bigint_bin, bigint_oct, bigint_hex,
  rank, normalize, assign, abs,
}
use sunder.Bigint.Cmp.{cmp}
use sunder.Bigint.Sum.{add, has_sign}
use sunder.Bigint.Product.{mul}
use sunder.Bigint.Magnitude.{bit_count}
use sunder.Bigint.Division.{divrem}

-- The radix, its bigint and its digits.
pub data Radix : Type 0 where
  dec bin oct hex : Radix

abbrev pub radix : Radix → ℕ
radix dec = 10
radix bin = 2
radix oct = 8
radix hex = 16

abbrev pub radix_bigint : Radix → Bigint
radix_bigint dec = bigint_dec
radix_bigint bin = bigint_bin
radix_bigint oct = bigint_oct
radix_bigint hex = bigint_hex

unfoldable pub radix_isdigit : Radix → ℕ → Bool
unfolding isdigit isbdigit isodigit isxdigit
radix_isdigit dec c = isdigit c
radix_isdigit bin c = isbdigit c
radix_isdigit oct c = isodigit c
radix_isdigit hex c = isxdigit c

-- The label `sign`: the sign, and the rest of the text.
abbrev pub read_sign : List ℕ → Sign × List ℕ
read_sign [] = (plus, [])
read_sign (c ∷ cs) =
    if c == b'+' then (plus, cs) else if c == b'-' then (minus, cs) else (plus, c ∷ cs)

-- The label `radix`.
abbrev pub read_radix : List ℕ → Radix × List ℕ
read_radix (c ∷ d ∷ cs) =
    if not (c == b'0')
    then (dec, c ∷ d ∷ cs)
    else if d == b'b'
    then (bin, cs)
    else if d == b'o'
    then (oct, cs)
    else if d == b'x'
    then (hex, cs)
    else (dec, c ∷ d ∷ cs)
read_radix cs = (dec, cs)

-- `strtol` of the C library on a text of one character that is a digit of the radix: digits
-- count from '0', and letters of either case from ten.
unfoldable pub char_value : ℕ → ℕ
unfolding isdigit islower
char_value c = if isdigit c then c - b'0' else if islower c then c - b'a' + 10 else c - b'A' + 10

abbrev pub all_digits : Radix → List ℕ → Bool
all_digits r [] = true
all_digits r (c ∷ cs) = radix_isdigit r c && all_digits r cs

-- The loop that multiplies and adds.
unfoldable pub read_digits : Radix → List ℕ → Bigint → Option Bigint
unfolding char_value
read_digits r [] self = some self
read_digits r (c ∷ cs) self = mul self (radix_bigint r) >>= λ scaled.
    add scaled (record { sign = plus; limbs = char_value c ∷ [] }) >>= λ self'.
    read_digits r cs self'

-- The label `digits`. The inner `none` is the null pointer.
unfoldable pub read_magnitude : Sign → Radix → List ℕ → Option (Option Bigint)
unfolding read_digits radix_isdigit
read_magnitude sign r [] = some none
read_magnitude sign r (c ∷ cs) =
    if all_digits r (c ∷ cs)
    then (read_digits r (c ∷ cs) (assign bigint_zero) >>= λ self.
        some (some (normalize (record self { sign = sign }))))
    else some none

-- `bigint_new_text`.
unfoldable pub new_text : List ℕ → Option (Option Bigint)
unfolding read_magnitude
new_text [] = some none
new_text (c ∷ cs) =
    let (sign, unsigned) = read_sign (c ∷ cs) in
    let (r, digits) = read_radix unsigned in read_magnitude sign r digits

-- The loop of `bigint_to_new_cstr`: it prepends the lowest decimal digit and divides by ten,
-- until nothing is left. A loop out of fuel stops.
unfoldable pub print_digits : ℕ → Bigint → List ℕ → Option (List ℕ)
print_digits zero self digits = none
print_digits (suc fuel) self digits =
    let rest = divrem self bigint_dec >>= λ (quotient, lowest).
    assert (leb (length lowest.limbs) 1)
    >> assert (ltb (get_or lowest.limbs 0 0) 10)
    >> print_digits fuel quotient ((b'0' + get_or lowest.limbs 0 0) ∷ digits) in
    if rank (cmp self bigint_zero) == rank nought then some digits else rest

abbrev pub drop_zeros : List ℕ → List ℕ
drop_zeros [] = []
drop_zeros (c ∷ cs) = let rest = drop_zeros cs in if c == b'0' then rest else c ∷ cs

-- Without digits the number is zero.
abbrev pub shown_digits : List ℕ → List ℕ
shown_digits [] = b'0' ∷ []
shown_digits (c ∷ cs) = drop_zeros (c ∷ cs)

-- `bigint_to_new_cstr`, without the NUL behind the text. A number of `bit_count` binary digits
-- needs no more divisions by ten.
unfoldable pub to_new_cstr : Bigint → Option (List ℕ)
unfolding print_digits
to_new_cstr self = print_digits (suc (bit_count self)) (abs self) [] >>= λ digits.
    some (if has_sign minus self then b'-' ∷ shown_digits digits else shown_digits digits)
