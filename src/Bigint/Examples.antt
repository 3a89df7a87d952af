-- ===== src/Bigint/Examples.antt =====
-- The theorems at concrete integers, and runs of the operations.
use sunder.Prelude.{[], ◌∷◌, ◌≡◌, refl, arith}
use sunder.Prelude.Int.{ℤ, ◌+ℤ◌, ◌-ℤ◌, ◌*ℤ◌}
use sunder.Bigint.Repr.{minus, plus, Bigint, normalize}
use sunder.Bigint.Value.{value, signed, IsValid, Yields}
use sunder.Bigint.Value.Normal.{normalize-IsValid}
use sunder.Bigint.Cmp.{cmp}
use sunder.Bigint.Cmp.Order.{order, cmp-eq-order}
use sunder.Bigint.Sum.{add, sub}
use sunder.Bigint.Sum.Laws.{add-Yields, sub-Yields}
use sunder.Prelude.{◌^◌, ◌≤◌, ◌<◌}
use sunder.Prelude.Bits.{bit}
use sunder.Bigint.Magnitude.{bit_get, bit_set, bit_count, shiftl}
use sunder.Bigint.Magnitude.Digits.{bit_get-eq-bit}
use sunder.Bigint.Magnitude.Write.{IsWritten, bit_set-IsWritten}
use sunder.Bigint.Magnitude.Count.{bit_count_bounds}
use sunder.Bigint.Magnitude.Shift.{IsShifted, shiftl-IsShifted}
use sunder.Bigint.Division.{divrem}
use sunder.Bigint.Division.Laws.{Divides, divrem-Divides}
use sunder.Prelude.{ℕ, List, some, none, inl, ◌↔◌}
use sunder.Bigint.Text.{new_text}
use sunder.Bigint.Text.Read.{Reads}
use sunder.Bigint.Text.Numeral.{Writes, minus_mark, hexadecimal}
use sunder.Bigint.Text.Reading.{new_text-Reads_written, new_text-eq-null}
use sunder.Bigint.Text.RoundTrip.{RoundTrips, to_new_cstr-RoundTrips}
use sunder.Bigint.Product.{mul}
use sunder.Bigint.Product.Laws.{mul-Yields}

-- 70000 and -65535.
abbrev large : Bigint
large = record { sign = plus; limbs = 112 ∷ 17 ∷ 1 ∷ [] }

abbrev negative : Bigint
negative = record { sign = minus; limbs = 255 ∷ 255 ∷ [] }

abbrev padded : Bigint
padded = record { sign = plus; limbs = 7 ∷ 0 ∷ 0 ∷ [] }

large-IsValid : IsValid large
large-IsValid = record {
  bytes = omega arith;
  trimmed = omega arith;
  zero_sign = λ e. cc;
  zero_limbs = λ e. cc;
}

negative-IsValid : IsValid negative
negative-IsValid = record {
  bytes = omega arith;
  trimmed = omega arith;
  zero_sign = λ e. cc;
  zero_limbs = λ e. cc;
}

normalize-IsValid_example : IsValid (normalize padded)
normalize-IsValid_example = normalize-IsValid padded (omega arith) (λ e. cc)

cmp-eq-order_example : cmp large negative ≡ order (value large) (value negative)
cmp-eq-order_example = cmp-eq-order large negative large-IsValid negative-IsValid

add-Yields_example : Yields (add large negative) (value large +ℤ value negative)
add-Yields_example = add-Yields large negative large-IsValid negative-IsValid

sub-Yields_example : Yields (sub negative large) (value negative -ℤ value large)
sub-Yields_example = sub-Yields negative large negative-IsValid large-IsValid

mul-Yields_example : Yields (mul large negative) (value large *ℤ value negative)
mul-Yields_example = mul-Yields large negative large-IsValid negative-IsValid

divrem-Divides_example : Divides (divrem large negative) (value large) (value negative)
divrem-Divides_example = divrem-Divides large negative large-IsValid negative-IsValid (λ e. cc)

bit_get-eq-bit_example : bit_get large 13 ≡ bit 70000 13
bit_get-eq-bit_example = bit_get-eq-bit large 13 large-IsValid

bit_set-IsWritten_example : IsWritten large (bit_set large 40 1) 40 1
bit_set-IsWritten_example = bit_set-IsWritten large 40 1 large-IsValid

shiftl-IsShifted_example : IsShifted large (shiftl large 11) 11
shiftl-IsShifted_example = shiftl-IsShifted large 11 large-IsValid

bit_count_bounds_example :
    (70000 < 2 ^ bit_count large) × (0 < 70000 → 2 ^ bit_count large ≤ 140000)
bit_count_bounds_example = bit_count_bounds large large-IsValid

to_new_cstr-RoundTrips_example : RoundTrips negative
to_new_cstr-RoundTrips_example = to_new_cstr-RoundTrips negative negative-IsValid

-- "-0x1f"
abbrev text : List ℕ
text = 45 ∷ 48 ∷ 120 ∷ 49 ∷ 102 ∷ []

text-Writes : Writes text (signed minus 31)
text-Writes = record {
  mark = minus_mark;
  notation = hexadecimal;
  digits = 49 ∷ 102 ∷ [];
  magnitude = 31;
  spelled = refl;
  some_digit = λ e. cc;
  written = (
    1,
    15,
    record { below = omega arith; spelled = inl refl },
    (15, 0, record { below = omega arith; spelled = inl refl }, refl, refl),
    refl,
  );
  worth = refl;
}

new_text-Reads_written_example : Reads (new_text text) (signed minus 31)
new_text-Reads_written_example = new_text-Reads_written text (signed minus 31) text-Writes

-- "0o18"
abbrev bad_text : List ℕ
bad_text = 48 ∷ 111 ∷ 49 ∷ 56 ∷ []

new_text-eq-null_example : (new_text bad_text ≡ some none) ↔ ((z : ℤ) → ¬ Writes bad_text z)
new_text-eq-null_example = new_text-eq-null bad_text (omega arith)
