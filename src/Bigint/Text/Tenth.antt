-- ===== src/Bigint/Text/Tenth.antt =====
-- One round of the loop of `bigint_to_new_cstr`.
use sunder.Prelude.{ℕ, ◌+◌, ◌*◌, ◌≤◌, ◌<◌, List, [], ◌∷◌, some, ◌≡◌, refl, arith, ap, ◌∙◌, sym}
use sunder.Prelude.{length, get_or}
use sunder.Prelude.Int.{ℤ, pos, ◌+ℤ◌, ◌*ℤ◌, ◌≤ℤ◌, nat_abs}
use sunder.Bigint.Repr.{Bigint, bigint_dec}
use sunder.Bigint.Value.{magnitude, value, AllBytes, IsTrimmed, IsValid}
use sunder.Bigint.Value.Normal.{magnitude-eq-zero}
use sunder.Bigint.Division.{divrem}
use sunder.Bigint.Division.Laws.{Divides, divrem-Divides}
use sunder.Bigint.Division.Step.{IsNatural, IsNatural-of_value, value-natural}

bigint_dec-IsValid : IsValid bigint_dec
bigint_dec-IsValid = record {
  bytes = omega arith;
  trimmed = omega arith;
  zero_sign = λ e. cc;
  zero_limbs = λ e. cc;
}

-- One round of the loop: a number of one limb, and the rest of the number.
pub record Tenth (self : Bigint) : Type 0 where
  pub quotient : Bigint
  pub lowest : Bigint
  pub returns : divrem self bigint_dec ≡ some (quotient, lowest)
  pub natural : IsNatural quotient
  pub one_limb : length lowest.limbs ≤ 1
  pub digit : get_or lowest.limbs 0 0 < 10
  pub sum : magnitude self.limbs ≡ magnitude quotient.limbs * 10 + get_or lowest.limbs 0 0

small_limbs :
    (xs : List ℕ)
    → AllBytes xs
    → IsTrimmed xs
    → magnitude xs < 10
    → (length xs ≤ 1) × (get_or xs 0 0 ≡ magnitude xs)
small_limbs [] b t h = (omega arith, refl)
small_limbs (x ∷ []) b t h = (omega arith, omega arith)
small_limbs (x ∷ y ∷ ys) b t h = absurd (cc (magnitude-eq-zero (y ∷ ys) t (omega arith)))

nonnegative : (z : ℤ) → pos 0 ≤ℤ z → z ≡ pos (nat_abs z)
nonnegative z h = ground arith

tenth_parts :
    (z : ℤ) (m d : ℕ)
    → pos m ≡ z *ℤ pos 10 +ℤ pos d
    → d < 10
    → (z ≡ pos (nat_abs z)) × (m ≡ nat_abs z * 10 + d)
unfolding ◌*ℤ◌ ◌+ℤ◌
tenth_parts z m d e h = ground arith

pub divide-Tenth : (self : Bigint) → IsNatural self → Tenth self
divide-Tenth self n = record {
  quotient = parts.quotient;
  lowest = parts.remainder;
  returns = parts.returns;
  natural = quotient_natural.0;
  one_limb = limbs.0;
  digit = omega (arith, limbs.1, lowest_natural.1, parts.smaller);
  sum = omega (arith, limbs.1, lowest_natural.1, quotient_natural.1, split.1);
}
  where
    parts : Divides (divrem self bigint_dec) (value self) (pos 10)
    parts = divrem-Divides self bigint_dec n.valid bigint_dec-IsValid (λ e. cc)

    lowest_pos : value parts.remainder ≡ pos (nat_abs (value parts.remainder))
    lowest_pos =
        nonnegative (value parts.remainder)
          (parts.above_zero (rw (value-natural self n) (omega arith)))

    lowest_natural :
        IsNatural parts.remainder
        × (magnitude parts.remainder.limbs ≡ nat_abs (value parts.remainder))
    lowest_natural = IsNatural-of_value parts.remainder _ parts.valid_remainder lowest_pos

    split :
        (value parts.quotient ≡ pos (nat_abs (value parts.quotient)))
        × (magnitude self.limbs
            ≡ nat_abs (value parts.quotient) * 10 + nat_abs (value parts.remainder))
    split =
        tenth_parts (value parts.quotient) (magnitude self.limbs) (nat_abs (value parts.remainder))
          (sym (value-natural self n)
            ∙ parts.division
            ∙ ap (λ z. value parts.quotient *ℤ pos 10 +ℤ z) lowest_pos)
          parts.smaller

    quotient_natural :
        IsNatural parts.quotient × (magnitude parts.quotient.limbs ≡ nat_abs (value parts.quotient))
    quotient_natural = IsNatural-of_value parts.quotient _ parts.valid_quotient split.0

    limbs :
        (length parts.remainder.limbs ≤ 1)
        × (get_or parts.remainder.limbs 0 0 ≡ magnitude parts.remainder.limbs)
    limbs =
        small_limbs parts.remainder.limbs parts.valid_remainder.bytes parts.valid_remainder.trimmed
          (omega (arith, lowest_natural.1, parts.smaller))
