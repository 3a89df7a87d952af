-- ===== src/Bigint/Division/Laws.antt =====
-- `bigint_divrem` divides, and the quotient is cut off towards zero.
use sunder.Prelude.{
  ℕ, zero, suc, ◌+◌, ◌*◌, ◌≤◌, ◌<◌, Option, some, ◌≡◌, ◌≢◌, refl, arith, ◌∙◌, sym, false,
}
use sunder.Prelude.Bits.{shift_right-eq-zero}
use sunder.Prelude.Int.{ℤ, pos, ◌+ℤ◌, ◌*ℤ◌, ◌≤ℤ◌, nat_abs}
use sunder.Bigint.Repr.{
  Sign, minus, nought, plus, sign_mul, Bigint, bigint_zero, abs, assign, normalize,
}
use sunder.Bigint.Value.{magnitude, signed, value, IsValid}
use sunder.Bigint.Value.Normal.{IsSigned, valid-IsSigned, normalize-IsValid, value-normalize}
use sunder.Bigint.Magnitude.{bit_count}
use sunder.Bigint.Magnitude.Count.{bit_count_bounds}
use sunder.Bigint.Product.Laws.{bigint_zero-IsValid}
use sunder.Bigint.Sum.{has_sign}
use sunder.Bigint.Division.Step.{IsNatural, IsDividing, Stepped, div_step-Stepped}
use sunder.Bigint.Division.{div_step, div_loop, divrem}
use sunder.Bigint.Product.Laws.{signed_product}

module _ (n d : Bigint) (nn : IsNatural n) (nd : IsNatural d) where
  div_loop-suc :
      (i : ℕ) (quot rem quot' rem' : Bigint)
      → div_step n d i quot rem ≡ some (quot', rem')
      → div_loop n d (suc i) quot rem ≡ div_loop n d i quot' rem'
  div_loop-suc i quot rem quot' rem' e = unfold div_loop in rw e

  div_loop-Stepped :
      (c : ℕ) (quot rem : Bigint) (q : ℕ)
      → IsDividing n d quot rem c q
      → Stepped (div_loop n d c quot rem) n d 0
  div_loop-Stepped zero quot rem q s = record {
    q = q;
    quotient = quot;
    remainder = rem;
    returns = unfold div_loop in refl;
    state = s;
  }
  div_loop-Stepped (suc i) quot rem q s =
      let one = div_step-Stepped n d nn nd quot rem i q s in
      let rest = div_loop-Stepped i one.quotient one.remainder one.q one.state in
      record {
        q = rest.q;
        quotient = rest.quotient;
        remainder = rest.remainder;
        returns = div_loop-suc i quot rem one.quotient one.remainder one.returns ∙ rest.returns;
        state = rest.state;
      }

pub abs-IsNatural : (b : Bigint) → IsValid b → IsNatural (abs b)
abs-IsNatural b v =
    unfold abs assign in
    record {
      valid = record {
        bytes = v.bytes;
        trimmed = v.trimmed;
        zero_sign = λ e. v.zero_sign (ground arith);
        zero_limbs = λ e. ground (arith, v.zero_limbs e);
      };
      sign_ne = λ e. ground arith;
    }

pub abs_limbs : (b : Bigint) → (abs b).limbs ≡ b.limbs
unfolding abs assign
abs_limbs b = refl

-- The result of a division of `a` by `b` in C: both parts in normal form, the remainder smaller
-- than the divisor and of the dividend's sign.
pub record Divides (r : Option (Bigint × Bigint)) (a b : ℤ) : Type 0 where
  pub quotient : Bigint
  pub remainder : Bigint
  pub returns : r ≡ some (quotient, remainder)
  pub valid_quotient : IsValid quotient
  pub valid_remainder : IsValid remainder
  pub division : a ≡ value quotient *ℤ b +ℤ value remainder
  pub smaller : nat_abs (value remainder) < nat_abs b
  pub above_zero : pos 0 ≤ℤ a → pos 0 ≤ℤ value remainder
  pub below_zero : a ≤ℤ pos 0 → value remainder ≤ℤ pos 0

signed_add : (s : Sign) (m n : ℕ) → signed s (m + n) ≡ signed s m +ℤ signed s n
unfolding ◌+ℤ◌
signed_add minus m n = ground arith
signed_add s m n = ground arith

same_again : (s t : Sign) → t ≢ nought → sign_mul (sign_mul s t) t ≡ s
same_again minus t h = ground arith
same_again s t h = ground arith

signed_division :
    (s t : Sign) (m d q r : ℕ)
    → t ≢ nought
    → m ≡ q * d + r
    → signed s m ≡ signed (sign_mul s t) q *ℤ signed t d +ℤ signed s r
signed_division s t m d q r h e =
    rw (← signed_product (sign_mul s t) t q d (q * d) refl, same_again s t h, e)
      (signed_add s (q * d) r)

nat_abs-signed : (s : Sign) (m : ℕ) → nat_abs (signed s m) ≤ m
nat_abs-signed minus m = ground arith
nat_abs-signed s m = ground arith

nat_abs-signed_ne : (s : Sign) (m : ℕ) → s ≢ nought → nat_abs (signed s m) ≡ m
nat_abs-signed_ne minus m h = ground arith
nat_abs-signed_ne s m h = ground arith

signed_above : (s : Sign) (m n : ℕ) → IsSigned s m → pos 0 ≤ℤ signed s m → pos 0 ≤ℤ signed s n
signed_above minus m n h k = ground (arith, h.positive)
signed_above s m n h k = ground arith

signed_below : (s : Sign) (m n : ℕ) → IsSigned s m → signed s m ≤ℤ pos 0 → signed s n ≤ℤ pos 0
signed_below plus m n h k = ground (arith, h.positive)
signed_below s m n h k = ground arith

product-eq-zero : (q d r : ℕ) → 0 < d → q * d + r ≡ 0 → (q ≡ 0) × (r ≡ 0)
product-eq-zero zero d r h e = (refl, omega arith)
product-eq-zero (suc q) d r h e = absurd (grind arith)

module _ (l r : Bigint) (vl : IsValid l) (vr : IsValid r) (nonzero : value r ≢ pos 0) where
  divisor_sign : r.sign ≢ nought
  divisor_sign e = nonzero (rw e)

  divisor_pos : 0 < magnitude r.limbs
  divisor_pos = (valid-IsSigned r vr).positive divisor_sign

  done : Stepped (div_loop (abs l) (abs r) (bit_count l) bigint_zero bigint_zero) (abs l) (abs r) 0
  done =
      div_loop-Stepped (abs l) (abs r) (abs-IsNatural l vl) (abs-IsNatural r vr) (bit_count l)
        bigint_zero bigint_zero 0
        (record {
          natural_q = record { valid = bigint_zero-IsValid; sign_ne = λ e. cc };
          natural_r = record { valid = bigint_zero-IsValid; sign_ne = λ e. cc };
          placed = omega arith;
          division =
              rw
                (
                  abs_limbs l,
                  abs_limbs r,
                  shift_right-eq-zero (magnitude l.limbs) (bit_count l) (bit_count_bounds l vl).0,
                )
                (omega arith);
          smaller = rw (abs_limbs r) divisor_pos;
        })

  divided :
      magnitude l.limbs
      ≡ magnitude done.quotient.limbs * magnitude r.limbs + magnitude done.remainder.limbs
  divided =
      let whole = rw (abs_limbs l, abs_limbs r) at done.state.division in
      let q : magnitude done.quotient.limbs ≡ done.q = done.state.placed ∙ omega arith in rw q whole

  left : magnitude done.remainder.limbs < magnitude r.limbs
  left = rw (abs_limbs r) at done.state.smaller

  both_zero :
      l.sign ≡ nought → (magnitude done.quotient.limbs ≡ 0) × (magnitude done.remainder.limbs ≡ 0)
  both_zero e =
      product-eq-zero (magnitude done.quotient.limbs) (magnitude r.limbs)
        (magnitude done.remainder.limbs) divisor_pos (sym divided ∙ (valid-IsSigned l vl).empty e)

  -- The two results with the signs that C gives them.
  abbrev quotient_raw : Bigint
  quotient_raw = record { sign = sign_mul l.sign r.sign; limbs = done.quotient.limbs }

  abbrev remainder_raw : Bigint
  remainder_raw = record { sign = l.sign; limbs = done.remainder.limbs }

  -- With a divisor other than zero the process does not stop, and `bigint_divrem` returns the
  -- quotient and the remainder.
  pub divrem-Divides : Divides (divrem l r) (value l) (value r)
  divrem-Divides = record {
    quotient = normalize quotient_raw;
    remainder = normalize remainder_raw;
    returns = unfold divrem assign in rw (goes_on, done.returns);
    valid_quotient =
        normalize-IsValid quotient_raw done.state.natural_q.valid.bytes
          (λ e. (both_zero (zero_product e)).0);
    valid_remainder =
        normalize-IsValid remainder_raw done.state.natural_r.valid.bytes (λ e. (both_zero e).1);
    division =
        rw (value-normalize quotient_raw, value-normalize remainder_raw)
          (signed_division l.sign r.sign (magnitude l.limbs) (magnitude r.limbs)
            (magnitude done.quotient.limbs) (magnitude done.remainder.limbs) divisor_sign divided);
    smaller = rw (value-normalize remainder_raw) (
        omega (
          arith,
          nat_abs-signed l.sign (magnitude done.remainder.limbs),
          nat_abs-signed_ne r.sign (magnitude r.limbs) divisor_sign,
          left,
        ));
    above_zero = λ h. rw (value-normalize remainder_raw) (not_negative h);
    below_zero = λ h. rw (value-normalize remainder_raw) (not_positive h);
  }
    where
      goes_on : has_sign nought r ≡ false
      goes_on = ground (arith, divisor_sign)

      not_negative : pos 0 ≤ℤ value l → pos 0 ≤ℤ signed l.sign (magnitude done.remainder.limbs)
      not_negative h =
          signed_above l.sign _ (magnitude done.remainder.limbs) (valid-IsSigned l vl) h

      not_positive : value l ≤ℤ pos 0 → signed l.sign (magnitude done.remainder.limbs) ≤ℤ pos 0
      not_positive h =
          signed_below l.sign _ (magnitude done.remainder.limbs) (valid-IsSigned l vl) h

      zero_product : sign_mul l.sign r.sign ≡ nought → l.sign ≡ nought
      zero_product e = ground (arith, divisor_sign)
