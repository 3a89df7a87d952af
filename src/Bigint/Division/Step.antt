-- ===== src/Bigint/Division/Step.antt =====
-- One digit of the long division.
use sunder.Prelude.{
  ℕ, zero, suc, ◌+◌, ◌-◌, ◌*◌, ◌/◌, ◌^◌, ◌≤◌, ◌<◌, Option, some, ◌≡◌, ◌≢◌, arith, ap, ◌∙◌, sym,
}
use sunder.Prelude.Bits.{bit, bit-lt, shift_right, shift_right-bit}
use sunder.Prelude.Int.{pos, ◌-ℤ◌}
use sunder.Bigint.Repr.{minus, Bigint}
use sunder.Bigint.Value.{magnitude, value, IsValid, Yields}
use sunder.Bigint.Value.Normal.{valid-IsSigned}
use sunder.Bigint.Cmp.{cmp}
use sunder.Bigint.Cmp.Order.{order, cmp-eq-order}
use sunder.Bigint.Sum.{sub}
use sunder.Bigint.Sum.Laws.{sub-Yields}
use sunder.Bigint.Magnitude.{bit_get, bit_set, shiftl}
use sunder.Bigint.Magnitude.Digits.{bit_get-eq-bit}
use sunder.Bigint.Magnitude.Write.{IsWritten, bit_set-IsWritten, truth}
use sunder.Bigint.Magnitude.Shift.{IsShifted, shiftl-IsShifted}
use sunder.Bigint.Division.{div_step}
use native.Mathlib.Decide.{dec_lt}
use native.Mathlib.Nat.{pow-suc}

-- A valid integer that is not negative.
pub record IsNatural (b : Bigint) : Type 0 where
  pub valid : IsValid b
  pub sign_ne : b.sign ≢ minus

pub value-natural : (b : Bigint) → IsNatural b → value b ≡ pos (magnitude b.limbs)
value-natural b h = ground (arith, (valid-IsSigned b h.valid).empty)

pub IsNatural-of_value :
    (b : Bigint) (m : ℕ) → IsValid b → value b ≡ pos m → IsNatural b × (magnitude b.limbs ≡ m)
IsNatural-of_value b m v e = (
  record { valid = v; sign_ne = λ s. ground (arith, (valid-IsSigned b v).positive) },
  ground (arith, valid-IsSigned b v),
)

-- The loop has divided the digits from `c` up: `q` is the quotient so far.
pub record IsDividing (dividend divisor quotient remainder : Bigint) (c q : ℕ) : Type 0 where
  pub natural_q : IsNatural quotient
  pub natural_r : IsNatural remainder
  pub placed : magnitude quotient.limbs ≡ q * 2 ^ c
  pub division :
      shift_right (magnitude dividend.limbs) c
      ≡ q * magnitude divisor.limbs + magnitude remainder.limbs
  pub smaller : magnitude remainder.limbs < magnitude divisor.limbs

double-bit : (m n : ℕ) → n ≡ 2 * m → bit n 0 ≡ 0
double-bit m n e = omega arith

free_bit : (i q : ℕ) → bit (q * 2 ^ suc i) i ≡ 0
free_bit zero q = omega arith
free_bit (suc i) q =
    let half : q * 2 ^ suc (suc i) / 2 ≡ q * 2 ^ suc i =
      omega (arith, ap (λ (t : ℕ). q * t) (pow-suc 2 (suc i))) in
    rw half (free_bit i q)

truth-bit : (d : ℕ) → d < 2 → truth d ≡ d
truth-bit d h = ground arith

pos-difference : (a b : ℕ) → b ≤ a → pos a -ℤ pos b ≡ pos (a - b)
unfolding ◌-ℤ◌
pos-difference a b h = ground arith

-- The remainder with the next digit of the dividend behind it.
module _ (n r : Bigint) (i : ℕ) (nn : IsNatural n) (nr : IsNatural r) where
  abbrev shifted : Bigint
  shifted = bit_set (shiftl r 1) 0 (bit_get n i)

  doubled : IsShifted r (shiftl r 1) 1
  doubled = shiftl-IsShifted r 1 nr.valid

  written : IsWritten (shiftl r 1) shifted 0 (truth (bit_get n i))
  written = bit_set-IsWritten (shiftl r 1) 0 (bit_get n i) doubled.valid

  shifted-IsNatural : IsNatural shifted
  shifted-IsNatural = record {
    valid = written.valid;
    sign_ne = λ e. nr.sign_ne (sym doubled.same_sign ∙ written.sign_lem e);
  }

  magnitude-shifted : magnitude shifted.limbs ≡ 2 * magnitude r.limbs + bit (magnitude n.limbs) i
  magnitude-shifted = omega (
    arith,
    written.sum,
    doubled.sum,
    truth-bit (bit (magnitude n.limbs) i) (bit-lt (magnitude n.limbs) i),
    ap truth (bit_get-eq-bit n i nn.valid),
  )

-- The body of the loop goes on, one digit further.
pub record Stepped (r : Option (Bigint × Bigint)) (dividend divisor : Bigint) (c : ℕ) : Type 0 where
  pub q : ℕ
  pub quotient : Bigint
  pub remainder : Bigint
  pub returns : r ≡ some (quotient, remainder)
  pub state : IsDividing dividend divisor quotient remainder c q

module _ (n d : Bigint) (nn : IsNatural n) (nd : IsNatural d) (quot rem : Bigint) (i q : ℕ)
    (s : IsDividing n d quot rem (suc i) q) where
  abbrev next : Bigint
  next = shifted n rem i nn s.natural_r

  next-IsNatural : IsNatural next
  next-IsNatural = shifted-IsNatural n rem i nn s.natural_r

  next_sum : magnitude next.limbs ≡ 2 * magnitude rem.limbs + bit (magnitude n.limbs) i
  next_sum = magnitude-shifted n rem i nn s.natural_r

  compared : cmp next d ≡ order (pos (magnitude next.limbs)) (pos (magnitude d.limbs))
  compared =
      cmp-eq-order next d next-IsNatural.valid nd.valid
      ∙ rw (value-natural next next-IsNatural, value-natural d nd)

  -- The digit is 0.
  digit_zero : magnitude next.limbs < magnitude d.limbs → Stepped (div_step n d i quot rem) n d i
  digit_zero lt = record {
    q = 2 * q;
    quotient = quot;
    remainder = next;
    returns = unfold div_step in rw compared (ground arith);
    state = record {
      natural_q = s.natural_q;
      natural_r = next-IsNatural;
      placed = omega (arith, s.placed, ap (λ (t : ℕ). q * t) (pow-suc 2 i));
      division = omega (arith, shift_right-bit (magnitude n.limbs) i, s.division, next_sum);
      smaller = lt;
    };
  }

  -- The digit is 1.
  digit_one : magnitude d.limbs ≤ magnitude next.limbs → Stepped (div_step n d i quot rem) n d i
  digit_one le = record {
    q = 2 * q + 1;
    quotient = bit_set quot i 1;
    remainder = less.out;
    returns = unfold div_step in rw (compared, less.returns) (ground arith);
    state = record {
      natural_q = record {
        valid = set_bit.valid;
        sign_ne = λ e. s.natural_q.sign_ne (set_bit.sign_lem e);
      };
      natural_r = reduced.0;
      placed = omega (
        arith,
        set_bit.sum,
        s.placed,
        ap (λ (t : ℕ). q * t) (pow-suc 2 i),
        ap (λ (t : ℕ). t * 2 ^ i) (ap (λ (m : ℕ). bit m i) s.placed ∙ free_bit i q),
      );
      division =
          omega (arith, shift_right-bit (magnitude n.limbs) i, s.division, next_sum, reduced.1);
      smaller = omega (arith, reduced.1, next_sum, s.smaller, bit-lt (magnitude n.limbs) i);
    };
  }
    where
      less : Yields (sub next d) (value next -ℤ value d)
      less = sub-Yields next d next-IsNatural.valid nd.valid

      difference : value less.out ≡ pos (magnitude next.limbs - magnitude d.limbs)
      difference =
          less.value_out
          ∙ rw (value-natural next next-IsNatural, value-natural d nd)
              (pos-difference (magnitude next.limbs) (magnitude d.limbs) le)

      reduced :
          IsNatural less.out × (magnitude less.out.limbs ≡ magnitude next.limbs - magnitude d.limbs)
      reduced = IsNatural-of_value less.out _ less.valid difference

      set_bit : IsWritten quot (bit_set quot i 1) i 1
      set_bit = bit_set-IsWritten quot i 1 s.natural_q.valid

  pub div_step-Stepped : Stepped (div_step n d i quot rem) n d i
  div_step-Stepped = elim (dec_lt (magnitude next.limbs) (magnitude d.limbs)) [
    | yes lt ↦ digit_zero lt
    | no ge ↦ digit_one (omega arith)
  ]
