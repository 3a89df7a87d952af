-- ===== src/Eval/Divide.antt =====
-- The quotient and the remainder of integers.
use sunder.Prelude.{
  ℕ, ◌*◌, ◌<◌, Option, Bool, true, false, ◌||◌, ◌==◌, ◌≡◌, ◌≢◌, refl, sym, ap, arith, List, ◌∙◌,
  ◌>>=◌, some,
}
use sunder.Prelude.Int.{ℤ, pos, negsuc, ◌+ℤ◌, ◌*ℤ◌, ◌≤ℤ◌, nat_abs}
use native.Mathlib.Nat.{one-le-pow}
use sunder.Bigint.Repr.{Bigint, bigint_zero, nought, rank}
use sunder.Bigint.Value.{value, IsValid}
use sunder.Bigint.Cmp.{cmp}
use sunder.Bigint.Cmp.Order.{order, cmp-eq-order}
use sunder.Bigint.Product.Laws.{bigint_zero-IsValid}
use sunder.Bigint.Division.{divrem}
use sunder.Bigint.Division.Laws.{Divides, divrem-Divides}
use sunder.Bitarr.RoundTrip.{Fits}
use sunder.Eval.Types.{DataType, Arch, type_is_uinteger, type_is_sinteger}
use sunder.Eval.Values.{
  Floats, Value, integer_value, Outcome, returns, asserted, fatal, out_of_range_result,
  divide_by_zero, and_then,
}
use sunder.Eval.Range.{IsSized, is_sized-IsSized, type_bits, type_bits-size}
use sunder.Eval.Arithmetic.{Exact, in_range, outside, checked-Exact, made_integer, same_type_self}
use sunder.Eval.Operators.{
  Bop, bop_div, bop_rem, binary_cases, eval_binary, divide, remainder, checked, value_new_integer,
}

-- The quotient and the remainder of two integers of a type, as the two operators return them.
pub record Divided {floats : Floats} {Other : DataType → Type 0} (t : DataType) (n : ℕ) (x y : ℤ)
    (div rem : Outcome (Value floats Other)) : Type 0 where
  pub quotient_of : Bigint
  pub remainder_of : Bigint
  pub division : x ≡ value quotient_of *ℤ y +ℤ value remainder_of
  pub smaller : nat_abs (value remainder_of) < nat_abs y
  pub above_zero : pos 0 ≤ℤ x → pos 0 ≤ℤ value remainder_of
  pub below_zero : x ≤ℤ pos 0 → value remainder_of ≤ℤ pos 0
  pub div_out : Exact t n (value quotient_of) div
  pub rem_returns :
      Fits (type_is_sinteger t) n (value quotient_of) → rem ≡ returns (integer_value t remainder_of)
  pub rem_fatal :
      ¬ Fits (type_is_sinteger t) n (value quotient_of) → rem ≡ fatal out_of_range_result

zero_test : (z : ℤ) → z ≢ pos 0 → (rank (order z (pos 0)) == rank nought) ≡ false
zero_test (pos m) ne = let nz : m ≢ 0 = λ e. ne (ap pos e) in ground (arith, nz)
zero_test (negsuc m) ne = ground arith

remainder-Fits :
    (s : Bool) (n : ℕ) (x y r : ℤ)
    → Fits s n x
    → Fits s n y
    → nat_abs r < nat_abs y
    → (pos 0 ≤ℤ x → pos 0 ≤ℤ r)
    → Fits s n r
remainder-Fits false n (pos m) (pos k) (pos r) fx fy lt sign = omega arith
remainder-Fits false n (pos m) (pos k) (negsuc r) fx fy lt sign =
    absurd (omega (arith, sign (omega arith)))
remainder-Fits false n (pos m) (negsuc k) r fx fy lt sign =
    absurd (omega (arith, one-le-pow n 2 (omega arith)))
remainder-Fits false n (negsuc m) y r fx fy lt sign =
    absurd (omega (arith, one-le-pow n 2 (omega arith)))
remainder-Fits true n x (pos k) (pos r) fx fy lt sign = omega arith
remainder-Fits true n x (pos k) (negsuc r) fx fy lt sign = omega arith
remainder-Fits true n x (negsuc k) (pos r) fx fy lt sign = omega arith
remainder-Fits true n x (negsuc k) (negsuc r) fx fy lt sign = omega arith

-- What follows a checked integer.
after :
    {floats : Floats} {Other : DataType → Type 0} (t : DataType) (n : ℕ) (z : ℤ)
    (c k : Outcome (Value floats Other))
    → Exact t n z c
    → (Fits (type_is_sinteger t) n z → and_then c (λ v. k) ≡ k)
      × (¬ Fits (type_is_sinteger t) n z → and_then c (λ v. k) ≡ fatal out_of_range_result)
after t n z c k (in_range out v e fits) = (λ f. refl, λ nf. absurd (nf fits))
after t n z c k (outside beyond) = (λ f. absurd (beyond f), λ nf. refl)

module _ (arch : Arch) (floats : Floats) (Other : DataType → Type 0) (strtoumax : List ℕ → Option ℕ)
    (same_other : (t : DataType) → Other t → (u : DataType) → Other u → Outcome Bool) (t : DataType)
    (a b : Bigint) (va : IsValid a) (vb : IsValid b) where
  abbrev run : Bop → Outcome (Value floats Other)
  run op =
      eval_binary arch floats Other strtoumax same_other t op (integer_value t a)
        (integer_value t b)

  cmp_test : value b ≢ pos 0 → (rank (cmp b bigint_zero) == rank nought) ≡ false
  cmp_test ne = rw (cmp-eq-order b bigint_zero vb bigint_zero-IsValid) (zero_test (value b) ne)

  cmp_zero : value b ≡ pos 0 → (rank (cmp b bigint_zero) == rank nought) ≡ true
  cmp_zero e = rw (cmp-eq-order b bigint_zero vb bigint_zero-IsValid, e) refl

  run_div :
      (sized : IsSized arch t)
      → value b ≢ pos 0
      → run bop_div ≡ checked arch floats Other t (divrem a b >>= λ both. some both.0)
  unfolding eval_binary binary_cases divide
  run_div sized ne = rw (same_type_self arch floats Other t, sized.integer, cmp_test ne) refl

  run_rem :
      (sized : IsSized arch t)
      → value b ≢ pos 0
      → run bop_rem
        ≡ and_then (asserted (divrem a b)) (λ both.
          and_then
            (checked arch floats Other t (some both.0))
            (λ quotient. value_new_integer arch floats Other t both.1))
  unfolding eval_binary binary_cases remainder
  run_rem sized ne = rw (sized.integer, cmp_test ne) refl

  -- The quotient `/` and the remainder `%` of a valid integer of a sized type by zero are the
  -- message on a division by zero.
  pub eval_binary-divide_by_zero :
      (type_is_uinteger t || type_is_sinteger t) ≡ true
      → value b ≡ pos 0
      → (run bop_div ≡ fatal divide_by_zero) × (run bop_rem ≡ fatal divide_by_zero)
  unfolding eval_binary binary_cases divide remainder
  eval_binary-divide_by_zero h e =
      let sized = is_sized-IsSized arch t h in
      rw (same_type_self arch floats Other t, sized.integer, cmp_zero e) (refl, refl)

  divided :
      (sized : IsSized arch t)
      → Divides (divrem a b) (value a) (value b)
      → value b ≢ pos 0
      → Fits (type_is_sinteger t) (8 * sized.bytes) (value a)
      → Fits (type_is_sinteger t) (8 * sized.bytes) (value b)
      → Divided t (8 * sized.bytes) (value a) (value b) (run bop_div) (run bop_rem)
  divided sized d ne fa fb =
      let s = type_is_sinteger t in
      let n = 8 * sized.bytes in
      let q_out =
        checked-Exact arch floats Other t (some d.quotient) (value d.quotient) sized (record {
          out = d.quotient;
          returns = refl;
          valid = d.valid_quotient;
          value_out = refl;
        }) in
      let fits =
        remainder-Fits s n (value a) (value b) (value d.remainder) fa fb d.smaller d.above_zero in
      let made = made_integer arch floats Other t d.remainder sized d.valid_remainder fits in
      let next =
        after t n (value d.quotient) (checked arch floats Other t (some d.quotient))
          (value_new_integer arch floats Other t d.remainder) q_out in
      let rem : run bop_rem
          ≡ and_then (checked arch floats Other t (some d.quotient))
              (λ quotient. value_new_integer arch floats Other t d.remainder) =
        run_rem sized ne ∙ rw (d.returns) refl in
      record {
        quotient_of = d.quotient;
        remainder_of = d.remainder;
        division = d.division;
        smaller = d.smaller;
        above_zero = d.above_zero;
        below_zero = d.below_zero;
        div_out = rw (run_div sized ne, d.returns) q_out;
        rem_returns = λ f. rem ∙ next.0 f ∙ made;
        rem_fatal = λ nf. rem ∙ next.1 nf;
      }

  -- On valid integers of one sized type that its bits hold, with a divisor other than zero, `/`
  -- and `%` give a quotient q and a remainder r with a = q * b + r, |r| < |b|, and r not of the
  -- opposite sign to a; both are the message on a result out of range where the type does not hold
  -- q, and no assertion fails.
  pub eval_binary-Divided :
      (type_is_uinteger t || type_is_sinteger t) ≡ true
      → value b ≢ pos 0
      → Fits (type_is_sinteger t) (type_bits arch t) (value a)
      → Fits (type_is_sinteger t) (type_bits arch t) (value b)
      → Divided t (type_bits arch t) (value a) (value b) (run bop_div) (run bop_rem)
  eval_binary-Divided h ne fa fb =
      let sized = is_sized-IsSized arch t h in
      let n = type_bits-size sized in
      let fa' : Fits (type_is_sinteger t) (8 * sized.bytes) (value a) = rw (sym n) fa in
      let fb' : Fits (type_is_sinteger t) (8 * sized.bytes) (value b) = rw (sym n) fb in
      rw n (divided sized (divrem-Divides a b va vb ne) ne fa' fb')
