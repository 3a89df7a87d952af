-- ===== src/Bigint/Division.antt =====
-- util.c: `bigint_divrem`, binary long division.
pub mod Step
pub mod Laws
use sunder.Prelude.{ℕ, zero, suc, Option, none, some, leb, if◌then◌else◌, ◌>>=◌}
use sunder.Bigint.Repr.{rank, nought, sign_mul, Bigint, bigint_zero, normalize, assign, abs}
use sunder.Bigint.Cmp.{cmp}
use sunder.Bigint.Sum.{has_sign, sub}
use sunder.Bigint.Magnitude.{bit_count, bit_get, bit_set, shiftl}

module _ (dividend divisor : Bigint) where
  -- The body of the loop at the digit `i`: the new quotient and remainder.
  pub div_step : ℕ → Bigint → Bigint → Option (Bigint × Bigint)
  div_step i quotient remainder =
      let shifted = bit_set (shiftl remainder 1) 0 (bit_get dividend i) in
      if leb (rank nought) (rank (cmp shifted divisor))
      then (sub shifted divisor >>= λ reduced. some (bit_set quotient i 1, reduced))
      else some (quotient, shifted)

  -- The loop, with the digits below `i` left.
  pub div_loop : ℕ → Bigint → Bigint → Option (Bigint × Bigint)
  unfolding div_step
  div_loop zero quotient remainder = some (quotient, remainder)
  div_loop (suc i) quotient remainder =
      div_step i quotient remainder >>= λ (quotient', remainder'). div_loop i quotient' remainder'

-- The quotient and the remainder. A zero divisor stops the process.
pub divrem : Bigint → Bigint → Option (Bigint × Bigint)
unfolding div_loop
divrem lhs rhs =
    if has_sign nought rhs
    then none
    else div_loop (abs lhs) (abs rhs) (bit_count lhs) bigint_zero bigint_zero
      >>= λ (quotient, remainder). some (
        assign (normalize (record quotient { sign = sign_mul lhs.sign rhs.sign })),
        assign (normalize (record remainder { sign = lhs.sign })),
      )
