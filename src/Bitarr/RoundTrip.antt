-- ===== src/Bitarr/RoundTrip.antt =====
-- An integer in the range of its bits comes back from `bigint_to_bitarr` and `bitarr_to_bigint`.
use sunder.Prelude.{
  ℕ, ◌-◌, suc, ◌*◌, ◌^◌, ◌≤◌, ◌<◌, some, ◌≡◌, refl, sym, ◌∙◌, ap, arith, Bool, true, false, ◌>>=◌,
  Bool-cases, inl, inr, ltb, leb,
}
use sunder.Prelude.Int.{ℤ, pos, negsuc, nat_abs, sub_ℕ}
use native.Mathlib.Nat.{one-le-pow}
use sunder.Bigint.Repr.{Bigint}
use sunder.Bigint.Value.{magnitude, value, IsValid}
use sunder.Bigint.Value.Normal.{value_injective}
use sunder.Bigint.Magnitude.Count.{bit_count-le}
use sunder.Bitarr.{Bitarr, to_bigint, of_bigint}
use sunder.Bitarr.Access.{IsBitarr}
use sunder.Bitarr.Convert.{wrapped, abs_value, of_bigint-Holds}
use sunder.Bitarr.Back.{unwrapped, to_bigint-Yields}

-- The integers that `n` bits can hold.
abbrev pub Fits : Bool → ℕ → ℤ → Type 0
Fits false n (pos m) = m < 2 ^ n
Fits false n (negsuc m) = 2 ^ n ≤ 0
Fits true n (pos m) = 2 * m < 2 ^ n
Fits true n (negsuc m) = 2 * suc m ≤ 2 ^ n

pub Fits-lt : (s : Bool) (n : ℕ) (z : ℤ) → Fits s n z → nat_abs z < 2 ^ n
Fits-lt false n (pos m) h = omega arith
Fits-lt false n (negsuc m) h = absurd (omega (arith, one-le-pow n 2 (omega arith)))
Fits-lt true n (pos m) h = omega arith
Fits-lt true n (negsuc m) h = omega arith

unwrapped-wrapped : (s : Bool) (n : ℕ) (z : ℤ) → Fits s n z → unwrapped s n (wrapped n z) ≡ z
unwrapped-wrapped false n (pos m) h = refl
unwrapped-wrapped false n (negsuc m) h = absurd (omega (arith, one-le-pow n 2 (omega arith)))
unwrapped-wrapped true n (pos m) h = ground arith
unwrapped-wrapped true n (negsuc m) h = ground arith

-- What `n` bits stand for is in their range.
pub unwrapped-Fits : (s : Bool) (n m : ℕ) → m < 2 ^ n → Fits s n (unwrapped s n m)
unwrapped-Fits false n m h = h
unwrapped-Fits true n m h = elim (Bool-cases (ltb (2 * m) (2 ^ n))) [
  | inl low ↦ rw low (ground arith)
  | inr high ↦
      let le : leb (2 ^ n) m ≡ false = ground arith in
      let below : sub_ℕ m (2 ^ n) ≡ negsuc (2 ^ n - m - 1) = rw le refl in
      rw (high, below) (ground arith)
]

-- For a valid integer in the range of the bits of the array, signed or not, `bigint_to_bitarr`
-- followed by `bitarr_to_bigint` returns that integer, and neither stops the process.
pub to_bigint-of_bigint :
    (res : Bitarr) (b : Bigint) (is_signed : Bool)
    → IsBitarr res
    → IsValid b
    → Fits is_signed res.count (value b)
    → (of_bigint res b >>= λ written. written >>= λ a. to_bigint a is_signed) ≡ some b
to_bigint-of_bigint res b is_signed whole v fits =
    let small : magnitude b.limbs < 2 ^ res.count =
      rw (sym (abs_value b v)) (Fits-lt is_signed res.count (value b) fits) in
    let w = of_bigint-Holds res b whole v (bit_count-le b res.count v small) in
    let r = to_bigint-Yields w.out is_signed in
    let same : value r.out ≡ value b =
      r.value_out
      ∙ rw (w.same_count, w.number_out) (unwrapped-wrapped is_signed res.count (value b) fits) in
    rw (w.returns, r.returns) (ap some (value_injective r.out b r.valid v same))
