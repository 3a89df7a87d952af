-- ===== src/Bigint/Product/Laws.antt =====
-- `bigint_mul` computes the product.
use sunder.Prelude.{ℕ, zero, suc, ◌+◌, ◌-◌, ◌*◌, ◌^◌, some, ◌≡◌, ◌≢◌, refl, ◌∙◌, arith}
use sunder.Prelude.{length, replicate, length-replicate, true, false, leb}
use native.Mathlib.Nat.{one-le-pow}
use native.Mathlib.Decide.{ℕ_discrete}
use sunder.Prelude.Int.{ℤ, pos, ◌*ℤ◌}
use sunder.Bigint.Repr.{
  Sign, minus, nought, sign_mul, rank, Bigint, bigint_zero, resize, normalize, assign,
}
use sunder.Bigint.Value.{magnitude, signed, value, AllBytes, IsValid, Yields}
use sunder.Bigint.Value.Limbs.{AllBytes-replicate, magnitude-replicate}
use sunder.Bigint.Sum.{has_sign}
use sunder.Bigint.Sum.Correct.{Yields-normalize}
use sunder.Bigint.Sum.Laws.{Yields-assign, Yields-cast, zero_value}
use sunder.Bigint.Product.Rows.{Adds, rows_lem}
use sunder.Bigint.Product.{rows, mul}

pub bigint_zero-IsValid : IsValid bigint_zero
bigint_zero-IsValid = record {
  bytes = tt;
  trimmed = tt;
  zero_sign = λ e. refl;
  zero_limbs = λ e. refl;
}

resize_zero : (n : ℕ) → (resize bigint_zero n).limbs ≡ replicate n 0
unfolding resize
resize_zero zero = refl
resize_zero (suc n) =
    let above : leb (suc n) 0 ≡ false = ground arith in
    let all : suc n - 0 ≡ suc n = omega arith in rw (above, all)

pub signed_product :
    (s t : Sign) (m n k : ℕ) → k ≡ m * n → signed (sign_mul s t) k ≡ signed s m *ℤ signed t n
unfolding ◌*ℤ◌
signed_product minus minus m n k e = grind arith
signed_product s t m n k e = grind arith

zero-*ℤ : (a : ℤ) → pos 0 *ℤ a ≡ pos 0
unfolding ◌*ℤ◌
zero-*ℤ a = ground arith

*ℤ-zero : (a : ℤ) → a *ℤ pos 0 ≡ pos 0
unfolding ◌*ℤ◌
*ℤ-zero a = ground arith

skip : (b : Bigint) → b.sign ≢ nought → has_sign nought b ≡ false
skip b h = ground arith

stop : (b : Bigint) → b.sign ≡ nought → has_sign nought b ≡ true
stop b h = ground arith

module _ (l r : Bigint) (bl : AllBytes l.limbs) (br : AllBytes r.limbs) where
  mul_nonzero-Yields : l.sign ≢ nought → r.sign ≢ nought → Yields (mul l r) (value l *ℤ value r)
  mul_nonzero-Yields nl nr =
      Yields-cast (some (assign (normalize product))) (value l *ℤ value r)
        (Yields-normalize product _ done.bytes (ground arith)
          (signed_product l.sign r.sign _ _ _ (done.sum ∙ rw magnitude-replicate (omega arith))))
        (unfold mul in rw (skip l nl, skip r nr, resize_zero, done.returns)) refl
    where
      count : ℕ
      count = length l.limbs + length r.limbs

      done :
          Adds
            (rows l.limbs r.limbs (length l.limbs) (length r.limbs) 0 (replicate count 0))
            (replicate count 0)
            (magnitude (replicate count 0) + magnitude l.limbs * magnitude r.limbs * 256 ^ 0)
      done =
          rows_lem l.limbs r.limbs bl br (length r.limbs) 0 (replicate count 0) (omega arith)
            (length-replicate count 0) (AllBytes-replicate count)
            (rw magnitude-replicate (one-le-pow (0 + length l.limbs) 256 (omega arith)))

      product : Bigint
      product = record { sign = sign_mul l.sign r.sign; limbs = done.out }

  pub mul_bytes-Yields : Yields (mul l r) (value l *ℤ value r)
  mul_bytes-Yields = elim (ℕ_discrete (rank l.sign) 1) [
    | yes e ↦
        Yields-cast _ _ (Yields-assign bigint_zero bigint_zero-IsValid)
          (unfold mul in rw (stop l (ground arith)))
          (rw (zero_value l (ground arith)) (zero-*ℤ (value r)))
    | no n ↦ elim (ℕ_discrete (rank r.sign) 1) [
      | yes e ↦
          Yields-cast _ _ (Yields-assign bigint_zero bigint_zero-IsValid)
            (unfold mul in rw (skip l (λ e. n (ground arith)), stop r (ground arith)))
            (rw (zero_value r (ground arith)) (*ℤ-zero (value l)))
      | no m ↦ mul_nonzero-Yields (λ e. n (ground arith)) (λ e. m (ground arith))
    ]
  ]

-- The process does not stop, and `bigint_mul` returns the product of two valid integers.
pub mul-Yields : (l r : Bigint) → IsValid l → IsValid r → Yields (mul l r) (value l *ℤ value r)
mul-Yields l r vl vr = mul_bytes-Yields l r vl.bytes vr.bytes
