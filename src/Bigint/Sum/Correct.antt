-- ===== src/Bigint/Sum/Correct.antt =====
-- `bigint_add` and `bigint_sub` compute the sum and the difference.
use sunder.Prelude.{ℕ, suc, ◌+◌, ◌^◌, ◌≤◌, ◌<◌, ◌≡◌, ◌≢◌, refl, ◌∙◌, sym, arith, length, ap}
use sunder.Prelude.{if◌then◌else◌, some, Bool, true, false}
use sunder.Prelude.Int.{ℤ, ◌+ℤ◌, ◌-ℤ◌, neg_ℤ}
use sunder.Bigint.Repr.{Sign, minus, nought, plus, Bigint, normalize, assign, neg, sign_mul}
use sunder.Bigint.Value.{magnitude, signed, value, AllBytes, IsValid, Yields}
use sunder.Bigint.Value.Limbs.{magnitude-lt, pow_mono}
use sunder.Bigint.Value.Normal.{normalize-IsValid, value-normalize}
use sunder.Bigint.Cmp.{cmp}
use sunder.Bigint.Cmp.Order.{order, order_ℕ, cmp-eq-order}
use sunder.Bigint.Sum.Loops.{add_loop_lem, sub_loop_lem}
use sunder.Bigint.Sum.{max_count, add_loop, sub_loop, add_magnitudes, sub_ordered, sub_magnitudes}
use native.Mathlib.Nat.{pow-suc}
use native.Mathlib.Decide.{dec_le}

pub neg-IsValid : (b : Bigint) → IsValid b → IsValid (neg b)
unfolding neg assign
neg-IsValid b v = record {
  bytes = v.bytes;
  trimmed = v.trimmed;
  zero_sign = λ e. v.zero_sign (ground arith);
  zero_limbs = λ e. ground (arith, v.zero_limbs e);
}

-- `bigint_neg` negates.
pub value-neg : (b : Bigint) → value (neg b) ≡ neg_ℤ (value b)
unfolding neg assign
value-neg b = ground arith

signed_sum :
    (s t : Sign) (m n k : ℕ)
    → s ≡ t
    → s ≢ nought
    → k ≡ m + n + 0
    → signed s k ≡ signed s m +ℤ signed t n
unfolding ◌+ℤ◌
signed_sum minus t m n k e ne h = ground arith
signed_sum s t m n k e ne h = ground arith

signed_difference :
    (s t : Sign) (m n k : ℕ)
    → s ≡ t
    → s ≢ nought
    → k + n + 0 ≡ m
    → signed s k ≡ signed s m -ℤ signed t n
unfolding ◌-ℤ◌
signed_difference minus t m n k e ne h = ground arith
signed_difference s t m n k e ne h = ground arith

-- What a loop has written, normalised.
pub Yields-normalize :
    (b : Bigint) (z : ℤ)
    → AllBytes b.limbs
    → b.sign ≢ nought
    → value b ≡ z
    → Yields (some (assign (normalize b))) z
Yields-normalize b z bytes s e = record {
  out = normalize b;
  returns = unfold assign in refl;
  valid = normalize-IsValid b bytes (λ n. absurd (s n));
  value_out = value-normalize b ∙ e;
}

module _ (l r : Bigint) (bl : AllBytes l.limbs) (br : AllBytes r.limbs) where
  lhs-lt : magnitude l.limbs < 256 ^ max_count l r
  lhs-lt = ground (arith, magnitude-lt l.limbs bl, pow_mono (length l.limbs) (length r.limbs))

  rhs-lt : magnitude r.limbs < 256 ^ max_count l r
  rhs-lt = ground (arith, magnitude-lt r.limbs br, pow_mono (length r.limbs) (length l.limbs))

  -- What the loop of `bigint_sub` has written.
  abbrev difference : Bigint
  difference = record { sign = l.sign; limbs = (sub_loop l.limbs r.limbs (max_count l r) 0 0).0 }

  difference_lem :
      magnitude r.limbs ≤ magnitude l.limbs
      → AllBytes difference.limbs
        × (magnitude difference.limbs + magnitude r.limbs + 0 ≡ magnitude l.limbs)
        × ((sub_loop l.limbs r.limbs (max_count l r) 0 0).1 ≡ 0)
  difference_lem le =
      sub_loop_lem l.limbs r.limbs bl br (max_count l r) 0 0 (omega arith) (omega arith) lhs-lt

  sub_ordered_returns :
      (swapped : Bool)
      → magnitude r.limbs ≤ magnitude l.limbs
      → sub_ordered swapped l r
        ≡ some (assign (normalize (if swapped then neg difference else difference)))
  unfolding sub_ordered
  sub_ordered_returns swapped le = ground (arith, difference_lem le)

  sub_ordered-Yields :
      (swapped : Bool)
      → l.sign ≡ r.sign
      → l.sign ≢ nought
      → magnitude r.limbs ≤ magnitude l.limbs
      → Yields
          (sub_ordered swapped l r)
          (if swapped then neg_ℤ (value l -ℤ value r) else value l -ℤ value r)
  sub_ordered-Yields true same ne le = rw (sub_ordered_returns true le) (
      Yields-normalize (neg difference) _ (unfold neg assign in (difference_lem le).0)
        (unfold neg assign in ground arith)
        (value-neg difference
          ∙ ap neg_ℤ (signed_difference l.sign r.sign _ _ _ same ne (difference_lem le).1)))
  sub_ordered-Yields false same ne le = rw (sub_ordered_returns false le) (
      Yields-normalize difference _ (difference_lem le).0 ne
        (signed_difference l.sign r.sign _ _ _ same ne (difference_lem le).1))

  pub add_magnitudes-Yields :
      l.sign ≡ r.sign → l.sign ≢ nought → Yields (add_magnitudes l r) (value l +ℤ value r)
  add_magnitudes-Yields same ne =
      rw returns
        (Yields-normalize written _ sum.0 ne (signed_sum l.sign r.sign _ _ _ same ne sum.1))
    where
      n : ℕ
      n = suc (max_count l r)

      written : Bigint
      written = record { sign = l.sign; limbs = (add_loop l.limbs r.limbs n 0 0).0 }

      sum :
          AllBytes written.limbs
          × (magnitude written.limbs ≡ magnitude l.limbs + magnitude r.limbs + 0)
          × ((add_loop l.limbs r.limbs n 0 0).1 ≡ 0)
      sum =
          add_loop_lem l.limbs r.limbs bl br n 0 0 (omega arith)
            (omega (arith, pow-suc 256 (max_count l r), lhs-lt, rhs-lt))

      returns : add_magnitudes l r ≡ some (assign (normalize written))
      returns = unfold add_magnitudes in ground (arith, sum)

order-signed :
    (s t : Sign) (m n : ℕ) → s ≡ t → order (signed s m) (signed t n) ≡ sign_mul s (order_ℕ m n)
order-signed minus minus m n e = ground arith
order-signed nought nought m n e = ground arith
order-signed plus plus m n e = ground arith
order-signed _ _ m n e = absurd (cc)

swap_difference : (a b : ℤ) → neg_ℤ (b -ℤ a) ≡ a -ℤ b
unfolding ◌-ℤ◌
swap_difference a b = ground arith

module _ (l r : Bigint) (vl : IsValid l) (vr : IsValid r) where
  pub sub_magnitudes-Yields :
      l.sign ≡ r.sign → l.sign ≢ nought → Yields (sub_magnitudes l r) (value l -ℤ value r)
  sub_magnitudes-Yields same ne = elim (dec_le (magnitude r.limbs) (magnitude l.limbs)) [
    | yes le ↦ rw (straight le) (sub_ordered-Yields l r vl.bytes vr.bytes false same ne le)
    | no gt ↦
        rw (crossed gt, ← swap_difference (value l) (value r))
          (sub_ordered-Yields r l vr.bytes vl.bytes true (sym same) (λ e. ne (same ∙ e))
            (omega arith))
  ]
    where
      compared : cmp l r ≡ sign_mul l.sign (order_ℕ (magnitude l.limbs) (magnitude r.limbs))
      compared = cmp-eq-order l r vl vr ∙ order-signed l.sign r.sign _ _ same

      straight : magnitude r.limbs ≤ magnitude l.limbs → sub_magnitudes l r ≡ sub_ordered false l r
      straight le = unfold sub_magnitudes in ground (arith, compared)

      crossed :
          ¬ (magnitude r.limbs ≤ magnitude l.limbs) → sub_magnitudes l r ≡ sub_ordered true r l
      crossed gt = unfold sub_magnitudes in ground (arith, compared)
