-- ===== src/Eval/Negate.antt =====
-- The two negations of integers.
use sunder.Prelude.{
  ℕ, zero, suc, ◌+◌, ◌-◌, ◌*◌, ◌%◌, ◌^◌, ◌<◌, Bool, true, false, Option, some, ◌≡◌, refl, sym, ap,
  arith, ◌∙◌, ◌||◌,
}
use sunder.Prelude.Int.{ℤ, pos, negsuc, neg_ℤ}
use native.Mathlib.Nat.{mod-eq_of_lt, one-le-pow}
use sunder.Bigint.Repr.{Bigint, neg}
use sunder.Bigint.Value.{value, magnitude, IsValid}
use sunder.Bigint.Sum.Correct.{neg-IsValid, value-neg}
use sunder.Bigint.Magnitude.Count.{bit_count-le}
use mathlib.Core.Path.{subst}
use sunder.Bitarr.{Bitarr, new, twos_complement_neg}
use sunder.Bitarr.Number.{number, digits_number, digit}
use sunder.Bitarr.Complement.{Becomes, complement, twos_complement_neg-Becomes}
use sunder.Bitarr.Convert.{abs_value, of_bigint-Holds, wrapped}
use sunder.Bitarr.Back.{new-IsBitarr, unwrapped, to_bigint-Yields}
use sunder.Bitarr.RoundTrip.{Fits, Fits-lt, unwrapped-Fits}
use sunder.Bitarr.Low.{residue, residue-lt}
use sunder.Eval.Types.{DataType, Arch, type_is_uinteger, type_is_sinteger}
use sunder.Eval.Values.{Floats, integer_value}
use sunder.Eval.Range.{IsSized, is_sized-IsSized, type_bits, type_bits-size}
use sunder.Eval.Arithmetic.{Exact, checked-Exact, made_integer}
use sunder.Eval.Wrapping.{Wraps}
use sunder.Eval.Unary.{eval_neg, eval_neg_wrapping}

complement-residue :
    (n : ℕ) (z : ℤ) → Fits true n z → complement n (wrapped n z) ≡ residue n (neg_ℤ z)
complement-residue n (pos zero) h = sym (mod-eq_of_lt (one-le-pow n 2 (omega arith)))
complement-residue n (pos (suc m)) h =
    let small : m % 2 ^ n ≡ m = mod-eq_of_lt (omega arith) in
    let below : neg_ℤ (pos (suc m)) ≡ negsuc m = ground arith in
    let same : 2 ^ n - suc m ≡ 2 ^ n - 1 - m % 2 ^ n = omega (arith, small) in
    same ∙ ap (residue n) (sym below)
complement-residue n (negsuc m) h =
    let small : suc m % 2 ^ n ≡ suc m = mod-eq_of_lt (omega (arith, h)) in
    let above : neg_ℤ (negsuc m) ≡ pos (suc m) = ground arith in
    positive (2 ^ n - suc m) (omega (arith, h)) (omega (arith, h))
    ∙ sym small
    ∙ ap (residue n) (sym above)
  where
    positive : (k : ℕ) → 0 < k → k + suc m ≡ 2 ^ n → complement n k ≡ suc m
    positive zero p e = absurd (omega arith)
    positive (suc k) p e = omega (arith, e)

counted :
    (r : Option Bitarr) (k n z : ℕ)
    → k ≡ n
    → Becomes r k (complement k z)
    → Becomes r n (complement n z)
counted r k n z e c = subst (λ x. Becomes r x (complement x z)) e c

or_true : (x : Bool) → (x || true) ≡ true
or_true true = refl
or_true false = refl

module _ (arch : Arch) (floats : Floats) (Other : DataType → Type 0) (t : DataType)
    (b : Bigint) where
  neg-Exact :
      (sized : IsSized arch t)
      → type_is_sinteger t ≡ true
      → IsValid b
      → Exact t
          (8 * sized.bytes)
          (neg_ℤ (value b))
          (eval_neg arch floats Other t (integer_value t b))
  unfolding eval_neg
  neg-Exact sized h v = rw h (
      checked-Exact arch floats Other t (some (neg b)) (neg_ℤ (value b)) sized
        (record { out = neg b; returns = refl; valid = neg-IsValid b v; value_out = value-neg b }))

  neg-Wraps :
      (sized : IsSized arch t)
      → type_is_sinteger t ≡ true
      → IsValid b
      → Fits true (sized.bytes * 8) (value b)
      → Wraps t
          (sized.bytes * 8)
          (neg_ℤ (value b))
          (eval_neg_wrapping arch floats Other t (integer_value t b))
  neg-Wraps sized h v f =
      let n = sized.bytes * 8 in
      let small : magnitude b.limbs < 2 ^ n =
        rw (sym (abs_value b v)) (Fits-lt true n (value b) f) in
      let w = of_bigint-Holds (new n) b (new-IsBitarr n) v (bit_count-le b n v small) in
      let c =
        counted (twos_complement_neg w.out w.out) w.out.count n (number w.out) w.same_count
          (twos_complement_neg-Becomes w.out w.out w.keeps refl) in
      let r = to_bigint-Yields c.out true in
      let full : number w.out ≡ wrapped n (value b) =
        ap (digits_number (digit w.out)) w.same_count ∙ w.number_out in
      let low : digits_number (digit c.out) n ≡ residue n (neg_ℤ (value b)) =
        c.number_out ∙ ap (complement n) full ∙ complement-residue n (value b) f in
      let value_out : value r.out ≡ unwrapped (type_is_sinteger t) n (residue n (neg_ℤ (value b))) =
        r.value_out
        ∙ ap (λ (k : ℕ). unwrapped true k (digits_number (digit c.out) k)) c.same_count
        ∙ ap (unwrapped true n) low
        ∙ ap (λ (s : Bool). unwrapped s n (residue n (neg_ℤ (value b)))) (sym h) in
      let m : n ≡ 8 * sized.bytes = omega arith in
      let fits : Fits (type_is_sinteger t) (8 * sized.bytes) (value r.out) =
        rw (sym m, value_out)
          (unwrapped-Fits (type_is_sinteger t) n (residue n (neg_ℤ (value b)))
            (residue-lt n (neg_ℤ (value b)))) in
      record {
        out = r.out;
        returned =
            unfold eval_neg_wrapping in
            rw (h, sized.has_size, w.returns, c.returns, r.returns)
              (made_integer arch floats Other t r.out sized r.valid fits);
        valid = r.valid;
        value_out = value_out;
      }

  -- On a valid integer of a signed type that its bits hold, `-` gives the exact result when the
  -- bits of the type hold it and the message on a result out of range when they do not, and `-%`
  -- the integer of the type whose bits are the exact result modulo the power of two; no assertion
  -- fails.
  pub eval_neg-Exact :
      (signed : type_is_sinteger t ≡ true)
      → IsValid b
      → Fits true (type_bits arch t) (value b)
      → Exact t
          (type_bits arch t)
          (neg_ℤ (value b))
          (eval_neg arch floats Other t (integer_value t b))
        × Wraps t
            (type_bits arch t)
            (neg_ℤ (value b))
            (eval_neg_wrapping arch floats Other t (integer_value t b))
  eval_neg-Exact h v f =
      let either : (type_is_uinteger t || type_is_sinteger t) ≡ true =
        rw h (or_true (type_is_uinteger t)) in
      let sized = is_sized-IsSized arch t either in
      let n : type_bits arch t ≡ 8 * sized.bytes = type_bits-size sized in
      let n' : type_bits arch t ≡ sized.bytes * 8 = n ∙ omega arith in
      let f' : Fits true (sized.bytes * 8) (value b) = rw (sym n') f in
      (rw n (neg-Exact sized h v), rw n' (neg-Wraps sized h v f'))
