-- ===== src/Eval/Wrapping.antt =====
-- The operators of integers that wrap around.
use sunder.Prelude.{
  ℕ, suc, ◌+◌, ◌-◌, ◌*◌, ◌%◌, ◌^◌, ◌≤◌, ◌<◌, Option, some, Bool, true, ◌||◌, ◌≡◌, refl, sym, ◌∙◌,
  ap, arith, List,
}
use sunder.Prelude.Int.{ℤ, pos, negsuc, nat_abs, ◌+ℤ◌, ◌-ℤ◌, ◌*ℤ◌}
use native.Mathlib.Nat.{pow-suc, one-le-pow}
use sunder.Bigint.Repr.{Bigint}
use sunder.Bigint.Value.{value, IsValid, Yields, magnitude}
use sunder.Bigint.Sum.{add, sub}
use sunder.Bigint.Sum.Laws.{add-Yields, sub-Yields}
use sunder.Bigint.Product.{mul}
use sunder.Bigint.Product.Laws.{mul-Yields}
use sunder.Bigint.Magnitude.Count.{bit_count-le}
use sunder.Bitarr.{Bitarr, new, copy_bits, to_bigint}
use sunder.Bitarr.Number.{digit, digits_number, digits_number_ext, digit-lt}
use sunder.Bitarr.Convert.{abs_value, of_bigint-Holds, copy_bits-Copies, wrapped}
use sunder.Bitarr.Back.{new-IsBitarr, unwrapped, to_bigint-Yields}
use sunder.Bitarr.RoundTrip.{Fits, Fits-lt, unwrapped-Fits}
use sunder.Bitarr.Low.{residue, residue-lt, wrapped-mod, digits_number-mod, two-pow-plus}
use sunder.Eval.Types.{Arch, DataType, type_is_sinteger, type_is_uinteger}
use sunder.Eval.Values.{Floats, Value, integer_value, Outcome, returns}
use sunder.Eval.Range.{
  IsSized, is_sized-IsSized, type_bits, type_bits-size, IsSize, one_byte, two_bytes, four_bytes,
  eight_bytes,
}
use sunder.Eval.Arithmetic.{made_integer}
use sunder.Eval.Operators.{
  Bop, bop_add_wrapping, bop_sub_wrapping, bop_mul_wrapping, to_bits, wrapping, binary_cases,
  eval_binary,
}

-- The operators that wrap around, with what they stand for.
pub data Wrapping : Bop → (ℤ → ℤ → ℤ) → Type 0 where
  wrapping_add : Wrapping bop_add_wrapping ◌+ℤ◌
  wrapping_sub : Wrapping bop_sub_wrapping ◌-ℤ◌
  wrapping_mul : Wrapping bop_mul_wrapping ◌*ℤ◌

-- What cutting an integer to `n` bits results in.
record Cut (b : Bigint) (s : Bool) (n : ℕ) : Type 0 where
  wide : Bitarr
  written : to_bits (n * 2) b ≡ returns wide
  narrow : Bitarr
  copied : copy_bits wide n 0 (new n) ≡ some narrow
  out : Bigint
  read : to_bigint narrow s ≡ some out
  valid : IsValid out
  value_out : value out ≡ unwrapped s n (residue n (value b))

cut : (b : Bigint) (s : Bool) (n : ℕ) → IsValid b → nat_abs (value b) < 2 ^ (n * 2) → Cut b s n
cut b s n v small =
    let m : magnitude b.limbs < 2 ^ (n * 2) = rw (sym (abs_value b v)) small in
    let w = of_bigint-Holds (new (n * 2)) b (new-IsBitarr (n * 2)) v (bit_count-le b (n * 2) v m) in
    let c =
      copy_bits-Copies w.out n 0 n (new n) (new-IsBitarr n) (omega arith) (omega arith)
        (omega (arith, w.same_count)) in
    let r = to_bigint-Yields c.out s in
    let twice : n * 2 ≡ n + n = omega arith in
    let low : digits_number (digit c.out) n ≡ residue n (value b) =
      digits_number_ext (digit c.out) (digit w.out) n (λ i lt. c.copied i (omega arith) lt)
      ∙ digits_number-mod (digit w.out) n n (digit-lt w.out)
      ∙ ap (λ (x : ℕ). x % 2 ^ n)
          (ap (digits_number (digit w.out)) (sym twice)
            ∙ w.number_out
            ∙ ap (λ (x : ℕ). wrapped x (value b)) twice)
      ∙ wrapped-mod n n (value b) (rw (sym twice) small) in
    record {
      wide = w.out;
      written = rw w.returns;
      narrow = c.out;
      copied = c.returns;
      out = r.out;
      read = r.returns;
      valid = r.valid;
      value_out = r.value_out ∙ rw (c.same_count, low) refl;
    }

-- An integer of the type with the bits of the integer `z`.
pub record Wraps {floats : Floats} {Other : DataType → Type 0} (t : DataType) (n : ℕ) (z : ℤ)
    (r : Outcome (Value floats Other)) : Type 0 where
  pub out : Bigint
  pub returned : r ≡ returns (integer_value t out)
  pub valid : IsValid out
  pub value_out : value out ≡ unwrapped (type_is_sinteger t) n (residue n z)

sum_lt : (x y p : ℕ) → x < p → y < p → 2 ≤ p → x + y < p * p
sum_lt x y p hx hy h =
    let parts : p ≡ 2 + (p - 2) = omega arith in omega (arith, hx, hy, ap (λ (q : ℕ). p * q) parts)

product_lt : (x y p : ℕ) → x < p → y < p → x * y < p * p
product_lt x y p hx hy =
    let parts : p ≡ suc y + (p - suc y) = omega arith in
    let parts' : p ≡ suc x + (p - suc x) = omega arith in
    omega (arith, hx, hy, ap (λ (q : ℕ). p * q) parts, ap (λ (q : ℕ). q * y) parts')

nat_abs-+ℤ : (a b : ℤ) → nat_abs (a +ℤ b) ≤ nat_abs a + nat_abs b
unfolding ◌+ℤ◌
nat_abs-+ℤ (pos m) (pos n) = ground arith
nat_abs-+ℤ (pos m) (negsuc n) = ground arith
nat_abs-+ℤ (negsuc m) (pos n) = ground arith
nat_abs-+ℤ (negsuc m) (negsuc n) = ground arith

nat_abs--ℤ : (a b : ℤ) → nat_abs (a -ℤ b) ≤ nat_abs a + nat_abs b
unfolding ◌-ℤ◌
nat_abs--ℤ (pos m) (pos n) = ground arith
nat_abs--ℤ (pos m) (negsuc n) = ground arith
nat_abs--ℤ (negsuc m) (pos n) = ground arith
nat_abs--ℤ (negsuc m) (negsuc n) = ground arith

nat_abs-*ℤ : (a b : ℤ) → nat_abs (a *ℤ b) ≡ nat_abs a * nat_abs b
unfolding ◌*ℤ◌
nat_abs-*ℤ (pos m) (pos n) = ground arith
nat_abs-*ℤ (pos m) (negsuc n) = ground arith
nat_abs-*ℤ (negsuc m) (pos n) = ground arith
nat_abs-*ℤ (negsuc m) (negsuc n) = ground arith

-- The exact result needs no more than twice the bits.
fits_twice :
    (op : Bop) (f : ℤ → ℤ → ℤ) (a b : ℤ) (n : ℕ)
    → Wrapping op f
    → 0 < n
    → nat_abs a < 2 ^ n
    → nat_abs b < 2 ^ n
    → nat_abs (f a b) < 2 ^ (n * 2)
fits_twice op f a b n c p ha hb =
    let twice : n * 2 ≡ n + n = omega arith in
    let two : 2 ≤ 2 ^ n =
      let before : n ≡ suc (n - 1) = omega arith in
      rw before (omega (arith, pow-suc 2 (n - 1), one-le-pow (n - 1) 2 (omega arith))) in
    rw (twice, two-pow-plus n n) (go two c)
  where
    go : {op : Bop} {f : ℤ → ℤ → ℤ} → 2 ≤ 2 ^ n → Wrapping op f → nat_abs (f a b) < 2 ^ n * 2 ^ n
    go two wrapping_add =
        omega (arith, nat_abs-+ℤ a b, sum_lt (nat_abs a) (nat_abs b) (2 ^ n) ha hb two)
    go two wrapping_sub =
        omega (arith, nat_abs--ℤ a b, sum_lt (nat_abs a) (nat_abs b) (2 ^ n) ha hb two)
    go two wrapping_mul = rw (nat_abs-*ℤ a b) (product_lt (nat_abs a) (nat_abs b) (2 ^ n) ha hb)

positive_bits : (bytes : ℕ) → IsSize bytes → 0 < bytes * 8
positive_bits bytes one_byte = omega arith
positive_bits bytes two_bytes = omega arith
positive_bits bytes four_bytes = omega arith
positive_bits bytes eight_bytes = omega arith

module _ (arch : Arch) (floats : Floats) (Other : DataType → Type 0) where
  wrapping-Wraps :
      (exact : Bigint → Bigint → Option Bigint) (t : DataType) (a b : Bigint) (z : ℤ)
      (sized : IsSized arch t)
      → Yields (exact a b) z
      → nat_abs z < 2 ^ (sized.bytes * 8 * 2)
      → Wraps t
          (sized.bytes * 8)
          z
          (wrapping arch floats Other exact t (integer_value t a) (integer_value t b))
  wrapping-Wraps exact t a b z sized y small =
      let c = cut y.out (type_is_sinteger t) (sized.bytes * 8) y.valid (rw (y.value_out) small) in
      let n : sized.bytes * 8 ≡ 8 * sized.bytes = omega arith in
      let fits : Fits (type_is_sinteger t) (8 * sized.bytes) (value c.out) =
        rw (sym n, c.value_out)
          (unwrapped-Fits (type_is_sinteger t) (sized.bytes * 8)
            (residue (sized.bytes * 8) (value y.out))
            (residue-lt (sized.bytes * 8) (value y.out))) in
      record {
        out = c.out;
        returned =
            unfold wrapping in
            rw (sized.integer, y.returns, sized.has_size, c.written, c.copied, c.read)
              (made_integer arch floats Other t c.out sized c.valid fits);
        valid = c.valid;
        value_out =
            c.value_out
            ∙ ap
                (λ (x : ℤ).
                  unwrapped (type_is_sinteger t) (sized.bytes * 8) (residue (sized.bytes * 8) x))
                y.value_out;
      }

  module _ (strtoumax : List ℕ → Option ℕ)
      (same_other : (t : DataType) → Other t → (u : DataType) → Other u → Outcome Bool) where
    by_op :
        (op : Bop) (f : ℤ → ℤ → ℤ) (t : DataType) (a b : Bigint) (sized : IsSized arch t)
        → Wrapping op f
        → IsValid a
        → IsValid b
        → nat_abs (f (value a) (value b)) < 2 ^ (sized.bytes * 8 * 2)
        → Wraps t (sized.bytes * 8) (f (value a) (value b)) (
            eval_binary arch floats Other strtoumax same_other t op
              (integer_value t a)
              (integer_value t b))
    unfolding eval_binary binary_cases
    by_op op f t a b sized wrapping_add va vb small =
        wrapping-Wraps add t a b (value a +ℤ value b) sized (add-Yields a b va vb) small
    by_op op f t a b sized wrapping_sub va vb small =
        wrapping-Wraps sub t a b (value a -ℤ value b) sized (sub-Yields a b va vb) small
    by_op op f t a b sized wrapping_mul va vb small =
        wrapping-Wraps mul t a b (value a *ℤ value b) sized (mul-Yields a b va vb) small

    -- On valid integers of one sized type that its bits hold, the operators `+%`, `-%` and `*%`
    -- give the integer of the type whose bits are the exact result modulo the power of two; no
    -- assertion fails, and the buffer of twice the bits always suffices.
    pub eval_binary-Wraps :
        (op : Bop) (f : ℤ → ℤ → ℤ) (t : DataType) (a b : Bigint)
        → Wrapping op f
        → (type_is_uinteger t || type_is_sinteger t) ≡ true
        → IsValid a
        → IsValid b
        → Fits (type_is_sinteger t) (type_bits arch t) (value a)
        → Fits (type_is_sinteger t) (type_bits arch t) (value b)
        → Wraps t (type_bits arch t) (f (value a) (value b)) (
            eval_binary arch floats Other strtoumax same_other t op
              (integer_value t a)
              (integer_value t b))
    eval_binary-Wraps op f t a b c h va vb fa fb =
        let sized = is_sized-IsSized arch t h in
        let n : type_bits arch t ≡ sized.bytes * 8 = type_bits-size sized ∙ omega arith in
        let la = Fits-lt (type_is_sinteger t) (type_bits arch t) (value a) fa in
        let lb = Fits-lt (type_is_sinteger t) (type_bits arch t) (value b) fb in
        let la' : nat_abs (value a) < 2 ^ (sized.bytes * 8) = rw (sym n) la in
        let lb' : nat_abs (value b) < 2 ^ (sized.bytes * 8) = rw (sym n) lb in
        let small =
          fits_twice op f (value a) (value b) (sized.bytes * 8) c
            (positive_bits sized.bytes sized.is_size) la' lb' in
        rw n (by_op op f t a b sized c va vb small)
