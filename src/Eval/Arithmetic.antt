-- ===== src/Eval/Arithmetic.antt =====
-- The operators of integers that are checked for their range.
use sunder.Prelude.{
  ℕ, ◌*◌, Option, Bool, true, false, ◌||◌, ◌≡◌, refl, sym, arith, List, if◌then◌else◌,
}
use sunder.Prelude.Int.{ℤ, ◌+ℤ◌, ◌-ℤ◌, ◌*ℤ◌}
use mathlib.Core.Path.{subst}
use sunder.Bigint.Repr.{Bigint}
use sunder.Bigint.Value.{value, IsValid, Yields}
use sunder.Bigint.Sum.{add, sub}
use sunder.Bigint.Sum.Laws.{add-Yields, sub-Yields}
use sunder.Bigint.Product.{mul}
use sunder.Bigint.Product.Laws.{mul-Yields}
use sunder.Bitarr.RoundTrip.{Fits}
use sunder.Eval.Types.{Arch, DataType, same_type, type_is_sinteger, type_is_uinteger}
use sunder.Eval.Values.{
  Floats, FloatOp, float_add, float_sub, float_mul, Value, integer_value, Outcome, returns, fatal,
  out_of_range_result,
}
use sunder.Eval.Range.{
  Judges, IsSized, type_bits, type_bits-size, is_sized-IsSized, integer_is_out_of_range-Decides,
  integer_new-returns,
}
use sunder.Eval.Operators.{
  Bop, bop_add, bop_sub, bop_mul, value_new_integer, checked, arithmetic, binary_cases, eval_binary,
}

-- The operators that are checked for their range, with what they stand for.
pub data Checked : Bop → (ℤ → ℤ → ℤ) → Type 0 where
  checked_add : Checked bop_add ◌+ℤ◌
  checked_sub : Checked bop_sub ◌-ℤ◌
  checked_mul : Checked bop_mul ◌*ℤ◌

-- An integer of the type if its bits hold the integer, and the message otherwise.
pub data Exact {floats : Floats} {Other : DataType → Type 0} (t : DataType) (n : ℕ) (z : ℤ)
    : Outcome (Value floats Other) → Type 0 where
  in_range :
      (out : Bigint)
      → IsValid out
      → value out ≡ z
      → Fits (type_is_sinteger t) n z
      → Exact t n z (returns (integer_value t out))
  outside : ¬ Fits (type_is_sinteger t) n z → Exact t n z (fatal out_of_range_result)

module _ (arch : Arch) (floats : Floats) (Other : DataType → Type 0) where
  pub made_integer :
      (t : DataType) (b : Bigint) (sized : IsSized arch t)
      → IsValid b
      → Fits (type_is_sinteger t) (8 * sized.bytes) (value b)
      → value_new_integer arch floats Other t b ≡ returns (integer_value t b)
  unfolding value_new_integer
  made_integer t b sized v fits = rw (integer_new-returns arch t b sized v fits) refl

  abbrev settled : DataType → Bigint → Bool → Outcome (Value floats Other)
  settled t res b =
      if b then fatal out_of_range_result else value_new_integer arch floats Other t res

  pub checked-Exact :
      (t : DataType) (r : Option Bigint) (z : ℤ) (sized : IsSized arch t)
      → Yields r z
      → Exact t (8 * sized.bytes) z (checked arch floats Other t r)
  unfolding checked
  checked-Exact t r z sized y =
      let d = integer_is_out_of_range-Decides arch t y.out sized y.valid in
      rw (y.returns, d.returned) (verdict d.outside d.judges)
    where
      verdict :
          (b : Bool)
          → Judges b (type_is_sinteger t) (8 * sized.bytes) (value y.out)
          → Exact t (8 * sized.bytes) z (settled t y.out b)
      verdict true j =
          outside (λ f. j (subst (Fits (type_is_sinteger t) (8 * sized.bytes)) (sym y.value_out) f))
      verdict false j =
          let made = made_integer t y.out sized y.valid j in
          rw made (
            in_range y.out y.valid y.value_out
              (subst (Fits (type_is_sinteger t) (8 * sized.bytes)) y.value_out j))

  pub same_type_self : (t : DataType) → same_type t t ≡ true
  same_type_self t = ground arith

  arithmetic-Exact :
      (op : FloatOp) (f : Bigint → Bigint → Option Bigint) (t : DataType) (a b : Bigint) (z : ℤ)
      (sized : IsSized arch t)
      → Yields (f a b) z
      → Exact t
          (8 * sized.bytes)
          z
          (arithmetic arch floats Other op f t (integer_value t a) (integer_value t b))
  unfolding arithmetic
  arithmetic-Exact op f t a b z sized y =
      rw (same_type_self t, sized.integer) (checked-Exact t (f a b) z sized y)

  module _ (strtoumax : List ℕ → Option ℕ)
      (same_other : (t : DataType) → Other t → (u : DataType) → Other u → Outcome Bool) where
    by_op :
        (op : Bop) (f : ℤ → ℤ → ℤ) (t : DataType) (a b : Bigint) (sized : IsSized arch t)
        → Checked op f
        → IsValid a
        → IsValid b
        → Exact t (8 * sized.bytes) (f (value a) (value b)) (
            eval_binary arch floats Other strtoumax same_other t op
              (integer_value t a)
              (integer_value t b))
    unfolding eval_binary binary_cases
    by_op op f t a b sized checked_add va vb =
        arithmetic-Exact float_add add t a b (value a +ℤ value b) sized (add-Yields a b va vb)
    by_op op f t a b sized checked_sub va vb =
        arithmetic-Exact float_sub sub t a b (value a -ℤ value b) sized (sub-Yields a b va vb)
    by_op op f t a b sized checked_mul va vb =
        arithmetic-Exact float_mul mul t a b (value a *ℤ value b) sized (mul-Yields a b va vb)

    -- On valid integers of one sized type, the operators `+`, `-` and `*` give the exact result as
    -- an integer of the type when the bits of the type hold it, and the message on a result out of
    -- range when they do not; no assertion fails.
    pub eval_binary-Exact :
        (op : Bop) (f : ℤ → ℤ → ℤ) (t : DataType) (a b : Bigint)
        → Checked op f
        → (type_is_uinteger t || type_is_sinteger t) ≡ true
        → IsValid a
        → IsValid b
        → Exact t (type_bits arch t) (f (value a) (value b)) (
            eval_binary arch floats Other strtoumax same_other t op
              (integer_value t a)
              (integer_value t b))
    eval_binary-Exact op f t a b c h va vb =
        let sized = is_sized-IsSized arch t h in
        rw (type_bits-size sized) (by_op op f t a b sized c va vb)
