-- ===== src/Eval/Unary.antt =====
-- `eval_rvalue_unary`, behind the evaluation of its operand.
use sunder.Prelude.{
  ℕ, zero, suc, ◌+◌, ◌-◌, ◌*◌, Option, some, true, not, ◌==◌, if◌then◌else◌, ◌>>=◌,
}
use sunder.Bigint.Repr.{neg}
use sunder.Bitarr.{Bitarr, new, bit_get, bit_set, of_bigint, to_bigint, twos_complement_neg}
use sunder.Eval.Types.{Arch, DataType, type_is_integer, type_is_sinteger, integer_size}
use sunder.Eval.Values.{
  Floats, Value, boolean_value, byte_value, integer_value, f32_value, f64_value, real_value,
  Outcome, returns, stops, and_then, asserted,
}
use sunder.Eval.Operators.{to_bits, value_new_integer, checked}

module _ (arch : Arch) (floats : Floats) (Other : DataType → Type 0) where
  abbrev Made : Type 0
  Made = Outcome (Value floats Other)

  -- The loop of `~` over `n` bits from the bit `i`.
  unfoldable pub invert : Bitarr → ℕ → ℕ → Bitarr → Option Bitarr
  unfolding bit_get bit_set
  invert rhs zero i res = some res
  invert rhs (suc n) i res =
      bit_get rhs i >>= λ r. bit_set res i (if r == 0 then 1 else 0) >>= invert rhs n (i + 1)

  -- The cases of `eval_rvalue_unary` on values.
  unfoldable pub eval_not : Value floats Other → Made
  eval_not (boolean_value b) = returns (boolean_value (not b))
  eval_not v = stops

  unfoldable pub eval_pos : Value floats Other → Made
  eval_pos (integer_value t b) = if type_is_integer t then returns (integer_value t b) else stops
  eval_pos v = stops

  unfoldable pub eval_neg : DataType → Value floats Other → Made
  unfolding neg
  eval_neg t (f32_value x) = returns (f32_value (floats.f32_neg x))
  eval_neg t (f64_value x) = returns (f64_value (floats.f64_neg x))
  eval_neg t (real_value x) = returns (real_value (floats.f64_neg x))
  eval_neg t (integer_value u b) =
      if type_is_sinteger u then checked arch floats Other t (some (neg b)) else stops
  eval_neg t v = stops

  unfoldable pub eval_neg_wrapping : DataType → Value floats Other → Made
  unfolding of_bigint twos_complement_neg to_bigint
  eval_neg_wrapping t (integer_value u b) =
      if type_is_sinteger u
      then and_then (asserted (integer_size arch u)) (λ bytes.
        and_then (to_bits (bytes * 8) b) (λ bits.
          and_then (asserted (twos_complement_neg bits bits)) (λ negated.
            and_then (asserted (to_bigint negated true))
              (λ res. value_new_integer arch floats Other t res))))
      else stops
  eval_neg_wrapping t v = stops

  unfoldable pub eval_bitnot : Value floats Other → Made
  unfolding of_bigint invert to_bigint
  eval_bitnot (byte_value b) = returns (byte_value (255 - b))
  eval_bitnot (integer_value u b) =
      if type_is_integer u
      then and_then (asserted (integer_size arch u)) (λ bytes.
        and_then (to_bits (bytes * 8) b) (λ bits.
          and_then (asserted (invert bits (bytes * 8) 0 (new (bytes * 8)))) (λ inverted.
            and_then (asserted (to_bigint inverted (type_is_sinteger u)))
              (λ res. value_new_integer arch floats Other u res))))
      else stops
  eval_bitnot v = stops
