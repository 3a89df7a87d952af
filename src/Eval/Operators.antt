-- ===== src/Eval/Operators.antt =====
-- `eval_rvalue_binary`, behind the evaluation of its operands.
use sunder.Prelude.{
  ℕ, zero, suc, ◌+◌, ◌*◌, Option, none, some, Bool, true, false, not, ◌&&◌, ◌||◌, ◌==◌,
  if◌then◌else◌, List, ◌>>=◌, bit_and, bit_or, bit_xor,
}
use sunder.Bigint.Repr.{Bigint, bigint_zero, minus, nought, rank}
use sunder.Bigint.Cmp.{cmp}
use sunder.Bigint.Sum.{add, sub}
use sunder.Bigint.Product.{mul}
use sunder.Bigint.Division.{divrem}
use sunder.Bigint.Machine.{to_uz}
use sunder.Bitarr.{Bitarr, new, bit_get, bit_set, copy_bits, of_bigint, to_bigint, shiftl, shiftr}
use sunder.Eval.Types.{
  Arch, DataType, type_pointer, type_usize, kind, same_type, type_is_integer, type_is_sinteger,
  integer_size,
}
use sunder.Eval.Values.{
  Floats, FloatOp, float_add, float_sub, float_mul, float_div, Value, boolean_value, byte_value,
  integer_value, f32_value, f64_value, real_value, other_value, Outcome, returns, fatal, stops,
  and_then, asserted, out_of_range_result, divide_by_zero, shift_count_out_of_range,
  invalid_pointers, value_eq, value_lt, value_gt,
}
use sunder.Eval.Range.{integer_is_out_of_range, integer_new}

-- `enum bop_kind`.
pub data Bop : Type 0 where
  bop_or : Bop
  bop_and : Bop
  bop_shl : Bop
  bop_shr : Bop
  bop_eq : Bop
  bop_ne : Bop
  bop_le : Bop
  bop_lt : Bop
  bop_ge : Bop
  bop_gt : Bop
  bop_add : Bop
  bop_add_wrapping : Bop
  bop_sub : Bop
  bop_sub_wrapping : Bop
  bop_mul : Bop
  bop_mul_wrapping : Bop
  bop_div : Bop
  bop_rem : Bop
  bop_bitor : Bop
  bop_bitxor : Bop
  bop_bitand : Bop

-- An array of the bits of an integer type, with an integer in it; a count that is not the bits of a
-- type fails in the allocation, and an integer out of range is an `UNREACHABLE`.
abbrev pub to_bits : ℕ → Bigint → Outcome Bitarr
to_bits count integer = and_then (asserted (of_bigint (new count) integer)) asserted

module _ (arch : Arch) (floats : Floats) (Other : DataType → Type 0) where
  abbrev pub Result : Type 0
  Result = Outcome (Value floats Other)

  unfoldable pub value_new_integer : DataType → Bigint → Result
  unfolding integer_new
  value_new_integer t integer =
      and_then (integer_new arch t integer) (λ kept. returns (integer_value t kept))

  -- The integer, unless it is out of the range of the type.
  unfoldable pub checked : DataType → Option Bigint → Result
  unfolding integer_is_out_of_range
  checked t integer = and_then (asserted integer) (λ res.
      and_then (integer_is_out_of_range arch t res)
        (λ outside. if outside then fatal out_of_range_result else value_new_integer t res))

  -- The cases of `+`, `-` and `*`.
  unfoldable pub arithmetic :
      FloatOp
      → (Bigint → Bigint → Option Bigint)
      → DataType
      → Value floats Other
      → Value floats Other
      → Result
  arithmetic op exact t (f32_value a) (f32_value b) = returns (f32_value (floats.f32_op op a b))
  arithmetic op exact t (f64_value a) (f64_value b) = returns (f64_value (floats.f64_op op a b))
  arithmetic op exact t (real_value a) (real_value b) = returns (real_value (floats.f64_op op a b))
  arithmetic op exact t (integer_value u a) (integer_value v b) =
      if same_type u v && type_is_integer u && type_is_integer v
      then checked t (exact a b)
      else stops
  arithmetic op exact t a b = stops

  -- The cases of `+%`, `-%` and `*%`: the result in twice the bits, cut to the bits of the type.
  unfoldable pub wrapping :
      (Bigint → Bigint → Option Bigint)
      → DataType
      → Value floats Other
      → Value floats Other
      → Result
  unfolding copy_bits of_bigint to_bigint
  wrapping exact t (integer_value u a) (integer_value v b) =
      if type_is_integer u && type_is_integer v
      then and_then (asserted (exact a b)) (λ integer.
        and_then (asserted (integer_size arch t)) (λ bytes.
          and_then (to_bits (bytes * 8 * 2) integer) (λ wrapped.
            and_then (asserted (copy_bits wrapped (bytes * 8) 0 (new (bytes * 8)))) (λ trimmed.
              and_then (asserted (to_bigint trimmed (type_is_sinteger t)))
                (λ res. value_new_integer t res)))))
      else stops
  wrapping exact t a b = stops

  unfoldable pub divide : DataType → Value floats Other → Value floats Other → Result
  unfolding cmp
  divide t (f32_value a) (f32_value b) = returns (f32_value (floats.f32_op float_div a b))
  divide t (f64_value a) (f64_value b) = returns (f64_value (floats.f64_op float_div a b))
  divide t (real_value a) (real_value b) = returns (real_value (floats.f64_op float_div a b))
  divide t (integer_value u a) (integer_value v b) =
      if same_type u v && type_is_integer u && type_is_integer v
      then if rank (cmp b bigint_zero) == rank nought
        then fatal divide_by_zero
        else checked t (divrem a b >>= λ both. some both.0)
      else stops
  divide t a b = stops

  -- The range check is one of the quotient.
  unfoldable pub remainder : DataType → Value floats Other → Value floats Other → Result
  unfolding cmp
  remainder t (integer_value u a) (integer_value v b) =
      if type_is_integer u && type_is_integer v
      then if rank (cmp b bigint_zero) == rank nought
        then fatal divide_by_zero
        else and_then (asserted (divrem a b))
            (λ both. and_then (checked t (some both.0)) (λ quotient. value_new_integer t both.1))
      else stops
  remainder t a b = stops

  -- The two shifts, by what they do to the bits.
  unfoldable pub shift :
      (List ℕ → Option ℕ)
      → (Bitarr → ℕ → Option Bitarr)
      → DataType
      → Value floats Other
      → Value floats Other
      → Result
  unfolding to_uz of_bigint to_bigint
  shift strtoumax moved t (integer_value u a) (integer_value v b) =
      if type_is_integer u && same_type v type_usize
      then and_then (asserted (integer_size arch t)) (λ bytes.
        and_then (to_bits (bytes * 8) a)
          (λ bits. and_then (asserted (to_uz strtoumax b)) (λ count. by_count bits count)))
      else stops
    where
      by_count : Bitarr → Option ℕ → Result
      by_count bits none = fatal shift_count_out_of_range
      by_count bits (some n) = and_then (asserted (moved bits n)) (λ shifted.
          and_then (asserted (to_bigint shifted (type_is_sinteger t)))
            (λ res. value_new_integer t res))
  shift strtoumax moved t a b = stops

  -- The loops of `|`, `^` and `&`, over `n` bits from the bit `i`.
  unfoldable pub combine : (ℕ → ℕ → ℕ) → Bitarr → Bitarr → ℕ → ℕ → Bitarr → Option Bitarr
  unfolding bit_get bit_set
  combine op lhs rhs zero i res = some res
  combine op lhs rhs (suc n) i res = bit_get lhs i >>= λ l.
      bit_get rhs i >>= λ r. bit_set res i (op l r) >>= combine op lhs rhs n (i + 1)

  unfoldable pub bitwise :
      (Bool → Bool → Bool)
      → (ℕ → ℕ → ℕ)
      → (ℕ → ℕ → ℕ)
      → Value floats Other
      → Value floats Other
      → Result
  unfolding combine of_bigint to_bigint
  bitwise on_boolean on_byte on_bit (boolean_value a) (boolean_value b) =
      returns (boolean_value (on_boolean a b))
  bitwise on_boolean on_byte on_bit (byte_value a) (byte_value b) =
      returns (byte_value (on_byte a b))
  bitwise on_boolean on_byte on_bit (integer_value t a) (integer_value u b) =
      if type_is_integer t && type_is_integer u && (kind t == kind u)
      then and_then (asserted (integer_size arch t)) (λ bytes.
        and_then (to_bits (bytes * 8) a) (λ lhs. and_then (to_bits (bytes * 8) b) (λ rhs.
          and_then (asserted (combine on_bit lhs rhs (bytes * 8) 0 (new (bytes * 8)))) (λ bits.
            and_then (asserted (to_bigint bits (type_is_sinteger t)))
              (λ res. value_new_integer t res)))))
      else stops
  bitwise on_boolean on_byte on_bit a b = stops

  abbrev xor_boolean : Bool → Bool → Bool
  xor_boolean a b = (a && not b) || (not a && b)

  -- `||` and `&&` of C, on integers.
  abbrev or_int : ℕ → ℕ → ℕ
  or_int a b = if not (a == 0) || not (b == 0) then 1 else 0

  abbrev and_int : ℕ → ℕ → ℕ
  and_int a b = if not (a == 0) && not (b == 0) then 1 else 0

  abbrev boolean_result : Outcome Bool → Result
  boolean_result r = and_then r (λ b. returns (boolean_value b))

  -- `||` of two comparisons, the second of which is not made when the first holds.
  abbrev either : Outcome Bool → Outcome Bool → Outcome Bool
  either first second = and_then first (λ b. if b then returns true else second)

  unfoldable pub logical : (Bool → Bool → Bool) → Value floats Other → Value floats Other → Result
  logical op (boolean_value a) (boolean_value b) = returns (boolean_value (op a b))
  logical op a b = stops

  abbrev is_pointer : Value floats Other → Bool
  is_pointer (other_value (type_pointer a) x) = true
  is_pointer v = false

  module _ (strtoumax : List ℕ → Option ℕ)
      (same_other : (t : DataType) → Other t → (u : DataType) → Other u → Outcome Bool) where
    -- The switch of `eval_rvalue_binary`.
    unfoldable pub binary_cases : DataType → Bop → Value floats Other → Value floats Other → Result
    unfolding shiftl shiftr
    binary_cases t bop_or lhs rhs = logical ◌||◌ lhs rhs
    binary_cases t bop_and lhs rhs = logical ◌&&◌ lhs rhs
    binary_cases t bop_shl lhs rhs = shift strtoumax (λ bits n. shiftl bits bits n) t lhs rhs
    binary_cases t bop_shr lhs rhs =
        shift strtoumax (λ bits n. shiftr bits bits n (if is_negative lhs then 1 else 0)) t lhs rhs
      where
        is_negative : Value floats Other → Bool
        is_negative (integer_value u a) = rank (cmp a bigint_zero) == rank minus
        is_negative v = false
    binary_cases t bop_eq lhs rhs = boolean_result (value_eq floats Other same_other lhs rhs)
    binary_cases t bop_ne lhs rhs =
        boolean_result (and_then (value_eq floats Other same_other lhs rhs) (λ b. returns (not b)))
    binary_cases t bop_le lhs rhs =
        boolean_result
          (either (value_lt floats Other lhs rhs) (value_eq floats Other same_other lhs rhs))
    binary_cases t bop_lt lhs rhs = boolean_result (value_lt floats Other lhs rhs)
    binary_cases t bop_ge lhs rhs =
        boolean_result
          (either (value_gt floats Other lhs rhs) (value_eq floats Other same_other lhs rhs))
    binary_cases t bop_gt lhs rhs = boolean_result (value_gt floats Other lhs rhs)
    binary_cases t bop_add lhs rhs = arithmetic float_add add t lhs rhs
    binary_cases t bop_add_wrapping lhs rhs = wrapping add t lhs rhs
    binary_cases t bop_sub lhs rhs = arithmetic float_sub sub t lhs rhs
    binary_cases t bop_sub_wrapping lhs rhs = wrapping sub t lhs rhs
    binary_cases t bop_mul lhs rhs = arithmetic float_mul mul t lhs rhs
    binary_cases t bop_mul_wrapping lhs rhs = wrapping mul t lhs rhs
    binary_cases t bop_div lhs rhs = divide t lhs rhs
    binary_cases t bop_rem lhs rhs = remainder t lhs rhs
    binary_cases t bop_bitor lhs rhs = bitwise ◌||◌ bit_or or_int lhs rhs
    binary_cases t bop_bitxor lhs rhs = bitwise xor_boolean bit_xor bit_xor lhs rhs
    binary_cases t bop_bitand lhs rhs = bitwise ◌&&◌ bit_and and_int lhs rhs

    unfoldable pub eval_binary : DataType → Bop → Value floats Other → Value floats Other → Result
    unfolding binary_cases
    eval_binary t op lhs rhs =
        if is_pointer lhs && is_pointer rhs
        then fatal invalid_pointers
        else binary_cases t op lhs rhs
