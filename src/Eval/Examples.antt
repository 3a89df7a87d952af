-- ===== src/Eval/Examples.antt =====
-- The theorems at concrete integers, and runs of the operators.
use sunder.Prelude.{
  ℕ, [], ◌∷◌, List, Option, none, Bool, true, ◌≡◌, refl, arith, ◌==◌, ltb, leb, ◌+◌,
}
use sunder.Prelude.Int.{◌+ℤ◌, ◌*ℤ◌}
use sunder.Bigint.Repr.{Bigint, bigint_zero, minus, plus}
use sunder.Bigint.Value.{IsValid, value}
use sunder.Eval.Types.{arch_amd64, DataType, type_s8, type_bool}
use sunder.Eval.Values.{
  Floats, integer_value, Outcome, returns, fatal, divide_by_zero, boolean_value,
}
use sunder.Eval.Operators.{bop_add, bop_mul_wrapping, bop_le, bop_div, bop_rem, eval_binary}
use sunder.Eval.Unary.{eval_neg, eval_neg_wrapping}
use sunder.Eval.Negate.{eval_neg-Exact}
use sunder.Prelude.Int.{neg_ℤ}
use sunder.Eval.Arithmetic.{Exact, checked_add, eval_binary-Exact}
use sunder.Eval.Compare.{compare_le, eval_binary-returns}
use sunder.Eval.Divide.{Divided, eval_binary-Divided, eval_binary-divide_by_zero}
use sunder.Bigint.Product.Laws.{bigint_zero-IsValid}
use sunder.Eval.Wrapping.{Wraps, wrapping_mul, eval_binary-Wraps}

-- Machine numbers that are only added.
abbrev sums : Floats
sums = record {
  Single = ℕ;
  Double = ℕ;
  f32_op = λ op a b. a + b;
  f64_op = λ op a b. a + b;
  f32_neg = λ a. a;
  f64_neg = λ a. a;
  f32_eq = λ a b. a == b;
  f64_eq = λ a b. a == b;
  f32_lt = λ a b. ltb a b;
  f64_lt = λ a b. ltb a b;
}

-- No other values.
abbrev Other : DataType → Type 0
Other t = ℕ

abbrev strtoumax : List ℕ → Option ℕ
strtoumax text = none

abbrev same_other : (t : DataType) → Other t → (u : DataType) → Other u → Outcome Bool
same_other t a u b = returns (a == b)

abbrev hundred : Bigint
hundred = record { sign = plus; limbs = 100 ∷ [] }

abbrev minus_three : Bigint
minus_three = record { sign = minus; limbs = 3 ∷ [] }

hundred-IsValid : IsValid hundred
hundred-IsValid = record {
  bytes = omega arith;
  trimmed = omega arith;
  zero_sign = λ e. cc;
  zero_limbs = λ e. cc;
}

minus_three-IsValid : IsValid minus_three
minus_three-IsValid = record {
  bytes = omega arith;
  trimmed = omega arith;
  zero_sign = λ e. cc;
  zero_limbs = λ e. cc;
}

eval_binary-Exact_example :
    Exact {floats = sums} {Other = Other} type_s8 8 (value hundred +ℤ value minus_three) (
      eval_binary arch_amd64 sums Other strtoumax same_other type_s8 bop_add
        (integer_value type_s8 hundred)
        (integer_value type_s8 minus_three))
eval_binary-Exact_example =
    eval_binary-Exact arch_amd64 sums Other strtoumax same_other bop_add ◌+ℤ◌ type_s8 hundred
      minus_three checked_add refl hundred-IsValid minus_three-IsValid

eval_binary-Wraps_example :
    Wraps {floats = sums} {Other = Other} type_s8 8 (value hundred *ℤ value minus_three) (
      eval_binary arch_amd64 sums Other strtoumax same_other type_s8 bop_mul_wrapping
        (integer_value type_s8 hundred)
        (integer_value type_s8 minus_three))
eval_binary-Wraps_example =
    eval_binary-Wraps arch_amd64 sums Other strtoumax same_other bop_mul_wrapping ◌*ℤ◌ type_s8
      hundred minus_three wrapping_mul refl hundred-IsValid minus_three-IsValid (omega arith)
      (omega arith)

eval_binary-returns_example :
    eval_binary arch_amd64 sums Other strtoumax same_other type_bool bop_le
      (integer_value type_s8 minus_three)
      (integer_value type_s8 hundred)
    ≡ returns (boolean_value true)
eval_binary-returns_example =
    eval_binary-returns arch_amd64 sums Other strtoumax same_other bop_le (λ m n. leb m n) type_bool
      type_s8 minus_three hundred compare_le minus_three-IsValid hundred-IsValid

eval_binary-divide_by_zero_example :
    (eval_binary arch_amd64 sums Other strtoumax same_other type_s8 bop_div
        (integer_value type_s8 hundred)
        (integer_value type_s8 bigint_zero)
      ≡ fatal divide_by_zero)
    × (eval_binary arch_amd64 sums Other strtoumax same_other type_s8 bop_rem
          (integer_value type_s8 hundred)
          (integer_value type_s8 bigint_zero)
        ≡ fatal divide_by_zero)
eval_binary-divide_by_zero_example =
    eval_binary-divide_by_zero arch_amd64 sums Other strtoumax same_other type_s8 hundred
      bigint_zero hundred-IsValid bigint_zero-IsValid refl refl

eval_binary-Divided_example :
    Divided {floats = sums} {Other = Other} type_s8 8
      (value hundred)
      (value minus_three)
      (eval_binary arch_amd64 sums Other strtoumax same_other type_s8 bop_div
        (integer_value type_s8 hundred)
        (integer_value type_s8 minus_three))
      (eval_binary arch_amd64 sums Other strtoumax same_other type_s8 bop_rem
        (integer_value type_s8 hundred)
        (integer_value type_s8 minus_three))
eval_binary-Divided_example =
    eval_binary-Divided arch_amd64 sums Other strtoumax same_other type_s8 hundred minus_three
      hundred-IsValid minus_three-IsValid refl (λ e. cc) (omega arith) (omega arith)

eval_neg-Exact_example :
    Exact {floats = sums} {Other = Other} type_s8 8
      (neg_ℤ (value minus_three))
      (eval_neg arch_amd64 sums Other type_s8 (integer_value type_s8 minus_three))
    × Wraps {floats = sums} {Other = Other} type_s8 8
        (neg_ℤ (value minus_three))
        (eval_neg_wrapping arch_amd64 sums Other type_s8 (integer_value type_s8 minus_three))
eval_neg-Exact_example =
    eval_neg-Exact arch_amd64 sums Other type_s8 minus_three refl minus_three-IsValid (omega arith)
