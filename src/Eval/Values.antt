-- ===== src/Eval/Values.antt =====
-- `struct value` in ast.c, its comparisons, and what an evaluation results in.
use sunder.Prelude.{ℕ, Option, none, some, Bool, not, ◌&&◌, ◌||◌, ◌==◌, ltb, if◌then◌else◌}
use sunder.Bigint.Repr.{Bigint, minus, nought, plus, rank}
use sunder.Bigint.Cmp.{cmp}
use sunder.Eval.Types.{DataType, type_bool, type_byte, type_f32, type_f64, type_real, same_type}

-- The calls of `fatal` that the operators make.
pub data Fatal : Type 0 where
  out_of_range_result : Fatal
  divide_by_zero : Fatal
  shift_count_out_of_range : Fatal
  invalid_pointers : Fatal

-- What an evaluation comes to: a value, a message and the end of the process, or a failed
-- assertion.
pub data Outcome {ℓ} (A : Type ℓ) : Type ℓ where
  returns : A → Outcome A
  fatal : Fatal → Outcome A
  stops : Outcome A

abbrev pub and_then {ℓ} : {A B : Type ℓ} → Outcome A → (A → Outcome B) → Outcome B
and_then (returns a) f = f a
and_then (fatal m) f = fatal m
and_then stops f = stops

-- A result of util.c, where `none` is a failed assertion.
abbrev pub asserted {ℓ} : {A : Type ℓ} → Option A → Outcome A
asserted none = stops
asserted (some a) = returns a

-- The machine's `float` and `double`: the operators of C on them.
pub data FloatOp : Type 0 where
  float_add : FloatOp
  float_sub : FloatOp
  float_mul : FloatOp
  float_div : FloatOp

pub record Floats : Type 1 where
  pub Single : Type 0
  pub Double : Type 0
  pub f32_op : FloatOp → Single → Single → Single
  pub f64_op : FloatOp → Double → Double → Double
  pub f32_neg : Single → Single
  pub f64_neg : Double → Double
  pub f32_eq : Single → Single → Bool
  pub f64_eq : Double → Double → Bool
  pub f32_lt : Single → Single → Bool
  pub f64_lt : Double → Double → Bool

-- `struct value` with the member of its union that its kind selects. An integer or an enumerator
-- has its type; the values of the other types are a parameter, by their type.
pub data Value (floats : Floats) (Other : DataType → Type 0) : Type 0 where
  boolean_value : Bool → Value floats Other
  byte_value : ℕ → Value floats Other
  integer_value : DataType → Bigint → Value floats Other
  f32_value : floats.Single → Value floats Other
  f64_value : floats.Double → Value floats Other
  real_value : floats.Double → Value floats Other
  other_value : (t : DataType) → Other t → Value floats Other

module _ (floats : Floats) (Other : DataType → Type 0) where
  abbrev pub type_of : Value floats Other → DataType
  type_of (boolean_value b) = type_bool
  type_of (byte_value b) = type_byte
  type_of (integer_value t b) = t
  type_of (f32_value x) = type_f32
  type_of (f64_value x) = type_f64
  type_of (real_value x) = type_real
  type_of (other_value t x) = t

  -- The cases of `value_eq` that can return; for the others it is `same_other`.
  unfoldable pub value_eq :
      ((t : DataType) → Other t → (u : DataType) → Other u → Outcome Bool)
      → Value floats Other
      → Value floats Other
      → Outcome Bool
  unfolding cmp
  value_eq same_other (boolean_value a) (boolean_value b) = returns ((a && b) || not (a || b))
  value_eq same_other (byte_value a) (byte_value b) = returns (a == b)
  value_eq same_other (integer_value t a) (integer_value u b) =
      if same_type t u then returns (rank (cmp a b) == rank nought) else stops
  value_eq same_other (f32_value a) (f32_value b) = returns (floats.f32_eq a b)
  value_eq same_other (f64_value a) (f64_value b) = returns (floats.f64_eq a b)
  value_eq same_other (real_value a) (real_value b) = returns (floats.f64_eq a b)
  value_eq same_other (other_value t a) (other_value u b) =
      if same_type t u then same_other t a u b else stops
  value_eq same_other a b = stops

  unfoldable pub value_lt : Value floats Other → Value floats Other → Outcome Bool
  unfolding cmp
  value_lt (boolean_value a) (boolean_value b) = returns (not a && b)
  value_lt (byte_value a) (byte_value b) = returns (ltb a b)
  value_lt (integer_value t a) (integer_value u b) =
      if same_type t u then returns (rank (cmp a b) == rank minus) else stops
  value_lt (f32_value a) (f32_value b) = returns (floats.f32_lt a b)
  value_lt (f64_value a) (f64_value b) = returns (floats.f64_lt a b)
  value_lt (real_value a) (real_value b) = returns (floats.f64_lt a b)
  value_lt a b = stops

  unfoldable pub value_gt : Value floats Other → Value floats Other → Outcome Bool
  unfolding cmp
  value_gt (boolean_value a) (boolean_value b) = returns (a && not b)
  value_gt (byte_value a) (byte_value b) = returns (ltb b a)
  value_gt (integer_value t a) (integer_value u b) =
      if same_type t u then returns (rank (cmp a b) == rank plus) else stops
  value_gt (f32_value a) (f32_value b) = returns (floats.f32_lt b a)
  value_gt (f64_value a) (f64_value b) = returns (floats.f64_lt b a)
  value_gt (real_value a) (real_value b) = returns (floats.f64_lt b a)
  value_gt a b = stops
