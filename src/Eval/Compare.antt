-- ===== src/Eval/Compare.antt =====
-- The comparisons of integers.
use sunder.Prelude.{
  ℕ, ◌+◌, Option, Bool, true, false, not, ◌==◌, ltb, leb, ◌≡◌, refl, ap, arith, List, if◌then◌else◌,
}
use sunder.Prelude.Int.{ℤ, pos_part, neg_part}
use sunder.Bigint.Repr.{Bigint, minus, nought, plus, rank}
use sunder.Bigint.Value.{value, IsValid}
use sunder.Bigint.Cmp.Order.{order, cmp-eq-order}
use sunder.Eval.Types.{DataType, Arch}
use sunder.Eval.Values.{
  Floats, Value, boolean_value, integer_value, Outcome, returns, and_then, value_eq, value_lt,
  value_gt,
}
use sunder.Eval.Arithmetic.{same_type_self}
use sunder.Eval.Operators.{
  Bop, bop_eq, bop_ne, bop_le, bop_lt, bop_ge, bop_gt, binary_cases, eval_binary,
}

-- The comparisons, with the tests of numbers that they stand for.
pub data Comparison : Bop → (ℕ → ℕ → Bool) → Type 0 where
  compare_eq : Comparison bop_eq (λ m n. m == n)
  compare_ne : Comparison bop_ne (λ m n. not (m == n))
  compare_le : Comparison bop_le (λ m n. leb m n)
  compare_lt : Comparison bop_lt (λ m n. ltb m n)
  compare_ge : Comparison bop_ge (λ m n. leb n m)
  compare_gt : Comparison bop_gt (λ m n. ltb n m)

-- A test of two integers, each side of it with the negative part of the other.
abbrev pub on_integers : (ℕ → ℕ → Bool) → ℤ → ℤ → Bool
on_integers test x y = test (pos_part x + neg_part y) (pos_part y + neg_part x)

order_eq : (x y : ℤ) → (rank (order x y) == rank nought) ≡ on_integers (λ m n. m == n) x y
order_eq x y = ground arith

order_lt : (x y : ℤ) → (rank (order x y) == rank minus) ≡ on_integers (λ m n. ltb m n) x y
order_lt x y = ground arith

order_gt : (x y : ℤ) → (rank (order x y) == rank plus) ≡ on_integers (λ m n. ltb n m) x y
order_gt x y = ground arith

lt_or_eq : (m n : ℕ) → (if ltb m n then true else m == n) ≡ leb m n
lt_or_eq m n = ground arith

gt_or_eq : (m n : ℕ) → (if ltb n m then true else m == n) ≡ leb n m
gt_or_eq m n = ground arith

module _ (arch : Arch) (floats : Floats) (Other : DataType → Type 0) (strtoumax : List ℕ → Option ℕ)
    (same_other : (t : DataType) → Other t → (u : DataType) → Other u → Outcome Bool) where
  eq_lem :
      (t : DataType) (a b : Bigint)
      → IsValid a
      → IsValid b
      → value_eq floats Other same_other (integer_value t a) (integer_value t b)
        ≡ returns (on_integers (λ m n. m == n) (value a) (value b))
  unfolding value_eq
  eq_lem t a b va vb =
      rw (same_type_self arch floats Other t, cmp-eq-order a b va vb)
        (ap returns (order_eq (value a) (value b)))

  lt_lem :
      (t : DataType) (a b : Bigint)
      → IsValid a
      → IsValid b
      → value_lt floats Other (integer_value t a) (integer_value t b)
        ≡ returns (on_integers (λ m n. ltb m n) (value a) (value b))
  unfolding value_lt
  lt_lem t a b va vb =
      rw (same_type_self arch floats Other t, cmp-eq-order a b va vb)
        (ap returns (order_lt (value a) (value b)))

  gt_lem :
      (t : DataType) (a b : Bigint)
      → IsValid a
      → IsValid b
      → value_gt floats Other (integer_value t a) (integer_value t b)
        ≡ returns (on_integers (λ m n. ltb n m) (value a) (value b))
  unfolding value_gt
  gt_lem t a b va vb =
      rw (same_type_self arch floats Other t, cmp-eq-order a b va vb)
        (ap returns (order_gt (value a) (value b)))

  settled :
      (first second whole : Bool)
      → (if first then true else second) ≡ whole
      → and_then {B = Value floats Other}
          (if first then returns true else returns second)
          (λ b. returns (boolean_value b))
        ≡ returns (boolean_value whole)
  settled true second whole e = ap (λ (b : Bool). returns (boolean_value b)) e
  settled false second whole e = ap (λ (b : Bool). returns (boolean_value b)) e

  -- On valid integers of one type, the six comparisons return the boolean that says whether the
  -- integers stand in that order.
  pub eval_binary-returns :
      (op : Bop) (test : ℕ → ℕ → Bool) (result t : DataType) (a b : Bigint)
      → Comparison op test
      → IsValid a
      → IsValid b
      → eval_binary arch floats Other strtoumax same_other result op
          (integer_value t a)
          (integer_value t b)
        ≡ returns (boolean_value (on_integers test (value a) (value b)))
  unfolding eval_binary binary_cases
  eval_binary-returns op test result t a b compare_eq va vb = rw (eq_lem t a b va vb) refl
  eval_binary-returns op test result t a b compare_ne va vb = rw (eq_lem t a b va vb) refl
  eval_binary-returns op test result t a b compare_lt va vb = rw (lt_lem t a b va vb) refl
  eval_binary-returns op test result t a b compare_gt va vb = rw (gt_lem t a b va vb) refl
  eval_binary-returns op test result t a b compare_le va vb =
      let x = pos_part (value a) + neg_part (value b) in
      let y = pos_part (value b) + neg_part (value a) in
      rw (lt_lem t a b va vb, eq_lem t a b va vb)
        (settled (ltb x y) (x == y) (leb x y) (lt_or_eq x y))
  eval_binary-returns op test result t a b compare_ge va vb =
      let x = pos_part (value a) + neg_part (value b) in
      let y = pos_part (value b) + neg_part (value a) in
      rw (gt_lem t a b va vb, eq_lem t a b va vb)
        (settled (ltb y x) (x == y) (leb y x) (gt_or_eq x y))
