-- ===== src/Bigint/Cmp/Order.antt =====
-- `bigint_cmp` compares the numbers.
use sunder.Prelude.{
  ℕ, zero, suc, ◌+◌, ◌*◌, ◌^◌, ◌≤◌, ◌<◌, List, ◌≡◌, refl, arith, length, get_or, take, [], ◌∷◌,
}
use sunder.Prelude.{ltb, ◌==◌, if◌then◌else◌, take_all}
use sunder.Prelude.Int.{ℤ, pos_part, neg_part}
use sunder.Bigint.Repr.{Sign, minus, nought, plus, Bigint, sign_mul}
use sunder.Bigint.Value.{magnitude, value, AllBytes, IsTrimmed, IsValid}
use sunder.Bigint.Value.Limbs.{magnitude-take-suc}
use sunder.Bigint.Value.Normal.{pow-le-magnitude, valid-IsSigned}
use native.Mathlib.Nat.{pow-suc, one-le-pow}
use sunder.Bigint.Cmp.{cmp_loop, cmp}

abbrev pub order_ℕ : ℕ → ℕ → Sign
order_ℕ m n = if ltb m n then minus else if m == n then nought else plus

-- The sign of the difference of two integers.
abbrev pub order : ℤ → ℤ → Sign
order a b = order_ℕ (pos_part a + neg_part b) (pos_part b + neg_part a)

pub magnitude-take-lt : (xs : List ℕ) (c : ℕ) → AllBytes xs → magnitude (take c xs) < 256 ^ c
magnitude-take-lt xs zero h = omega arith
magnitude-take-lt [] (suc c) h = omega (arith, one-le-pow (suc c) 256 (omega arith))
magnitude-take-lt (x ∷ xs) (suc c) h = omega (arith, magnitude-take-lt xs c h.1, pow-suc 256 c)

mul_lt : (x y p : ℕ) → x < y → x * p + p ≤ y * p
mul_lt x y p h = grind arith

-- One more limb on top decides, unless the two are equal.
top_limb :
    (m n x y p : ℕ)
    → m < p
    → n < p
    → order_ℕ (m + x * p) (n + y * p)
      ≡ (if ltb y x then plus else if ltb x y then minus else order_ℕ m n)
top_limb m n x y p hm hn = ground (arith, mul_lt x y p, mul_lt y x p)

cmp_loop_lem :
    (xs ys : List ℕ) (s : Sign) (c : ℕ)
    → AllBytes xs
    → AllBytes ys
    → cmp_loop xs ys s c ≡ sign_mul s (order_ℕ (magnitude (take c xs)) (magnitude (take c ys)))
unfolding cmp_loop
cmp_loop_lem xs ys s zero a b = ground arith
cmp_loop_lem xs ys s (suc c) a b = ground (
  arith,
  magnitude-take-suc c xs,
  magnitude-take-suc c ys,
  cmp_loop_lem xs ys s c a b,
  top_limb (magnitude (take c xs)) (magnitude (take c ys)) (get_or xs c 0) (get_or ys c 0) (256 ^ c)
      (magnitude-take-lt xs c a) (magnitude-take-lt ys c b),
)

-- A longer array of trimmed limbs is a larger number.
longer :
    (xs ys : List ℕ)
    → AllBytes ys
    → IsTrimmed xs
    → length ys < length xs
    → magnitude ys < magnitude xs
longer [] ys b h lt = absurd (omega arith)
longer (x ∷ xs) [] b h lt =
    omega (
      arith,
      pow-le-magnitude (x ∷ xs) (length xs) refl h,
      one-le-pow (length xs) 256 (omega arith),
    )
longer (x ∷ []) (z ∷ ys) b h lt = absurd (omega arith)
longer (x ∷ y ∷ xs) (z ∷ ys) b h lt = omega (arith, longer (y ∷ xs) ys b.1 h (omega arith), b.0)

pub cmp-eq-order : (l r : Bigint) → IsValid l → IsValid r → cmp l r ≡ order (value l) (value r)
unfolding cmp
cmp-eq-order l r vl vr = ground (
  arith,
  valid-IsSigned l vl,
  valid-IsSigned r vr,
  longer l.limbs r.limbs vr.bytes vl.trimmed,
  longer r.limbs l.limbs vl.bytes vr.trimmed,
  cmp_loop_lem l.limbs r.limbs l.sign (length l.limbs) vl.bytes vr.bytes,
  take_all (length l.limbs) l.limbs,
  take_all (length l.limbs) r.limbs,
)
