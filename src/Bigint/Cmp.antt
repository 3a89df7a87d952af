-- ===== src/Bigint/Cmp.antt =====
-- util.c: `bigint_cmp`, whose results -1, 0 and +1 are the three signs.
pub mod Order
use sunder.Prelude.{ℕ, zero, suc, List, ltb, if◌then◌else◌, length, get_or}
use sunder.Bigint.Repr.{Sign, minus, nought, plus, flip, rank, Bigint}

-- The loop over the limbs from the top, with `c` of them left to compare.
cmp_loop : List ℕ → List ℕ → Sign → ℕ → Sign
cmp_loop lhs rhs sign zero = nought
cmp_loop lhs rhs sign (suc c) =
    let lhs_limb = get_or lhs c 0 in
    let rhs_limb = get_or rhs c 0 in
    let rest = cmp_loop lhs rhs sign c in
    if ltb rhs_limb lhs_limb then sign else if ltb lhs_limb rhs_limb then flip sign else rest

unfoldable pub cmp : Bigint → Bigint → Sign
unfolding cmp_loop
cmp lhs rhs =
    if ltb (rank rhs.sign) (rank lhs.sign)
    then plus
    else if ltb (rank lhs.sign) (rank rhs.sign)
    then minus
    else let sign = lhs.sign in
      if ltb (length rhs.limbs) (length lhs.limbs)
      then sign
      else if ltb (length lhs.limbs) (length rhs.limbs)
      then flip sign
      else cmp_loop lhs.limbs rhs.limbs sign (length lhs.limbs)
