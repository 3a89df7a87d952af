-- ===== src/Bigint/Sum/Loops.antt =====
-- The loops of `bigint_add` and `bigint_sub` write the sum and the difference, and end without
-- carry or borrow.
use sunder.Prelude.{ℕ, zero, suc, ◌+◌, ◌^◌, ◌≤◌, ◌<◌, List, ◌≡◌, arith, get_or, drop}
use sunder.Prelude.{get_or_out}
use sunder.Bigint.Value.{magnitude, AllBytes}
use sunder.Bigint.Value.Limbs.{AllBytes-get, magnitude-drop_step}
use sunder.Bigint.Sum.{limb, add_loop, sub_loop}
use native.Mathlib.Nat.{pow-suc}

pub limb-eq-get_or : (xs : List ℕ) (i : ℕ) → limb xs i ≡ get_or xs i 0
limb-eq-get_or xs i = ground (arith, get_or_out xs i 0)

module _ (xs ys : List ℕ) (a : AllBytes xs) (b : AllBytes ys) where
  pub add_loop_lem :
      (n i carry : ℕ)
      → carry ≤ 1
      → magnitude (drop i xs) + magnitude (drop i ys) + carry < 256 ^ n
      → AllBytes (add_loop xs ys n i carry).0
        × (magnitude (add_loop xs ys n i carry).0
            ≡ magnitude (drop i xs) + magnitude (drop i ys) + carry)
        × ((add_loop xs ys n i carry).1 ≡ 0)
  unfolding add_loop
  add_loop_lem zero i carry c h = (tt, omega arith, omega arith)
  add_loop_lem (suc n) i carry c h = ground (
    arith,
    pow-suc 256 n,
    limb-eq-get_or xs i,
    limb-eq-get_or ys i,
    AllBytes-get xs i a,
    AllBytes-get ys i b,
    magnitude-drop_step i xs,
    magnitude-drop_step i ys,
    add_loop_lem n (i + 1) 0,
    add_loop_lem n (i + 1) 1,
  )

  pub sub_loop_lem :
      (n i borrow : ℕ)
      → borrow ≤ 1
      → magnitude (drop i ys) + borrow ≤ magnitude (drop i xs)
      → magnitude (drop i xs) < 256 ^ n
      → AllBytes (sub_loop xs ys n i borrow).0
        × (magnitude (sub_loop xs ys n i borrow).0 + magnitude (drop i ys) + borrow
            ≡ magnitude (drop i xs))
        × ((sub_loop xs ys n i borrow).1 ≡ 0)
  unfolding sub_loop
  sub_loop_lem zero i borrow c h k = (tt, omega arith, omega arith)
  sub_loop_lem (suc n) i borrow c h k = ground (
    arith,
    pow-suc 256 n,
    limb-eq-get_or xs i,
    limb-eq-get_or ys i,
    AllBytes-get xs i a,
    AllBytes-get ys i b,
    magnitude-drop_step i xs,
    magnitude-drop_step i ys,
    sub_loop_lem n (i + 1) 0,
    sub_loop_lem n (i + 1) 1,
  )
