-- ===== src/Bigint/Sum.antt =====
-- util.c: `bigint_add` and `bigint_sub`, which call one another once where the signs differ. The
-- calls take fuel, one unit each, and a call without fuel stops like a failed assertion.
pub mod Loops
pub mod Correct
pub mod Laws
use sunder.Prelude.{
  ℕ, zero, suc, ◌+◌, ◌-◌, ◌^◌, List, [], ◌∷◌, Option, none, some, Bool, ◌&&◌, ◌||◌,
}
use sunder.Prelude.{ltb, ◌==◌, if◌then◌else◌, length, get_or, u8, u32, assert, ◌>>◌, ◌>>=◌}
use sunder.Bigint.Repr.{Sign, minus, nought, plus, rank, Bigint, normalize, assign, neg}
use sunder.Bigint.Cmp.{cmp}

-- `i < count ? limbs[i] : 0`
abbrev pub limb : List ℕ → ℕ → ℕ
limb limbs i = if ltb i (length limbs) then get_or limbs i 0 else 0

abbrev pub has_sign : Sign → Bigint → Bool
has_sign s b = rank b.sign == rank s

module _ (lhs rhs : List ℕ) where
  -- The loop of `bigint_add` at index `i`, with `n` rounds left: the limbs that it writes, and
  -- the last carry.
  pub add_loop : ℕ → ℕ → ℕ → List ℕ × ℕ
  add_loop zero i carry = ([], carry)
  add_loop (suc n) i carry =
      let tot = u32 (u32 (limb lhs i + limb rhs i) + carry) in
      let (rest, last) = add_loop n (i + 1) (if ltb 255 tot then 1 else 0) in (u8 tot ∷ rest, last)

  -- The loop of `bigint_sub`, whose differences wrap around as `unsigned` values.
  pub sub_loop : ℕ → ℕ → ℕ → List ℕ × ℕ
  sub_loop zero i borrow = ([], borrow)
  sub_loop (suc n) i borrow =
      let tot = u32 (u32 (limb lhs i + 2 ^ 32 - limb rhs i) + 2 ^ 32 - borrow) in
      let (rest, last) = sub_loop n (i + 1) (if ltb 255 tot then 1 else 0) in (u8 tot ∷ rest, last)

-- `lhs->count > rhs->count ? lhs->count : rhs->count`
abbrev pub max_count : Bigint → Bigint → ℕ
max_count lhs rhs =
    if ltb (length rhs.limbs) (length lhs.limbs) then length lhs.limbs else length rhs.limbs

-- `bigint_add` behind its early returns.
pub add_magnitudes : Bigint → Bigint → Option Bigint
unfolding add_loop
add_magnitudes lhs rhs =
    assert (rank lhs.sign == rank rhs.sign)
    >> (let (limbs, carry) = add_loop lhs.limbs rhs.limbs (suc (max_count lhs rhs)) 0 0 in
        assert (carry == 0)
        >> some (assign (normalize (record { sign = lhs.sign; limbs = limbs }))))

-- The subtraction of `bigint_sub` when the operands have been put in order.
pub sub_ordered : Bool → Bigint → Bigint → Option Bigint
unfolding sub_loop
sub_ordered swapped lhs rhs =
    let (limbs, borrow) = sub_loop lhs.limbs rhs.limbs (max_count lhs rhs) 0 0 in
    let res : Bigint = record { sign = lhs.sign; limbs = limbs } in
    assert (borrow == 0) >> some (assign (normalize (if swapped then neg res else res)))

-- `bigint_sub` behind its early returns.
pub sub_magnitudes : Bigint → Bigint → Option Bigint
unfolding sub_ordered
sub_magnitudes lhs rhs =
    assert (rank lhs.sign == rank rhs.sign)
    >> (let order = cmp lhs rhs in
        let swapped =
          has_sign plus lhs && (rank order == rank minus)
          || has_sign minus lhs && (rank order == rank plus) in
        if swapped then sub_ordered swapped rhs lhs else sub_ordered swapped lhs rhs)

mutual
  add_calls : ℕ → Bigint → Bigint → Option Bigint
  add_calls zero lhs rhs = none
  add_calls (suc fuel) lhs rhs =
      let sub_rhs = sub_calls fuel lhs (neg rhs) in
      let sub_lhs = sub_calls fuel rhs (neg lhs) in
      if has_sign nought lhs
      then some (assign rhs)
      else if has_sign nought rhs
      then some (assign lhs)
      else if has_sign plus lhs && has_sign minus rhs
      then sub_rhs
      else if has_sign minus lhs && has_sign plus rhs
      then sub_lhs
      else add_magnitudes lhs rhs

  sub_calls : ℕ → Bigint → Bigint → Option Bigint
  sub_calls zero lhs rhs = none
  sub_calls (suc fuel) lhs rhs =
      let add_rhs = add_calls fuel lhs (neg rhs) in
      if has_sign nought lhs
      then some (neg rhs)
      else if has_sign nought rhs
      then some (assign lhs)
      else if has_sign plus lhs && has_sign minus rhs
      then add_rhs
      else if has_sign minus lhs && has_sign plus rhs
      then add_rhs
      else sub_magnitudes lhs rhs

-- Two units of fuel are enough: the second call finds equal signs.
pub add : Bigint → Bigint → Option Bigint
unfolding add_calls add_magnitudes
add lhs rhs = add_calls 2 lhs rhs

pub sub : Bigint → Bigint → Option Bigint
unfolding sub_calls sub_magnitudes
sub lhs rhs = sub_calls 2 lhs rhs
