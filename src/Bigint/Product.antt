-- ===== src/Bigint/Product.antt =====
-- util.c: `bigint_mul`, Algorithm M of Knuth on bytes. The loops work in place on the limbs `w` of
-- the product.
pub mod Loops
mod Rows
pub mod Laws
use sunder.Prelude.{ℕ, zero, suc, ◌+◌, ◌*◌, ◌/◌, ◌%◌, List, Option, some}
use sunder.Prelude.{leb, ◌==◌, if◌then◌else◌, length, get_or, set, u8, u32, assert, ◌>>◌, ◌>>=◌}
use sunder.Bigint.Repr.{sign_mul, nought, Bigint, bigint_zero, resize, normalize, assign}
use sunder.Bigint.Sum.{limb, has_sign}

module _ (u v : List ℕ) (j : ℕ) where
  -- The loop over `i`, with `n` rounds left.
  pub row_loop : ℕ → ℕ → List ℕ → ℕ → Option (List ℕ × ℕ)
  row_loop zero i w k = some (w, k)
  row_loop (suc n) i w k =
      let t = u32 (u32 (u32 (limb u i * limb v j) + get_or w (i + j) 0) + k) in
      let rest = row_loop n (i + 1) (set w (i + j) (u8 (t % 256))) (t / 256) in
      assert (leb (t / 256) 256) >> rest

  -- The body of the loop over `j`.
  pub row : ℕ → List ℕ → Option (List ℕ)
  unfolding row_loop
  row m w =
      if get_or v j 0 == 0
      then some (set w (j + m) 0)
      else row_loop m 0 w 0 >>= λ (w', k). some (set w' (j + m) (u8 k))

-- The loop over `j`, with `n` rounds left.
pub rows : (u v : List ℕ) → ℕ → ℕ → ℕ → List ℕ → Option (List ℕ)
unfolding row
rows u v m zero j w = some w
rows u v m (suc n) j w = row u v j m w >>= λ w'. rows u v m n (j + 1) w'

pub mul : Bigint → Bigint → Option Bigint
unfolding rows
mul lhs rhs =
    if has_sign nought lhs
    then some (assign bigint_zero)
    else if has_sign nought rhs
    then some (assign bigint_zero)
    else let m = length lhs.limbs in
      let n = length rhs.limbs in
      rows lhs.limbs rhs.limbs m n 0 (resize bigint_zero (m + n)).limbs >>= λ w.
      let res : Bigint = record { sign = sign_mul lhs.sign rhs.sign; limbs = w } in
      some (assign (normalize res))
