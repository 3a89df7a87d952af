-- ===== src/Bigint/Product/Rows.antt =====
-- The loop over the limbs of the right operand.
use sunder.Prelude.{
  ℕ, zero, suc, ◌+◌, ◌*◌, ◌^◌, ◌≤◌, ◌<◌, List, Option, some, ◌≡◌, refl, ◌∙◌, ap, arith,
}
use sunder.Prelude.{length, get_or, set, drop, u8, ◌==◌, length-set, Bool-cases, inl, inr}
use sunder.Bigint.Value.{magnitude, AllBytes}
use sunder.Bigint.Value.Limbs.{
  AllBytes-get, AllBytes-set, magnitude-set, magnitude-drop_step, magnitude-lt, get_or_above,
}
use sunder.Bigint.Product.Loops.{RowEnds, row_loop_lem, total, pow-add, drop_end}
use sunder.Bigint.Product.{row_loop, row, rows}
use native.Mathlib.Nat.{pow-suc, zero-add}

-- A loop that goes on, and leaves `total` in `w`.
pub record Adds (r : Option (List ℕ)) (w : List ℕ) (total : ℕ) : Type 0 where
  pub out : List ℕ
  pub returns : r ≡ some out
  pub bytes : AllBytes out
  pub same_length : length out ≡ length w
  pub sum : magnitude out ≡ total

-- A limb that is zero is overwritten.
magnitude-set_zero :
    (w : List ℕ) (p x q : ℕ)
    → p < length w
    → get_or w p 0 ≡ 0
    → magnitude w + x * 256 ^ p ≡ q
    → magnitude (set w p x) ≡ q
magnitude-set_zero w p x q h z e =
    omega (arith, magnitude-set w p x h, ap (λ (t : ℕ). t * 256 ^ p) z)

mul_bound : (x n m : ℕ) → x < 256 → n < m → x * n ≤ 255 * m
mul_bound x n m h k = grind arith

row_bound : (w x n p m : ℕ) → w < p * m → x < 256 → n < m → w + x * n * p < p * m * 256
row_bound w x n p m h hx hn =
    let scaled : x * n * p ≤ 255 * m * p = grind (arith, mul_bound x n m hx hn) in omega arith

module _ (u v : List ℕ) (a : AllBytes u) (b : AllBytes v) where
  row_lem :
      (j : ℕ) (w : List ℕ)
      → j + length u < length w
      → AllBytes w
      → magnitude w < 256 ^ (j + length u)
      → Adds (row u v j (length u) w) w (magnitude w + get_or v j 0 * magnitude u * 256 ^ j)
  row_lem j w h bytes lt = elim (Bool-cases (get_or v j 0 == 0)) [
    | inl e ↦ record {
      out = set w (j + length u) 0;
      returns = unfold row in rw e;
      bytes = AllBytes-set w (j + length u) 0 (omega arith) bytes;
      same_length = length-set w (j + length u) 0;
      sum =
          let z : get_or v j 0 ≡ 0 = ground arith in
          magnitude-set_zero w (j + length u) 0 _ h (get_or_above w (j + length u) lt)
            (rw z (omega arith));
    }
    | inr e ↦
        let r : RowEnds (row_loop u v j (length u) 0 w 0) w (j + length u) (total u v j a b 0 w 0) =
          row_loop_lem u v j a b (length u) 0 (j + length u) w 0 (omega arith) (omega arith)
            (omega arith) bytes (omega arith) in
        let free : get_or r.out (j + length u) 0 ≡ 0 =
          r.above (j + length u) (omega arith) ∙ get_or_above w (j + length u) lt in
        let byte : u8 r.carry ≡ r.carry = omega (arith, r.carry_fits) in
        record {
          out = set r.out (j + length u) r.carry;
          returns = unfold row in rw (e, r.returns, byte);
          bytes = AllBytes-set r.out (j + length u) r.carry r.carry_fits r.bytes;
          same_length = length-set r.out (j + length u) r.carry ∙ r.same_length;
          sum =
              magnitude-set_zero r.out (j + length u) r.carry _ (rw r.same_length h) free
                (r.sum ∙ rw (zero-add j) (omega arith));
        }
  ]

  rows-suc :
      (n j : ℕ) (w w' : List ℕ)
      → row u v j (length u) w ≡ some w'
      → rows u v (length u) (suc n) j w ≡ rows u v (length u) n (j + 1) w'
  rows-suc n j w w' e = unfold rows in rw e

  next_bound :
      (j m t : ℕ)
      → m < 256 ^ (j + length u)
      → t ≡ m + get_or v j 0 * magnitude u * 256 ^ j
      → t < 256 ^ (j + 1 + length u)
  next_bound j m t lt e =
      let shift : j + 1 + length u ≡ suc (j + length u) = omega arith in
      let split = pow-add j (length u) in
      rw (e, shift, pow-suc 256 (j + length u), split)
        (row_bound m (get_or v j 0) (magnitude u) (256 ^ j) (256 ^ length u) (rw split at lt)
          (AllBytes-get v j b) (magnitude-lt u a))

  next_sum :
      (j m t : ℕ)
      → t ≡ m + get_or v j 0 * magnitude u * 256 ^ j
      → t + magnitude u * magnitude (drop (j + 1) v) * 256 ^ (j + 1)
        ≡ m + magnitude u * magnitude (drop j v) * 256 ^ j
  next_sum j m t e =
      let next : j + 1 ≡ suc j = omega arith in
      rw (magnitude-drop_step j v, next, pow-suc 256 j) (omega arith)

  pub rows_lem :
      (n j : ℕ) (w : List ℕ)
      → j + n ≡ length v
      → length w ≡ length u + length v
      → AllBytes w
      → magnitude w < 256 ^ (j + length u)
      → Adds
          (rows u v (length u) n j w)
          w
          (magnitude w + magnitude u * magnitude (drop j v) * 256 ^ j)
  rows_lem zero j w e len bytes lt = record {
    out = w;
    returns = unfold rows in refl;
    bytes = bytes;
    same_length = refl;
    sum = rw (drop_end v j (omega arith)) (omega arith);
  }
  rows_lem (suc n) j w e len bytes lt =
      let done = row_lem j w (omega arith) bytes lt in
      let rest =
        rows_lem n (j + 1) done.out (omega arith) (done.same_length ∙ len) done.bytes
          (next_bound j (magnitude w) (magnitude done.out) lt done.sum) in
      record {
        out = rest.out;
        returns = rows-suc n j w done.out done.returns ∙ rest.returns;
        bytes = rest.bytes;
        same_length = rest.same_length ∙ done.same_length;
        sum = rest.sum ∙ next_sum j (magnitude w) (magnitude done.out) done.sum;
      }
