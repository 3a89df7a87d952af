-- ===== src/Bigint/Product/Loops.antt =====
-- The loops of `bigint_mul` add `u * v` to the number in `w`, and the carry always fits a limb.
use sunder.Prelude.{
  ℕ, zero, suc, ◌+◌, ◌*◌, ◌/◌, ◌%◌, ◌^◌, ◌≤◌, ◌<◌, List, [], ◌∷◌, Option, some, ◌≡◌, refl, ◌∙◌, ap,
  arith,
}
use sunder.Prelude.{true, length, get_or, set, drop, u8, u32, leb}
use sunder.Prelude.{length-set, get_or-set_ne}
use sunder.Bigint.Value.{magnitude, AllBytes}
use sunder.Bigint.Value.Limbs.{AllBytes-get, AllBytes-set, magnitude-set, magnitude-drop_step}
use sunder.Bigint.Sum.{limb}
use sunder.Bigint.Sum.Loops.{limb-eq-get_or}
use sunder.Bigint.Product.{row_loop}
use native.Mathlib.Nat.{pow-suc, zero-add}

suc_add : (m n : ℕ) → suc m + n ≡ suc (m + n)
suc_add m n = omega arith

pub pow-add : (m n : ℕ) → 256 ^ (m + n) ≡ 256 ^ m * 256 ^ n
pow-add zero n = rw (zero-add n) (omega arith)
pow-add (suc m) n = omega (
  arith,
  ap (λ (k : ℕ). 256 ^ k) (suc_add m n),
  pow-suc 256 (m + n),
  pow-add m n,
  ap (λ (t : ℕ). t * 256 ^ n) (pow-suc 256 m),
)

pub drop_end : (xs : List ℕ) (n : ℕ) → length xs ≤ n → magnitude (drop n xs) ≡ 0
drop_end [] zero h = refl
drop_end (x ∷ xs) zero h = absurd (omega arith)
drop_end [] (suc n) h = refl
drop_end (x ∷ xs) (suc n) h = drop_end xs n (omega arith)

-- What is known when the loop over `i` ends at the index `e` of `w`.
pub record RowEnds (r : Option (List ℕ × ℕ)) (w : List ℕ) (e total : ℕ) : Type 0 where
  pub out : List ℕ
  pub carry : ℕ
  pub returns : r ≡ some (out, carry)
  pub bytes : AllBytes out
  pub same_length : length out ≡ length w
  pub carry_fits : carry < 256
  pub above : (p : ℕ) → e ≤ p → get_or out p 0 ≡ get_or w p 0
  pub sum : magnitude out + carry * 256 ^ e ≡ total

-- One limb of a row: 255 * 255 + 255 + 255 is 65535.
limb_step : (a b c k : ℕ) → a < 256 → b < 256 → c < 256 → k < 256 → a * b + c + k < 65536
limb_step a b c k ha hb hc hk = grind arith

row_sum :
    (w w1 c p p' t k b x d d' : ℕ)
    → w1 + c * p ≡ w + t % 256 * p
    → t ≡ x * b + c + k
    → p' ≡ p * 256
    → d ≡ x + 256 * d'
    → w1 + (t / 256 + b * d') * p' ≡ w + (k + b * d) * p
row_sum w w1 c p p' t k b x d d' h ht hp hd =
    let split : t % 256 + 256 * (t / 256) ≡ x * b + c + k = omega arith in
    rw (hp, hd) (omega (arith, ap (λ (s : ℕ). s * p) split))

u8_mod : (t : ℕ) → u8 (t % 256) ≡ t % 256
u8_mod t = omega arith

small : (k : ℕ) → k ≤ 256 → leb k 256 ≡ true
small k h = ground arith

module _ (u v : List ℕ) (j : ℕ) (a : AllBytes u) (b : AllBytes v) where
  -- The value `t` of a round. It fits 16 bits, so `unsigned` does not wrap around.
  abbrev pub round : ℕ → List ℕ → ℕ → ℕ
  round i w k = get_or u i 0 * get_or v j 0 + get_or w (i + j) 0 + k

  abbrev pub written : ℕ → List ℕ → ℕ → List ℕ
  written i w k = set w (i + j) (round i w k % 256)

  round-lt : (i : ℕ) (w : List ℕ) (k : ℕ) → AllBytes w → k < 256 → round i w k < 65536
  round-lt i w k bytes hk =
      limb_step (get_or u i 0) (get_or v j 0) (get_or w (i + j) 0) k (AllBytes-get u i a)
        (AllBytes-get v j b) (AllBytes-get w (i + j) bytes) hk

  round_eq :
      (i : ℕ) (w : List ℕ) (k : ℕ)
      → AllBytes w
      → k < 256
      → u32 (u32 (u32 (limb u i * limb v j) + get_or w (i + j) 0) + k) ≡ round i w k
  round_eq i w k bytes hk =
      rw (limb-eq-get_or u i, limb-eq-get_or v j) (omega (arith, round-lt i w k bytes hk))

  row_loop-suc :
      (n i : ℕ) (w : List ℕ) (k : ℕ)
      → AllBytes w
      → k < 256
      → row_loop u v j (suc n) i w k ≡ row_loop u v j n (i + 1) (written i w k) (round i w k / 256)
  row_loop-suc n i w k bytes hk =
      unfold row_loop in
      rw (
        round_eq i w k bytes hk,
        u8_mod (round i w k),
        small (round i w k / 256) (omega (arith, round-lt i w k bytes hk)),
      )

  abbrev pub total : ℕ → List ℕ → ℕ → ℕ
  total i w k = magnitude w + (k + get_or v j 0 * magnitude (drop i u)) * 256 ^ (i + j)

  total-step :
      (i : ℕ) (w : List ℕ) (k : ℕ)
      → i + j < length w
      → total (i + 1) (written i w k) (round i w k / 256) ≡ total i w k
  total-step i w k h =
      let next : i + 1 + j ≡ suc (i + j) = omega arith in
      row_sum (magnitude w) (magnitude (written i w k)) (get_or w (i + j) 0) (256 ^ (i + j))
        (256 ^ (i + 1 + j)) (round i w k) k (get_or v j 0) (get_or u i 0) (magnitude (drop i u))
        (magnitude (drop (i + 1) u)) (magnitude-set w (i + j) (round i w k % 256) h) refl
        (rw next (pow-suc 256 (i + j))) (magnitude-drop_step i u)

  row_step :
      (n i e : ℕ) (w : List ℕ) (k : ℕ)
      → i + j < e
      → e ≤ length w
      → AllBytes w
      → k < 256
      → RowEnds
          (row_loop u v j n (i + 1) (written i w k) (round i w k / 256))
          (written i w k)
          e
          (total (i + 1) (written i w k) (round i w k / 256))
      → RowEnds (row_loop u v j (suc n) i w k) w e (total i w k)
  row_step n i e w k lt len bytes hk rest = record {
    out = rest.out;
    carry = rest.carry;
    returns = row_loop-suc n i w k bytes hk ∙ rest.returns;
    bytes = rest.bytes;
    same_length = rest.same_length ∙ length-set w (i + j) (round i w k % 256);
    carry_fits = rest.carry_fits;
    above = λ p h. rest.above p h ∙ get_or-set_ne w (i + j) p (round i w k % 256) 0 (omega arith);
    sum = rest.sum ∙ total-step i w k (omega arith);
  }

  pub row_loop_lem :
      (n i e : ℕ) (w : List ℕ) (k : ℕ)
      → i + n ≡ length u
      → i + j + n ≡ e
      → e ≤ length w
      → AllBytes w
      → k < 256
      → RowEnds (row_loop u v j n i w k) w e (total i w k)
  row_loop_lem zero i e w k iu ie len bytes hk = record {
    out = w;
    carry = k;
    returns = unfold row_loop in refl;
    bytes = bytes;
    same_length = refl;
    carry_fits = hk;
    above = λ p h. refl;
    sum = let ends : i + j ≡ e = omega arith in rw (ends, drop_end u i (omega arith)) (omega arith);
  }
  row_loop_lem (suc n) i e w k iu ie len bytes hk = row_step n i e w k (omega arith) len bytes hk (
      row_loop_lem n (i + 1) e (written i w k) (round i w k / 256) (omega arith) (omega arith)
        (omega (arith, length-set w (i + j) (round i w k % 256)))
        (AllBytes-set w (i + j) (round i w k % 256) (omega arith) bytes)
        (omega (arith, round-lt i w k bytes hk)))
