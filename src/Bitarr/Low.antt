-- ===== src/Bitarr/Low.antt =====
-- The low bits of an array, as the remainder of its number.
use sunder.Prelude.{ℕ, zero, suc, ◌+◌, ◌-◌, ◌*◌, ◌/◌, ◌%◌, ◌^◌, ◌<◌, ◌≡◌, refl, sym, ap, arith}
use sunder.Prelude.Int.{ℤ, pos, negsuc, nat_abs}
use native.Mathlib.Nat.{
  pow-suc, one-le-pow, add-mul-mod_self_left, mod-eq_of_lt, mod-add-div, mod-lt,
}
use native.Mathlib.Decide.{dec_le}
use sunder.Bitarr.Number.{digits_number, digits_number-lt}
use sunder.Bitarr.Convert.{wrapped}

abbrev high_number : (ℕ → ℕ) → ℕ → ℕ → ℕ
high_number d n zero = 0
high_number d n (suc k) = high_number d n k + d (k + n) * 2 ^ k

zero_plus : (n : ℕ) → 0 + n ≡ n
zero_plus n = omega arith

suc_plus : (k n : ℕ) → suc k + n ≡ suc (k + n)
suc_plus k n = omega arith

pub two-pow-plus : (k n : ℕ) → 2 ^ (k + n) ≡ 2 ^ n * 2 ^ k
two-pow-plus zero n = rw (zero_plus n) (omega arith)
two-pow-plus (suc k) n =
    rw (suc_plus k n)
      (omega (arith, two-pow-plus k n, pow-suc 2 (k + n), ap (λ (x : ℕ). 2 ^ n * x) (pow-suc 2 k)))

digits_split :
    (d : ℕ → ℕ) (n k : ℕ) → digits_number d (k + n) ≡ digits_number d n + 2 ^ n * high_number d n k
digits_split d n zero = rw (zero_plus n) (omega arith)
digits_split d n (suc k) =
    rw (suc_plus k n)
      (omega (arith, digits_split d n k, ap (λ (x : ℕ). d (k + n) * x) (two-pow-plus k n)))

-- The digits below `n` write the remainder modulo the power of two.
pub digits_number-mod :
    (d : ℕ → ℕ) (n k : ℕ)
    → ((i : ℕ) → d i < 2)
    → digits_number d n ≡ digits_number d (k + n) % 2 ^ n
digits_number-mod d n k h =
    rw (digits_split d n k, add-mul-mod_self_left (digits_number d n) (2 ^ n) (high_number d n k))
      (sym (mod-eq_of_lt (digits_number-lt d n h)))

-- An integer modulo the power of two.
abbrev pub residue : ℕ → ℤ → ℕ
residue n (pos m) = m % 2 ^ n
residue n (negsuc m) = 2 ^ n - 1 - m % 2 ^ n

pub residue-lt : (n : ℕ) (z : ℤ) → residue n z < 2 ^ n
residue-lt n (pos m) = mod-lt m (omega (arith, one-le-pow n 2 (omega arith)))
residue-lt n (negsuc m) = omega (arith, one-le-pow n 2 (omega arith))

below_product :
    (p s m q r : ℕ)
    → r + p * q ≡ m
    → r < p
    → m < p * s
    → p * s - suc m ≡ (p - 1 - r) + p * (s - 1 - q)
below_product p s m q r e lt h = elim (dec_le s q) [
  | yes le ↦
      let parts : q ≡ s + (q - s) = omega arith in
      absurd (omega (arith, e, lt, h, ap (λ (x : ℕ). p * x) parts))
  | no below ↦
      let parts : s ≡ suc q + (s - 1 - q) = omega arith in
      omega (arith, e, lt, h, ap (λ (x : ℕ). p * x) parts)
]

pub wrapped-mod :
    (n k : ℕ) (z : ℤ) → nat_abs z < 2 ^ (k + n) → wrapped (k + n) z % 2 ^ n ≡ residue n z
wrapped-mod n k (pos m) h = refl
wrapped-mod n k (negsuc m) h =
    let p = 2 ^ n in
    let positive = one-le-pow n 2 (omega arith) in
    let lt : m < p * 2 ^ k = omega (arith, h, two-pow-plus k n) in
    let split =
      below_product p (2 ^ k) m (m / p) (m % p) (mod-add-div m p)
        (mod-lt m (omega (arith, positive))) lt in
    rw (two-pow-plus k n, split, add-mul-mod_self_left (p - 1 - m % p) p (2 ^ k - 1 - m / p))
      (mod-eq_of_lt (omega (arith, positive)))
