-- ===== src/Bigint/Magnitude/Digits.antt =====
-- `bigint_magnitude_bit_get` reads and `bigint_magnitude_bit_set` writes a binary digit of the
-- magnitude, and `bigint_magnitude_bit_count` is the number of its digits.
use sunder.Prelude.{ℕ, zero, suc, ◌+◌, ◌*◌, ◌/◌, ◌%◌, ◌^◌, ◌≤◌, ◌<◌, List, [], ◌∷◌, ◌≡◌, ap, arith}
use sunder.Prelude.{get_or, u8, bit_and, get_or_out, if◌then◌else◌, ◌==◌}
use sunder.Prelude.Bits.{bit, bit-lt, bit_and_mask, zero-bit, two-pow-lt}
use sunder.Bigint.Repr.{Bigint}
use sunder.Bigint.Value.{magnitude, AllBytes, IsValid}
use sunder.Bigint.Magnitude.{bit_get}
use native.Mathlib.Numerals.{towards_suc}
use native.Mathlib.Nat.{pow-suc, one-le-pow}

-- Eight binary digits make a limb.
bit-add_eight : (m n : ℕ) → bit m (n + 8) ≡ bit (m / 256) n
bit-add_eight m n =
    let e : n + 8 ≡ suc (suc (suc (suc (suc (suc (suc (suc n))))))) = omega arith in
    let d : m / 2 / 2 / 2 / 2 / 2 / 2 / 2 / 2 ≡ m / 256 = omega arith in rw (e, d)

bit_below : (k n x m : ℕ) → k < n → bit (x + 2 ^ n * m) k ≡ bit x k
bit_below k zero x m h = absurd (omega arith)
bit_below zero (suc n) x m h = omega (arith, ap (λ (t : ℕ). t * m) (pow-suc 2 n))
bit_below (suc k) (suc n) x m h =
    let half : (x + 2 ^ suc n * m) / 2 ≡ x / 2 + 2 ^ n * m =
      omega (arith, ap (λ (t : ℕ). t * m) (pow-suc 2 n)) in
    rw half (bit_below k n (x / 2) m (omega arith))

bit-magnitude :
    (i : ℕ) (xs : List ℕ) (k : ℕ)
    → AllBytes xs
    → k < 8
    → bit (magnitude xs) (i * 8 + k) ≡ bit (get_or xs i 0) k
bit-magnitude i [] k b h = rw (zero-bit (i * 8 + k), zero-bit k)
bit-magnitude zero (x ∷ xs) k b h =
    let e : 0 * 8 + k ≡ k = omega arith in rw e (bit_below k 8 x (magnitude xs) h)
bit-magnitude (suc i) (x ∷ xs) k b h =
    let e : suc i * 8 + k ≡ i * 8 + k + 8 = omega arith in
    let d : (x + 256 * magnitude xs) / 256 ≡ magnitude xs = omega (arith, b.0) in
    rw (e, bit-add_eight (x + 256 * magnitude xs) (i * 8 + k), d) (bit-magnitude i xs k b.1 h)

-- The digit at `n` stands in the limb at `n / 8`.
pub digit_lem :
    (xs : List ℕ) (n : ℕ) → AllBytes xs → bit (magnitude xs) n ≡ bit (get_or xs (n / 8) 0) (n % 8)
digit_lem xs n b =
    let e : n / 8 * 8 + n % 8 ≡ n = omega arith in
    rw e at (bit-magnitude (n / 8) xs (n % 8) b (omega arith))

two-pow-add_eight : (n : ℕ) → 2 ^ (n + 8) ≡ 256 * 2 ^ n
two-pow-add_eight n = simp towards_suc (simp pow-suc (omega arith))

pub two-pow_split : (i k : ℕ) → 2 ^ (i * 8 + k) ≡ 256 ^ i * 2 ^ k
two-pow_split zero k = let e : 0 * 8 + k ≡ k = omega arith in rw e (omega arith)
two-pow_split (suc i) k =
    let e : suc i * 8 + k ≡ i * 8 + k + 8 = omega arith in
    rw (e, two-pow-add_eight (i * 8 + k), pow-suc 256 i) (omega (arith, two-pow_split i k))

pub two-pow_place : (n : ℕ) → 2 ^ n ≡ 256 ^ (n / 8) * 2 ^ (n % 8)
two-pow_place n =
    let e : n / 8 * 8 + n % 8 ≡ n = omega arith in rw e at (two-pow_split (n / 8) (n % 8))

-- A mask of one digit fits a byte.
pub mask_lem : (k : ℕ) → k < 8 → u8 (2 ^ k) ≡ 2 ^ k
mask_lem k h = omega (arith, two-pow-lt k 8 h)

digit_test : (d p : ℕ) → d < 2 → 1 ≤ p → (if d * p == 0 then 0 else 1) ≡ d
digit_test zero p h k = let e : 0 * p ≡ 0 = omega arith in rw e
digit_test (suc zero) p h k = let e : 1 * p ≡ p = omega arith in rw e (ground arith)
digit_test (suc (suc d)) p h k = absurd (omega arith)

bit_and_test : (x k : ℕ) → k < 8 → (if bit_and x (u8 (2 ^ k)) == 0 then 0 else 1) ≡ bit x k
bit_and_test x k h =
    rw (mask_lem k h, bit_and_mask x k)
      (digit_test (bit x k) (2 ^ k) (bit-lt x k) (one-le-pow k 2 (omega arith)))

-- `bigint_magnitude_bit_get` reads the digit at `n`, at any `n`.
pub bit_get-eq-bit : (b : Bigint) (n : ℕ) → IsValid b → bit_get b n ≡ bit (magnitude b.limbs) n
unfolding bit_get
bit_get-eq-bit b n v = ground (
  arith,
  digit_lem b.limbs n v.bytes,
  bit_and_test (get_or b.limbs (n / 8) 0) (n % 8),
  get_or_out b.limbs (n / 8) 0,
  zero-bit (n % 8),
)
