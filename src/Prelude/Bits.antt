-- ===== src/Prelude/Bits.antt =====
-- Binary digits, and masks of one bit at every width: operations on words as arithmetic.
use Prim.Native.Nat.{min, max, digits, bitwise, bit_and-bitwise, bit_or-bitwise, bit_and, bit_or}
use Prim.Native.Nat.{ℕ, zero, suc, ◌+◌, ◌-◌, ◌*◌, ◌/◌, ◌%◌, ◌^◌, ◌≤◌, ◌<◌}
use mathlib.Core.Path.{◌≡◌, refl, ◌∙◌, ap}
use native.Mathlib.Nat.{le_refl, pow-suc, one-le-pow, pow-le-pow_right}
use native.Mathlib.Omega.{arith}

-- `m` without its `k` lowest binary digits.
abbrev pub shift_right : ℕ → ℕ → ℕ
shift_right m zero = m
shift_right m (suc k) = shift_right (m / 2) k

-- The binary digit of `m` at `k`.
abbrev pub bit : ℕ → ℕ → ℕ
bit m zero = m % 2
bit m (suc k) = bit (m / 2) k

pub bit-lt : (m k : ℕ) → bit m k < 2
bit-lt m zero = omega arith
bit-lt m (suc k) = bit-lt (m / 2) k

pub shift_right-bit : (m k : ℕ) → shift_right m k ≡ 2 * shift_right m (suc k) + bit m k
shift_right-bit m zero = omega arith
shift_right-bit m (suc k) = shift_right-bit (m / 2) k

pub shift_right-eq-zero : (m k : ℕ) → m < 2 ^ k → shift_right m k ≡ 0
shift_right-eq-zero m zero h = omega arith
shift_right-eq-zero m (suc k) h = shift_right-eq-zero (m / 2) k (omega (arith, pow-suc 2 k))

pub zero-bit : (k : ℕ) → bit 0 k ≡ 0
zero-bit zero = refl
zero-bit (suc k) = zero-bit k

pub bit_of_lt : (m k : ℕ) → m < 2 ^ k → bit m k ≡ 0
bit_of_lt m zero h = omega arith
bit_of_lt m (suc k) h = bit_of_lt (m / 2) k (omega (arith, pow-suc 2 k))

-- What a native operation stands for is a recursion on fuel. A unit of fuel more than the first
-- operand changes nothing, so any surplus does not; that leaves one equation for the last digit.
module _ (rest : ℕ → ℕ) (op : ℕ → ℕ → ℕ) where
  spare_unit : (fuel x y : ℕ) → x ≤ fuel → digits rest op (suc fuel) x y ≡ digits rest op fuel x y
  spare_unit fuel zero y enough = both_empty fuel y
    where
      both_empty : (k v : ℕ) → digits rest op (suc k) 0 v ≡ digits rest op k 0 v
      both_empty zero v = refl
      both_empty (suc k) v = refl
  spare_unit zero (suc x) y enough = elim enough [ ]
  spare_unit (suc fuel) (suc x) y enough =
      ap (λ (h : ℕ). h * 2 + op (suc x % 2) (y % 2))
        (spare_unit fuel (suc x / 2) (y / 2) (omega arith))

  surplus :
      (extra fuel x y : ℕ) → x ≤ fuel → digits rest op (extra + fuel) x y ≡ digits rest op fuel x y
  surplus zero fuel x y enough = let none_more : 0 + fuel ≡ fuel = omega arith in rw none_more
  surplus (suc extra) fuel x y enough =
      let one_more : suc extra + fuel ≡ suc (extra + fuel) = omega arith in
      rw one_more (spare_unit (extra + fuel) x y (omega arith) ∙ surplus extra fuel x y enough)

  last_digit :
      (x y : ℕ)
      → bitwise rest op (suc x) y ≡ bitwise rest op (suc x / 2) (y / 2) * 2 + op (suc x % 2) (y % 2)
  last_digit x y =
      let used : x - suc x / 2 + suc x / 2 ≡ x = omega arith in
      ap (λ (h : ℕ). h * 2 + op (suc x % 2) (y % 2))
        (rw used at (surplus (x - suc x / 2) (suc x / 2) (suc x / 2) (y / 2) (le_refl _)))

pub bit_or_last : (x y : ℕ) → bit_or x y ≡ bit_or (x / 2) (y / 2) * 2 + max (x % 2) (y % 2)
bit_or_last (suc x) y =
    bit_or-bitwise (suc x) y ∙ last_digit (λ d. d) max x y ∙ rw (bit_or-bitwise (suc x / 2) (y / 2))
bit_or_last zero y = rw (bit_or-bitwise 0 y, bit_or-bitwise 0 (y / 2)) (omega arith)

pub bit_and_last : (x y : ℕ) → bit_and x y ≡ bit_and (x / 2) (y / 2) * 2 + min (x % 2) (y % 2)
bit_and_last (suc x) y =
    bit_and-bitwise (suc x) y
    ∙ last_digit (λ d. 0) min x y
    ∙ rw (bit_and-bitwise (suc x / 2) (y / 2))
bit_and_last zero y = rw (bit_and-bitwise 0 y, bit_and-bitwise 0 (y / 2)) (omega arith)

-- Both go from `a / 2` to `a`; the second argument bounds the first.
bit_or-zero_below : (n a : ℕ) → a ≤ n → bit_or a 0 ≡ a
bit_or-zero_below n zero h = refl
bit_or-zero_below zero (suc a) h = absurd (omega arith)
bit_or-zero_below (suc n) (suc a) h =
    omega (arith, bit_or_last (suc a) 0, bit_or-zero_below n (suc a / 2) (omega arith))

bit_and-zero_below : (n a : ℕ) → a ≤ n → bit_and a 0 ≡ 0
bit_and-zero_below n zero h = refl
bit_and-zero_below zero (suc a) h = absurd (omega arith)
bit_and-zero_below (suc n) (suc a) h =
    omega (arith, bit_and_last (suc a) 0, bit_and-zero_below n (suc a / 2) (omega arith))

pub bit_or-zero : (a : ℕ) → bit_or a 0 ≡ a
bit_or-zero a = bit_or-zero_below a a (le_refl a)

pub bit_and-zero : (a : ℕ) → bit_and a 0 ≡ 0
bit_and-zero a = bit_and-zero_below a a (le_refl a)

half-two-pow : (k : ℕ) → 2 ^ suc k / 2 ≡ 2 ^ k
half-two-pow k = omega (arith, pow-suc 2 k)

odd-two-pow : (k : ℕ) → 2 ^ suc k % 2 ≡ 0
odd-two-pow k = omega (arith, pow-suc 2 k)

-- `w & (1 << k)` is the digit at `k`, in its place.
pub bit_and_mask : (w k : ℕ) → bit_and w (2 ^ k) ≡ bit w k * 2 ^ k
bit_and_mask w zero = omega (arith, bit_and_last w 1, bit_and-zero (w / 2))
bit_and_mask w (suc k) =
    bit_and_last w (2 ^ suc k)
    ∙ rw (half-two-pow k, odd-two-pow k, bit_and_mask (w / 2) k)
        (omega (arith, ap (λ (t : ℕ). bit (w / 2) k * t) (pow-suc 2 k)))

-- `w | (1 << k)` sets it.
pub bit_or_mask : (w k : ℕ) → bit_or w (2 ^ k) + bit w k * 2 ^ k ≡ w + 2 ^ k
bit_or_mask w zero = omega (arith, bit_or_last w 1, bit_or-zero (w / 2))
bit_or_mask w (suc k) =
    rw (bit_or_last w (2 ^ suc k), half-two-pow k, odd-two-pow k)
      (omega (
        arith,
        bit_or_mask (w / 2) k,
        pow-suc 2 k,
        ap (λ (t : ℕ). bit (w / 2) k * t) (pow-suc 2 k),
      ))

pub two-pow_mono : (m n : ℕ) → m ≤ n → 2 ^ m ≤ 2 ^ n
two-pow_mono m n h = pow-le-pow_right (omega arith) h

pub two-pow-lt : (k n : ℕ) → k < n → 2 ^ k < 2 ^ n
two-pow-lt k n h =
    omega (arith, pow-suc 2 k, one-le-pow k 2 (omega arith), two-pow_mono (suc k) n h)

-- `|` needs no more digits than its operands.
pub bit_or-lt : (n a b : ℕ) → a < 2 ^ n → b < 2 ^ n → bit_or a b < 2 ^ n
bit_or-lt zero a b ha hb =
    let za : a ≡ 0 = omega arith in let zb : b ≡ 0 = omega arith in rw (za, zb) (omega arith)
bit_or-lt (suc n) a b ha hb =
    let half =
      bit_or-lt n (a / 2) (b / 2) (omega (arith, pow-suc 2 n)) (omega (arith, pow-suc 2 n)) in
    rw (bit_or_last a b) (omega (arith, pow-suc 2 n))

bit_and_ones : (n w : ℕ) → w < 2 ^ n → bit_and w (2 ^ n - 1) ≡ w
bit_and_ones zero w h = bit_and-zero w ∙ omega arith
bit_and_ones (suc n) w h =
    let half : (2 ^ suc n - 1) / 2 ≡ 2 ^ n - 1 = omega (arith, pow-suc 2 n) in
    let odd : (2 ^ suc n - 1) % 2 ≡ 1 = omega (arith, pow-suc 2 n, one-le-pow n 2 (omega arith)) in
    bit_and_last w (2 ^ suc n - 1)
    ∙ rw (half, odd, bit_and_ones n (w / 2) (omega (arith, pow-suc 2 n))) (omega arith)

-- `w & ~(1 << k)` on `n` bits clears it.
pub bit_and_clear :
    (n w k : ℕ) → w < 2 ^ n → k < n → bit_and w (2 ^ n - 1 - 2 ^ k) + bit w k * 2 ^ k ≡ w
bit_and_clear zero w k h lt = absurd (omega arith)
bit_and_clear (suc n) w zero h lt =
    let half : (2 ^ suc n - 1 - 1) / 2 ≡ 2 ^ n - 1 = omega (arith, pow-suc 2 n) in
    let even : (2 ^ suc n - 1 - 1) % 2 ≡ 0 =
      omega (arith, pow-suc 2 n, one-le-pow n 2 (omega arith)) in
    rw (bit_and_last w (2 ^ suc n - 1 - 1), half, even)
      (omega (arith, bit_and_ones n (w / 2) (omega (arith, pow-suc 2 n))))
bit_and_clear (suc n) w (suc k) h lt =
    let half : (2 ^ suc n - 1 - 2 ^ suc k) / 2 ≡ 2 ^ n - 1 - 2 ^ k =
      omega (arith, pow-suc 2 n, pow-suc 2 k) in
    let odd : (2 ^ suc n - 1 - 2 ^ suc k) % 2 ≡ 1 =
      omega (arith, pow-suc 2 n, pow-suc 2 k, two-pow-lt k n (omega arith)) in
    rw (bit_and_last w (2 ^ suc n - 1 - 2 ^ suc k), half, odd)
      (omega (
        arith,
        bit_and_clear n (w / 2) k (omega (arith, pow-suc 2 n)) (omega arith),
        ap (λ (t : ℕ). bit (w / 2) k * t) (pow-suc 2 k),
      ))
