-- ===== src/Bitarr/Access.antt =====
-- Reading a bit of a `struct bitarr` after another, or the same, was written.
use sunder.Prelude.{
  ℕ, zero, suc, ◌+◌, ◌-◌, ◌*◌, ◌/◌, ◌%◌, ◌^◌, ◌<◌, Option, some, false, ◌≡◌, ◌≢◌, refl, arith,
}
use sunder.Prelude.{
  leb, ◌==◌, if◌then◌else◌, not, length, get_or, set, u64, Bool-cases, inl, inr, ap, sym, ◌∙◌,
}
use sunder.Prelude.{bit_and, bit_or, length-set, get_or-set_self, get_or-set_ne}
use sunder.Prelude.Bits.{
  bit, bit-lt, bit_and_mask, bit_or_mask, bit_or-lt, bit_and_clear, two-pow-lt,
}
use sunder.Bigint.Magnitude.Write.{truth}
use native.Mathlib.Nat.{pow-suc, one-le-pow}
use sunder.Bitarr.{Bitarr, word_count, bit_set, bit_get}

-- The words are words of 64 bits, as many as `bitarr_new` allocates.
pub record IsBitarr (a : Bitarr) : Type 0 where
  pub enough : length a.words ≡ word_count a.count
  pub bounded : (k : ℕ) → get_or a.words k 0 < 2 ^ 64

-- The word that `bitarr_set` stores.
abbrev written : ℕ → ℕ → ℕ → ℕ
written w k v =
    if not (v == 0) then bit_or w (u64 (2 ^ k)) else bit_and w (2 ^ 64 - 1 - u64 (2 ^ k))

mask_lem : (k : ℕ) → k < 64 → u64 (2 ^ k) ≡ 2 ^ k
mask_lem k h = omega (arith, two-pow-lt k 64 h)

written_lem :
    (w k v : ℕ) → w < 2 ^ 64 → k < 64 → written w k v + bit w k * 2 ^ k ≡ w + truth v * 2 ^ k
written_lem w k v h hk = elim (Bool-cases (v == 0)) [
  | inl e ↦ rw (mask_lem k hk, e) (omega (arith, bit_and_clear 64 w k h hk))
  | inr e ↦ rw (mask_lem k hk, e) (omega (arith, bit_or_mask w k))
]

written-lt : (w k v : ℕ) → w < 2 ^ 64 → k < 64 → written w k v < 2 ^ 64
written-lt w k v h hk = elim (Bool-cases (v == 0)) [
  | inl e ↦ rw (mask_lem k hk, e) (omega (arith, bit_and_clear 64 w k h hk))
  | inr e ↦ rw (mask_lem k hk, e) (bit_or-lt 64 w (2 ^ k) h (two-pow-lt k 64 hk))
]

-- A number that differs from `w` in the weight of the digit at `k` has the other digits of `w`.
same_digit : (w w' k t : ℕ) → t < 2 → w' + bit w k * 2 ^ k ≡ w + t * 2 ^ k → bit w' k ≡ t
same_digit w w' zero t lt h = omega arith
same_digit w w' (suc k) t lt h = same_digit (w / 2) (w' / 2) k t lt (
    omega
      (arith, ap (λ (p : ℕ). bit (w / 2) k * p) (pow-suc 2 k), ap (λ (p : ℕ). t * p) (pow-suc 2 k)))

other_digit :
    (w w' k j t : ℕ) → t < 2 → j ≢ k → w' + bit w k * 2 ^ k ≡ w + t * 2 ^ k → bit w' j ≡ bit w j
other_digit w w' zero zero t lt ne h = absurd (ne refl)
other_digit w w' zero (suc j) t lt ne h = let half : w' / 2 ≡ w / 2 = omega arith in rw half
other_digit w w' (suc k) zero t lt ne h =
    omega
      (arith, ap (λ (p : ℕ). bit (w / 2) k * p) (pow-suc 2 k), ap (λ (p : ℕ). t * p) (pow-suc 2 k))
other_digit w w' (suc k) (suc j) t lt ne h =
    other_digit (w / 2) (w' / 2) k j t lt (λ e. ne (ap suc e))
      (omega (
        arith,
        ap (λ (p : ℕ). bit (w / 2) k * p) (pow-suc 2 k),
        ap (λ (p : ℕ). t * p) (pow-suc 2 k),
      ))

masked : (d p : ℕ) → d < 2 → 0 < p → (if not (d * p == 0) then 1 else 0) ≡ d
masked zero p h pos = ground arith
masked (suc zero) p h pos = ground arith
masked (suc (suc d)) p h pos = absurd (omega arith)

-- `bitarr_get` within the bounds is a binary digit of a word.
pub bit_get_lem :
    (a : Bitarr) (n : ℕ)
    → n < a.count
    → bit_get a n ≡ some (bit (get_or a.words (n / 64) 0) (n % 64))
bit_get_lem a n h =
    unfold bit_get in
    let inside : leb a.count n ≡ false = ground arith in
    let k : n % 64 < 64 = omega arith in
    rw (inside, mask_lem (n % 64) k, bit_and_mask (get_or a.words (n / 64) 0) (n % 64))
      (ap some (
        masked (bit (get_or a.words (n / 64) 0) (n % 64)) (2 ^ (n % 64))
          (bit-lt (get_or a.words (n / 64) 0) (n % 64)) (one-le-pow (n % 64) 2 (omega arith))))

-- What `bitarr_set` leaves: an array of as many bits in which the bit at `n` alone is written.
pub record Writes (a : Bitarr) (r : Option Bitarr) (n v : ℕ) : Type 0 where
  pub out : Bitarr
  pub returns : r ≡ some out
  pub keeps : IsBitarr out
  pub same_count : out.count ≡ a.count
  pub at_index : bit_get out n ≡ some (truth v)
  pub elsewhere : (m : ℕ) → m < a.count → m ≢ n → bit_get out m ≡ bit_get a m

module _ (a : Bitarr) (n v : ℕ) (whole : IsBitarr a) (h : n < a.count) where
  abbrev word : ℕ
  word = get_or a.words (n / 64) 0

  abbrev word' : ℕ
  word' = written word (n % 64) v

  abbrev after : Bitarr
  after = record a { words = set a.words (n / 64) word' }

  inside : n / 64 < length a.words
  inside = rw (whole.enough) (ground arith)

  weight : word' + bit word (n % 64) * 2 ^ (n % 64) ≡ word + truth v * 2 ^ (n % 64)
  weight = written_lem word (n % 64) v (whole.bounded (n / 64)) (omega arith)

  truth-lt : truth v < 2
  truth-lt = ground arith

  after-bounded : (k : ℕ) → get_or after.words k 0 < 2 ^ 64
  after-bounded k = elim (Bool-cases (n / 64 == k)) [
    | inl e ↦
        let same : n / 64 ≡ k = ground arith in
        rw (sym same, get_or-set_self a.words (n / 64) word' 0 inside)
          (written-lt word (n % 64) v (whole.bounded (n / 64)) (omega arith))
    | inr e ↦ rw (get_or-set_ne a.words (n / 64) k word' 0 (λ same. ground arith)) (whole.bounded k)
  ]

  after-elsewhere : (m : ℕ) → m < a.count → m ≢ n → bit_get after m ≡ bit_get a m
  after-elsewhere m lt ne = elim (Bool-cases (n / 64 == m / 64)) [
    | inl e ↦
        let same : m / 64 ≡ n / 64 = ground arith in
        rw
          (
            bit_get_lem after m lt,
            bit_get_lem a m lt,
            same,
            get_or-set_self a.words (n / 64) word' 0 inside,
          )
          (ap some (
            other_digit word word' (n % 64) (m % 64) (truth v) truth-lt (λ low. ne (omega arith))
              weight))
    | inr e ↦
        rw
          (
            bit_get_lem after m lt,
            bit_get_lem a m lt,
            get_or-set_ne a.words (n / 64) (m / 64) word' 0 (λ same. ground arith),
          )
          refl
  ]

  bit_set_lem : bit_set a n v ≡ some after
  bit_set_lem = unfold bit_set in let inside : leb a.count n ≡ false = ground arith in rw inside

  -- Within the bounds `bitarr_set` does not stop the process; `bitarr_get` then gives the truth
  -- value of what was written at that index, and at any other index what it gave before.
  pub bit_set-Writes : Writes a (bit_set a n v) n v
  bit_set-Writes = record {
    out = after;
    returns = bit_set_lem;
    keeps = record {
      enough = length-set a.words (n / 64) word' ∙ whole.enough;
      bounded = after-bounded;
    };
    same_count = refl;
    at_index =
        rw (bit_get_lem after n h, get_or-set_self a.words (n / 64) word' 0 inside)
          (ap some (same_digit word word' (n % 64) (truth v) truth-lt weight));
    elsewhere = after-elsewhere;
  }
