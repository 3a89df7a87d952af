-- ===== src/Bitarr/Number.antt =====
-- The number that the bits of a `struct bitarr` write, and what writing a bit does to it.
use sunder.Prelude.{
  ℕ, zero, suc, ◌+◌, ◌*◌, ◌/◌, ◌%◌, ◌^◌, ◌≤◌, ◌<◌, Option, some, ◌≡◌, ◌≢◌, refl, sym, ◌∙◌, ap,
  arith, get_or, ◌==◌, Bool-cases, inl, inr,
}
use sunder.Prelude.Bits.{bit, bit-lt, shift_right, shift_right-bit, shift_right-eq-zero}
use sunder.Bigint.Magnitude.Write.{truth}
use native.Mathlib.Nat.{pow-suc}
use sunder.Bitarr.{Bitarr, bit_set}
use sunder.Bitarr.Access.{IsBitarr, bit_get_lem, bit_set-Writes}

-- The bit at `i`, also behind the count.
abbrev pub digit : Bitarr → ℕ → ℕ
digit a i = bit (get_or a.words (i / 64) 0) (i % 64)

-- The number that the digits `d` write below `n`.
abbrev pub digits_number : (ℕ → ℕ) → ℕ → ℕ
digits_number d zero = 0
digits_number d (suc n) = digits_number d n + d n * 2 ^ n

abbrev pub number : Bitarr → ℕ
number a = digits_number (digit a) a.count

pub digit-lt : (a : Bitarr) (i : ℕ) → digit a i < 2
digit-lt a i = bit-lt (get_or a.words (i / 64) 0) (i % 64)

pub digits_number_ext :
    (d e : ℕ → ℕ) (n : ℕ) → ((i : ℕ) → i < n → d i ≡ e i) → digits_number d n ≡ digits_number e n
digits_number_ext d e zero h = refl
digits_number_ext d e (suc n) h =
    let rest = digits_number_ext d e n (λ i lt. h i (omega arith)) in
    rw (rest, h n (omega arith)) refl

pub digits_number-lt : (d : ℕ → ℕ) (n : ℕ) → ((i : ℕ) → d i < 2) → digits_number d n < 2 ^ n
digits_number-lt d zero h = omega arith
digits_number-lt d (suc n) h =
    omega (arith, digits_number-lt d n h, pow-suc 2 n, place (d n) (2 ^ n) (h n))
  where
    place : (x p : ℕ) → x < 2 → x * p ≤ p
    place zero p lt = omega arith
    place (suc zero) p lt = omega arith
    place (suc (suc x)) p lt = absurd (omega arith)

-- One digit that differs.
pub digits_number-set :
    (d e : ℕ → ℕ) (n k : ℕ)
    → k < n
    → ((i : ℕ) → i < n → i ≢ k → e i ≡ d i)
    → digits_number e n + d k * 2 ^ k ≡ digits_number d n + e k * 2 ^ k
digits_number-set d e zero k lt h = absurd (omega arith)
digits_number-set d e (suc n) k lt h = elim (Bool-cases (k == n)) [
  | inl last ↦
      let same : k ≡ n = ground arith in
      let rest = digits_number_ext d e n (λ i lt'. sym (h i (omega arith) (λ e. omega arith))) in
      rw (same, rest) (omega arith)
  | inr below ↦
      let rest = digits_number-set d e n k (ground arith) (λ i lt' ne. h i (omega arith) ne) in
      let top = h n (omega arith) (λ e. ground arith) in rw top (omega (arith, rest))
]

-- The digits of a number below a power of two write it.
low_digits : (m n : ℕ) → digits_number (bit m) n + 2 ^ n * shift_right m n ≡ m
low_digits m zero = omega arith
low_digits m (suc n) =
    let rest = low_digits m n in
    let split = shift_right-bit m n in
    omega (
      arith,
      rest,
      ap (λ (x : ℕ). 2 ^ n * x) split,
      ap (λ (p : ℕ). p * shift_right m (suc n)) (pow-suc 2 n),
    )

pub digits_number-bit : (m n : ℕ) → m < 2 ^ n → digits_number (bit m) n ≡ m
digits_number-bit m n h =
    let none_left = shift_right-eq-zero m n h in
    let all = low_digits m n in omega (arith, ap (λ (x : ℕ). 2 ^ n * x) none_left)

some_injective : {a b : ℕ} → some a ≡ some b → a ≡ b
some_injective h = cc

-- What `bitarr_set` leaves, by the digits.
pub record Digits (a : Bitarr) (r : Option Bitarr) (n t : ℕ) : Type 0 where
  pub out : Bitarr
  pub returns : r ≡ some out
  pub keeps : IsBitarr out
  pub same_count : out.count ≡ a.count
  pub at_index : digit out n ≡ t
  pub elsewhere : (m : ℕ) → m < a.count → m ≢ n → digit out m ≡ digit a m

pub bit_set-Digits :
    (a : Bitarr) (n v : ℕ) → IsBitarr a → n < a.count → Digits a (bit_set a n v) n (truth v)
bit_set-Digits a n v whole h =
    let w = bit_set-Writes a n v whole h in
    record {
      out = w.out;
      returns = w.returns;
      keeps = w.keeps;
      same_count = w.same_count;
      at_index =
          some_injective (sym (bit_get_lem w.out n (omega (arith, w.same_count))) ∙ w.at_index);
      elsewhere = λ m lt ne. some_injective (
          sym (bit_get_lem w.out m (omega (arith, w.same_count)))
          ∙ w.elsewhere m lt ne
          ∙ bit_get_lem a m lt);
    }
