-- ===== src/Bigint/Magnitude/Count.antt =====
-- `bigint_magnitude_bit_count` is the number of binary digits of the magnitude.
use sunder.Prelude.{
  ℕ, zero, suc, ◌+◌, ◌-◌, ◌*◌, ◌/◌, ◌^◌, ◌≤◌, ◌<◌, List, [], ◌∷◌, sym, false, ◌≡◌, refl, arith, ap,
  ◌∙◌,
}
use sunder.Prelude.{length, get_or, take, take_all, ◌==◌, Bool-cases, inl, inr}
use sunder.Bigint.Repr.{Bigint}
use sunder.Bigint.Value.{magnitude, AllBytes, IsTrimmed, IsValid}
use sunder.Bigint.Value.Limbs.{AllBytes-get, magnitude-take-suc}
use sunder.Bigint.Cmp.Order.{magnitude-take-lt}
use sunder.Bigint.Magnitude.Digits.{two-pow_split}
use sunder.Bigint.Magnitude.{top_bit_count, bit_count}
use native.Mathlib.Decide.{ℕ_discrete, dec_le}
use sunder.Prelude.Bits.{two-pow_mono}
use sunder.Bigint.Value.Normal.{pow-le-magnitude}
use native.Mathlib.Nat.{pow-suc}

zero_bits : (fuel top : ℕ) → top ≡ 0 → 2 ^ top_bit_count fuel top ≡ 1
unfolding top_bit_count
zero_bits zero top e = refl
zero_bits (suc fuel) top e = rw e

top_bit_count_lem :
    (fuel top : ℕ)
    → top < 2 ^ fuel
    → (top < 2 ^ top_bit_count fuel top) × (0 < top → 2 ^ top_bit_count fuel top ≤ 2 * top)
unfolding top_bit_count
top_bit_count_lem zero top h = (omega arith, λ p. omega arith)
top_bit_count_lem (suc fuel) top h = elim (Bool-cases (top == 0)) [
  | inl e ↦ rw e (ground arith, λ p. absurd (ground arith))
  | inr e ↦
      let more = top_bit_count_lem fuel (top / 2) (omega (arith, pow-suc 2 fuel)) in
      let up = pow-suc 2 (top_bit_count fuel (top / 2)) in
      rw e (omega (arith, more, up), λ p. ground (arith, more, up, zero_bits fuel (top / 2)))
]

product_lt : (m n p t s : ℕ) → m ≡ n + t * p → n < p → t < s → m < p * s
product_lt m n p t s e h k = grind arith

scale : (a b p : ℕ) → a ≤ b → a * p ≤ b * p
scale a b p h = grind arith

product_le : (m n p t s : ℕ) → m ≡ n + t * p → s ≤ 2 * t → p * s ≤ 2 * m
product_le m n p t s e h = omega (arith, scale s (2 * t) p h)

module _ (xs : List ℕ) (n : ℕ) (e : length xs ≡ suc n) (b : AllBytes xs) (t : IsTrimmed xs) where
  top_split : magnitude xs ≡ magnitude (take n xs) + get_or xs n 0 * 256 ^ n
  top_split = ap magnitude (sym (take_all (suc n) xs (omega arith))) ∙ magnitude-take-suc n xs

  top-ne-zero : 0 < get_or xs n 0
  top-ne-zero = elim (ℕ_discrete (get_or xs n 0) 0) [
    | yes z ↦ absurd (
        omega (
          arith,
          top_split,
          ap (λ (k : ℕ). k * 256 ^ n) z,
          magnitude-take-lt xs n b,
          pow-le-magnitude xs n e t,
        ))
    | no p ↦ omega arith
  ]

  top_bits :
      (get_or xs n 0 < 2 ^ top_bit_count 8 (get_or xs n 0))
      × (0 < get_or xs n 0 → 2 ^ top_bit_count 8 (get_or xs n 0) ≤ 2 * get_or xs n 0)
  top_bits = top_bit_count_lem 8 (get_or xs n 0) (omega (arith, AllBytes-get xs n b))

  limbs_bounds :
      (magnitude xs < 2 ^ (n * 8 + top_bit_count 8 (get_or xs n 0)))
      × (2 ^ (n * 8 + top_bit_count 8 (get_or xs n 0)) ≤ 2 * magnitude xs)
  limbs_bounds = rw (two-pow_split n (top_bit_count 8 (get_or xs n 0))) (
    product_lt (magnitude xs) (magnitude (take n xs)) (256 ^ n) (get_or xs n 0) _ top_split
        (magnitude-take-lt xs n b) top_bits.0,
    product_le (magnitude xs) (magnitude (take n xs)) (256 ^ n) (get_or xs n 0) _ top_split
        (top_bits.1 top-ne-zero),
  )

unfold_count :
    (b : Bigint)
    → (length b.limbs == 0) ≡ false
    → bit_count b
      ≡ (length b.limbs - 1) * 8 + top_bit_count 8 (get_or b.limbs (length b.limbs - 1) 0)
unfold_count b e = unfold bit_count in rw e

-- The magnitude has exactly that many binary digits: it is below that power of two, and not
-- below half of it unless it is zero.
pub bit_count_bounds :
    (b : Bigint)
    → IsValid b
    → (magnitude b.limbs < 2 ^ bit_count b)
      × (0 < magnitude b.limbs → 2 ^ bit_count b ≤ 2 * magnitude b.limbs)
bit_count_bounds b v = elim (ℕ_discrete (length b.limbs) 0) [
  | yes z ↦
      let none_at_all : bit_count b ≡ 0 = unfold bit_count in rw z in
      let empty : magnitude b.limbs ≡ 0 = no_limbs b.limbs z in
      rw (none_at_all, empty) (omega arith, λ p. absurd (omega arith))
  | no p ↦
      let n = length b.limbs - 1 in
      let some_limbs : (length b.limbs == 0) ≡ false = ground arith in
      let returns : bit_count b ≡ n * 8 + top_bit_count 8 (get_or b.limbs n 0) =
        unfold_count b some_limbs in
      let bounds = limbs_bounds b.limbs n (omega arith) v.bytes v.trimmed in
      rw returns (bounds.0, λ p. bounds.1)
]
  where
    no_limbs : (xs : List ℕ) → length xs ≡ 0 → magnitude xs ≡ 0
    no_limbs [] e = refl
    no_limbs (x ∷ xs) e = absurd (omega arith)

-- A magnitude below a power of two has no more digits than that.
pub bit_count-le : (b : Bigint) (n : ℕ) → IsValid b → magnitude b.limbs < 2 ^ n → bit_count b ≤ n
bit_count-le b n v h = elim (ℕ_discrete (length b.limbs) 0) [
  | yes z ↦
      let none_at_all : bit_count b ≡ 0 = unfold bit_count in rw z in omega (arith, none_at_all)
  | no p ↦
      let top = length b.limbs - 1 in
      let some_limbs : (length b.limbs == 0) ≡ false = ground arith in
      let count = top * 8 + top_bit_count 8 (get_or b.limbs top 0) in
      let low : 2 ^ count ≤ 2 * magnitude b.limbs =
        (limbs_bounds b.limbs top (omega arith) v.bytes v.trimmed).1 in
      let small : count ≤ n = elim (dec_le count n) [
        | yes le ↦ le
        | no above ↦
            absurd (omega (arith, low, pow-suc 2 n, two-pow_mono (suc n) count (omega arith)))
      ] in
      rw (unfold_count b some_limbs) small
]
