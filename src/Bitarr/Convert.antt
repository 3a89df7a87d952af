-- ===== src/Bitarr/Convert.antt =====
-- `bigint_to_bitarr` and `bitarr_to_bigint`.
use sunder.Prelude.{
  ℕ, zero, suc, ◌+◌, ◌-◌, ◌^◌, ◌≤◌, ◌<◌, Option, some, ◌≡◌, refl, sym, ◌∙◌, ap, arith, ◌==◌, Bool,
  true, false, Bool-cases, inl, inr, ltb, if◌then◌else◌, ◌>>=◌,
}
use sunder.Prelude.Bits.{bit, bit-lt, two-pow_mono}
use sunder.Prelude.Int.{ℤ, pos, negsuc, nat_abs}
use native.Mathlib.Decide.{ℕ_discrete}
use sunder.Bigint.Repr.{minus, Bigint, bigint_zero, rank}
use sunder.Bigint.Value.{magnitude, value, IsValid}
use sunder.Bigint.Cmp.{cmp}
use sunder.Bigint.Cmp.Order.{order, cmp-eq-order}
use sunder.Bigint.Product.Laws.{bigint_zero-IsValid}
use sunder.Bigint.Magnitude.{bit_count}
use sunder.Bigint.Magnitude.Digits.{bit_get-eq-bit}
use sunder.Bigint.Magnitude.Write.{truth}
use sunder.Bigint.Magnitude.Count.{bit_count_bounds}
use sunder.Bitarr.{Bitarr, bit_set, copy_bits, read_magnitude, of_bigint, twos_complement_neg}
use sunder.Bitarr.Access.{IsBitarr, bit_get_lem}
use sunder.Bitarr.Number.{
  digit, digits_number, number, digit-lt, digits_number_ext, digits_number-bit, Digits,
  bit_set-Digits,
}
use sunder.Bitarr.Complement.{complement, truth_bit, twos_complement_neg-Becomes}

-- What a loop that writes the digits `d` from `i` up to `top` leaves.
pub record Copies (d : ℕ → ℕ) (to : Bitarr) (i top : ℕ) (r : Option Bitarr) : Type 0 where
  pub out : Bitarr
  pub returns : r ≡ some out
  pub keeps : IsBitarr out
  pub same_count : out.count ≡ to.count
  pub copied : (k : ℕ) → i ≤ k → k < top → digit out k ≡ d k
  pub before : (k : ℕ) → k < i → digit out k ≡ digit to k

Copies-done :
    (d : ℕ → ℕ) (to : Bitarr) (i top : ℕ) → IsBitarr to → i ≡ top → Copies d to i top (some to)
Copies-done d to i top whole e = record {
  out = to;
  returns = refl;
  keeps = whole;
  same_count = refl;
  copied = λ k low high. absurd (omega arith);
  before = λ k low. refl;
}

-- One round: the digit at `i`, and the rounds that are left.
Copies-next :
    (d : ℕ → ℕ) (to : Bitarr) (i top v : ℕ) (r : Option Bitarr)
    → top ≤ to.count
    → i < top
    → truth v ≡ d i
    → (s : Digits to (bit_set to i v) i (truth v)) → Copies d s.out (i + 1) top r
    → Copies d to i top r
Copies-next d to i top v r fits lt e s rest = record {
  out = rest.out;
  returns = rest.returns;
  keeps = rest.keeps;
  same_count = rest.same_count ∙ s.same_count;
  copied = λ k low high. elim (Bool-cases (i == k)) [
    | inl at_i ↦
        let same : i ≡ k = ground arith in
        rw (sym same) (rest.before i (omega arith) ∙ s.at_index ∙ e)
    | inr after ↦ rest.copied k (ground arith) high
  ];
  before = λ k low. rest.before k (omega arith) ∙ s.elsewhere k (omega arith) (λ same. omega arith);
}

pub copy_bits-Copies :
    (from : Bitarr) (n i top : ℕ) (to : Bitarr)
    → IsBitarr to
    → i + n ≡ top
    → top ≤ to.count
    → top ≤ from.count
    → Copies (digit from) to i top (copy_bits from n i to)
unfolding copy_bits
copy_bits-Copies from zero i top to whole full fits has =
    Copies-done (digit from) to i top whole (omega arith)
copy_bits-Copies from (suc n) i top to whole full fits has =
    let s = bit_set-Digits to i (digit from i) whole (omega arith) in
    let rest =
      copy_bits-Copies from n (i + 1) top s.out s.keeps (omega arith) (omega (arith, s.same_count))
        has in
    rw (bit_get_lem from i (omega arith), s.returns)
      (Copies-next (digit from) to i top (digit from i) (copy_bits from n (i + 1) s.out) fits
        (omega arith) (truth_bit (digit from i) (digit-lt from i)) s rest)

read_magnitude-Copies :
    (b : Bigint) (n i top : ℕ) (to : Bitarr)
    → IsValid b
    → IsBitarr to
    → i + n ≡ top
    → top ≤ to.count
    → Copies (bit (magnitude b.limbs)) to i top (read_magnitude b n i to)
unfolding read_magnitude
read_magnitude-Copies b zero i top to v whole full fits =
    Copies-done (bit (magnitude b.limbs)) to i top whole (omega arith)
read_magnitude-Copies b (suc n) i top to v whole full fits =
    let m = magnitude b.limbs in
    let s = bit_set-Digits to i (bit m i) whole (omega arith) in
    let rest =
      read_magnitude-Copies b n (i + 1) top s.out v s.keeps (omega arith)
        (omega (arith, s.same_count)) in
    rw (bit_get-eq-bit b i v, s.returns)
      (Copies-next (bit m) to i top (bit m i) (read_magnitude b n (i + 1) s.out) fits (omega arith)
        (truth_bit (bit m i) (bit-lt m i)) s rest)

-- What `bigint_to_bitarr` writes: the integer modulo the power of two.
abbrev pub wrapped : ℕ → ℤ → ℕ
wrapped n (pos m) = m
wrapped n (negsuc m) = 2 ^ n - suc m

-- The array that `bigint_to_bitarr` leaves.
pub record Holds (r : Option (Option Bitarr)) (count z : ℕ) : Type 0 where
  pub out : Bitarr
  pub returns : r ≡ some (some out)
  pub keeps : IsBitarr out
  pub same_count : out.count ≡ count
  pub number_out : digits_number (digit out) count ≡ z

pub abs_value : (b : Bigint) → IsValid b → nat_abs (value b) ≡ magnitude b.limbs
abs_value b v = elim (ℕ_discrete (magnitude b.limbs) 0) [
  | yes z ↦ ground arith
  | no nz ↦ ground (arith, ap magnitude)
]

abbrev is_below : ℤ → Bool
is_below (pos m) = false
is_below (negsuc m) = true

negative_test : (z : ℤ) → (rank (order z (pos 0)) == rank minus) ≡ is_below z
negative_test (pos m) = ground arith
negative_test (negsuc m) = ground arith

pub of_bigint-Holds :
    (res : Bitarr) (b : Bigint)
    → IsBitarr res
    → IsValid b
    → bit_count b ≤ res.count
    → Holds (of_bigint res b) res.count (wrapped res.count (value b))
of_bigint-Holds res b whole v fits =
    let small : magnitude b.limbs < 2 ^ res.count =
      omega (arith, (bit_count_bounds b v).0, two-pow_mono (bit_count b) res.count fits) in
    let c = read_magnitude-Copies b res.count 0 res.count res v whole (omega arith) (omega arith) in
    let m : digits_number (digit c.out) res.count ≡ magnitude b.limbs =
      digits_number_ext (digit c.out) (bit (magnitude b.limbs)) res.count
        (λ i lt. c.copied i (omega arith) lt)
      ∙ digits_number-bit (magnitude b.limbs) res.count small in
    let inside : ltb res.count (bit_count b) ≡ false = ground arith in
    let test : (rank (cmp b bigint_zero) == rank minus) ≡ is_below (value b) =
      rw (cmp-eq-order b bigint_zero v bigint_zero-IsValid) (negative_test (value b)) in
    unfold of_bigint in
    rw (inside, c.returns, test) (go c.out c.keeps c.same_count (value b) (m ∙ sym (abs_value b v)))
  where
    go :
        (a : Bitarr)
        → IsBitarr a
        → a.count ≡ res.count
        → (z : ℤ) → digits_number (digit a) res.count ≡ nat_abs z
        → Holds
            ((if is_below z then twos_complement_neg a a else some a) >>= λ x. some (some x))
            res.count
            (wrapped res.count z)
    go a keeps same (pos k) e = record {
      out = a;
      returns = refl;
      keeps = keeps;
      same_count = same;
      number_out = omega (arith, e);
    }
    go a keeps same (negsuc k) e =
        let t = twos_complement_neg-Becomes a a keeps refl in
        record {
          out = t.out;
          returns = rw t.returns;
          keeps = t.keeps;
          same_count = t.same_count ∙ same;
          number_out =
              let full : number a ≡ suc k = rw same (omega (arith, e)) in
              rw (sym same) (t.number_out ∙ ap (complement a.count) full);
        }
