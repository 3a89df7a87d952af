-- ===== src/Bitarr/Complement.antt =====
-- `bitarr_compl` and `bitarr_twos_complement_neg` as arithmetic.
use sunder.Prelude.{
  ℕ, zero, suc, ◌+◌, ◌-◌, ◌*◌, ◌/◌, ◌%◌, ◌^◌, ◌<◌, List, [], ◌∷◌, map, Option, some, ◌≡◌, refl, sym,
  ◌∙◌, ap, arith, get_or, ◌==◌, leb, if◌then◌else◌, length, ==_iff, true,
}
use sunder.Prelude.Bits.{bit}
use sunder.Bigint.Magnitude.Write.{truth}
use native.Mathlib.Nat.{pow-suc, one-le-pow}
use sunder.Bitarr.{Bitarr, compl, add_one, twos_complement_neg, word_count}
use sunder.Bitarr.Access.{IsBitarr, bit_get_lem}
use sunder.Bitarr.Number.{
  digit, digits_number, number, digit-lt, digits_number-lt, digits_number-set, bit_set-Digits,
}

abbrev flip : ℕ → ℕ
flip w = 2 ^ 64 - 1 - w

bit-complement : (n w k : ℕ) → w < 2 ^ n → k < n → bit (2 ^ n - 1 - w) k + bit w k ≡ 1
bit-complement zero w k h lt = absurd (omega arith)
bit-complement (suc n) w zero h lt = omega (arith, pow-suc 2 n)
bit-complement (suc n) w (suc k) h lt =
    let half : (2 ^ suc n - 1 - w) / 2 ≡ 2 ^ n - 1 - w / 2 = omega (arith, pow-suc 2 n) in
    rw half (bit-complement n (w / 2) k (omega (arith, pow-suc 2 n)) (omega arith))

get_or-map :
    (f : ℕ → ℕ) (xs : List ℕ) (i : ℕ) → i < length xs → get_or (map f xs) i 0 ≡ f (get_or xs i 0)
get_or-map f [] i h = absurd (omega arith)
get_or-map f (x ∷ xs) zero h = refl
get_or-map f (x ∷ xs) (suc i) h = get_or-map f xs i (omega arith)

get_or-map_lt : (xs : List ℕ) (i : ℕ) → get_or (map flip xs) i 0 < 2 ^ 64
get_or-map_lt [] i = omega arith
get_or-map_lt (x ∷ xs) zero = omega arith
get_or-map_lt (x ∷ xs) (suc i) = get_or-map_lt xs i

length-map : (f : ℕ → ℕ) (xs : List ℕ) → length (map f xs) ≡ length xs
length-map f [] = refl
length-map f (x ∷ xs) = ap suc (length-map f xs)

-- Digits that add to one everywhere write numbers that add to all ones.
complement_sum :
    (d e : ℕ → ℕ) (n : ℕ)
    → ((i : ℕ) → i < n → d i + e i ≡ 1)
    → digits_number d n + digits_number e n + 1 ≡ 2 ^ n
complement_sum d e zero h = refl
complement_sum d e (suc n) h =
    let rest = complement_sum d e n (λ i lt. h i (omega arith)) in
    omega (arith, rest, pow-suc 2 n, ap (λ (x : ℕ). x * 2 ^ n) (h n (omega arith)))

-- An array of as many bits with a number.
pub record Becomes (r : Option Bitarr) (count z : ℕ) : Type 0 where
  pub out : Bitarr
  pub returns : r ≡ some out
  pub keeps : IsBitarr out
  pub same_count : out.count ≡ count
  pub number_out : digits_number (digit out) count ≡ z

pub number-lt : (a : Bitarr) → number a < 2 ^ a.count
number-lt a = digits_number-lt (digit a) a.count (digit-lt a)

compl-Becomes :
    (res rhs : Bitarr)
    → IsBitarr rhs
    → res.count ≡ rhs.count
    → Becomes (compl res rhs) rhs.count (2 ^ rhs.count - 1 - number rhs)
compl-Becomes res rhs whole same =
    let out : Bitarr = record { count = res.count; words = map flip rhs.words } in
    let equal : (res.count == rhs.count) ≡ true = (==_iff res.count rhs.count).1 same in
    let sum = complement_sum (digit out) (digit rhs) rhs.count (λ i lt.
      rw (get_or-map flip rhs.words (i / 64) (rw whole.enough (ground arith))) (
        bit-complement 64 (get_or rhs.words (i / 64) 0) (i % 64) (whole.bounded (i / 64))
          (omega arith))) in
    record {
      out = out;
      returns = unfold compl in rw equal;
      keeps = record {
        enough = length-map flip rhs.words ∙ whole.enough ∙ ap word_count (sym same);
        bounded = λ k. get_or-map_lt rhs.words k;
      };
      same_count = same;
      number_out = omega (arith, sum);
    }

-- The loop adds the carry at its place, on `top` bits; what overflows the last place is lost.
record Adds (res : Bitarr) (i top carry : ℕ) (r : Option Bitarr) : Type 0 where
  out : Bitarr
  returns : r ≡ some out
  keeps : IsBitarr out
  same_count : out.count ≡ res.count
  lost : ℕ
  sum :
      digits_number (digit out) top + lost * 2 ^ top ≡ digits_number (digit res) top + carry * 2 ^ i

pub truth_bit : (x : ℕ) → x < 2 → truth x ≡ x
truth_bit zero h = refl
truth_bit (suc zero) h = refl
truth_bit (suc (suc x)) h = absurd (omega arith)

carries :
    (carry d : ℕ)
    → carry < 2
    → d < 2
    → (carry + d) % 2 + 2 * (if leb 2 (carry + d) then 1 else 0) ≡ carry + d
carries carry d hc hd = ground arith

adds_step :
    (out mid res l p q carry carry' d w new : ℕ)
    → out + l ≡ mid + carry' * q
    → mid + d * p ≡ res + w * p
    → w ≡ new
    → new + 2 * carry' ≡ carry + d
    → q ≡ 2 * p
    → out + l ≡ res + carry * p
adds_step out mid res l p q carry carry' d w new rest changed written carried twice = omega (
  arith,
  ap (λ (x : ℕ). x * p) written,
  ap (λ (x : ℕ). x * p) carried,
  ap (λ (x : ℕ). carry' * x) twice,
)

two-pow-add : (i : ℕ) → 2 ^ (i + 1) ≡ 2 * 2 ^ i
two-pow-add i = let next : i + 1 ≡ suc i = omega arith in rw next (omega (arith, pow-suc 2 i))

add_one-Adds :
    (n i carry top : ℕ) (res : Bitarr)
    → IsBitarr res
    → carry < 2
    → i + n ≡ top
    → top ≡ res.count
    → Adds res i top carry (add_one n i carry res)
unfolding add_one
add_one-Adds zero i carry top res whole hc full e = record {
  out = res;
  returns = refl;
  keeps = whole;
  same_count = refl;
  lost = carry;
  sum = let here : i ≡ top = omega arith in rw here refl;
}
add_one-Adds (suc n) i carry top res whole hc full e =
    let lt : i < res.count = omega arith in
    let s = bit_set-Digits res i ((carry + digit res i) % 2) whole lt in
    let rest =
      add_one-Adds n (i + 1) (if leb 2 (carry + digit res i) then 1 else 0) top s.out s.keeps
        (ground arith) (omega arith) (e ∙ sym s.same_count) in
    record {
      out = rest.out;
      returns = rw (bit_get_lem res i lt, s.returns) rest.returns;
      keeps = rest.keeps;
      same_count = rest.same_count ∙ s.same_count;
      lost = rest.lost;
      sum =
          adds_step (digits_number (digit rest.out) top) (digits_number (digit s.out) top)
            (digits_number (digit res) top) (rest.lost * 2 ^ top) (2 ^ i) (2 ^ (i + 1)) carry
            (if leb 2 (carry + digit res i) then 1 else 0) (digit res i) (digit s.out i)
            ((carry + digit res i) % 2) rest.sum
            (digits_number-set (digit res) (digit s.out) top i (omega arith)
              (λ k lt' ne. s.elsewhere k (omega arith) ne))
            (s.at_index ∙ truth_bit ((carry + digit res i) % 2) (omega arith))
            (carries carry (digit res i) hc (digit-lt res i)) (two-pow-add i);
    }

-- The two's complement of a number: zero stays, and any other is subtracted from the power.
abbrev pub complement : ℕ → ℕ → ℕ
complement n zero = 0
complement n (suc m) = 2 ^ n - suc m

complement_sum_lem :
    (n z out lost : ℕ)
    → z < 2 ^ n
    → out < 2 ^ n
    → out + lost * 2 ^ n ≡ (2 ^ n - 1 - z) + 1
    → out ≡ complement n z
complement_sum_lem n zero out zero hz ho h = absurd (omega arith)
complement_sum_lem n zero out (suc zero) hz ho h = omega arith
complement_sum_lem n zero out (suc (suc l)) hz ho h =
    absurd (omega (arith, one-le-pow n 2 (omega arith)))
complement_sum_lem n (suc z) out zero hz ho h = omega arith
complement_sum_lem n (suc z) out (suc l) hz ho h = absurd (omega arith)

-- `bitarr_twos_complement_neg` of an array, into one of as many bits, leaves the two's complement
-- of its number.
pub twos_complement_neg-Becomes :
    (res rhs : Bitarr)
    → IsBitarr rhs
    → res.count ≡ rhs.count
    → Becomes (twos_complement_neg res rhs) rhs.count (complement rhs.count (number rhs))
twos_complement_neg-Becomes res rhs whole same =
    let c = compl-Becomes res rhs whole same in
    let a =
      add_one-Adds c.out.count 0 1 rhs.count c.out c.keeps (omega arith)
        (omega (arith, c.same_count)) (sym c.same_count) in
    record {
      out = a.out;
      returns = unfold twos_complement_neg in rw c.returns a.returns;
      keeps = a.keeps;
      same_count = a.same_count ∙ c.same_count;
      number_out =
          complement_sum_lem rhs.count (number rhs) (digits_number (digit a.out) rhs.count) a.lost
            (number-lt rhs) (digits_number-lt (digit a.out) rhs.count (digit-lt a.out))
            (a.sum ∙ ap (λ (x : ℕ). x + 1 * 2 ^ 0) c.number_out);
    }
