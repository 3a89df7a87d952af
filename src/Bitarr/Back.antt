-- ===== src/Bitarr/Back.antt =====
-- `bitarr_to_bigint`, and the way to an array and back.
use sunder.Prelude.{
  ℕ, zero, suc, ◌+◌, ◌-◌, ◌*◌, ◌^◌, ◌≤◌, ◌<◌, replicate, Option, some, ◌≡◌, ◌≢◌, refl, sym, ◌∙◌, ap,
  arith, get_or, ◌==◌, Bool, true, false, not, ◌&&◌, ltb, if◌then◌else◌, ◌>>=◌, length-replicate,
}
use sunder.Prelude.Bits.{bit_of_lt}
use sunder.Prelude.Int.{ℤ, pos, sub_ℕ, neg_ℤ}
use mathlib.Core.Path.{subst}
use native.Mathlib.Nat.{pow-suc}
use sunder.Bigint.Repr.{minus, Bigint, bigint_zero, neg}
use sunder.Bigint.Value.{magnitude, value, IsValid, Yields}
use sunder.Bigint.Sum.Correct.{neg-IsValid, value-neg}
use sunder.Bigint.Product.Laws.{bigint_zero-IsValid}
use sunder.Bigint.Magnitude
use sunder.Bigint.Magnitude.{bit_count}
use sunder.Bigint.Magnitude.Write.{bit_set-IsWritten}
use sunder.Bitarr.{Bitarr, new, word_count, write_magnitude, to_bigint, twos_complement_neg}
use sunder.Bitarr.Access.{IsBitarr, bit_get_lem}
use sunder.Bitarr.Number.{
  digit, digits_number, number, digit-lt, digits_number_ext, digits_number-lt,
}
use sunder.Bitarr.Complement.{
  Becomes, complement, number-lt, truth_bit, twos_complement_neg-Becomes,
}
use sunder.Bitarr.Convert.{copy_bits-Copies}

get_or-replicate_zero : (n k : ℕ) → ◌≡◌ {A = ℕ} (get_or (replicate n 0) k 0) 0
get_or-replicate_zero zero k = refl
get_or-replicate_zero (suc n) zero = refl
get_or-replicate_zero (suc n) (suc k) = get_or-replicate_zero n k

-- `bitarr_new` makes an array in which every bit is zero.
pub new-IsBitarr : (n : ℕ) → IsBitarr (new n)
new-IsBitarr n = record {
  enough = length-replicate (word_count n) 0;
  bounded = λ k. rw (get_or-replicate_zero (word_count n) k) (omega arith);
}

-- A bigint that is not negative, with a magnitude.
record Natural (r : Option Bigint) (m : ℕ) : Type 0 where
  out : Bigint
  returns : r ≡ some out
  valid : IsValid out
  sign_ne : out.sign ≢ minus
  magnitude_out : magnitude out.limbs ≡ m

write_magnitude-Natural :
    (from : Bitarr) (n i top : ℕ) (res : Bigint)
    → IsValid res
    → res.sign ≢ minus
    → magnitude res.limbs ≡ digits_number (digit from) i
    → i + n ≡ top
    → top ≤ from.count
    → Natural (write_magnitude from n i res) (digits_number (digit from) top)
unfolding write_magnitude
write_magnitude-Natural from zero i top res v ne e full has = record {
  out = res;
  returns = refl;
  valid = v;
  sign_ne = ne;
  magnitude_out = let here : i ≡ top = omega arith in rw (sym here) e;
}
write_magnitude-Natural from (suc n) i top res v ne e full has =
    let w = bit_set-IsWritten res i (digit from i) v in
    let lt : magnitude res.limbs < 2 ^ i = rw e (digits_number-lt (digit from) i (digit-lt from)) in
    let clear = bit_of_lt (magnitude res.limbs) i lt in
    let next : i + 1 ≡ suc i = omega arith in
    let sum : magnitude (Magnitude.bit_set res i (digit from i)).limbs
        ≡ digits_number (digit from) (i + 1) =
      rw next (
        omega (
          arith,
          e,
          w.sum,
          ap (λ (x : ℕ). x * 2 ^ i) clear,
          ap (λ (x : ℕ). x * 2 ^ i) (truth_bit (digit from i) (digit-lt from i)),
        )) in
    rw (bit_get_lem from i (omega arith)) (
      write_magnitude-Natural from n (i + 1) top (Magnitude.bit_set res i (digit from i)) w.valid
        (λ s. ne (w.sign_lem s)) sum (omega arith) has)

natural_value : (b : Bigint) → IsValid b → b.sign ≢ minus → value b ≡ pos (magnitude b.limbs)
natural_value b v ne = ground (arith, v.zero_sign, ap magnitude)

-- The integer that `n` bits with the number `m` stand for.
abbrev pub unwrapped : Bool → ℕ → ℕ → ℤ
unwrapped false n m = pos m
unwrapped true n m = if ltb (2 * m) (2 ^ n) then pos m else sub_ℕ m (2 ^ n)

-- The top bit says which half the number lies in.
top_half :
    (a : Bitarr) (n : ℕ)
    → (not (digit a n == 0)) ≡ not (ltb (2 * digits_number (digit a) (suc n)) (2 ^ suc n))
top_half a n =
    let low = digits_number-lt (digit a) n (digit-lt a) in go (digit a n) (digit-lt a n) low
  where
    go :
        (d : ℕ)
        → d < 2
        → digits_number (digit a) n < 2 ^ n
        → (not (d == 0)) ≡ not (ltb (2 * (digits_number (digit a) n + d * 2 ^ n)) (2 ^ suc n))
    go zero lt low = ground (arith, pow-suc 2 n)
    go (suc zero) lt low = ground (arith, pow-suc 2 n)
    go (suc (suc d)) lt low = absurd (omega arith)

module _ (a : Bitarr) where
  -- The bits as a bigint, negated or not.
  abbrev finished : Bool → Option Bitarr → Option Bigint
  finished is_neg digits = digits >>= λ d.
      write_magnitude d a.count 0 bigint_zero >>= λ res. some (if is_neg then neg res else res)

  finished-Yields :
      (is_neg : Bool) (r : Option Bitarr) (m : ℕ)
      → Becomes r a.count m
      → Yields (finished is_neg r) (if is_neg then neg_ℤ (pos m) else pos m)
  finished-Yields is_neg r m d =
      let w =
        write_magnitude-Natural d.out a.count 0 a.count bigint_zero bigint_zero-IsValid (λ e. cc)
          refl (omega arith) (omega (arith, d.same_count)) in
      let v : value w.out ≡ pos m =
        natural_value w.out w.valid w.sign_ne ∙ ap pos (w.magnitude_out ∙ d.number_out) in
      rw (d.returns, w.returns) (negated is_neg w.out w.valid v)
    where
      negated :
          (b : Bool) (x : Bigint)
          → IsValid x
          → value x ≡ pos m
          → Yields (some (if b then neg x else x)) (if b then neg_ℤ (pos m) else pos m)
      negated true x v e = record {
        out = neg x;
        returns = refl;
        valid = neg-IsValid x v;
        value_out = value-neg x ∙ ap neg_ℤ e;
      }
      negated false x v e = record { out = x; returns = refl; valid = v; value_out = e }

  -- The bits, complemented when the integer is negative, as an integer.
  chosen :
      (is_neg : Bool) (c : Bitarr)
      → IsBitarr c
      → c.count ≡ a.count
      → digits_number (digit c) a.count ≡ number a
      → Yields
          (finished is_neg (if is_neg then twos_complement_neg c c else some c))
          (if is_neg then neg_ℤ (pos (complement a.count (number a))) else pos (number a))
  chosen false c keeps same e =
      finished-Yields false (some c) (number a)
        (record { out = c; returns = refl; keeps = keeps; same_count = same; number_out = e })
  chosen true c keeps same e =
      let t = twos_complement_neg-Becomes c c keeps refl in
      let m : number c ≡ number a = rw same e in
      finished-Yields true (twos_complement_neg c c) (complement a.count (number a)) (record {
        out = t.out;
        returns = t.returns;
        keeps = t.keeps;
        same_count = t.same_count ∙ same;
        number_out =
            rw (sym same) t.number_out
            ∙ ap (complement c.count) m
            ∙ ap (λ (n : ℕ). complement n (number a)) same;
      })

-- The integer by the sign that the top bit decides.
unwrapped_sign :
    (s : Bool) (n m : ℕ)
    → m < 2 ^ n
    → (if s && not (ltb (2 * m) (2 ^ n)) then neg_ℤ (pos (complement n m)) else pos m)
      ≡ unwrapped s n m
unwrapped_sign false n m h = refl
unwrapped_sign true n zero h = ground arith
unwrapped_sign true n (suc m) h = ground arith

empty-Yields :
    (a : Bitarr) (is_signed : Bool)
    → a.count ≡ 0
    → Yields (to_bigint a is_signed) (unwrapped is_signed a.count (number a))
unfolding to_bigint
empty-Yields a is_signed e = rw e (go is_signed)
  where
    go : (s : Bool) → Yields (some bigint_zero) (unwrapped s 0 0)
    go true = record {
      out = bigint_zero;
      returns = refl;
      valid = bigint_zero-IsValid;
      value_out = refl;
    }
    go false = record {
      out = bigint_zero;
      returns = refl;
      valid = bigint_zero-IsValid;
      value_out = refl;
    }

full-Yields :
    (a : Bitarr) (is_signed : Bool) (n : ℕ)
    → a.count ≡ suc n
    → Yields (to_bigint a is_signed) (unwrapped is_signed a.count (number a))
unfolding to_bigint
full-Yields a is_signed n e =
    let whole = new-IsBitarr a.count in
    let c =
      copy_bits-Copies a a.count 0 a.count (new a.count) whole (omega arith) (omega arith)
        (omega arith) in
    let same =
      digits_number_ext (digit c.out) (digit a) a.count (λ i lt. c.copied i (omega arith) lt) in
    let last : a.count - 1 ≡ n = omega arith in
    let nonempty : (a.count == 0) ≡ false = ground arith in
    let half : (not (digit a n == 0)) ≡ not (ltb (2 * number a) (2 ^ a.count)) =
      rw e (top_half a n) in
    let is_neg = is_signed && not (ltb (2 * number a) (2 ^ a.count)) in
    rw (nonempty, c.returns, bit_get_lem a (a.count - 1) (omega arith), last, half)
      (subst
        (λ z.
          Yields
            (finished a is_neg (if is_neg then twos_complement_neg c.out c.out else some c.out)) z)
        (unwrapped_sign is_signed a.count (number a) (number-lt a))
        (chosen a is_neg c.out c.keeps c.same_count same))

-- `bitarr_to_bigint` gives the integer that the bits stand for.
pub to_bigint-Yields :
    (a : Bitarr) (is_signed : Bool)
    → Yields (to_bigint a is_signed) (unwrapped is_signed a.count (number a))
to_bigint-Yields a is_signed = by_count a.count refl
  where
    by_count :
        (n : ℕ)
        → a.count ≡ n
        → Yields (to_bigint a is_signed) (unwrapped is_signed a.count (number a))
    by_count zero e = empty-Yields a is_signed e
    by_count (suc n) e = full-Yields a is_signed n e
