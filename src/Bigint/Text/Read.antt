-- ===== src/Bigint/Text/Read.antt =====
-- `bigint_new_text` reads the number that the digits write.
use sunder.Prelude.{
  ℕ, ◌+◌, ◌*◌, ◌^◌, ◌<◌, List, [], ◌∷◌, Option, none, some, ◌≡◌, ◌≢◌, refl, arith, ap, ◌∙◌,
}
use sunder.Prelude.{true, false, ◌>>=◌, inl, inr, ◌⊎◌}
use sunder.Prelude.Int.{ℤ, pos, ◌+ℤ◌, ◌*ℤ◌}
use sunder.Bigint.Repr.{Sign, minus, nought, plus, rank, Bigint, bigint_zero, normalize, assign}
use sunder.Bigint.Value.{magnitude, signed, value, AllBytes, IsValid}
use sunder.Bigint.Value.Normal.{normalize-IsValid, value-normalize, valid-IsSigned}
use sunder.Bigint.Sum.{add}
use sunder.Bigint.Sum.Correct.{add_magnitudes-Yields}
use sunder.Bigint.Sum.Laws.{add-left_zero, add-same_sign}
use native.Mathlib.Decide.{ℕ_discrete}
use sunder.Bigint.Product.{mul}
use sunder.Bigint.Product.Laws.{mul_bytes-Yields}
use sunder.Bigint.Division.Step.{IsNatural, IsNatural-of_value, value-natural}
use sunder.Bigint.Text.{
  Radix, dec, radix, radix_bigint, radix_isdigit, char_value, all_digits, read_digits,
  read_magnitude, new_text, read_sign, read_radix,
}

-- The number that digits write, from the left, behind a number that is read already.
abbrev pub number : Radix → List ℕ → ℕ → ℕ
number r [] m = m
number r (c ∷ cs) m = number r cs (m * radix r + char_value c)

-- While it is read an integer may have a zero limb too many.
record IsLoose (b : Bigint) (m : ℕ) : Type 0 where
  bytes : AllBytes b.limbs
  sign_ne : b.sign ≢ minus
  zero_sign : b.sign ≡ nought → magnitude b.limbs ≡ 0
  sum : magnitude b.limbs ≡ m

-- Characters are values of `unsigned`.
abbrev pub IsText : List ℕ → Type 0
IsText [] = Unit
IsText (c ∷ cs) = (c < 2 ^ 32) × IsText cs

char_value-lt : (r : Radix) (c : ℕ) → c < 2 ^ 32 → radix_isdigit r c ≡ true → char_value c < 256
unfolding radix_isdigit char_value
char_value-lt dec c b h = ground arith
char_value-lt r c b h = ground arith

radix_bytes : (r : Radix) → AllBytes (radix_bigint r).limbs
radix_bytes dec = omega arith
radix_bytes r = omega arith

value-radix : (r : Radix) → value (radix_bigint r) ≡ pos (radix r)
value-radix dec = refl
value-radix r = refl

loose_value : (b : Bigint) (m : ℕ) → IsLoose b m → value b ≡ pos m
loose_value b m h = ground arith

pos-product : (m n : ℕ) → pos m *ℤ pos n ≡ pos (m * n)
unfolding ◌*ℤ◌
pos-product m n = ground arith

abbrev digit : ℕ → Bigint
digit d = record { sign = plus; limbs = d ∷ [] }

-- The process goes on, and returns a valid integer.
pub record Reads (r : Option (Option Bigint)) (z : ℤ) : Type 0 where
  pub out : Bigint
  pub returns : r ≡ some (some out)
  pub valid : IsValid out
  pub value_out : value out ≡ z

-- The first of two steps that are chained, and a third.
split_bind :
    (m : Option Bigint) (f k : Bigint → Option Bigint) {b : Bigint}
    → (m >>= f) ≡ some b
    → (m >>= λ x. f x >>= k) ≡ k b
split_bind none f k e = cc
split_bind (some x) f k e = rw e

-- A sum with one digit, which may be the limb zero.
record AddsDigit (r : Option Bigint) (m : ℕ) : Type 0 where
  out : Bigint
  returns : r ≡ some out
  loose : IsLoose out m

plus_digit : (m d : ℕ) → pos m +ℤ value (digit d) ≡ pos (m + d)
unfolding ◌+ℤ◌
plus_digit m d = ground arith

add_digit :
    (b : Bigint) (m d : ℕ)
    → IsNatural b
    → magnitude b.limbs ≡ m
    → d < 256
    → AddsDigit (add b (digit d)) (m + d)
add_digit b m d n e h = elim (ℕ_discrete (rank b.sign) 1) [
  | yes z ↦ record {
    out = digit d;
    returns = add-left_zero b (digit d) (ground arith);
    loose = record {
      bytes = omega arith;
      sign_ne = λ s. cc;
      zero_sign = λ s. cc;
      sum = omega (arith, e, (valid-IsSigned b n.valid).empty (ground arith));
    };
  }
  | no p ↦
      let total =
        add_magnitudes-Yields b (digit d) n.valid.bytes (omega arith) (ground (arith, n.sign_ne))
          (λ s. p (ground arith)) in
      let natural =
        IsNatural-of_value total.out (m + d) total.valid
          (total.value_out ∙ rw (value-natural b n, e) (plus_digit m d)) in
      record {
        out = total.out;
        returns =
            add-same_sign b (digit d) (ground (arith, n.sign_ne)) (λ s. p (ground arith))
            ∙ total.returns;
        loose = record {
          bytes = total.valid.bytes;
          sign_ne = natural.0.sign_ne;
          zero_sign = (valid-IsSigned total.out total.valid).empty;
          sum = natural.1;
        };
      }
]

read_digit :
    (r : Radix) (b : Bigint) (m d : ℕ)
    → IsLoose b m
    → d < 256
    → AddsDigit (mul b (radix_bigint r) >>= λ scaled. add scaled (digit d)) (m * radix r + d)
read_digit r b m d loose h =
    let scaled = mul_bytes-Yields b (radix_bigint r) loose.bytes (radix_bytes r) in
    let natural =
      IsNatural-of_value scaled.out (m * radix r) scaled.valid
        (scaled.value_out ∙ rw (loose_value b m loose, value-radix r) (pos-product m (radix r))) in
    let added = add_digit scaled.out (m * radix r) d natural.0 natural.1 h in
    rw scaled.returns added

read_digits-cons :
    (r : Radix) (c : ℕ) (cs : List ℕ) (b b' : Bigint)
    → (mul b (radix_bigint r) >>= λ scaled. add scaled (digit (char_value c))) ≡ some b'
    → read_digits r (c ∷ cs) b ≡ read_digits r cs b'
unfolding read_digits
read_digits-cons r c cs b b' e =
    split_bind (mul b (radix_bigint r)) (λ scaled. add scaled (digit (char_value c)))
      (read_digits r cs) e

read_digits-AddsDigit :
    (r : Radix) (cs : List ℕ) (b : Bigint) (m : ℕ)
    → IsText cs
    → all_digits r cs ≡ true
    → IsLoose b m
    → AddsDigit (read_digits r cs b) (number r cs m)
read_digits-AddsDigit r [] b m t h loose = record {
  out = b;
  returns = unfold read_digits in refl;
  loose = loose;
}
read_digits-AddsDigit r (c ∷ cs) b m t h loose =
    let first : radix_isdigit r c ≡ true = ground arith in
    let later : all_digits r cs ≡ true = ground arith in
    let one = read_digit r b m (char_value c) loose (char_value-lt r c t.0 first) in
    let rest =
      read_digits-AddsDigit r cs one.out (m * radix r + char_value c) t.1 later one.loose in
    record {
      out = rest.out;
      returns = read_digits-cons r c cs b one.out one.returns ∙ rest.returns;
      loose = rest.loose;
    }

-- What `bigint_new_text` returns on digits behind a sign and a radix.
pub read_magnitude-Reads :
    (s : Sign) (r : Radix) (cs : List ℕ)
    → s ≢ nought
    → IsText cs
    → cs ≢ []
    → all_digits r cs ≡ true
    → Reads (read_magnitude s r cs) (signed s (number r cs 0))
read_magnitude-Reads s r [] ne t full h = absurd (full refl)
read_magnitude-Reads s r (c ∷ cs) ne t full h =
    let start : IsLoose bigint_zero 0 = record {
      bytes = tt;
      sign_ne = λ e. cc;
      zero_sign = λ e. refl;
      sum = refl;
    } in
    let done = read_digits-AddsDigit r (c ∷ cs) bigint_zero 0 t h start in
    let signed_out : Bigint = record { sign = s; limbs = done.out.limbs } in
    record {
      out = normalize signed_out;
      returns = unfold read_magnitude assign in rw (h, done.returns);
      valid = normalize-IsValid signed_out done.loose.bytes (λ e. absurd (ne e));
      value_out = value-normalize signed_out ∙ ap (signed s) done.loose.sum;
    }

-- Other digits give the null pointer.
pub read_magnitude-bad :
    (s : Sign) (r : Radix) (cs : List ℕ)
    → (cs ≡ []) ⊎ (all_digits r cs ≡ false)
    → read_magnitude s r cs ≡ some none
unfolding read_magnitude
read_magnitude-bad s r [] h = refl
read_magnitude-bad s r (c ∷ cs) (inl e) = absurd (cc)
read_magnitude-bad s r (c ∷ cs) (inr e) = rw e

abbrev pub sign_of : List ℕ → Sign
sign_of text = (read_sign text).0

abbrev pub radix_of : List ℕ → Radix
radix_of text = (read_radix (read_sign text).1).0

abbrev pub digits_of : List ℕ → List ℕ
digits_of text = (read_radix (read_sign text).1).1

sign_of-ne : (text : List ℕ) → sign_of text ≢ nought
sign_of-ne [] e = cc
sign_of-ne (c ∷ cs) e = ground arith

pub read_sign-IsText : (text : List ℕ) → IsText text → IsText (read_sign text).1
read_sign-IsText [] t = tt
read_sign-IsText (c ∷ cs) t = ground arith

pub read_radix-IsText : (text : List ℕ) → IsText text → IsText (read_radix text).1
read_radix-IsText [] t = tt
read_radix-IsText (c ∷ []) t = t
read_radix-IsText (c ∷ d ∷ cs) t = ground arith

pub new_text_lem :
    (text : List ℕ) → new_text text ≡ read_magnitude (sign_of text) (radix_of text) (digits_of text)
new_text_lem [] = unfold new_text read_magnitude in refl
new_text_lem (c ∷ cs) = unfold new_text in refl

-- If digits of the radix stand behind the sign and the prefix, and nothing else, then
-- `bigint_new_text` returns the number that they write, with that sign.
pub new_text-Reads :
    (text : List ℕ)
    → IsText text
    → digits_of text ≢ []
    → all_digits (radix_of text) (digits_of text) ≡ true
    → Reads (new_text text) (signed (sign_of text) (number (radix_of text) (digits_of text) 0))
new_text-Reads text t full h = rw (new_text_lem text) (
    read_magnitude-Reads (sign_of text) (radix_of text) (digits_of text) (sign_of-ne text)
      (read_radix-IsText (read_sign text).1 (read_sign-IsText text t)) full h)
