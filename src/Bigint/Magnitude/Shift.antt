-- ===== src/Bigint/Magnitude/Shift.antt =====
-- `bigint_magnitude_shiftl` multiplies the magnitude by a power of two.
use sunder.Prelude.{
  ℕ, zero, suc, ◌+◌, ◌-◌, ◌*◌, ◌/◌, ◌%◌, ◌^◌, ◌≤◌, ◌<◌, List, [], ◌∷◌, ◌++◌, ◌≡◌, ◌≢◌, refl, ◌∙◌,
  ap, arith,
}
use sunder.Prelude.{
  true, false, length, get_or, take, bit_and, Bool-cases, inl, inr, ◌==◌, length-append, take_all,
  replicate, length-replicate,
}
use sunder.Bigint.Repr.{nought, Bigint, shiftl_limbs}
use sunder.Bigint.Value.{magnitude, AllBytes, IsTrimmed, IsValid}
use sunder.Bigint.Value.Limbs.{
  AllBytes-get, AllBytes-append, AllBytes-replicate, magnitude-take-suc, magnitude-append,
  magnitude-replicate,
}
use sunder.Bigint.Value.Normal.{pow-le-magnitude}
use sunder.Bigint.Sum.{has_sign}
use sunder.Bigint.Magnitude.{double_loop, shift_once, shift_rounds, shiftl}
use native.Mathlib.Decide.{dec_lt, ℕ_discrete}
use native.Mathlib.Nat.{pow-suc}
use sunder.Bigint.Magnitude.Digits.{two-pow_place}
use sunder.Bigint.Magnitude.Double.{double_loop-IsDoubled, top_digit}

-- One round doubles trimmed limbs, and leaves them trimmed.
pub record IsTwice (xs out : List ℕ) (p : ℕ) : Type 0 where
  pub bytes : AllBytes out
  pub trimmed : IsTrimmed out
  pub nonempty : 0 < length out
  pub sum : magnitude out ≡ p * magnitude xs

IsTrimmed-of_pow-le :
    (xs : List ℕ) (n : ℕ) → AllBytes xs → length xs ≡ suc n → 256 ^ n ≤ magnitude xs → IsTrimmed xs
IsTrimmed-of_pow-le [] n b e h = tt
IsTrimmed-of_pow-le (x ∷ []) zero b e h = omega arith
IsTrimmed-of_pow-le (x ∷ []) (suc n) b e h = absurd (omega arith)
IsTrimmed-of_pow-le (x ∷ y ∷ ys) zero b e h = absurd (omega arith)
IsTrimmed-of_pow-le (x ∷ y ∷ ys) (suc n) b e h =
    IsTrimmed-of_pow-le (y ∷ ys) n b.1 (omega arith) (omega (arith, b.0, pow-suc 256 n))

-- The doubling loop over limbs whose top digit is free.
double_loop-IsTwice :
    (xs ys : List ℕ) (m : ℕ)
    → AllBytes ys
    → length ys ≡ suc m
    → get_or ys m 0 < 128
    → magnitude ys ≡ magnitude xs
    → 256 ^ m ≤ 2 * magnitude xs
    → IsTwice xs (double_loop m ys) 2
double_loop-IsTwice xs ys m b e free same large =
    let d = double_loop-IsDoubled m ys (omega arith) b in
    let none_lost : get_or ys m 0 / 128 ≡ 0 = omega arith in
    let sum : magnitude (double_loop m ys) ≡ 2 * magnitude xs = omega (
      arith,
      d.sum,
      ap (λ (t : ℕ). t * 256 ^ suc m) none_lost,
      ap magnitude (take_all (suc m) ys (omega arith)),
    ) in
    record {
      bytes = d.bytes;
      trimmed =
          IsTrimmed-of_pow-le (double_loop m ys) m d.bytes (d.same_length ∙ e)
            (omega (arith, large));
      nonempty = omega (arith, d.same_length);
      sum = sum;
    }

get_or-append_last : (xs : List ℕ) (n : ℕ) → length xs ≡ n → get_or (xs ++ 0 ∷ []) n 0 ≡ 0
get_or-append_last [] zero e = refl
get_or-append_last [] (suc n) e = refl
get_or-append_last (x ∷ xs) zero e = absurd (omega arith)
get_or-append_last (x ∷ xs) (suc n) e = get_or-append_last xs n (omega arith)

top_limb-le : (x m : ℕ) (p : ℕ) → 128 ≤ x → 128 * p ≤ m + x * p
top_limb-le x m p h = grind arith

shift_once-IsTwice :
    (xs : List ℕ) (n : ℕ)
    → AllBytes xs
    → length xs ≡ suc n
    → IsTrimmed xs
    → IsTwice xs (shift_once xs) 2
shift_once-IsTwice xs n b e t = elim (dec_lt (get_or xs n 0) 128) [
  | yes free ↦
      let same : shift_once xs ≡ double_loop n xs =
        unfold shift_once in rw (e, last, top) (ground (arith, e)) in
      rw same (double_loop-IsTwice xs xs n b e free refl (omega (arith, pow-le-magnitude xs n e t)))
  | no full ↦
      let same : shift_once xs ≡ double_loop (suc n) (xs ++ 0 ∷ []) =
        unfold shift_once in rw (e, last, top) (ground (arith, longer)) in
      rw same (
        double_loop-IsTwice xs (xs ++ 0 ∷ []) (suc n) (AllBytes-append xs (0 ∷ []) b (omega arith))
          longer (rw (get_or-append_last xs (suc n) e) (omega arith)) grown
          (omega (arith, large full, pow-suc 256 n)))
]
  where
    last : suc n - 1 ≡ n
    last = omega arith

    top : bit_and (get_or xs n 0) 128 ≡ get_or xs n 0 / 128 * 128
    top = top_digit (get_or xs n 0) (AllBytes-get xs n b)

    longer : length (xs ++ 0 ∷ []) ≡ suc (suc n)
    longer = omega (arith, length-append xs (0 ∷ []))

    grown : magnitude (xs ++ 0 ∷ []) ≡ magnitude xs
    grown = omega (arith, magnitude-append xs (0 ∷ []))

    large : ¬ (get_or xs n 0 < 128) → 128 * 256 ^ n ≤ magnitude xs
    large full = omega (
      arith,
      top_limb-le (get_or xs n 0) (magnitude (take n xs)) (256 ^ n) (omega arith),
      magnitude-take-suc n xs,
      ap magnitude (take_all (suc n) xs (omega arith)),
    )

IsTwice-again :
    (k : ℕ) (xs : List ℕ)
    → IsTwice xs (shift_once xs) 2
    → IsTwice (shift_once xs) (shift_rounds k (shift_once xs)) (2 ^ k)
    → IsTwice xs (shift_rounds (suc k) xs) (2 ^ suc k)
unfolding shift_rounds
IsTwice-again k xs once rest = record {
  bytes = rest.bytes;
  trimmed = rest.trimmed;
  nonempty = rest.nonempty;
  sum = rest.sum ∙ rw (pow-suc 2 k) (omega (arith, ap (λ (t : ℕ). 2 ^ k * t) once.sum));
}

shift_rounds-IsTwice :
    (k : ℕ) (xs : List ℕ)
    → AllBytes xs
    → 0 < length xs
    → IsTrimmed xs
    → IsTwice xs (shift_rounds k xs) (2 ^ k)
shift_rounds-IsTwice zero xs b h t =
    unfold shift_rounds in record { bytes = b; trimmed = t; nonempty = h; sum = omega arith }
shift_rounds-IsTwice (suc k) xs b h t =
    let once = shift_once-IsTwice xs (length xs - 1) b (omega arith) t in
    IsTwice-again k xs once
      (shift_rounds-IsTwice k (shift_once xs) once.bytes once.nonempty once.trimmed)

prepend-IsTrimmed :
    (n : ℕ) (xs : List ℕ) → 0 < length xs → IsTrimmed xs → IsTrimmed (replicate n 0 ++ xs)
prepend-IsTrimmed zero xs h t = t
prepend-IsTrimmed (suc n) [] h t = absurd (omega arith)
prepend-IsTrimmed (suc zero) (x ∷ xs) h t = t
prepend-IsTrimmed (suc (suc n)) (x ∷ xs) h t = prepend-IsTrimmed (suc n) (x ∷ xs) h t

shiftl_limbs_lem :
    (k : ℕ) (b : Bigint)
    → shiftl_limbs b k ≡ record { sign = b.sign; limbs = replicate k 0 ++ b.limbs }
shiftl_limbs_lem zero b = unfold shiftl_limbs in refl
shiftl_limbs_lem (suc k) b =
    let more : (suc k == 0) ≡ false = ground arith in unfold shiftl_limbs in rw more

sign_test : (b : Bigint) → b.sign ≡ nought → has_sign nought b ≡ true
sign_test b e = rw e

positive : (xs : List ℕ) → xs ≢ [] → 0 < length xs
positive [] h = absurd (h refl)
positive (x ∷ xs) h = omega arith

-- What `bigint_magnitude_shiftl` leaves.
pub record IsShifted (b b' : Bigint) (n : ℕ) : Type 0 where
  pub valid : IsValid b'
  pub same_sign : b'.sign ≡ b.sign
  pub sum : magnitude b'.limbs ≡ 2 ^ n * magnitude b.limbs

module _ (b : Bigint) (n : ℕ) (v : IsValid b) where
  shiftl_nonzero-IsShifted : b.sign ≢ nought → 0 < n → IsShifted b (shiftl b n) n
  shiftl_nonzero-IsShifted s h = rw returns (record {
    valid = record {
      bytes = done.bytes;
      trimmed = done.trimmed;
      zero_sign = λ e. absurd (s e);
      zero_limbs = λ e. absurd (empty e);
    };
    same_sign = refl;
    sum = rw (two-pow_place n) (done.sum ∙ moved);
  })
    where
      whole : List ℕ
      whole = replicate (n / 8) 0 ++ b.limbs

      filled : 0 < length b.limbs
      filled = positive b.limbs (λ e. s (v.zero_limbs e))

      done : IsTwice whole (shift_rounds (n % 8) whole) (2 ^ (n % 8))
      done =
          shift_rounds-IsTwice (n % 8) whole
            (AllBytes-append (replicate (n / 8) 0) b.limbs (AllBytes-replicate (n / 8)) v.bytes)
            (omega (arith, filled, length-append (replicate (n / 8) 0) b.limbs))
            (prepend-IsTrimmed (n / 8) b.limbs filled v.trimmed)

      go_on : (n == 0) ≡ false
      go_on = ground arith

      has_digits : has_sign nought b ≡ false
      has_digits = ground arith

      returns : shiftl b n ≡ record { sign = b.sign; limbs = shift_rounds (n % 8) whole }
      returns = unfold shiftl in rw (go_on, has_digits, shiftl_limbs_lem (n / 8) b)

      empty : shift_rounds (n % 8) whole ≡ [] → ⊥
      empty e = omega (arith, done.nonempty, ap length e)

      moved : 2 ^ (n % 8) * magnitude whole ≡ 256 ^ (n / 8) * 2 ^ (n % 8) * magnitude b.limbs
      moved =
          rw
            (
              magnitude-append (replicate (n / 8) 0) b.limbs,
              magnitude-replicate (n / 8),
              length-replicate {A = ℕ} (n / 8) 0,
            )
            (omega arith)

  -- At any count of digits, shifting left keeps the normal form and the sign and multiplies the
  -- magnitude by the power of two.
  pub shiftl-IsShifted : IsShifted b (shiftl b n) n
  shiftl-IsShifted = elim (ℕ_discrete n 0) [
    | yes z ↦
        let same : shiftl b n ≡ b = unfold shiftl in ground arith in
        rw (same, z) (record { valid = v; same_sign = refl; sum = omega arith })
    | no p ↦ elim (Bool-cases (has_sign nought b)) [
      | inl e ↦
          let same : shiftl b n ≡ b = unfold shiftl in ground arith in
          let empty : magnitude b.limbs ≡ 0 = ap magnitude (v.zero_sign (ground arith)) in
          rw same (record { valid = v; same_sign = refl; sum = rw empty (omega arith) })
      | inr e ↦ shiftl_nonzero-IsShifted (λ s. cc (sign_test b s)) (omega arith)
    ]
  ]
