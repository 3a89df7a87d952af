-- ===== src/Bigint/Magnitude/Write.antt =====
-- `bigint_magnitude_bit_set`.
use sunder.Prelude.{ℕ, ◌+◌, ◌-◌, ◌*◌, ◌/◌, ◌%◌, ◌^◌, ◌<◌, List, ◌≡◌, refl, ◌∙◌, sym, ap, arith}
use sunder.Prelude.{
  length, get_or, set, u8, bit_and, bit_or, Bool-cases, inl, inr, if◌then◌else◌, ◌==◌, not, ◌&&◌,
}
use sunder.Prelude.Bits.{bit, bit_or_mask, bit_or-lt, bit_and_clear, two-pow-lt, zero-bit}
use sunder.Prelude.{length-append, length-replicate, replicate, get_or_out, ◌++◌}
use sunder.Bigint.Repr.{nought, minus, plus, Bigint, resize}
use sunder.Bigint.Value.{magnitude, AllBytes, IsValid}
use sunder.Bigint.Value.Limbs.{
  AllBytes-get, AllBytes-set, magnitude-set, AllBytes-append, AllBytes-replicate, magnitude-append,
  magnitude-replicate,
}
use sunder.Bigint.Value.Normal.{normalize-IsValid, magnitude-normalize, normalize_sign}
use sunder.Bigint.Magnitude.Digits.{digit_lem, two-pow_place, mask_lem}
use sunder.Bigint.Sum.{has_sign}
use native.Mathlib.Decide.{dec_lt}
use sunder.Bigint.Magnitude.{bit_set, write_bit}

-- What `bigint_magnitude_bit_set` leaves: a valid integer with the digit at `n` written.
pub record IsWritten (b b' : Bigint) (n d : ℕ) : Type 0 where
  pub valid : IsValid b'
  pub sum : magnitude b'.limbs + bit (magnitude b.limbs) n * 2 ^ n ≡ magnitude b.limbs + d * 2 ^ n
  pub sign_lem : b'.sign ≡ minus → b.sign ≡ minus

-- The digit that a C condition stands for.
abbrev pub truth : ℕ → ℕ
truth value = if value == 0 then 0 else 1

-- The byte that is written.
abbrev byte : ℕ → ℕ → ℕ → ℕ
byte limb k value =
    u8 (if value == 0 then bit_and limb (2 ^ 8 - 1 - u8 (2 ^ k)) else bit_or limb (u8 (2 ^ k)))

byte_lem :
    (limb k value : ℕ)
    → limb < 256
    → k < 8
    → byte limb k value + bit limb k * 2 ^ k ≡ limb + truth value * 2 ^ k
byte_lem limb k value h hk = elim (Bool-cases (value == 0)) [
  | inl e ↦ rw (mask_lem k hk, e) (omega (arith, bit_and_clear 8 limb k h hk))
  | inr e ↦
      rw (mask_lem k hk, e)
        (omega (arith, bit_or_mask limb k, bit_or-lt 8 limb (2 ^ k) h (two-pow-lt k 8 hk)))
]

module _ (b : Bigint) (n value : ℕ) (bytes : AllBytes b.limbs) (h : n / 8 < length b.limbs) where
  abbrev limb' : ℕ
  limb' = byte (get_or b.limbs (n / 8) 0) (n % 8) value

  -- The integer before it is normalised.
  abbrev raw : Bigint
  raw = record {
    sign = if has_sign nought b && not (value == 0) then plus else b.sign;
    limbs = set b.limbs (n / 8) limb';
  }

  raw_sum :
      magnitude raw.limbs + bit (magnitude b.limbs) n * 2 ^ n
      ≡ magnitude b.limbs + truth value * 2 ^ n
  raw_sum =
      rw (digit_lem b.limbs n bytes, two-pow_place n)
        (omega (
          arith,
          magnitude-set b.limbs (n / 8) limb' h,
          ap (λ (t : ℕ). t * 256 ^ (n / 8))
              (byte_lem (get_or b.limbs (n / 8) 0) (n % 8) value
                (AllBytes-get b.limbs (n / 8) bytes) (omega arith)),
        ))

  write_bit-IsWritten :
      (b.sign ≡ nought → magnitude b.limbs ≡ 0) → IsWritten b (write_bit b n value) n (truth value)
  write_bit-IsWritten zero_sign = record {
    valid =
        unfold write_bit in
        normalize-IsValid raw (AllBytes-set b.limbs (n / 8) limb' (omega arith) bytes)
          (λ e. still_zero zero_sign e);
    sum = unfold write_bit in rw (magnitude-normalize raw) raw_sum;
    sign_lem = unfold write_bit in λ e. keeps_sign (normalize_sign raw e);
  }
    where
      keeps_sign : raw.sign ≡ minus → b.sign ≡ minus
      keeps_sign e = ground arith

      still_zero :
          (b.sign ≡ nought → magnitude b.limbs ≡ 0) → raw.sign ≡ nought → magnitude raw.limbs ≡ 0
      still_zero z e =
          let parts : (truth value ≡ 0) × (b.sign ≡ nought) = ground arith in
          let empty : magnitude b.limbs ≡ 0 = z parts.1 in
          let nothing : truth value * 2 ^ n ≡ 0 = rw parts.0 (omega arith) in omega (arith, raw_sum)

-- A longer array of limbs with the same number.
record IsGrown (b b' : Bigint) (count : ℕ) : Type 0 where
  bytes : AllBytes b'.limbs
  long : length b'.limbs ≡ count
  same_sum : magnitude b'.limbs ≡ magnitude b.limbs
  same_sign : b'.sign ≡ b.sign

resize-IsGrown :
    (b : Bigint) (count : ℕ)
    → AllBytes b.limbs
    → length b.limbs < count
    → IsGrown b (resize b count) count
resize-IsGrown b count bytes h = rw returns (record {
  bytes = AllBytes-append b.limbs zeros bytes (AllBytes-replicate (count - length b.limbs));
  long =
      omega
        (arith, length-append b.limbs zeros, length-replicate {A = ℕ} (count - length b.limbs) 0);
  same_sum = omega (
    arith,
    magnitude-append b.limbs zeros,
    ap (λ (t : ℕ). t * 256 ^ length b.limbs) (magnitude-replicate (count - length b.limbs)),
  );
  same_sign = refl;
})
  where
    zeros : List ℕ
    zeros = replicate (count - length b.limbs) 0

    returns : resize b count ≡ record { sign = b.sign; limbs = b.limbs ++ zeros }
    returns = unfold resize in ground arith

-- At any digit, `bigint_magnitude_bit_set` writes it, changes no other, and keeps the normal
-- form.
pub bit_set-IsWritten :
    (b : Bigint) (n value : ℕ) → IsValid b → IsWritten b (bit_set b n value) n (truth value)
bit_set-IsWritten b n value v = elim (dec_lt (n / 8) (length b.limbs)) [
  | yes h ↦
      let inside : bit_set b n value ≡ write_bit b n value = unfold bit_set in ground arith in
      rw inside (write_bit-IsWritten b n value v.bytes h (λ e. ap magnitude (v.zero_sign e)))
  | no h ↦ elim (Bool-cases (value == 0)) [
    | inl e ↦
        let same : bit_set b n value ≡ b = unfold bit_set in ground arith in
        rw (same, e)
          (record {
            valid = v;
            sum =
                rw
                  (
                    digit_lem b.limbs n v.bytes,
                    get_or_out b.limbs (n / 8) 0 (omega arith),
                    zero-bit (n % 8),
                  )
                  (omega arith);
            sign_lem = λ e. e;
          })
    | inr e ↦
        let grown : bit_set b n value ≡ write_bit (resize b (n / 8 + 1)) n value =
          unfold bit_set in ground arith in
        let g = resize-IsGrown b (n / 8 + 1) v.bytes (omega arith) in
        let w =
          write_bit-IsWritten (resize b (n / 8 + 1)) n value g.bytes (omega (arith, g.long))
            (λ s. g.same_sum ∙ ap magnitude (v.zero_sign (sym g.same_sign ∙ s))) in
        rw grown (record {
          valid = w.valid;
          sum = rw g.same_sum at w.sum;
          sign_lem = λ s. sym g.same_sign ∙ w.sign_lem s;
        })
  ]
]
