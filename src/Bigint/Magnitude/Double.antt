-- ===== src/Bigint/Magnitude/Double.antt =====
-- The loop of `bigint_magnitude_shiftl` that doubles the limbs in place.
use sunder.Prelude.{
  ℕ, zero, suc, ◌+◌, ◌*◌, ◌/◌, ◌^◌, ◌≤◌, ◌<◌, List, [], ◌∷◌, ◌≡◌, refl, ◌∙◌, ap, arith,
}
use sunder.Prelude.{
  length, get_or, set, take, u8, bit_and, bit_or, if◌then◌else◌, ◌==◌, length-set, get_or-set_ne,
}
use sunder.Prelude.Bits.{bit_or_mask, bit_and_mask}
use sunder.Bigint.Value.{magnitude, AllBytes}
use sunder.Bigint.Value.Limbs.{
  AllBytes-get, AllBytes-set, magnitude-set, magnitude-take-suc, mul-pow-suc,
}
use sunder.Bigint.Magnitude.{double_loop}

-- The top binary digit of a limb, and the carry into the limb above it.
pub top_digit : (l : ℕ) → l < 256 → bit_and l 128 ≡ l / 128 * 128
top_digit l h = omega (arith, bit_and_mask l 7)

carried_lem :
    (x l : ℕ)
    → l < 256
    → (if bit_and l 128 == 0 then u8 (x * 2) else bit_or (u8 (x * 2)) 1) ≡ u8 (x * 2) + l / 128
carried_lem x l h = rw (top_digit l h) (ground (arith, bit_or_mask (u8 (x * 2)) 0))

take-set_above : (n : ℕ) (xs : List ℕ) (i v : ℕ) → n ≤ i → take n (set xs i v) ≡ take n xs
take-set_above zero xs i v h = refl
take-set_above (suc n) [] i v h = refl
take-set_above (suc n) (x ∷ xs) zero v h = absurd (omega arith)
take-set_above (suc n) (x ∷ xs) (suc i) v h =
    ap (λ l. x ∷ l) (take-set_above n xs i v (omega arith))

-- The limbs from `i` down have been doubled, and the carry out of the limb at `i` is dropped.
pub record IsDoubled (xs out : List ℕ) (i : ℕ) : Type 0 where
  pub bytes : AllBytes out
  pub same_length : length out ≡ length xs
  pub sum :
      magnitude out + get_or xs i 0 / 128 * 256 ^ suc i ≡ magnitude xs + magnitude (take (suc i) xs)

-- The limb that is written at `suc i`, and the limbs then.
abbrev carried : List ℕ → ℕ → ℕ
carried xs i = u8 (get_or xs (suc i) 0 * 2) + get_or xs i 0 / 128

abbrev stored : List ℕ → ℕ → List ℕ
stored xs i = set xs (suc i) (carried xs i)

carried-lt : (xs : List ℕ) (i : ℕ) → AllBytes xs → carried xs i < 256
carried-lt xs i b = omega (arith, AllBytes-get xs i b)

double_sum :
    (i : ℕ) (xs out : List ℕ)
    → suc i < length xs
    → AllBytes xs
    → magnitude out + get_or xs i 0 / 128 * 256 ^ suc i
      ≡ magnitude (stored xs i) + magnitude (take (suc i) xs)
    → magnitude out + get_or xs (suc i) 0 / 128 * 256 ^ suc (suc i)
      ≡ magnitude xs + magnitude (take (suc (suc i)) xs)
double_sum i xs out h b e =
    let x = get_or xs (suc i) 0 in
    let split : carried xs i + 256 * (x / 128) ≡ 2 * x + get_or xs i 0 / 128 =
      omega (arith, AllBytes-get xs (suc i) b) in
    omega (
      arith,
      e,
      magnitude-set xs (suc i) (carried xs i) h,
      magnitude-take-suc (suc i) xs,
      mul-pow-suc (x / 128) (suc i),
      ap (λ (t : ℕ). t * 256 ^ suc i) split,
    )

double_step :
    (i : ℕ) (xs : List ℕ)
    → suc i < length xs
    → AllBytes xs
    → IsDoubled (stored xs i) (double_loop i (stored xs i)) i
    → IsDoubled xs (double_loop (suc i) xs) (suc i)
double_step i xs h b d = rw step (record {
  bytes = d.bytes;
  same_length = d.same_length ∙ length-set xs (suc i) (carried xs i);
  sum = double_sum i xs (double_loop i (stored xs i)) h b (rw (below, low) at d.sum);
})
  where
    step : double_loop (suc i) xs ≡ double_loop i (stored xs i)
    step =
        unfold double_loop in
        rw (carried_lem (get_or xs (suc i) 0) (get_or xs i 0) (AllBytes-get xs i b))

    below : get_or (stored xs i) i 0 ≡ get_or xs i 0
    below = get_or-set_ne xs (suc i) i (carried xs i) 0 (omega arith)

    low : take (suc i) (stored xs i) ≡ take (suc i) xs
    low = take-set_above (suc i) xs (suc i) (carried xs i) (omega arith)

pub double_loop-IsDoubled :
    (i : ℕ) (xs : List ℕ) → i < length xs → AllBytes xs → IsDoubled xs (double_loop i xs) i
double_loop-IsDoubled zero [] h b = absurd (omega arith)
double_loop-IsDoubled zero (x ∷ xs) h b =
    unfold double_loop in
    record { bytes = (omega arith, b.1); same_length = refl; sum = omega arith }
double_loop-IsDoubled (suc i) xs h b = double_step i xs h b (
    double_loop-IsDoubled i (stored xs i) (omega (arith, length-set xs (suc i) (carried xs i)))
      (AllBytes-set xs (suc i) (carried xs i) (carried-lt xs i b) b))
