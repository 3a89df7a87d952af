-- ===== src/Bigint/Text/Print.antt =====
-- `bigint_to_new_cstr` writes the number in decimal digits.
use sunder.Prelude.{
  ℕ, zero, suc, ◌+◌, ◌*◌, ◌^◌, ◌<◌, List, [], ◌∷◌, ◌++◌, Option, some, ◌≡◌, ◌≢◌, refl, arith, ap,
  ◌∙◌, sym,
}
use sunder.Prelude.{true, get_or}
use sunder.Prelude.Int.{pos}
use sunder.Bigint.Repr.{Bigint, bigint_zero}
use sunder.Bigint.Value.{magnitude}
use sunder.Bigint.Cmp.{cmp}
use sunder.Bigint.Cmp.Order.{order, cmp-eq-order}
use sunder.Bigint.Division.Step.{IsNatural, value-natural}
use sunder.Bigint.Product.Laws.{bigint_zero-IsValid}
use sunder.Bigint.Text.{dec, radix_isdigit, char_value, all_digits, print_digits}
use mathlib.Core.List.{append_assoc}
use native.Mathlib.Nat.{pow-suc}
use native.Mathlib.Decide.{dec_lt}
use sunder.Bigint.Text.Read.{number, IsText}
use sunder.Bigint.Text.Tenth.{Tenth, divide-Tenth}

-- The first digit is not zero.
abbrev pub IsLed : List ℕ → Type 0
IsLed [] = Unit
IsLed (c ∷ cs) = c ≢ 48

-- Decimal digits for `m`, in front of `tail`.
pub record PrintsDigits (r : Option (List ℕ)) (m : ℕ) (tail : List ℕ) : Type 0 where
  pub digits : List ℕ
  pub returns : r ≡ some (digits ++ tail)
  pub led : IsLed digits
  pub valid : all_digits dec digits ≡ true
  pub text : IsText digits
  pub reads : number dec digits 0 ≡ m

number-append :
    (xs : List ℕ) (c m : ℕ) → number dec (xs ++ c ∷ []) m ≡ number dec xs m * 10 + char_value c
number-append [] c m = refl
number-append (x ∷ xs) c m = number-append xs c (m * 10 + char_value x)

compared :
    (self : Bigint)
    → IsNatural self
    → cmp self bigint_zero ≡ order (pos (magnitude self.limbs)) (pos 0)
compared self n =
    cmp-eq-order self bigint_zero n.valid bigint_zero-IsValid
    ∙ ap (λ z. order z (pos 0)) (value-natural self n)

print_end :
    (fuel : ℕ) (self : Bigint) (tail : List ℕ)
    → IsNatural self
    → magnitude self.limbs ≡ 0
    → print_digits (suc fuel) self tail ≡ some tail
print_end fuel self tail n h = unfold print_digits in rw (compared self n, h)

print_round :
    (fuel : ℕ) (self : Bigint) (tail : List ℕ)
    → IsNatural self
    → 0 < magnitude self.limbs
    → (t : Tenth self)
    → print_digits (suc fuel) self tail
      ≡ print_digits fuel t.quotient ((48 + get_or t.lowest.limbs 0 0) ∷ tail)
print_round fuel self tail n h t =
    unfold print_digits in rw (compared self n) (ground (arith, t.returns, t.one_limb, t.digit))

nothing_left :
    (fuel : ℕ) (self : Bigint) (tail : List ℕ)
    → IsNatural self
    → magnitude self.limbs ≡ 0
    → PrintsDigits (print_digits (suc fuel) self tail) (magnitude self.limbs) tail
nothing_left fuel self tail n h = record {
  digits = [];
  returns = print_end fuel self tail n h;
  led = tt;
  valid = refl;
  text = tt;
  reads = sym h;
}

IsLed-append : (xs : List ℕ) (c : ℕ) → IsLed xs → (xs ≡ [] → c ≢ 48) → IsLed (xs ++ c ∷ [])
IsLed-append [] c l h = h refl
IsLed-append (x ∷ xs) c l h = l

IsText-append : (xs : List ℕ) (c : ℕ) → IsText xs → c < 2 ^ 32 → IsText (xs ++ c ∷ [])
IsText-append [] c t h = (h, tt)
IsText-append (x ∷ xs) c t h = (t.0, IsText-append xs c t.1 h)

all_digits-append :
    (xs : List ℕ) (c : ℕ)
    → all_digits dec xs ≡ true
    → radix_isdigit dec c ≡ true
    → all_digits dec (xs ++ c ∷ []) ≡ true
all_digits-append [] c v h = rw h
all_digits-append (x ∷ xs) c v h = ground (arith, all_digits-append xs c)

digit_isdigit : (d : ℕ) → d < 10 → (radix_isdigit dec (48 + d) ≡ true) × (char_value (48 + d) ≡ d)
unfolding radix_isdigit char_value
digit_isdigit d h = ground arith

digit_more :
    (fuel : ℕ) (self : Bigint) (tail : List ℕ)
    → IsNatural self
    → 0 < magnitude self.limbs
    → (t : Tenth self)
    → PrintsDigits
        (print_digits fuel t.quotient ((48 + get_or t.lowest.limbs 0 0) ∷ tail))
        (magnitude t.quotient.limbs)
        ((48 + get_or t.lowest.limbs 0 0) ∷ tail)
    → PrintsDigits (print_digits (suc fuel) self tail) (magnitude self.limbs) tail
digit_more fuel self tail n h t rest =
    let d = get_or t.lowest.limbs 0 0 in
    let c = 48 + d in
    let good = digit_isdigit d t.digit in
    record {
      digits = rest.digits ++ c ∷ [];
      returns =
          print_round fuel self tail n h t
          ∙ rest.returns
          ∙ ap some (sym (append_assoc rest.digits (c ∷ []) tail));
      led =
          IsLed-append rest.digits c rest.led
            (λ e. omega (arith, h, t.sum, rest.reads, ap (λ (l : List ℕ). number dec l 0) e));
      valid = all_digits-append rest.digits c rest.valid good.0;
      text = IsText-append rest.digits c rest.text (omega (arith, t.digit));
      reads = number-append rest.digits c 0 ∙ rw (rest.reads, good.1) (sym t.sum);
    }

pub print_digits-PrintsDigits :
    (fuel : ℕ) (self : Bigint) (tail : List ℕ)
    → IsNatural self
    → magnitude self.limbs < 2 ^ fuel
    → PrintsDigits (print_digits (suc fuel) self tail) (magnitude self.limbs) tail
print_digits-PrintsDigits zero self tail n h = nothing_left zero self tail n (omega arith)
print_digits-PrintsDigits (suc fuel) self tail n h =
    let t = divide-Tenth self n in
    let rest =
      print_digits-PrintsDigits fuel t.quotient ((48 + get_or t.lowest.limbs 0 0) ∷ tail) t.natural
        (omega (arith, t.sum, pow-suc 2 fuel)) in
    elim (dec_lt 0 (magnitude self.limbs)) [
      | yes p ↦ digit_more (suc fuel) self tail n p t rest
      | no z ↦ nothing_left (suc fuel) self tail n (omega arith)
    ]
