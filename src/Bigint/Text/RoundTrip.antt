-- ===== src/Bigint/Text/RoundTrip.antt =====
-- What `bigint_to_new_cstr` writes, `bigint_new_text` reads.
use sunder.Prelude.{ℕ, suc, List, [], ◌∷◌, Option, some, ◌≡◌, ◌≢◌, refl, arith, ap, ◌∙◌, sym}
use sunder.Prelude.{true, inl, inr}
use sunder.Prelude.Int.{pos}
use sunder.Bigint.Repr.{Sign, minus, plus, Bigint, abs}
use sunder.Bigint.Value.{magnitude, signed, value, IsValid}
use sunder.Bigint.Value.Normal.{value_injective, valid-IsSigned}
use sunder.Bigint.Division.Laws.{abs-IsNatural, abs_limbs}
use sunder.Bigint.Magnitude.{bit_count}
use sunder.Bigint.Magnitude.Count.{bit_count_bounds}
use sunder.Bigint.Text.{
  dec, radix_isdigit, char_value, all_digits, new_text, print_digits, to_new_cstr, shown_digits,
  drop_zeros,
}
use mathlib.Core.List.{append-nil}
use sunder.Bigint.Text.Read.{number, IsText, Reads, new_text-Reads}
use mathlib.Core.Path.{subst}
use sunder.Prelude.{Bool-cases}
use sunder.Bigint.Sum.{has_sign}
use sunder.Bigint.Text.{read_sign, read_radix}
use sunder.Bigint.Text.Print.{IsLed, PrintsDigits, print_digits-PrintsDigits}

-- Digits that are read as they stand, without a sign and without a prefix.
record Plain (cs : List ℕ) (m : ℕ) : Type 0 where
  full : cs ≢ []
  valid : all_digits dec cs ≡ true
  text : IsText cs
  reads : number dec cs 0 ≡ m
  no_sign : read_sign cs ≡ (plus, cs)
  no_prefix : read_radix cs ≡ (dec, cs)

zero-Plain : Plain (48 ∷ []) 0
zero-Plain = record {
  full = λ e. cc;
  valid = unfold radix_isdigit in refl;
  text = omega arith;
  reads = unfold char_value in refl;
  no_sign = refl;
  no_prefix = refl;
}

-- A decimal digit is no sign.
unsigned : (c : ℕ) (cs : List ℕ) → radix_isdigit dec c ≡ true → read_sign (c ∷ cs) ≡ (plus, c ∷ cs)
unfolding radix_isdigit
unsigned c cs h = ground arith

unprefixed : (c : ℕ) (cs : List ℕ) → c ≢ 48 → read_radix (c ∷ cs) ≡ (dec, c ∷ cs)
unprefixed c [] h = refl
unprefixed c (d ∷ cs) h = ground arith

first_digit : (c : ℕ) (cs : List ℕ) → all_digits dec (c ∷ cs) ≡ true → radix_isdigit dec c ≡ true
first_digit c cs h = ground arith

shown_digits-Plain :
    (ds : List ℕ) (m : ℕ)
    → IsLed ds
    → all_digits dec ds ≡ true
    → IsText ds
    → number dec ds 0 ≡ m
    → Plain (shown_digits ds) m
shown_digits-Plain [] m l v t e = rw (← e) zero-Plain
shown_digits-Plain (c ∷ cs) m l v t e =
    let kept : drop_zeros (c ∷ cs) ≡ c ∷ cs = ground arith in
    rw kept (record {
      full = λ n. cc;
      valid = v;
      text = t;
      reads = e;
      no_sign = unsigned c cs (first_digit c cs v);
      no_prefix = unprefixed c cs l;
    })

-- The text of a bigint, and what `bigint_new_text` makes of it.
pub record RoundTrips (b : Bigint) : Type 0 where
  pub text : List ℕ
  pub printed : to_new_cstr b ≡ some text
  pub read_back : new_text text ≡ some (some b)

read_minus : (cs : List ℕ) (m : ℕ) → Plain cs m → Reads (new_text (45 ∷ cs)) (signed minus m)
read_minus cs m p =
    let r =
      new_text-Reads (45 ∷ cs) (omega arith, p.text) (rw p.no_prefix p.full)
        (rw p.no_prefix p.valid) in
    rw (p.no_prefix, p.reads) at r

read_plus : (cs : List ℕ) (m : ℕ) → Plain cs m → Reads (new_text cs) (pos m)
read_plus cs m p =
    let whole =
      new_text-Reads cs p.text
        (subst (λ (x : Sign × List ℕ). (read_radix x.1).1 ≢ []) (sym p.no_sign)
          (rw p.no_prefix p.full))
        (subst (λ (x : Sign × List ℕ). all_digits (read_radix x.1).0 (read_radix x.1).1 ≡ true)
          (sym p.no_sign) (rw p.no_prefix p.valid)) in
    let unsigned_text =
      subst
        (λ (x : Sign × List ℕ).
          Reads (new_text cs) (signed x.0 (number (read_radix x.1).0 (read_radix x.1).1 0)))
        p.no_sign whole in
    rw (p.no_prefix, p.reads) at unsigned_text

same_number :
    (b : Bigint) (r : Option (Option Bigint)) → IsValid b → Reads r (value b) → r ≡ some (some b)
same_number b r v h =
    h.returns ∙ ap (λ x. some (some x)) (value_injective h.out b h.valid v h.value_out)

signs : (b : Bigint) → IsValid b → b.sign ≢ minus → value b ≡ pos (magnitude b.limbs)
signs b v h = ground (arith, (valid-IsSigned b v).empty)

-- Reading back what was printed gives the same bigint, and neither stops the process.
pub to_new_cstr-RoundTrips : (b : Bigint) → IsValid b → RoundTrips b
to_new_cstr-RoundTrips b v = elim (Bool-cases (has_sign minus b)) [
  | inl e ↦
      let negative : value b ≡ signed minus (magnitude b.limbs) = ground arith in
      record {
        text = 45 ∷ shown_digits done.digits;
        printed = unfold to_new_cstr in rw (done.returns, append-nil, e);
        read_back =
            same_number b (new_text (45 ∷ shown_digits done.digits)) v
              (rw negative (read_minus (shown_digits done.digits) (magnitude b.limbs) plain));
      }
  | inr e ↦
      let positive = signs b v (λ s. cc (minus_test b s)) in
      record {
        text = shown_digits done.digits;
        printed = unfold to_new_cstr in rw (done.returns, append-nil, e);
        read_back =
            same_number b (new_text (shown_digits done.digits)) v
              (rw positive (read_plus (shown_digits done.digits) (magnitude b.limbs) plain));
      }
]
  where
    minus_test : (b : Bigint) → b.sign ≡ minus → has_sign minus b ≡ true
    minus_test b e = rw e

    done : PrintsDigits (print_digits (suc (bit_count b)) (abs b) []) (magnitude (abs b).limbs) []
    done =
        print_digits-PrintsDigits (bit_count b) (abs b) [] (abs-IsNatural b v)
          (rw (abs_limbs b) (bit_count_bounds b v).0)

    plain : Plain (shown_digits done.digits) (magnitude b.limbs)
    plain =
        shown_digits-Plain done.digits (magnitude b.limbs) done.led done.valid done.text
          (done.reads ∙ ap magnitude (abs_limbs b))
