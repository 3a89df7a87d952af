-- ===== src/Bigint/Text/Reading.antt =====
-- `bigint_new_text` returns an integer exactly for the texts that write one.
use sunder.Prelude.{
  ℕ, ◌+◌, ◌*◌, ◌^◌, ◌<◌, List, [], ◌∷◌, ◌++◌, some, none, true, ◌≡◌, ◌≢◌, ◌↔◌, inl, inr, refl,
  arith, length, ◌==◌, Bool-cases, ◌∙◌, ap, ◌⊎◌,
}
use sunder.Prelude.Int.{ℤ}
use sunder.Bigint.Repr.{Sign, nought, plus}
use sunder.Bigint.Value.{signed}
use sunder.Bigint.Text.{
  Radix, dec, bin, oct, hex, radix, radix_isdigit, char_value, all_digits, new_text, read_sign,
  read_radix, read_magnitude,
}
use sunder.Bigint.Text.Numeral.{
  Digits, Mark, no_mark, plus_mark, minus_mark, mark_text, mark_sign, Notation, decimal, binary,
  octal, hexadecimal, prefix, base, Writes,
}
use sunder.Bigint.Text.Alphabet.{notation_radix, IsDigit-Taken, taken-IsDigit}
use sunder.Bigint.Text.Read.{
  number, Reads, IsText, read_magnitude-Reads, read_magnitude-bad, new_text_lem, sign_of, radix_of,
  digits_of, read_sign-IsText, read_radix-IsText,
}
use native.Mathlib.Nat.{pow-succ', pow-zero}

base-radix : (n : Notation) → base n ≡ radix (notation_radix n)
base-radix decimal = refl
base-radix binary = refl
base-radix octal = refl
base-radix hexadecimal = refl

regroup : (m d b p k : ℕ) → (m * b + d) * p + k ≡ m * (b * p) + (d * p + k)
regroup m d b p k = grind arith

-- What the digits of a text that writes an integer are to the code.
record Scanned (n : Notation) (cs : List ℕ) (v : ℕ) : Type 0 where
  text : IsText cs
  valid : all_digits (notation_radix n) cs ≡ true
  total : (m : ℕ) → number (notation_radix n) cs m ≡ m * base n ^ length cs + v

Digits-Scanned : (n : Notation) (cs : List ℕ) (v : ℕ) → Digits (base n) cs v → Scanned n cs v
Digits-Scanned n [] v h = record {
  text = tt;
  valid = refl;
  total = λ m. rw (h, pow-zero) (omega arith);
}
Digits-Scanned n (c ∷ cs) v (d, k, digit, later, e) =
    let t = IsDigit-Taken n c d digit in
    let rest = Digits-Scanned n cs k later in
    record {
      text = (omega (arith, t.ascii), rest.text);
      valid = rw (t.taken, rest.valid) refl;
      total = λ m.
          rw (t.value_eq, ← base-radix n)
            (rest.total (m * base n + d)
              ∙ regroup m d (base n) (base n ^ length cs) k
              ∙ rw (pow-succ' (base n) (length cs), e) refl);
    }

-- The digit that stands first is neither a sign nor a letter of a prefix.
first-digit :
    (n : Notation) (c : ℕ)
    → radix_isdigit (notation_radix n) c ≡ true
    → c < 128
    → (c ≢ 43) × (c ≢ 45)
unfolding radix_isdigit
first-digit decimal c h b = ground arith
first-digit n c h b = ground arith

decimal-digit : (c : ℕ) → radix_isdigit dec c ≡ true → c < 128 → (c ≢ 98) × (c ≢ 111) × (c ≢ 120)
unfolding radix_isdigit
decimal-digit c h b = ground arith

read_radix-prefix :
    (n : Notation) (cs : List ℕ) (v : ℕ)
    → Digits (base n) cs v
    → read_radix (prefix n ++ cs) ≡ (notation_radix n, cs)
read_radix-prefix binary cs v h = refl
read_radix-prefix octal cs v h = refl
read_radix-prefix hexadecimal cs v h = refl
read_radix-prefix decimal [] v h = refl
read_radix-prefix decimal (c ∷ []) v h = refl
read_radix-prefix decimal (c ∷ d ∷ cs) v (x, k, digit, (y, l, second, later, f), e) =
    let t = IsDigit-Taken decimal d y second in
    let not_letter = decimal-digit d t.taken t.ascii in
    ground (arith, not_letter.0, not_letter.1, not_letter.2)

read_sign-unmarked : (c : ℕ) (cs : List ℕ) → c ≢ 43 → c ≢ 45 → read_sign (c ∷ cs) ≡ (plus, c ∷ cs)
read_sign-unmarked c cs p q = ground arith

read_sign-mark :
    (k : Mark) (n : Notation) (cs : List ℕ) (v : ℕ)
    → Digits (base n) cs v
    → read_sign (mark_text k ++ (prefix n ++ cs)) ≡ (mark_sign k, prefix n ++ cs)
read_sign-mark plus_mark n cs v h = refl
read_sign-mark minus_mark n cs v h = refl
read_sign-mark no_mark binary cs v h = refl
read_sign-mark no_mark octal cs v h = refl
read_sign-mark no_mark hexadecimal cs v h = refl
read_sign-mark no_mark decimal [] v h = refl
read_sign-mark no_mark decimal (c ∷ cs) v (x, k, digit, later, e) =
    let t = IsDigit-Taken decimal c x digit in
    let other = first-digit decimal c t.taken t.ascii in read_sign-unmarked c cs other.0 other.1

mark-ne : (k : Mark) → mark_sign k ≢ nought
mark-ne no_mark e = cc
mark-ne plus_mark e = cc
mark-ne minus_mark e = cc

-- What is read behind a sign and a prefix.
new_text_parts :
    (text : List ℕ) {s : Sign} {r : Radix} {unsigned digits : List ℕ}
    → read_sign text ≡ (s, unsigned)
    → read_radix unsigned ≡ (r, digits)
    → new_text text ≡ read_magnitude s r digits
new_text_parts text {s} p q =
    new_text_lem text
    ∙ ap (λ (x : Sign × List ℕ). read_magnitude x.0 (read_radix x.1).0 (read_radix x.1).1) p
    ∙ ap (λ (y : Radix × List ℕ). read_magnitude s y.0 y.1) q

written-Reads :
    (k : Mark) (n : Notation) (cs : List ℕ) (v : ℕ)
    → cs ≢ []
    → Digits (base n) cs v
    → Reads (new_text (mark_text k ++ (prefix n ++ cs))) (signed (mark_sign k) v)
written-Reads k n cs v full h =
    let scanned = Digits-Scanned n cs v h in
    let total : number (notation_radix n) cs 0 ≡ v = scanned.total 0 ∙ omega arith in
    let read =
      new_text_parts (mark_text k ++ (prefix n ++ cs)) (read_sign-mark k n cs v h)
        (read_radix-prefix n cs v h) in
    rw (read, ← total)
      (read_magnitude-Reads (mark_sign k) (notation_radix n) cs (mark-ne k) scanned.text full
        scanned.valid)

-- For a text that writes an integer `bigint_new_text` returns that integer in normal form, and
-- does not stop the process.
pub new_text-Reads_written : (text : List ℕ) (z : ℤ) → Writes text z → Reads (new_text text) z
new_text-Reads_written text z w =
    rw (w.spelled, w.worth)
      (written-Reads w.mark w.notation w.digits w.magnitude w.some_digit w.written)

-- The notation of a radix, and what was read in front of the digits.
abbrev radix_notation : Radix → Notation
radix_notation dec = decimal
radix_notation bin = binary
radix_notation oct = octal
radix_notation hex = hexadecimal

notation_radix_lem : (r : Radix) → notation_radix (radix_notation r) ≡ r
notation_radix_lem dec = refl
notation_radix_lem bin = refl
notation_radix_lem oct = refl
notation_radix_lem hex = refl

prefix-read_radix :
    (cs : List ℕ) → cs ≡ prefix (radix_notation (read_radix cs).0) ++ (read_radix cs).1
prefix-read_radix [] = refl
prefix-read_radix (c ∷ []) = refl
prefix-read_radix (c ∷ d ∷ cs) = ground arith

mark-read_sign :
    (cs : List ℕ)
    → (k : Mark) × (mark_sign k ≡ (read_sign cs).0) × (cs ≡ mark_text k ++ (read_sign cs).1)
mark-read_sign [] = (no_mark, refl, refl)
mark-read_sign (c ∷ cs) = elim (Bool-cases (c == 43)) [
  | inl p ↦ (plus_mark, ground arith, ground arith)
  | inr p ↦ elim (Bool-cases (c == 45)) [
    | inl m ↦ (minus_mark, ground arith, ground arith)
    | inr m ↦ (no_mark, ground arith, ground arith)
  ]
]

-- Digits that the code admits write a number.
digits-Digits :
    (n : Notation) (cs : List ℕ)
    → IsText cs
    → all_digits (notation_radix n) cs ≡ true
    → (v : ℕ) × Digits (base n) cs v
digits-Digits n [] t h = (0, refl)
digits-Digits n (c ∷ cs) t h =
    let first : radix_isdigit (notation_radix n) c ≡ true = ground arith in
    let later : all_digits (notation_radix n) cs ≡ true = ground arith in
    let (v, rest) = digits-Digits n cs t.1 later in
    (
      char_value c * base n ^ length cs + v,
      (char_value c, v, taken-IsDigit n c t.0 first, rest, refl),
    )

-- An admitted text writes an integer.
admitted-Writes :
    (text : List ℕ)
    → IsText text
    → digits_of text ≢ []
    → all_digits (radix_of text) (digits_of text) ≡ true
    → (z : ℤ) × Writes text z
admitted-Writes text t full h =
    let n = radix_notation (radix_of text) in
    let (k, sign, marked) = mark-read_sign text in
    let (v, written) =
      digits-Digits n (digits_of text)
        (read_radix-IsText (read_sign text).1 (read_sign-IsText text t))
        (rw (notation_radix_lem (radix_of text)) h) in
    (
      signed (mark_sign k) v,
      record {
        mark = k;
        notation = n;
        digits = digits_of text;
        magnitude = v;
        spelled = marked ∙ ap (λ rest. mark_text k ++ rest) (prefix-read_radix (read_sign text).1);
        some_digit = full;
        written = written;
        worth = refl;
      },
    )

[]-cases : (cs : List ℕ) → (cs ≡ []) ⊎ (cs ≢ [])
[]-cases [] = inl refl
[]-cases (c ∷ cs) = inr (λ e. cc)

unwritten-null :
    (text : List ℕ) → IsText text → ((z : ℤ) → ¬ Writes text z) → new_text text ≡ some none
unwritten-null text t h =
    new_text_lem text
    ∙ read_magnitude-bad (sign_of text) (radix_of text) (digits_of text)
        (elim ([]-cases (digits_of text)) [
          | inl e ↦ inl e
          | inr full ↦ elim (Bool-cases (all_digits (radix_of text) (digits_of text))) [
            | inl valid ↦ let w = admitted-Writes text t full valid in absurd (h w.0 w.1)
            | inr e ↦ inr e
          ]
        ])

-- Of the texts whose characters are values of `unsigned`, `bigint_new_text` returns the null pointer
-- exactly for those that write no integer.
pub new_text-eq-null :
    (text : List ℕ) → IsText text → (new_text text ≡ some none) ↔ ((z : ℤ) → ¬ Writes text z)
new_text-eq-null text t =
    (λ e z w. let r = new_text-Reads_written text z w in cc (r.returns), unwritten-null text t)
