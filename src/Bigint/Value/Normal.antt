-- ===== src/Bigint/Value/Normal.antt =====
-- Normal forms: `bigint__normalize_` reaches one and keeps the number, and equal numbers have
-- equal normal forms.
use sunder.Prelude.{ℕ, zero, suc, ◌^◌, ◌≤◌, ◌<◌, List, [], ◌∷◌, ◌≡◌, ◌≢◌, refl, ap, ◌∙◌, sym}
use sunder.Prelude.{arith, length, get_or, take, take_all, Bool-cases, ◌==◌, inl, inr}
use sunder.Bigint.Repr.{Sign, minus, nought, Bigint, normal_count, normalize}
use sunder.Bigint.Value.{magnitude, signed, value, AllBytes, IsTrimmed, IsValid}
use sunder.Bigint.Value.Limbs.{magnitude-take-suc, AllBytes-take}
use native.Mathlib.Nat.{pow-suc, le_refl}
use native.Mathlib.Decide.{ℕ_discrete}

pub normal_count-le : (xs : List ℕ) (c : ℕ) → normal_count xs c ≤ c
unfolding normal_count
normal_count-le xs zero = omega arith
normal_count-le xs (suc c) = ground (arith, normal_count-le xs c)

pub magnitude-normal_count :
    (xs : List ℕ) (c : ℕ) → magnitude (take (normal_count xs c) xs) ≡ magnitude (take c xs)
unfolding normal_count
magnitude-normal_count xs zero = refl
magnitude-normal_count xs (suc c) = elim (Bool-cases (get_or xs c 0 == 0)) [
  | inl e ↦ rw e (magnitude-normal_count xs c ∙ ground (arith, magnitude-take-suc c xs))
  | inr e ↦ rw e refl
]

take_top-IsTrimmed : (xs : List ℕ) (c : ℕ) → get_or xs c 0 ≢ 0 → IsTrimmed (take (suc c) xs)
take_top-IsTrimmed [] c h = tt
take_top-IsTrimmed (x ∷ xs) zero h = h
take_top-IsTrimmed (x ∷ []) (suc c) h = absurd (h refl)
take_top-IsTrimmed (x ∷ y ∷ ys) (suc c) h = take_top-IsTrimmed (y ∷ ys) c h

pub normal_count-IsTrimmed : (xs : List ℕ) (c : ℕ) → IsTrimmed (take (normal_count xs c) xs)
unfolding normal_count
normal_count-IsTrimmed xs zero = tt
normal_count-IsTrimmed xs (suc c) = elim (Bool-cases (get_or xs c 0 == 0)) [
  | inl e ↦ rw e (normal_count-IsTrimmed xs c)
  | inr e ↦ rw e (take_top-IsTrimmed xs c (ground arith))
]

-- Trimmed limbs need every one of their places.
pub pow-le-magnitude :
    (xs : List ℕ) (n : ℕ) → length xs ≡ suc n → IsTrimmed xs → 256 ^ n ≤ magnitude xs
pow-le-magnitude [] n e h = absurd (omega arith)
pow-le-magnitude (x ∷ []) zero e h = omega arith
pow-le-magnitude (x ∷ []) (suc n) e h = absurd (omega arith)
pow-le-magnitude (x ∷ y ∷ ys) zero e h = absurd (omega arith)
pow-le-magnitude (x ∷ y ∷ ys) (suc n) e h =
    omega (arith, pow-suc 256 n, pow-le-magnitude (y ∷ ys) n (omega arith) h)

pub magnitude-eq-zero : (xs : List ℕ) → IsTrimmed xs → magnitude xs ≡ 0 → xs ≡ []
magnitude-eq-zero [] h e = refl
magnitude-eq-zero (x ∷ []) h e = absurd (omega arith)
magnitude-eq-zero (x ∷ y ∷ ys) h e = absurd (cc (magnitude-eq-zero (y ∷ ys) h (omega arith)))

IsTrimmed-tail : (x : ℕ) (xs : List ℕ) → IsTrimmed (x ∷ xs) → IsTrimmed xs
IsTrimmed-tail x [] h = tt
IsTrimmed-tail x (y ∷ ys) h = h

pub magnitude_injective :
    (xs ys : List ℕ)
    → AllBytes xs
    → AllBytes ys
    → IsTrimmed xs
    → IsTrimmed ys
    → magnitude xs ≡ magnitude ys
    → xs ≡ ys
magnitude_injective [] ys a b h k e = sym (magnitude-eq-zero ys k (sym e))
magnitude_injective (x ∷ xs) [] a b h k e = magnitude-eq-zero (x ∷ xs) h e
magnitude_injective (x ∷ xs) (y ∷ ys) a b h k e =
    let head : x ≡ y = omega arith in
    let tail : xs ≡ ys =
      magnitude_injective xs ys a.1 b.1 (IsTrimmed-tail x xs h) (IsTrimmed-tail y ys k)
        (omega arith) in
    cc

take-zero : (c : ℕ) (xs : List ℕ) → c ≡ 0 → take c xs ≡ []
take-zero c xs e = rw e

take-eq-nil : (c : ℕ) (xs : List ℕ) → c ≤ length xs → take c xs ≡ [] → c ≡ 0
take-eq-nil zero xs h e = refl
take-eq-nil (suc c) [] h e = absurd (omega arith)
take-eq-nil (suc c) (x ∷ xs) h e = cc

-- All limbs that count.
magnitude-normal : (xs : List ℕ) → magnitude (take (normal_count xs (length xs)) xs) ≡ magnitude xs
magnitude-normal xs =
    magnitude-normal_count xs (length xs) ∙ ap magnitude (take_all (length xs) xs (le_refl _))

pub magnitude-normalize : (b : Bigint) → magnitude (normalize b).limbs ≡ magnitude b.limbs
unfolding normalize
magnitude-normalize b = magnitude-normal b.limbs

pub normalize_sign : (b : Bigint) → (normalize b).sign ≡ minus → b.sign ≡ minus
unfolding normalize
normalize_sign b e = ground arith

-- Normalising reaches a normal form, if a bigint with sign 0 has no limb but zeros.
pub normalize-IsValid :
    (b : Bigint)
    → AllBytes b.limbs
    → (b.sign ≡ nought → magnitude b.limbs ≡ 0)
    → IsValid (normalize b)
unfolding normalize
normalize-IsValid b bytes h =
    let count = normal_count b.limbs (length b.limbs) in
    let kept = take count b.limbs in
    record {
      bytes = AllBytes-take count b.limbs bytes;
      trimmed = normal_count-IsTrimmed b.limbs (length b.limbs);
      zero_sign = elim (Bool-cases (count == 0)) [
        | inl e ↦ λ s. let z : count ≡ 0 = ground arith in rw z
        | inr e ↦ λ s.
            magnitude-eq-zero kept (normal_count-IsTrimmed b.limbs (length b.limbs))
              (magnitude-normal b.limbs ∙ h (rw e at s))
      ];
      zero_limbs = λ e.
          ground (arith, take-eq-nil count b.limbs (normal_count-le b.limbs (length b.limbs)) e);
    }

-- It keeps the number.
pub value-normalize : (b : Bigint) → value (normalize b) ≡ value b
unfolding normalize
value-normalize b =
    ground
      (arith, magnitude-normal b.limbs, take-zero (normal_count b.limbs (length b.limbs)) b.limbs)

-- The sign of a bigint in normal form is that of its number.
pub record IsSigned (s : Sign) (m : ℕ) : Type 0 where
  pub positive : s ≢ nought → 0 < m
  pub empty : s ≡ nought → m ≡ 0

pub valid-IsSigned : (b : Bigint) → IsValid b → IsSigned b.sign (magnitude b.limbs)
valid-IsSigned b v = record {
  positive = λ s. elim (ℕ_discrete (magnitude b.limbs) 0) [
    | yes e ↦ absurd (s (v.zero_limbs (magnitude-eq-zero b.limbs v.trimmed e)))
    | no n ↦ omega arith
  ];
  empty = λ s. ap magnitude (v.zero_sign s);
}

signed_injective :
    (s t : Sign) (m n : ℕ)
    → IsSigned s m
    → IsSigned t n
    → signed s m ≡ signed t n
    → (s ≡ t) × (m ≡ n)
signed_injective minus t m n h k e = ground arith
signed_injective s t m n h k e = ground arith

-- A number has one normal form.
pub value_injective : (a b : Bigint) → IsValid a → IsValid b → value a ≡ value b → a ≡ b
value_injective a b va vb e =
    let parts =
      signed_injective a.sign b.sign (magnitude a.limbs) (magnitude b.limbs) (valid-IsSigned a va)
        (valid-IsSigned b vb) e in
    let limbs : a.limbs ≡ b.limbs =
      magnitude_injective a.limbs b.limbs va.bytes vb.bytes va.trimmed vb.trimmed parts.1 in
    cc parts.0
