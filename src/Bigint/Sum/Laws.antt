-- ===== src/Bigint/Sum/Laws.antt =====
-- `bigint_add` and `bigint_sub`, all signs.
use sunder.Prelude.{◌≡◌, ◌≢◌, refl, ◌∙◌, sym, arith, Option, some}
use sunder.Prelude.Int.{
  ℤ, pos, ◌+ℤ◌, ◌-ℤ◌, zero-+ℤ, +ℤ-zero, zero--ℤ, -ℤ-zero, -ℤ-neg_ℤ, +ℤ-neg_ℤ, +ℤ_comm,
}
use sunder.Bigint.Repr.{Sign, minus, nought, plus, Bigint, assign, neg, flip}
use sunder.Bigint.Value.{value, IsValid, Yields}
use sunder.Bigint.Sum.Correct.{neg-IsValid, value-neg, add_magnitudes-Yields, sub_magnitudes-Yields}
use sunder.Bigint.Sum.{add_magnitudes, sub_magnitudes, add, sub}

data Signs (s t : Sign) : Type 0 where
  left : s ≡ nought → Signs s t
  right : s ≢ nought → t ≡ nought → Signs s t
  falling : s ≡ plus → t ≡ minus → Signs s t
  rising : s ≡ minus → t ≡ plus → Signs s t
  equal : s ≡ t → s ≢ nought → Signs s t

signs : (s t : Sign) → Signs s t
signs nought t = left refl
signs minus minus = equal refl (λ e. cc)
signs minus nought = right (λ e. cc) refl
signs minus plus = rising refl refl
signs plus minus = falling refl refl
signs plus nought = right (λ e. cc) refl
signs plus plus = equal refl (λ e. cc)

pub assign_lem : (b : Bigint) → assign b ≡ b
unfolding assign
assign_lem b = refl

pub Yields-assign : (b : Bigint) → IsValid b → Yields (some (assign b)) (value b)
Yields-assign b v = record { out = b; returns = unfold assign in refl; valid = v; value_out = refl }

pub Yields-cast :
    (r' : Option Bigint) (z' : ℤ) {r : Option Bigint} {z : ℤ}
    → Yields r' z'
    → r ≡ r'
    → z ≡ z'
    → Yields r z
Yields-cast r' z' y p q = rw (p, q) y

neg_sign : (b : Bigint) → (neg b).sign ≡ flip b.sign
unfolding neg assign
neg_sign b = refl

pub zero_value : (b : Bigint) → b.sign ≡ nought → value b ≡ pos 0
zero_value b e = rw e

pub add-left_zero : (l r : Bigint) → l.sign ≡ nought → add l r ≡ some r
add-left_zero l r e = unfold add assign in ground arith

pub add-same_sign :
    (l r : Bigint) → l.sign ≡ r.sign → l.sign ≢ nought → add l r ≡ add_magnitudes l r
add-same_sign l r e ne = unfold add in ground arith

module _ (l r : Bigint) (vl : IsValid l) (vr : IsValid r) where
  add-Yields_by : Signs l.sign r.sign → Yields (add l r) (value l +ℤ value r)
  add-Yields_by (left e) =
      Yields-cast (some (assign r)) (value r) (Yields-assign r vr) (unfold add in ground arith)
        (rw (zero_value l e, zero-+ℤ))
  add-Yields_by (right ne e) =
      Yields-cast (some (assign l)) (value l) (Yields-assign l vl) (unfold add in ground arith)
        (rw (zero_value r e, +ℤ-zero))
  add-Yields_by (falling p q) =
      Yields-cast (sub_magnitudes l (neg r)) (value l -ℤ value (neg r))
        (sub_magnitudes-Yields l (neg r) vl (neg-IsValid r vr) (ground (arith, neg_sign r))
          (λ e. cc))
        (unfold add in ground (arith, neg_sign r))
        (rw value-neg (sym (-ℤ-neg_ℤ (value l) (value r))))
  add-Yields_by (rising p q) =
      Yields-cast (sub_magnitudes r (neg l)) (value r -ℤ value (neg l))
        (sub_magnitudes-Yields r (neg l) vr (neg-IsValid l vl) (ground (arith, neg_sign l))
          (λ e. cc))
        (unfold add in ground (arith, neg_sign l))
        (rw value-neg (+ℤ_comm _ _ ∙ sym (-ℤ-neg_ℤ (value r) (value l))))
  add-Yields_by (equal e ne) =
      Yields-cast (add_magnitudes l r) (value l +ℤ value r)
        (add_magnitudes-Yields l r vl.bytes vr.bytes e ne) (unfold add in ground arith) (refl)

  sub-Yields_by : Signs l.sign r.sign → Yields (sub l r) (value l -ℤ value r)
  sub-Yields_by (left e) =
      Yields-cast (some (assign (neg r))) (value (neg r)) (Yields-assign (neg r) (neg-IsValid r vr))
        (unfold sub in ground (arith, assign_lem (neg r))) (rw (zero_value l e, zero--ℤ, value-neg))
  sub-Yields_by (right ne e) =
      Yields-cast (some (assign l)) (value l) (Yields-assign l vl) (unfold sub in ground arith)
        (rw (zero_value r e, -ℤ-zero))
  sub-Yields_by (falling p q) =
      Yields-cast (add_magnitudes l (neg r)) (value l +ℤ value (neg r))
        (add_magnitudes-Yields l (neg r) vl.bytes (neg-IsValid r vr).bytes
          (ground (arith, neg_sign r)) (λ e. cc))
        (unfold sub in ground (arith, neg_sign r))
        (rw value-neg (sym (+ℤ-neg_ℤ (value l) (value r))))
  sub-Yields_by (rising p q) =
      Yields-cast (add_magnitudes l (neg r)) (value l +ℤ value (neg r))
        (add_magnitudes-Yields l (neg r) vl.bytes (neg-IsValid r vr).bytes
          (ground (arith, neg_sign r)) (λ e. cc))
        (unfold sub in ground (arith, neg_sign r))
        (rw value-neg (sym (+ℤ-neg_ℤ (value l) (value r))))
  sub-Yields_by (equal e ne) =
      Yields-cast (sub_magnitudes l r) (value l -ℤ value r) (sub_magnitudes-Yields l r vl vr e ne)
        (unfold sub in ground arith) (refl)

  -- The process does not stop, and `bigint_add` returns the sum.
  pub add-Yields : Yields (add l r) (value l +ℤ value r)
  add-Yields = add-Yields_by (signs l.sign r.sign)

  -- The process does not stop, and `bigint_sub` returns the difference.
  pub sub-Yields : Yields (sub l r) (value l -ℤ value r)
  sub-Yields = sub-Yields_by (signs l.sign r.sign)
