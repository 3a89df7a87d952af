-- ===== src/Bigint/Value.antt =====
-- What a bigint stands for, and when it is in its one normal form.
pub mod Limbs
pub mod Normal
use sunder.Prelude.{ℕ, ◌+◌, ◌*◌, ◌<◌, List, [], ◌∷◌, Option, some, ◌≡◌, ◌≢◌}
use sunder.Prelude.Int.{ℤ, pos, sub_ℕ}
use sunder.Bigint.Repr.{Sign, minus, nought, plus, Bigint}

-- The number that a little endian array of bytes writes.
abbrev pub magnitude : List ℕ → ℕ
magnitude [] = 0
magnitude (x ∷ xs) = x + 256 * magnitude xs

abbrev pub signed : Sign → ℕ → ℤ
signed minus m = sub_ℕ 0 m
signed nought m = pos 0
signed plus m = pos m

abbrev pub value : Bigint → ℤ
value b = signed b.sign (magnitude b.limbs)

abbrev pub AllBytes : List ℕ → Type 0
AllBytes [] = Unit
AllBytes (x ∷ xs) = (x < 256) × AllBytes xs

-- The top limb, if there is one, is not zero.
abbrev pub IsTrimmed : List ℕ → Type 0
IsTrimmed [] = Unit
IsTrimmed (x ∷ []) = x ≢ 0
IsTrimmed (x ∷ y ∷ ys) = IsTrimmed (y ∷ ys)

-- The invariant that the comments of `struct bigint` state.
pub record IsValid (b : Bigint) : Type 0 where
  pub bytes : AllBytes b.limbs
  pub trimmed : IsTrimmed b.limbs
  pub zero_sign : b.sign ≡ nought → b.limbs ≡ []
  pub zero_limbs : b.limbs ≡ [] → b.sign ≡ nought

-- The process goes on, with a bigint in normal form that stands for `z`.
pub record Yields (r : Option Bigint) (z : ℤ) : Type 0 where
  pub out : Bigint
  pub returns : r ≡ some out
  pub valid : IsValid out
  pub value_out : value out ≡ z
