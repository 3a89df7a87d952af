-- ===== src/Bitarr/Examples.antt =====
-- The theorems at concrete arrays, and runs of the operations.
use sunder.Prelude.{ℕ, zero, suc, [], ◌∷◌, refl, arith, get_or, ◌<◌, ◌^◌, ◌≡◌, some, true, ◌>>=◌}
use sunder.Bitarr.{Bitarr, bit_set, twos_complement_neg, of_bigint, to_bigint}
use sunder.Bigint.Repr.{Bigint, minus, normalize}
use sunder.Bigint.Value.{Yields, IsValid}
use sunder.Bigint.Value.Normal.{normalize-IsValid}
use sunder.Bitarr.Number.{number}
use sunder.Bitarr.Complement.{Becomes, complement, twos_complement_neg-Becomes}
use sunder.Bitarr.Back.{unwrapped, to_bigint-Yields}
use sunder.Bitarr.RoundTrip.{to_bigint-of_bigint}
use sunder.Bitarr.Access.{IsBitarr, Writes, bit_set-Writes}

-- 70 bits.
abbrev seventy : Bitarr
seventy = record { count = 70; words = 5 ∷ 33 ∷ [] }

seventy-bounded : (k : ℕ) → get_or seventy.words k 0 < 2 ^ 64
seventy-bounded zero = omega arith
seventy-bounded (suc zero) = omega arith
seventy-bounded (suc (suc k)) = omega arith

seventy-IsBitarr : IsBitarr seventy
seventy-IsBitarr = record { enough = refl; bounded = seventy-bounded }

bit_set-Writes_example : Writes seventy (bit_set seventy 66 1) 66 1
bit_set-Writes_example = bit_set-Writes seventy 66 1 seventy-IsBitarr (omega arith)

-- An array of 70 bits is left as the complement of the one it is made from.
twos_complement_neg-Becomes_example :
    Becomes (twos_complement_neg seventy seventy) 70 (complement 70 (number seventy))
twos_complement_neg-Becomes_example =
    twos_complement_neg-Becomes seventy seventy seventy-IsBitarr refl

-- Minus 300.
abbrev minus_300 : Bigint
minus_300 = record { sign = minus; limbs = 44 ∷ 1 ∷ [] }

minus_300-IsValid : IsValid minus_300
unfolding normalize sunder.Bigint.Repr.normal_count
minus_300-IsValid =
    normalize-IsValid (record { sign = minus; limbs = 44 ∷ 1 ∷ [] }) (omega arith) (λ e. cc)

to_bigint-Yields_example : Yields (to_bigint seventy true) (unwrapped true 70 (number seventy))
to_bigint-Yields_example = to_bigint-Yields seventy true

to_bigint-of_bigint_example :
    (of_bigint seventy minus_300 >>= λ written. written >>= λ a. to_bigint a true) ≡ some minus_300
to_bigint-of_bigint_example =
    to_bigint-of_bigint seventy minus_300 true seventy-IsBitarr minus_300-IsValid (omega arith)
