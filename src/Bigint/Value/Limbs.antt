-- ===== src/Bigint/Value/Limbs.antt =====
-- Arrays of limbs as numbers in base 256.
use sunder.Prelude.{ℕ, zero, suc, ◌+◌, ◌*◌, ◌^◌, ◌≤◌, ◌<◌, List, [], ◌∷◌, ◌++◌, ◌≡◌, refl}
use sunder.Prelude.{arith, ap, length, get_or, take, drop, set, replicate}
use sunder.Bigint.Value.{magnitude, AllBytes}
use native.Mathlib.Nat.{pow-suc, pow-le-pow_right}

pub mul-pow-suc : (a n : ℕ) → a * 256 ^ suc n ≡ 256 * (a * 256 ^ n)
mul-pow-suc a n = omega (arith, ap (λ (t : ℕ). a * t) (pow-suc 256 n))

pub pow_mono : (m n : ℕ) → m ≤ n → 256 ^ m ≤ 256 ^ n
pow_mono m n h = pow-le-pow_right (omega arith) h

pub AllBytes-get : (xs : List ℕ) (i : ℕ) → AllBytes xs → get_or xs i 0 < 256
AllBytes-get [] i h = omega arith
AllBytes-get (x ∷ xs) zero h = h.0
AllBytes-get (x ∷ xs) (suc i) h = AllBytes-get xs i h.1

pub AllBytes-take : (n : ℕ) (xs : List ℕ) → AllBytes xs → AllBytes (take n xs)
AllBytes-take zero xs h = tt
AllBytes-take (suc n) [] h = tt
AllBytes-take (suc n) (x ∷ xs) h = (h.0, AllBytes-take n xs h.1)

pub AllBytes-drop : (n : ℕ) (xs : List ℕ) → AllBytes xs → AllBytes (drop n xs)
AllBytes-drop zero xs h = h
AllBytes-drop (suc n) [] h = tt
AllBytes-drop (suc n) (x ∷ xs) h = AllBytes-drop n xs h.1

pub AllBytes-set : (xs : List ℕ) (i v : ℕ) → v < 256 → AllBytes xs → AllBytes (set xs i v)
AllBytes-set [] i v lt h = tt
AllBytes-set (x ∷ xs) zero v lt h = (lt, h.1)
AllBytes-set (x ∷ xs) (suc i) v lt h = (h.0, AllBytes-set xs i v lt h.1)

pub AllBytes-append : (xs ys : List ℕ) → AllBytes xs → AllBytes ys → AllBytes (xs ++ ys)
AllBytes-append [] ys h k = k
AllBytes-append (x ∷ xs) ys h k = (h.0, AllBytes-append xs ys h.1 k)

pub AllBytes-replicate : (n : ℕ) → AllBytes (replicate n 0)
AllBytes-replicate zero = tt
AllBytes-replicate (suc n) = (omega arith, AllBytes-replicate n)

pub magnitude-lt : (xs : List ℕ) → AllBytes xs → magnitude xs < 256 ^ length xs
magnitude-lt [] h = omega arith
magnitude-lt (x ∷ xs) h = omega (arith, h.0, magnitude-lt xs h.1, pow-suc 256 (length xs))

pub magnitude-append :
    (xs ys : List ℕ) → magnitude (xs ++ ys) ≡ magnitude xs + magnitude ys * 256 ^ length xs
magnitude-append [] ys = omega arith
magnitude-append (x ∷ xs) ys =
    omega (arith, magnitude-append xs ys, mul-pow-suc (magnitude ys) (length xs))

pub magnitude-replicate : (n : ℕ) → magnitude (replicate n 0) ≡ 0
magnitude-replicate zero = refl
magnitude-replicate (suc n) = omega (arith, magnitude-replicate n)

pub magnitude-set :
    (xs : List ℕ) (i v : ℕ)
    → i < length xs
    → magnitude (set xs i v) + get_or xs i 0 * 256 ^ i ≡ magnitude xs + v * 256 ^ i
magnitude-set [] i v h = absurd (omega arith)
magnitude-set (x ∷ xs) zero v h = omega arith
magnitude-set (x ∷ xs) (suc i) v h =
    omega
      (arith, magnitude-set xs i v (omega arith), mul-pow-suc v i, mul-pow-suc (get_or xs i 0) i)

pub magnitude-take-suc :
    (n : ℕ) (xs : List ℕ)
    → magnitude (take (suc n) xs) ≡ magnitude (take n xs) + get_or xs n 0 * 256 ^ n
magnitude-take-suc zero [] = refl
magnitude-take-suc (suc n) [] = omega arith
magnitude-take-suc zero (x ∷ xs) = omega arith
magnitude-take-suc (suc n) (x ∷ xs) =
    omega (arith, magnitude-take-suc n xs, mul-pow-suc (get_or xs n 0) n)

pub magnitude-drop_step :
    (n : ℕ) (xs : List ℕ)
    → magnitude (drop n xs) ≡ get_or xs n 0 + 256 * magnitude (drop (n + 1) xs)
magnitude-drop_step zero [] = refl
magnitude-drop_step (suc n) [] = ground arith
magnitude-drop_step zero (x ∷ xs) = omega arith
magnitude-drop_step (suc n) (x ∷ xs) = ground (arith, magnitude-drop_step n xs)

-- A limb behind the number's length in bytes is zero.
pub get_or_above : (xs : List ℕ) (i : ℕ) → magnitude xs < 256 ^ i → get_or xs i 0 ≡ 0
get_or_above [] i h = refl
get_or_above (x ∷ xs) zero h = omega arith
get_or_above (x ∷ xs) (suc i) h = get_or_above xs i (omega (arith, pow-suc 256 i))
