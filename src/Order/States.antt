-- ===== src/Order/States.antt =====
-- Lists of states of declarations, and how often an index stands in a list.
use sunder.Prelude.{
  ℕ, zero, suc, ◌+◌, ◌≤◌, ◌<◌, List, [], ◌∷◌, ◌++◌, ◌≡◌, refl, arith, ◌==◌, if◌then◌else◌, length,
  get_or, set, replicate, ltb,
}
use sunder.Order.State.{TldeclState, unordered, ordered}

abbrev pub count : ℕ → List ℕ → ℕ
count j [] = 0
count j (i ∷ is) = (if i == j then 1 else 0) + count j is

pub count-append : (j : ℕ) (xs ys : List ℕ) → count j (xs ++ ys) ≡ count j xs + count j ys
count-append j [] ys = omega arith
count-append j (x ∷ xs) ys = omega (arith, count-append j xs ys)

-- What is left to do for a declaration in a state.
abbrev pub left : TldeclState → ℕ
left unordered = 1
left _ = 0

abbrev pub left_count : List TldeclState → ℕ
left_count [] = 0
left_count (x ∷ xs) = left x + left_count xs

pub get_or-set_if :
    (xs : List TldeclState) (i j : ℕ) (x : TldeclState)
    → i < length xs
    → get_or (set xs i x) j ordered ≡ (if i == j then x else get_or xs j ordered)
get_or-set_if [] i j x h = absurd (omega arith)
get_or-set_if (y ∷ ys) zero zero x h = refl
get_or-set_if (y ∷ ys) zero (suc j) x h = ground arith
get_or-set_if (y ∷ ys) (suc i) zero x h = ground arith
get_or-set_if (y ∷ ys) (suc i) (suc j) x h = ground (arith, get_or-set_if ys i j x)

-- Behind the list every state is `ordered` already.
pub get_or-set_ordered :
    (xs : List TldeclState) (i j : ℕ)
    → get_or (set xs i ordered) j ordered ≡ (if i == j then ordered else get_or xs j ordered)
get_or-set_ordered [] i j = ground arith
get_or-set_ordered (y ∷ ys) zero zero = refl
get_or-set_ordered (y ∷ ys) zero (suc j) = ground arith
get_or-set_ordered (y ∷ ys) (suc i) zero = ground arith
get_or-set_ordered (y ∷ ys) (suc i) (suc j) = ground (arith, get_or-set_ordered ys i j)

pub index-lt : (xs : List TldeclState) (i : ℕ) → get_or xs i ordered ≡ unordered → i < length xs
index-lt [] i h = cc
index-lt (y ∷ ys) zero h = omega arith
index-lt (y ∷ ys) (suc i) h = omega (arith, index-lt ys i h)

pub left_count-set :
    (xs : List TldeclState) (i : ℕ) (x : TldeclState)
    → left x ≡ 0
    → i < length xs
    → left_count (set xs i x) + left (get_or xs i ordered) ≡ left_count xs
left_count-set [] i x e h = absurd (omega arith)
left_count-set (y ∷ ys) zero x e h = omega arith
left_count-set (y ∷ ys) (suc i) x e h = omega (arith, left_count-set ys i x e (omega arith))

pub left_count-set_le :
    (xs : List TldeclState) (i : ℕ) → left_count (set xs i ordered) ≤ left_count xs
left_count-set_le [] i = omega arith
left_count-set_le (y ∷ ys) zero = omega arith
left_count-set_le (y ∷ ys) (suc i) = omega (arith, left_count-set_le ys i)

pub get_or-replicate :
    (n j : ℕ) → get_or (replicate n unordered) j ordered ≡ (if ltb j n then unordered else ordered)
get_or-replicate zero j = ground arith
get_or-replicate (suc n) zero = ground arith
get_or-replicate (suc n) (suc j) = ground (arith, get_or-replicate n j)

pub left_count-replicate : (n : ℕ) → left_count (replicate n unordered) ≡ n
left_count-replicate zero = refl
left_count-replicate (suc n) = omega (arith, left_count-replicate n)

pub left_count-set_seen :
    (xs : List TldeclState) (i : ℕ)
    → left (get_or xs i ordered) ≡ 0
    → left_count (set xs i ordered) ≡ left_count xs
left_count-set_seen [] i e = refl
left_count-set_seen (y ∷ ys) zero e = omega arith
left_count-set_seen (y ∷ ys) (suc i) e = omega (arith, left_count-set_seen ys i e)

pub left_count-eq-zero :
    (xs : List TldeclState)
    → ((j : ℕ) → j < length xs → get_or xs j ordered ≡ ordered)
    → left_count xs ≡ 0
left_count-eq-zero [] h = refl
left_count-eq-zero (y ∷ ys) h =
    ground (arith, h 0, left_count-eq-zero ys (λ j lt. h (suc j) (omega arith)))
