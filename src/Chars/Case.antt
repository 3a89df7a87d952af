-- ===== src/Chars/Case.antt =====
-- `safe_tolower` and `safe_toupper`.
use sunder.Prelude.{ℕ, ◌+◌, ◌-◌, ◌^◌, ◌≤◌, ◌<◌, ◌≡◌, true, arith, bit_or, bit_and}
use sunder.Prelude.Bits.{bit_or_mask, bit_and_clear}
use sunder.Chars.{isupper, islower, tolower, toupper}

isupper_range : (c : ℕ) → c < 2 ^ 32 → isupper c ≡ true → (65 ≤ c) × (c ≤ 90)
unfolding isupper
isupper_range c h u = ground arith

islower_range : (c : ℕ) → c < 2 ^ 32 → islower c ≡ true → (97 ≤ c) × (c ≤ 122)
unfolding islower
islower_range c h u = ground arith

or_lem : (c : ℕ) → 65 ≤ c → c ≤ 90 → bit_or c 0x20 ≡ c + 32
or_lem c low high = let m = bit_or_mask c 5 in omega arith

and_lem : (c : ℕ) → 97 ≤ c → c ≤ 122 → bit_and c 0x5f ≡ c - 32
and_lem c low high = let m = bit_and_clear 7 c 5 (omega arith) (omega arith) in omega arith

isupper_of : (c : ℕ) → 65 ≤ c → c ≤ 90 → isupper c ≡ true
unfolding isupper
isupper_of c low high = ground arith

islower_of : (c : ℕ) → 97 ≤ c → c ≤ 122 → islower c ≡ true
unfolding islower
islower_of c low high = ground arith

tolower_lem : (c : ℕ) → c < 2 ^ 32 → isupper c ≡ true → tolower c ≡ c + 32
tolower_lem c h u = let r = isupper_range c h u in unfold tolower in rw u (or_lem c r.0 r.1)

toupper_lem : (c : ℕ) → c < 2 ^ 32 → islower c ≡ true → toupper c ≡ c - 32
toupper_lem c h l = let r = islower_range c h l in unfold toupper in rw l (and_lem c r.0 r.1)

-- The lower case of an upper case letter is a lower case letter, whose upper case it is.
pub toupper-tolower :
    (c : ℕ)
    → c < 2 ^ 32
    → isupper c ≡ true
    → (islower (tolower c) ≡ true) × (toupper (tolower c) ≡ c)
toupper-tolower c h u =
    let r = isupper_range c h u in
    let l = islower_of (c + 32) (omega arith) (omega arith) in
    rw (tolower_lem c h u) (l, rw (toupper_lem (c + 32) (omega arith) l) (omega arith))

-- The upper case of a lower case letter is an upper case letter, whose lower case it is.
pub tolower-toupper :
    (c : ℕ)
    → c < 2 ^ 32
    → islower c ≡ true
    → (isupper (toupper c) ≡ true) × (tolower (toupper c) ≡ c)
tolower-toupper c h l =
    let r = islower_range c h l in
    let u = isupper_of (c - 32) (omega arith) (omega arith) in
    rw (toupper_lem c h l) (u, rw (tolower_lem (c - 32) (omega arith) u) (omega arith))
