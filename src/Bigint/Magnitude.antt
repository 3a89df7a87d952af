-- ===== src/Bigint/Magnitude.antt =====
-- util.c: the operations on the binary digits of a magnitude, `bigint_magnitude_shiftl` up to
-- `bigint_magnitude_bit_set`.
pub mod Digits
pub mod Write
pub mod Count
mod Double
pub mod Shift
use sunder.Prelude.{
  ℕ, zero, suc, ◌+◌, ◌-◌, ◌*◌, ◌/◌, ◌%◌, ◌^◌, List, [], ◌∷◌, ◌++◌, Option, some, none, Bool,
}
use sunder.Prelude.{
  not, ◌&&◌, ltb, leb, ◌==◌, if◌then◌else◌, length, get_or, set, u8, bit_and, bit_or, ◌>>=◌,
}
use sunder.Bigint.Repr.{
  Sign, nought, plus, Bigint, bigint_zero, normalize, resize, assign, shiftl_limbs, shiftr_limbs,
}
use sunder.Bigint.Sum.{has_sign}

-- The loop that counts the binary digits of the top limb, which is a byte: eight rounds shift
-- every digit out.
pub top_bit_count : ℕ → ℕ → ℕ
top_bit_count zero top = 0
top_bit_count (suc fuel) top =
    let rest = top_bit_count fuel (top / 2) in if top == 0 then 0 else suc rest

pub bit_count : Bigint → ℕ
unfolding top_bit_count
bit_count self =
    let count = length self.limbs in
    if count == 0 then 0 else (count - 1) * 8 + top_bit_count 8 (get_or self.limbs (count - 1) 0)

pub bit_get : Bigint → ℕ → ℕ
bit_get self n =
    if leb (length self.limbs * 8) n
    then 0
    else let limb = get_or self.limbs (n / 8) 0 in
      let mask = u8 (2 ^ (n % 8)) in if bit_and limb mask == 0 then 0 else 1

-- `bigint_magnitude_bit_set` when the limb is there.
pub write_bit : Bigint → ℕ → ℕ → Bigint
write_bit self n value =
    let limb_idx = n / 8 in
    let limb = get_or self.limbs limb_idx 0 in
    let mask = u8 (2 ^ (n % 8)) in
    let limb' = u8 (if value == 0 then bit_and limb (2 ^ 8 - 1 - mask) else bit_or limb mask) in
    normalize (record {
      sign = if has_sign nought self && not (value == 0) then plus else self.sign;
      limbs = set self.limbs limb_idx limb';
    })

pub bit_set : Bigint → ℕ → ℕ → Bigint
unfolding write_bit
bit_set self n value =
    let limb_idx = n / 8 in
    if leb (length self.limbs) limb_idx
    then (if value == 0 then self else write_bit (resize self (limb_idx + 1)) n value)
    else write_bit self n value

-- The loop that doubles the limbs in place, from the top down, with the limb at `i` next; the
-- last round is the statement behind the loop.
pub double_loop : ℕ → List ℕ → List ℕ
double_loop zero limbs = set limbs 0 (u8 (get_or limbs 0 0 * 2))
double_loop (suc i) limbs =
    let shifted = u8 (get_or limbs (suc i) 0 * 2) in
    let carried = if bit_and (get_or limbs i 0) 0x80 == 0 then shifted else bit_or shifted 1 in
    double_loop i (set limbs (suc i) carried)

-- One round of the loop of `bigint_magnitude_shiftl`.
pub shift_once : List ℕ → List ℕ
unfolding double_loop
shift_once limbs =
    let top = get_or limbs (length limbs - 1) 0 in
    let limbs' = if bit_and top 0x80 == 0 then limbs else limbs ++ 0 ∷ [] in
    double_loop (length limbs' - 1) limbs'

pub shift_rounds : ℕ → List ℕ → List ℕ
unfolding shift_once
shift_rounds zero limbs = limbs
shift_rounds (suc n) limbs = shift_rounds n (shift_once limbs)

pub shiftl : Bigint → ℕ → Bigint
unfolding shift_rounds
shiftl self nbits =
    if nbits == 0
    then self
    else if has_sign nought self
    then self
    else let self' = shiftl_limbs self (nbits / 8) in
      record self' { limbs = shift_rounds (nbits % 8) self'.limbs }

-- The loop that halves the limbs in place, from the bottom up, with `n` limbs left before the top.
pub halve_loop : ℕ → ℕ → List ℕ → List ℕ
halve_loop zero i limbs = limbs
halve_loop (suc n) i limbs =
    let shifted = u8 (get_or limbs i 0 / 2) in
    let carried =
      if bit_and (get_or limbs (i + 1) 0) 1 == 0 then shifted else bit_or shifted 0x80 in
    halve_loop n (i + 1) (set limbs i carried)

pub unshift_once : List ℕ → List ℕ
unfolding halve_loop
unshift_once limbs =
    let top = length limbs - 1 in
    let limbs' = halve_loop top 0 limbs in set limbs' top (u8 (get_or limbs' top 0 / 2))

pub unshift_rounds : ℕ → List ℕ → List ℕ
unfolding unshift_once
unshift_rounds zero limbs = limbs
unshift_rounds (suc n) limbs = unshift_rounds n (unshift_once limbs)

pub shiftr : Bigint → ℕ → Option Bigint
unfolding unshift_rounds bit_count
shiftr self nbits =
    if nbits == 0
    then some self
    else if leb (bit_count self) nbits
    then some (assign bigint_zero)
    else shiftr_limbs self (nbits / 8) >>= λ self'.
        some (normalize (record self' { limbs = unshift_rounds (nbits % 8) self'.limbs }))
