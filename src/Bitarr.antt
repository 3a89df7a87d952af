-- ===== src/Bitarr.antt =====
-- util.c: `struct bitarr`, an array of `count` bits in words of 64 bits. A function that writes
-- into `res` takes `res` for its count and returns what it holds then; a mismatch of counts or an
-- index out of bounds stops the process.
pub mod Access
pub mod Number
pub mod Complement
pub mod Convert
pub mod Back
pub mod RoundTrip
pub mod Low
mod Examples
use sunder.Prelude.{
  ℕ, zero, suc, ◌+◌, ◌-◌, ◌/◌, ◌%◌, ◌^◌, List, [], ◌∷◌, Option, none, some, Bool, not, ◌&&◌, ◌||◌,
}
use sunder.Prelude.{leb, ltb, ◌==◌, if◌then◌else◌, length, get_or, set, replicate, map, u64, ◌>>=◌}
use sunder.Prelude.{bit_and, bit_or, bit_xor}
use sunder.Bigint.Repr.{minus, rank, Bigint, bigint_zero, neg}
use sunder.Bigint.Cmp.{cmp}
use sunder.Bigint.Magnitude
use sunder.Bigint.Magnitude.{bit_count}

pub record Bitarr : Type 0 where
  pub count : ℕ
  pub words : List ℕ

-- `bitarr__word_count_`: the quotient by 64, rounded up.
abbrev pub word_count : ℕ → ℕ
word_count count = count / 64 + (if not (count % 64 == 0) then 1 else 0)

-- `bitarr_new`.
abbrev pub new : ℕ → Bitarr
new count = record { count = count; words = replicate (word_count count) 0 }

unfoldable pub bit_set : Bitarr → ℕ → ℕ → Option Bitarr
bit_set self n value =
    if leb self.count n
    then none
    else let word = get_or self.words (n / 64) 0 in
      let mask = u64 (2 ^ (n % 64)) in
      some (record self {
        words =
            set self.words (n / 64)
              (if not (value == 0) then bit_or word mask else bit_and word (2 ^ 64 - 1 - mask));
      })

unfoldable pub bit_get : Bitarr → ℕ → Option ℕ
bit_get self n =
    if leb self.count n
    then none
    else let word = get_or self.words (n / 64) 0 in
      let mask = u64 (2 ^ (n % 64)) in some (if not (bit_and word mask == 0) then 1 else 0)

unfoldable pub assign : Bitarr → Bitarr → Option Bitarr
assign self othr = if self.count == othr.count then some othr else none

unfoldable pub compl : Bitarr → Bitarr → Option Bitarr
compl res rhs =
    if res.count == rhs.count
    then some (record res { words = map (λ word. 2 ^ 64 - 1 - word) rhs.words })
    else none

-- The loop of `bitarr_twos_complement_neg` at the bit `i`, with `n` bits left.
unfoldable pub add_one : ℕ → ℕ → ℕ → Bitarr → Option Bitarr
unfolding bit_get bit_set
add_one zero i carry res = some res
add_one (suc n) i carry res = bit_get res i >>= λ digit.
    bit_set res i ((carry + digit) % 2) >>= λ res'.
    add_one n (i + 1) (if leb 2 (carry + digit) then 1 else 0) res'

unfoldable pub twos_complement_neg : Bitarr → Bitarr → Option Bitarr
unfolding compl add_one
twos_complement_neg res rhs = compl res rhs >>= λ res'. add_one res'.count 0 1 res'

-- The inner loop of `bitarr_shiftl`: every bit from `i` down to 1 takes the bit below it.
unfoldable pub move_up : ℕ → Bitarr → Option Bitarr
unfolding bit_get bit_set
move_up zero res = some res
move_up (suc i) res = bit_get res i >>= λ below. bit_set res (suc i) below >>= move_up i

unfoldable pub shiftl_rounds : ℕ → Bitarr → Option Bitarr
unfolding move_up bit_set
shiftl_rounds zero res = some res
shiftl_rounds (suc n) res =
    move_up (res.count - 1) res >>= λ moved. bit_set moved 0 0 >>= shiftl_rounds n

unfoldable pub shiftl : Bitarr → Bitarr → ℕ → Option Bitarr
unfolding assign shiftl_rounds
shiftl res lhs nbits =
    if not (res.count == lhs.count)
    then none
    else if res.count == 0
    then some res
    else assign res lhs >>= shiftl_rounds nbits

-- The inner loop of `bitarr_shiftr` at the bit `i`, with `n` bits left below the top one.
unfoldable pub move_down : ℕ → ℕ → Bitarr → Option Bitarr
unfolding bit_get bit_set
move_down zero i res = some res
move_down (suc n) i res =
    bit_get res (i + 1) >>= λ above. bit_set res i above >>= move_down n (i + 1)

unfoldable pub shiftr_rounds : ℕ → ℕ → Bitarr → Option Bitarr
unfolding move_down bit_set
shiftr_rounds high_bit zero res = some res
shiftr_rounds high_bit (suc n) res = move_down (res.count - 1) 0 res >>= λ moved.
    bit_set moved (res.count - 1) high_bit >>= shiftr_rounds high_bit n

unfoldable pub shiftr : Bitarr → Bitarr → ℕ → ℕ → Option Bitarr
unfolding assign shiftr_rounds
shiftr res lhs nbits high_bit =
    if not (res.count == lhs.count)
    then none
    else if res.count == 0
    then some res
    else assign res lhs >>= shiftr_rounds high_bit nbits

-- The loop that the three operations on words share, over `n` words from the word `i`.
unfoldable pub word_loop : (ℕ → ℕ → ℕ) → List ℕ → List ℕ → ℕ → ℕ → List ℕ
word_loop op lhs rhs zero i = []
word_loop op lhs rhs (suc n) i =
    op (get_or lhs i 0) (get_or rhs i 0) ∷ word_loop op lhs rhs n (i + 1)

abbrev pub wordwise : (ℕ → ℕ → ℕ) → Bitarr → Bitarr → Bitarr → Option Bitarr
wordwise op res lhs rhs =
    if not (res.count == lhs.count) || not (res.count == rhs.count)
    then none
    else some (record res { words = word_loop op lhs.words rhs.words (word_count res.count) 0 })

unfoldable pub and : Bitarr → Bitarr → Bitarr → Option Bitarr
unfolding word_loop
and res lhs rhs = wordwise bit_and res lhs rhs

unfoldable pub xor : Bitarr → Bitarr → Bitarr → Option Bitarr
unfolding word_loop
xor res lhs rhs = wordwise bit_xor res lhs rhs

unfoldable pub or : Bitarr → Bitarr → Bitarr → Option Bitarr
unfolding word_loop
or res lhs rhs = wordwise bit_or res lhs rhs

-- The loops of `bitarr_to_bigint`: a copy of the bits, and their transfer to a magnitude.
unfoldable pub copy_bits : Bitarr → ℕ → ℕ → Bitarr → Option Bitarr
unfolding bit_get bit_set
copy_bits from zero i to = some to
copy_bits from (suc n) i to =
    bit_get from i >>= λ digit. bit_set to i digit >>= copy_bits from n (i + 1)

unfoldable pub write_magnitude : Bitarr → ℕ → ℕ → Bigint → Option Bigint
unfolding bit_get
write_magnitude from zero i res = some res
write_magnitude from (suc n) i res =
    bit_get from i >>= λ digit. write_magnitude from n (i + 1) (Magnitude.bit_set res i digit)

unfoldable pub to_bigint : Bitarr → Bool → Option Bigint
unfolding copy_bits twos_complement_neg write_magnitude bit_get
to_bigint bitarr is_signed =
    if bitarr.count == 0
    then some bigint_zero
    else copy_bits bitarr bitarr.count 0 (new bitarr.count) >>= λ mag_bits.
        bit_get bitarr (bitarr.count - 1) >>= λ top.
        let is_neg = is_signed && not (top == 0) in
        (if is_neg then twos_complement_neg mag_bits mag_bits else some mag_bits) >>= λ digits.
        write_magnitude digits bitarr.count 0 bigint_zero >>= λ res.
        some (if is_neg then neg res else res)

-- The loop of `bigint_to_bitarr`.
unfoldable pub read_magnitude : Bigint → ℕ → ℕ → Bitarr → Option Bitarr
unfolding bit_set
read_magnitude bigint zero i res = some res
read_magnitude bigint (suc n) i res =
    bit_set res i (Magnitude.bit_get bigint i) >>= read_magnitude bigint n (i + 1)

-- `bigint_to_bitarr`; the inner `none` is the result -1, a magnitude with too many digits.
unfoldable pub of_bigint : Bitarr → Bigint → Option (Option Bitarr)
unfolding read_magnitude twos_complement_neg
of_bigint res bigint =
    if ltb res.count (bit_count bigint)
    then some none
    else read_magnitude bigint res.count 0 res >>= λ written.
        (if rank (cmp bigint bigint_zero) == rank minus
          then twos_complement_neg written written
          else some written)
        >>= λ signed. some (some signed)
