-- ===== src/Bigint/Repr.antt =====
-- util.c: `struct bigint` and the operations on its representation. The array of `count` limbs
-- is a list, lowest limb first; what the allocation holds behind `count` is never read. A
-- function that writes its result through a pointer returns it.
use sunder.Prelude.{ℕ, zero, suc, ◌-◌, List, [], ◌∷◌, ◌++◌, Option, none, some}
use sunder.Prelude.{◌==◌, leb, ltb, if◌then◌else◌, length, get_or, take, drop, replicate}

-- The field `sign`: -1, 0 or +1. It is also what `bigint_cmp` returns.
pub data Sign : Type 0 where
  minus nought plus : Sign

pub record Bigint : Type 0 where
  pub sign : Sign
  pub limbs : List ℕ

-- `BIGINT_ZERO`, also a bigint that is initialised by `{0}`.
abbrev pub bigint_zero : Bigint
bigint_zero = record { sign = nought; limbs = [] }

abbrev pub bigint_dec : Bigint
bigint_dec = record { sign = plus; limbs = 10 ∷ [] }

abbrev pub bigint_bin : Bigint
bigint_bin = record { sign = plus; limbs = 2 ∷ [] }

abbrev pub bigint_oct : Bigint
bigint_oct = record { sign = plus; limbs = 8 ∷ [] }

abbrev pub bigint_hex : Bigint
bigint_hex = record { sign = plus; limbs = 16 ∷ [] }

-- `-sign`, and `sign *= -1`.
abbrev pub flip : Sign → Sign
flip minus = plus
flip nought = nought
flip plus = minus

-- The product of two signs.
abbrev pub sign_mul : Sign → Sign → Sign
sign_mul minus s = flip s
sign_mul nought s = nought
sign_mul plus s = s

-- The rank of a sign, by which signs are compared.
abbrev pub rank : Sign → ℕ
rank minus = 0
rank nought = 1
rank plus = 2

-- The loop of `bigint__normalize_`: the count without the zero limbs at the top.
unfoldable pub normal_count : List ℕ → ℕ → ℕ
normal_count limbs zero = zero
normal_count limbs (suc c) =
    let rest = normal_count limbs c in if get_or limbs c 0 == 0 then rest else suc c

unfoldable pub normalize : Bigint → Bigint
normalize self =
    let count = normal_count self.limbs (length self.limbs) in
    record { sign = if count == 0 then nought else self.sign; limbs = take count self.limbs }

-- `bigint__resize_`.
unfoldable pub resize : Bigint → ℕ → Bigint
resize self count =
    let old = length self.limbs in
    if leb count old
    then record self { limbs = take count self.limbs }
    else record self { limbs = self.limbs ++ replicate (count - old) 0 }

-- `bigint__shiftl_limbs_`.
unfoldable pub shiftl_limbs : Bigint → ℕ → Bigint
shiftl_limbs self nlimbs =
    if nlimbs == 0 then self else record self { limbs = replicate nlimbs 0 ++ self.limbs }

-- `bigint__shiftr_limbs_`, which stops the process if there are too few limbs.
unfoldable pub shiftr_limbs : Bigint → ℕ → Option Bigint
shiftr_limbs self nlimbs =
    if nlimbs == 0
    then some self
    else if ltb (length self.limbs) nlimbs
    then none
    else some (normalize (record self { limbs = drop nlimbs self.limbs }))

-- `bigint_assign` copies, so it is the identity on what it returns; `bigint_neg` and `bigint_abs`
-- copy and then write the sign.
unfoldable pub assign : Bigint → Bigint
assign othr = record { sign = othr.sign; limbs = othr.limbs }

unfoldable pub neg : Bigint → Bigint
unfolding assign
neg rhs = let res = assign rhs in record res { sign = flip res.sign }

unfoldable pub abs : Bigint → Bigint
unfolding assign
abs rhs = let res = assign rhs in record res { sign = sign_mul rhs.sign rhs.sign }
