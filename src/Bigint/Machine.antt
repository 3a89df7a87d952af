-- ===== src/Bigint/Machine.antt =====
-- The conversions of an integer to the machine's. `strtoumax` of the C library is a parameter; its
-- `none` is the error ERANGE.
use sunder.Prelude.{ℕ, List, Option, none, some, ◌==◌, ltb, if◌then◌else◌, ◌>>=◌, ◌-◌, ◌^◌}
use sunder.Bigint.Repr.{Bigint, bigint_zero, minus, rank}
use sunder.Bigint.Cmp.{cmp}
use sunder.Bigint.Text.{to_new_cstr}

-- The outer `none` is a failed assertion, the inner one the result -1.
unfoldable pub to_umax : (List ℕ → Option ℕ) → Bigint → Option (Option ℕ)
unfolding cmp to_new_cstr
to_umax strtoumax bigint =
    if rank (cmp bigint bigint_zero) == rank minus
    then some none
    else to_new_cstr bigint >>= λ cstr. some (strtoumax cstr)

-- `size_t` has 64 bits.
abbrev above_size : Option ℕ → Option ℕ
above_size umax = umax >>= λ n. if ltb (2 ^ 64 - 1) n then none else some n

unfoldable pub to_uz : (List ℕ → Option ℕ) → Bigint → Option (Option ℕ)
unfolding to_umax
to_uz strtoumax bigint = to_umax strtoumax bigint >>= λ umax. some (above_size umax)
