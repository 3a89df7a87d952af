-- ===== src/Eval/Range.antt =====
-- `integer_is_out_of_range` and `value_new_integer`, and the integers that a type holds.
use sunder.Prelude.{
  ℕ, suc, ◌*◌, ◌^◌, ◌≤◌, ◌<◌, Option, none, some, Bool, true, false, not, ◌||◌, ◌==◌, if◌then◌else◌,
  ◌≡◌, refl, arith, ltb, Bool-cases, ◌≢◌, List, [], inl, inr,
}
use sunder.Prelude.Int.{ℤ, pos, negsuc}
use sunder.Bigint.Repr.{Sign, Bigint, minus, nought, plus, rank}
use sunder.Bigint.Value.{value, IsValid, AllBytes, IsTrimmed}
use sunder.Bigint.Product.Laws.{bigint_zero-IsValid}
use sunder.Bigint.Cmp.{cmp}
use sunder.Bigint.Cmp.Order.{order, cmp-eq-order}
use sunder.Bitarr.RoundTrip.{Fits}
use sunder.Eval.Types.{
  type_is_uinteger, word_size, Arch, arch_amd64, arch_arm64, arch_wasm32, DataType, type_u8,
  type_s8, type_u16, type_s16, type_u32, type_s32, type_u64, type_s64, type_usize, type_ssize,
  type_is_integer, type_is_sinteger, integer_size, bound_min, bound_max, is_unsized_integer,
}
use sunder.Eval.Values.{Outcome, returns, stops, and_then, asserted}

-- The comparisons of an integer with the bounds of a type of that many bytes.
abbrev is_outside : Bool → ℕ → Bigint → Bool
is_outside is_signed bytes res =
    rank (cmp res (bound_min is_signed bytes)) == rank minus
    || rank (cmp res (bound_max is_signed bytes)) == rank plus

unfoldable pub integer_is_out_of_range : Arch → DataType → Bigint → Outcome Bool
unfolding cmp
integer_is_out_of_range arch t res =
    if is_unsized_integer t
    then returns false
    else and_then (asserted (integer_size arch t))
        (λ bytes. returns (is_outside (type_is_sinteger t) bytes res))

-- The assertions of `value_new_integer`.
unfoldable pub integer_new : Arch → DataType → Bigint → Outcome Bigint
unfolding cmp
integer_new arch t integer =
    if not (type_is_integer t)
    then stops
    else if type_is_uinteger t || type_is_sinteger t
    then and_then (asserted (integer_size arch t))
        (λ bytes. if is_outside (type_is_sinteger t) bytes integer then stops else returns integer)
    else returns integer

-- The same comparisons on the integers, with the bounds `low` and `high`.
abbrev beyond : ℤ → ℤ → ℤ → Bool
beyond low high z = rank (order z low) == rank minus || rank (order z high) == rank plus

-- The verdict on a range, and whether it is right.
abbrev pub Judges : Bool → Bool → ℕ → ℤ → Type 0
Judges true s n z = ¬ Fits s n z
Judges false s n z = Fits s n z

judged :
    (outside : Bool) (m h : ℕ) (s : Bool) (n : ℕ) (z : ℤ)
    → outside ≡ ltb h m
    → (m ≤ h → Fits s n z)
    → (h < m → ¬ Fits s n z)
    → Judges outside s n z
judged outside m h s n z e inside beyond_it = rw e (elim (Bool-cases (ltb h m)) [
  | inl above ↦ rw above (beyond_it (ground arith))
  | inr below ↦ rw below (inside (ground arith))
])

signed_bounds :
    (h n : ℕ) (z : ℤ) → 2 ^ n ≡ 2 * suc h → Judges (beyond (negsuc h) (pos h) z) true n z
signed_bounds h n (pos m) e =
    judged (beyond (negsuc h) (pos h) (pos m)) m h true n (pos m) (ground arith)
      (λ le. omega (arith, e)) (λ lt f. omega (arith, e, f))
signed_bounds h n (negsuc m) e =
    judged (beyond (negsuc h) (pos h) (negsuc m)) m h true n (negsuc m) (ground arith)
      (λ le. omega (arith, e)) (λ lt f. omega (arith, e, f))

unsigned_bounds : (p n : ℕ) (z : ℤ) → 2 ^ n ≡ suc p → Judges (beyond (pos 0) (pos p) z) false n z
unsigned_bounds p n (pos m) e =
    judged (beyond (pos 0) (pos p) (pos m)) m p false n (pos m) (ground arith)
      (λ le. omega (arith, e)) (λ lt f. omega (arith, e, f))
unsigned_bounds p n (negsuc m) e =
    judged (beyond (pos 0) (pos p) (negsuc m)) 1 0 false n (negsuc m) (ground arith)
      (λ le. absurd (omega arith)) (λ lt f. omega (arith, e, f))

-- The sizes of integer types.
pub data IsSize : ℕ → Type 0 where
  one_byte : IsSize 1
  two_bytes : IsSize 2
  four_bytes : IsSize 4
  eight_bytes : IsSize 8

nonempty_limbs :
    (s : Sign) (limbs : List ℕ)
    → s ≢ nought
    → limbs ≢ []
    → AllBytes limbs
    → IsTrimmed limbs
    → IsValid (record { sign = s; limbs = limbs })
nonempty_limbs s limbs ns nl bytes trimmed = record {
  bytes = bytes;
  trimmed = trimmed;
  zero_sign = λ e. absurd (ns e);
  zero_limbs = λ e. absurd (nl e);
}

bound_max-IsValid : (s : Bool) (bytes : ℕ) → IsSize bytes → IsValid (bound_max s bytes)
bound_max-IsValid true bytes one_byte =
    nonempty_limbs plus _ (λ e. cc) (λ e. cc) (omega arith) (omega arith)
bound_max-IsValid true bytes two_bytes =
    nonempty_limbs plus _ (λ e. cc) (λ e. cc) (omega arith) (omega arith)
bound_max-IsValid true bytes four_bytes =
    nonempty_limbs plus _ (λ e. cc) (λ e. cc) (omega arith) (omega arith)
bound_max-IsValid true bytes eight_bytes =
    nonempty_limbs plus _ (λ e. cc) (λ e. cc) (omega arith) (omega arith)
bound_max-IsValid false bytes one_byte =
    nonempty_limbs plus _ (λ e. cc) (λ e. cc) (omega arith) (omega arith)
bound_max-IsValid false bytes two_bytes =
    nonempty_limbs plus _ (λ e. cc) (λ e. cc) (omega arith) (omega arith)
bound_max-IsValid false bytes four_bytes =
    nonempty_limbs plus _ (λ e. cc) (λ e. cc) (omega arith) (omega arith)
bound_max-IsValid false bytes eight_bytes =
    nonempty_limbs plus _ (λ e. cc) (λ e. cc) (omega arith) (omega arith)

bound_min-IsValid : (s : Bool) (bytes : ℕ) → IsSize bytes → IsValid (bound_min s bytes)
bound_min-IsValid false bytes size = bigint_zero-IsValid
bound_min-IsValid true bytes one_byte =
    nonempty_limbs minus _ (λ e. cc) (λ e. cc) (omega arith) (omega arith)
bound_min-IsValid true bytes two_bytes =
    nonempty_limbs minus _ (λ e. cc) (λ e. cc) (omega arith) (omega arith)
bound_min-IsValid true bytes four_bytes =
    nonempty_limbs minus _ (λ e. cc) (λ e. cc) (omega arith) (omega arith)
bound_min-IsValid true bytes eight_bytes =
    nonempty_limbs minus _ (λ e. cc) (λ e. cc) (omega arith) (omega arith)

bounds-Judges :
    (s : Bool) (bytes : ℕ) (z : ℤ)
    → IsSize bytes
    → Judges (beyond (value (bound_min s bytes)) (value (bound_max s bytes)) z) s (8 * bytes) z
bounds-Judges true bytes z one_byte = signed_bounds 127 8 z refl
bounds-Judges true bytes z two_bytes = signed_bounds 32767 16 z refl
bounds-Judges true bytes z four_bytes = signed_bounds 2147483647 32 z refl
bounds-Judges true bytes z eight_bytes = signed_bounds 9223372036854775807 64 z refl
bounds-Judges false bytes z one_byte = unsigned_bounds 255 8 z refl
bounds-Judges false bytes z two_bytes = unsigned_bounds 65535 16 z refl
bounds-Judges false bytes z four_bytes = unsigned_bounds 4294967295 32 z refl
bounds-Judges false bytes z eight_bytes = unsigned_bounds 18446744073709551615 64 z refl

pub is_outside-Judges :
    (s : Bool) (bytes : ℕ) (b : Bigint)
    → IsSize bytes
    → IsValid b
    → Judges (is_outside s bytes b) s (8 * bytes) (value b)
is_outside-Judges s bytes b size v =
    rw
      (
        cmp-eq-order b (bound_min s bytes) v (bound_min-IsValid s bytes size),
        cmp-eq-order b (bound_max s bytes) v (bound_max-IsValid s bytes size),
      )
      (bounds-Judges s bytes (value b) size)

-- A type of integers with a size.
pub record IsSized (arch : Arch) (t : DataType) : Type 0 where
  pub bytes : ℕ
  pub has_size : integer_size arch t ≡ some bytes
  pub is_size : IsSize bytes
  pub sized : is_unsized_integer t ≡ false
  pub integer : type_is_integer t ≡ true
  pub kept : (type_is_uinteger t || type_is_sinteger t) ≡ true

word-IsSize : (arch : Arch) → IsSize (word_size arch)
word-IsSize arch_amd64 = eight_bytes
word-IsSize arch_arm64 = eight_bytes
word-IsSize arch_wasm32 = four_bytes

has_bytes :
    {arch : Arch} {t : DataType} {bytes : ℕ}
    → integer_size arch t ≡ some bytes
    → IsSize bytes
    → is_unsized_integer t ≡ false
    → type_is_integer t ≡ true
    → (type_is_uinteger t || type_is_sinteger t) ≡ true
    → IsSized arch t
has_bytes e size sized integer kept = record {
  kept = kept;
  bytes = _;
  has_size = e;
  is_size = size;
  sized = sized;
  integer = integer;
}

pub is_sized-IsSized :
    (arch : Arch) (t : DataType)
    → (type_is_uinteger t || type_is_sinteger t) ≡ true
    → IsSized arch t
is_sized-IsSized arch type_u8 e = has_bytes refl one_byte refl refl refl
is_sized-IsSized arch type_s8 e = has_bytes refl one_byte refl refl refl
is_sized-IsSized arch type_u16 e = has_bytes refl two_bytes refl refl refl
is_sized-IsSized arch type_s16 e = has_bytes refl two_bytes refl refl refl
is_sized-IsSized arch type_u32 e = has_bytes refl four_bytes refl refl refl
is_sized-IsSized arch type_s32 e = has_bytes refl four_bytes refl refl refl
is_sized-IsSized arch type_u64 e = has_bytes refl eight_bytes refl refl refl
is_sized-IsSized arch type_s64 e = has_bytes refl eight_bytes refl refl refl
is_sized-IsSized arch type_usize e = has_bytes refl (word-IsSize arch) refl refl refl
is_sized-IsSized arch type_ssize e = has_bytes refl (word-IsSize arch) refl refl refl
is_sized-IsSized arch t e = absurd (cc)

-- The bits of an integer type.
abbrev or_zero : Option ℕ → ℕ
or_zero none = 0
or_zero (some n) = n

abbrev pub type_bits : Arch → DataType → ℕ
type_bits arch t = 8 * or_zero (integer_size arch t)

pub type_bits-size :
    {arch : Arch} {t : DataType} (sized : IsSized arch t) → type_bits arch t ≡ 8 * sized.bytes
type_bits-size sized = rw (sized.has_size) refl

-- A verdict of `integer_is_out_of_range`.
pub record Decides (r : Outcome Bool) (s : Bool) (n : ℕ) (z : ℤ) : Type 0 where
  pub outside : Bool
  pub returned : r ≡ returns outside
  pub judges : Judges outside s n z

-- `integer_is_out_of_range` of a valid integer and a type of integers with a size says whether the
-- bits of the type cannot hold it.
pub integer_is_out_of_range-Decides :
    (arch : Arch) (t : DataType) (b : Bigint) (sized : IsSized arch t)
    → IsValid b
    → Decides (integer_is_out_of_range arch t b) (type_is_sinteger t) (8 * sized.bytes) (value b)
integer_is_out_of_range-Decides arch t b sized v = record {
  outside = is_outside (type_is_sinteger t) sized.bytes b;
  returned = unfold integer_is_out_of_range in rw (sized.sized, sized.has_size);
  judges = is_outside-Judges (type_is_sinteger t) sized.bytes b sized.is_size v;
}

-- The assertions hold on an integer that the bits of the type hold.
pub integer_new-returns :
    (arch : Arch) (t : DataType) (b : Bigint) (sized : IsSized arch t)
    → IsValid b
    → Fits (type_is_sinteger t) (8 * sized.bytes) (value b)
    → integer_new arch t b ≡ returns b
integer_new-returns arch t b sized v fits =
    let inside = is_outside (type_is_sinteger t) sized.bytes b in
    unfold integer_new in
    rw (sized.integer, sized.kept, sized.has_size)
      (go inside (is_outside-Judges (type_is_sinteger t) sized.bytes b sized.is_size v))
  where
    go :
        (outside : Bool)
        → Judges outside (type_is_sinteger t) (8 * sized.bytes) (value b)
        → (if outside then stops else returns b) ≡ returns b
    go true j = absurd (j fits)
    go false j = refl
