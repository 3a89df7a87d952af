-- ===== src/Eval/Types.antt =====
-- `struct type` and its predicates in ast.c, and the bounds of the integer types in sunder.c.
use sunder.Prelude.{
  ℕ, ◌-◌, [], ◌∷◌, ◌++◌, replicate, Option, none, some, Bool, true, false, ◌&&◌, ◌||◌, ◌==◌,
}
use sunder.Bigint.Repr.{Bigint, bigint_zero, minus, plus}

-- `enum arch`.
pub data Arch : Type 0 where
  arch_amd64 : Arch
  arch_arm64 : Arch
  arch_wasm32 : Arch

-- `struct type`, by its kind. A type that is not primitive is told from the others by its address;
-- an enumeration has its underlying type.
pub data DataType : Type 0 where
  type_any : DataType
  type_void : DataType
  type_bool : DataType
  type_byte : DataType
  type_u8 : DataType
  type_s8 : DataType
  type_u16 : DataType
  type_s16 : DataType
  type_u32 : DataType
  type_s32 : DataType
  type_u64 : DataType
  type_s64 : DataType
  type_usize : DataType
  type_ssize : DataType
  type_integer : DataType
  type_f32 : DataType
  type_f64 : DataType
  type_real : DataType
  type_function : ℕ → DataType
  type_pointer : ℕ → DataType
  type_array : ℕ → DataType
  type_slice : ℕ → DataType
  type_struct : ℕ → DataType
  type_union : ℕ → DataType
  type_enum : ℕ → DataType → DataType
  type_extern : ℕ → DataType

abbrev pub kind : DataType → ℕ
kind type_any = 0
kind type_void = 1
kind type_bool = 2
kind type_byte = 3
kind type_u8 = 4
kind type_s8 = 5
kind type_u16 = 6
kind type_s16 = 7
kind type_u32 = 8
kind type_s32 = 9
kind type_u64 = 10
kind type_s64 = 11
kind type_usize = 12
kind type_ssize = 13
kind type_integer = 14
kind type_f32 = 15
kind type_f64 = 16
kind type_real = 17
kind (type_function a) = 18
kind (type_pointer a) = 19
kind (type_array a) = 20
kind (type_slice a) = 21
kind (type_struct a) = 22
kind (type_union a) = 23
kind (type_enum a t) = 24
kind (type_extern a) = 25

-- The address of a type that is not primitive.
abbrev address : DataType → ℕ
address (type_function a) = a
address (type_pointer a) = a
address (type_array a) = a
address (type_slice a) = a
address (type_struct a) = a
address (type_union a) = a
address (type_enum a t) = a
address (type_extern a) = a
address t = 0

-- The comparison of two pointers to types.
abbrev pub same_type : DataType → DataType → Bool
same_type a b = (kind a == kind b) && (address a == address b)

abbrev pub type_is_uinteger : DataType → Bool
type_is_uinteger type_u8 = true
type_is_uinteger type_u16 = true
type_is_uinteger type_u32 = true
type_is_uinteger type_u64 = true
type_is_uinteger type_usize = true
type_is_uinteger t = false

abbrev pub type_is_sinteger : DataType → Bool
type_is_sinteger type_s8 = true
type_is_sinteger type_s16 = true
type_is_sinteger type_s32 = true
type_is_sinteger type_s64 = true
type_is_sinteger type_ssize = true
type_is_sinteger t = false

abbrev pub is_unsized_integer : DataType → Bool
is_unsized_integer type_integer = true
is_unsized_integer t = false

abbrev pub type_is_integer : DataType → Bool
type_is_integer t = type_is_uinteger t || type_is_sinteger t || is_unsized_integer t

-- The size of a word, of `type_new_usize` and `type_new_ssize`.
abbrev pub word_size : Arch → ℕ
word_size arch_amd64 = 8
word_size arch_arm64 = 8
word_size arch_wasm32 = 4

-- The `size` of an integer type; the type without a size, and those that are not integers, have
-- none here.
abbrev pub integer_size : Arch → DataType → Option ℕ
integer_size arch type_u8 = some 1
integer_size arch type_s8 = some 1
integer_size arch type_u16 = some 2
integer_size arch type_s16 = some 2
integer_size arch type_u32 = some 4
integer_size arch type_s32 = some 4
integer_size arch type_u64 = some 8
integer_size arch type_s64 = some 8
integer_size arch type_usize = some (word_size arch)
integer_size arch type_ssize = some (word_size arch)
integer_size arch t = none

-- The constants `u8_min` up to `s64_max`, by the bytes of the type.
abbrev pub bound_min : Bool → ℕ → Bigint
bound_min false bytes = bigint_zero
bound_min true bytes = record { sign = minus; limbs = replicate (bytes - 1) 0 ++ (128 ∷ []) }

abbrev pub bound_max : Bool → ℕ → Bigint
bound_max false bytes = record { sign = plus; limbs = replicate bytes 255 }
bound_max true bytes = record { sign = plus; limbs = replicate (bytes - 1) 255 ++ (127 ∷ []) }
