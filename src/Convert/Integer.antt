-- ===== src/Convert/Integer.antt =====
-- Integer conversions (src/types/integer.rs), for the default build and for the feature
-- `lossy-integer-conversion`. An integer of any width is the integer it stands for.
pub mod Bounds
pub mod Roundtrip
pub mod Xor
pub mod Overflow
use emacs_module_rs.Base.{
  ℕ, ℤ, pos, negsuc, ◌-◌, ◌%◌, ◌^◌, ◌≤ℤ◌, leb_ℤ, Bool, true, false, ◌&&◌, ltb, if◌then◌else◌,
}
use emacs_module_rs.Machine.{Emacs, Act, pure, fail, ◌>>=◌, try_from_int_error}
use emacs_module_rs.Exit.{raw_call}
use emacs_module_rs.Value.{Value, raw_call_value_unprotected}

-- The primitive integer types that the macros are used for, and `i64`.
pub data IntType : Type 0 where
  i8 i16 i32 i64 isize u8 u16 u32 u64 usize : IntType

abbrev pub is_signed : IntType → Bool
is_signed u8 = false
is_signed u16 = false
is_signed u32 = false
is_signed u64 = false
is_signed usize = false
is_signed _ = true

-- `isize` and `usize` have 64 bits on the platforms that the bindings are generated for.
abbrev pub width : IntType → ℕ
width i8 = 8
width u8 = 8
width i16 = 16
width u16 = 16
width i32 = 32
width u32 = 32
width _ = 64

abbrev pub min_value : IntType → ℤ
min_value ty = if is_signed ty then negsuc (2 ^ (width ty - 1) - 1) else pos 0

abbrev pub max_value : IntType → ℤ
max_value ty = pos (if is_signed ty then 2 ^ (width ty - 1) - 1 else 2 ^ width ty - 1)

abbrev pub InRange : IntType → ℤ → Type 0
InRange ty x = (min_value ty ≤ℤ x) × (x ≤ℤ max_value ty)

unfoldable pub in_range : IntType → ℤ → Bool
in_range ty x = leb_ℤ (min_value ty) x && leb_ℤ x (max_value ty)

-- `x.try_into()?`
unfoldable pub try_into : {S : Type 0} → IntType → ℤ → Act S ℤ
unfolding in_range
try_into ty x = if in_range ty x then pure x else fail try_from_int_error

-- The lowest `bits` bits of the two's complement.
abbrev pub low_bits : ℕ → ℤ → ℕ
low_bits bits (pos n) = n % 2 ^ bits
low_bits bits (negsuc n) = 2 ^ bits - 1 - n % 2 ^ bits

-- The integer of a type that has these bits.
abbrev of_bits : IntType → ℕ → ℤ
of_bits ty b =
    if is_signed ty
    then (if ltb b (2 ^ (width ty - 1)) then pos b else negsuc (2 ^ width ty - 1 - b))
    else pos b

-- `x as ty`
unfoldable pub as_type : IntType → ℤ → ℤ
as_type ty x = of_bits ty (low_bits (width ty) x)

module _ {S : Type 0} ⦃E : Emacs S⦄ where
  -- `i64`
  unfoldable pub i64_from_lisp : Value → Act S ℤ
  unfolding raw_call
  i64_from_lisp v = raw_call (E.extract_integer v.raw)

  unfoldable pub i64_into_lisp : ℤ → Act S Value
  unfolding raw_call_value_unprotected
  i64_into_lisp x = raw_call_value_unprotected (E.make_integer x)

  -- `int_from_lisp!`
  unfoldable pub int_from_lisp : IntType → Value → Act S ℤ
  unfolding i64_from_lisp try_into
  int_from_lisp ty v = do i ← i64_from_lisp v; try_into ty i

  unfoldable pub int_from_lisp_lossy : IntType → Value → Act S ℤ
  unfolding i64_from_lisp as_type
  int_from_lisp_lossy ty v = do i ← i64_from_lisp v; pure (as_type ty i)

  -- `int_into_lisp!`, by `as i64`: the types of at most 32 bits, and with the feature all.
  unfoldable pub int_into_lisp_as : ℤ → Act S Value
  unfolding i64_into_lisp as_type
  int_into_lisp_as x = i64_into_lisp (as_type i64 x)

  -- `int_into_lisp!(.., lossless)`: `isize`, `u64` and `usize` in the default build.
  unfoldable pub int_into_lisp_lossless : ℤ → Act S Value
  unfolding i64_into_lisp try_into
  int_into_lisp_lossless x = do i ← try_into i64 x; i64_into_lisp i

  -- The impl of `IntoLisp` for each type in the default build.
  unfoldable pub int_into_lisp : IntType → ℤ → Act S Value
  unfolding int_into_lisp_as int_into_lisp_lossless
  int_into_lisp isize x = int_into_lisp_lossless x
  int_into_lisp u64 x = int_into_lisp_lossless x
  int_into_lisp usize x = int_into_lisp_lossless x
  int_into_lisp i64 x = i64_into_lisp x
  int_into_lisp _ x = int_into_lisp_as x
