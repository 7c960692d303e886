-- ===== src/Convert/Text.antt =====
-- Texts (src/types/string.rs), in the default build, in which the bytes that Emacs gives are taken as
-- UTF-8 unchecked, and with the feature utf-8-validation. A buffer that `copy_string_contents` is given is the memory of the caller.
pub mod Strip
pub mod Returning
use emacs_module_rs.Base.{
  String, ℕ, zero, suc, min, Bool, true, false, Option, none, some, ◌==◌, ◌++◌, length, take,
  replicate, get_elem?, if◌then◌else◌,
}
use emacs_module_rs.Machine.{Bytes, codes, Emacs, static_str, string, Act, pure, panic, ◌>>=◌, ◌>>◌}
use emacs_module_rs.Exit.{raw_call}
use emacs_module_rs.Value.{Value, raw_call_value}

pub is_zero_byte : Option ℕ → Bool
is_zero_byte (some c) = c == 0
is_zero_byte none = false

-- The loop of `strip_trailing_zero_bytes`, on the length that is left.
unfoldable pub strip_loop : ℕ → Bytes → Bytes
strip_loop zero bytes = bytes
strip_loop (suc len) bytes =
    let rest = strip_loop len (take len bytes) in
    if is_zero_byte (get_elem? bytes len) then rest else bytes

unfoldable pub strip_trailing_zero_bytes : Bytes → Bytes
unfolding strip_loop is_zero_byte
strip_trailing_zero_bytes bytes = strip_loop (length bytes) bytes

module _ {S : Type 0} where
  -- The panic where the raw function reports failure and no exit.
  abbrev require_done : Bool → String → Act S (Unit {0})
  require_done true message = pure tt
  require_done false message = panic (static_str (codes message))

  -- `&buffer[0..min(max_len, len) - 1]`: the subtraction and the slice check their bounds.
  abbrev copied_slice : ℕ → Bytes → Act S Bytes
  copied_slice zero buffer = panic (string (codes "attempt to subtract with overflow"))
  copied_slice (suc n) buffer = pure (take n buffer)

module _ {S : Type 0} ⦃E : Emacs S⦄ where
  -- `&str`, `&String` and `String`
  unfoldable pub str_into_lisp : Bytes → Act S Value
  unfolding raw_call_value
  str_into_lisp bytes = raw_call_value (E.make_string bytes)

  -- `Value::copy_string_contents`
  unfoldable pub copy_string_contents : Value → Bytes → Act S Bytes
  unfolding raw_call
  copy_string_contents v buffer = do
    c ← raw_call (E.copy_string_contents v.raw (some buffer) (length buffer))
    require_done c.done "Emacs failed to copy string but did not raise a signal"
    copied_slice (min (length buffer) c.len) c.buffer

  -- `Env::string_bytes`
  unfoldable pub string_bytes : Value → Act S Bytes
  unfolding raw_call strip_trailing_zero_bytes
  string_bytes v = do
    size ← raw_call (E.copy_string_contents v.raw none 0)
    require_done size.done "Emacs failed to give string's length but did not raise a signal"
    copy ← raw_call (E.copy_string_contents v.raw (some (replicate size.len 0)) size.len)
    require_done copy.done "Emacs failed to copy string but did not raise a signal"
    pure (strip_trailing_zero_bytes copy.buffer)

  -- `String`
  abbrev pub string_from_lisp : Value → Act S Bytes
  string_from_lisp v = string_bytes v

module _ {S : Type 0} where
  -- `String::from_utf8(bytes).unwrap()`, where `problem` is what `{:?}` prints of the error, if the
  -- bytes are no UTF-8.
  abbrev utf8_or_panic : Option Bytes → Bytes → Act S Bytes
  utf8_or_panic none bytes = pure bytes
  utf8_or_panic (some problem) bytes =
      panic (string (codes "called `Result::unwrap()` on an `Err` value: " ++ problem))

module _ {S : Type 0} ⦃E : Emacs S⦄ where
  -- `String` with the feature `utf-8-validation`.
  unfoldable pub string_from_lisp_validated : (Bytes → Option Bytes) → Value → Act S Bytes
  unfolding string_bytes
  string_from_lisp_validated problem_of v = do
    bytes ← string_bytes v
    utf8_or_panic (problem_of bytes) bytes
