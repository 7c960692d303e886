-- ===== src/Machine/Fault.antt =====
-- The errors and panics of the Rust side (src/error.rs): `ErrorKind`, what else an `anyhow::Error`
-- of this crate holds, and the payload of a panic.
use emacs_module_rs.Base.{ℕ, ◌++◌}
use emacs_module_rs.Machine.Text.{Bytes, codes, decimal}
use emacs_module_rs.Machine.Table.{Raw}

pub record TempValue : Type 0 where
  pub raw : Raw

abbrev pub temp_value : Raw → TempValue
temp_value raw = record { raw = raw }

-- The last constructor's text is the expected type's name.
pub data ErrorKind : Type 0 where
  signal : TempValue → TempValue → ErrorKind
  throw : TempValue → TempValue → ErrorKind
  wrong_type_user_ptr : Bytes → ErrorKind

-- `anyhow::Error`: this crate's own kinds, the errors of the standard library that `?` converts,
-- and any other error, by the texts that its `Display` and `Debug` give.
pub data Error : Type 0 where
  kind : ErrorKind → Error
  nul_error : ℕ → Error
  try_from_int_error : Error
  borrow_error : Error
  borrow_mut_error : Error
  other : (display : Bytes) → (debug : Bytes) → Error

-- `Display` of the errors that carry no raw value. The two others print pointers, which are no
-- part of any claim here: the text stops at their names.
unfoldable pub display_kind : ErrorKind → Bytes
display_kind (signal _ _) = codes "Non-local signal"
display_kind (throw _ _) = codes "Non-local throw"
display_kind (wrong_type_user_ptr expected) = codes "expected: " ++ expected

unfoldable pub display : Error → Bytes
unfolding display_kind decimal
display (kind k) = display_kind k
display (nul_error at) = codes "nul byte found in provided data at position: " ++ decimal at
display try_from_int_error = codes "out of range integral type conversion attempted"
display borrow_error = codes "already mutably borrowed"
display borrow_mut_error = codes "already borrowed"
display (other text _) = text

-- `Box<dyn Any>` of an unwinding panic. `panic!` with arguments gives a `String`, `panic!` of a
-- bare literal a `&'static str`.
pub data Payload : Type 0 where
  string : Bytes → Payload
  static_str : Bytes → Payload
  kind_payload : ErrorKind → Payload
  opaque : Payload
