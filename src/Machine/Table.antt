-- ===== src/Machine/Table.antt =====
-- The C function table `emacs_env` (emacs-module/src/emacs-module.rs) as an interface: the Emacs
-- process is no part of the repository, so each function that the crate calls is a field, and what
-- the manual documents of the functions is a record of laws. A pointer of C is its address.
use emacs_module_rs.Base.{ℕ, ℤ, ◌+◌, ◌≤◌, ◌≡◌, ◌==◌, Bool, Option, List, if◌then◌else◌}
use emacs_module_rs.Machine.Text.{Bytes}

-- `emacs_value`, an opaque pointer.
abbrev pub Raw : Type 0
Raw = ℕ

-- `*mut c_void`, and the address of a C function.
abbrev pub Address : Type 0
Address = ℕ

-- What `non_local_exit_get` returns and writes through its two pointers. With the status
-- `emacs_funcall_exit_return` the two values are not written, and mean nothing.
pub record FuncallExit : Type 0 where
  pub status : ℕ
  pub symbol : Raw
  pub payload : Raw

abbrev pub exit_of : ℕ → Raw → Raw → FuncallExit
exit_of status symbol payload = record { status = status; symbol = symbol; payload = payload }

-- What `copy_string_contents` returns, the buffer after the call, and the length it writes back.
pub record Copied : Type 0 where
  pub done : Bool
  pub buffer : Bytes
  pub len : ℕ

-- `S` is what Emacs knows, the pending non-local exit included. The functions that only read take
-- the state and return no new one.
pub record Emacs (S : Type 0) : Type 0 where
  pub make_global_ref : Raw → S → Raw × S
  pub free_global_ref : Raw → S → Unit {0} × S
  pub non_local_exit_get : S → FuncallExit
  pub non_local_exit_clear : S → S
  pub non_local_exit_signal : Raw → Raw → S → S
  pub non_local_exit_throw : Raw → Raw → S → S
  pub make_function : ℤ → ℤ → Address → Bytes → Address → S → Raw × S
  pub funcall : Raw → List Raw → S → Raw × S
  pub intern : Bytes → S → Raw × S
  pub type_of : Raw → S → Raw × S
  pub is_not_nil : Raw → S → Bool
  pub eq : Raw → Raw → S → Bool
  pub extract_integer : Raw → S → ℤ × S
  pub make_integer : ℤ → S → Raw × S
  pub extract_float : Raw → S → ℕ × S
  pub make_float : ℕ → S → Raw × S
  -- The buffer is `none` for the null pointer, and else what the caller's memory holds.
  pub copy_string_contents : Raw → Option Bytes → ℕ → S → Copied × S
  pub make_string : Bytes → S → Raw × S
  pub make_user_ptr : Option Address → Address → S → Raw × S
  pub get_user_ptr : Raw → S → Address × S
  pub get_user_finalizer : Raw → S → Option Address × S
  pub vec_get : Raw → ℤ → S → Raw × S
  pub vec_set : Raw → ℤ → Raw → S → Unit {0} × S
  pub vec_size : Raw → S → ℤ × S

module _ {S : Type 0} ⦃E : Emacs S⦄ where
  -- No exit is pending.
  abbrev pub IsQuiet : S → Type 0
  IsQuiet s = (E.non_local_exit_get s).status ≡ 0

-- The manual on non-local exits ("Module Nonlocal"): three statuses; clearing leaves none; an exit
-- that is set while none is pending is the one that is read.
pub record ExitLaws (S : Type 0) ⦃E : Emacs S⦄ : Type 0 where
  pub status_known : (s : S) → (E.non_local_exit_get s).status ≤ 2
  pub get-clear : (s : S) → IsQuiet (E.non_local_exit_clear s)
  pub get-signal :
      (a b : Raw) (s : S)
      → IsQuiet s
      → E.non_local_exit_get (E.non_local_exit_signal a b s) ≡ exit_of 1 a b
  pub get-throw :
      (a b : Raw) (s : S)
      → IsQuiet s
      → E.non_local_exit_get (E.non_local_exit_throw a b s) ≡ exit_of 2 a b

-- The manual on global references ("Module Values"): they are counted; a reference is made and
-- freed only while no exit is pending, and neither call sets one then. `refs r s` is how many
-- times the reference `r` is held.
pub record RefLaws (S : Type 0) ⦃E : Emacs S⦄ (refs : Raw → S → ℕ) : Type 0 where
  pub make-adds :
      (v : Raw) (s : S) (r : Raw)
      → IsQuiet s
      → let (g, s') = E.make_global_ref v s in refs r s' ≡ (if g == r then 1 else 0) + refs r s
  pub make-IsQuiet : (v : Raw) (s : S) → IsQuiet s → IsQuiet (E.make_global_ref v s).1
  pub free-removes :
      (g : Raw) (s : S) (r : Raw)
      → IsQuiet s
      → (if g == r then 1 else 0) ≤ refs r s
      → (if g == r then 1 else 0) + refs r (E.free_global_ref g s).1 ≡ refs r s
  pub free-IsQuiet : (g : Raw) (s : S) → IsQuiet s → IsQuiet (E.free_global_ref g s).1
  pub refs-clear : (s : S) (r : Raw) → refs r (E.non_local_exit_clear s) ≡ refs r s
  pub refs-signal :
      (a b : Raw) (s : S) (r : Raw) → refs r (E.non_local_exit_signal a b s) ≡ refs r s
  pub refs-throw : (a b : Raw) (s : S) (r : Raw) → refs r (E.non_local_exit_throw a b s) ≡ refs r s
