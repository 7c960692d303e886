-- ===== src/Signal.antt =====
-- Errors and panics turned into non-local exits, and errors defined and signaled (src/error.rs).
use emacs_module_rs.Base.{[], ◌∷◌, ◌++◌}
use emacs_module_rs.Machine.{
  Bytes, codes, Raw, Emacs, temp_value, ErrorKind, signal as signal_kind, throw,
  wrong_type_user_ptr, Error, kind, display_kind, display, string, static_str, kind_payload, opaque,
  Static, Act, pure, fail, panic, ◌>>=◌, ◌>>◌, Result, success, failure, Thread, finished, unwound,
  attempt,
}
use emacs_module_rs.Exit.{non_local_exit_signal, non_local_exit_throw}
use emacs_module_rs.Value.{Value, value, intern}
use emacs_module_rs.Global.{GlobalRef, deref, bind_static}
use emacs_module_rs.Statics.{error, rust_error, rust_panic, rust_wrong_type_user_ptr, nil}
use emacs_module_rs.Call.{LispArgs, values_args, tuple_args, call_name, list}
use emacs_module_rs.Convert.Text.{str_into_lisp}

module _ {S : Type 0} ⦃E : Emacs S⦄ where
  unfoldable pub signal_internal : GlobalRef → Bytes → Act S Raw
  unfolding str_into_lisp list non_local_exit_signal
  signal_internal symbol text = do
    message ← str_into_lisp text
    details ← list (values_args (message ∷ []))
    non_local_exit_signal symbol.raw details.raw

  -- The call of `signal_internal` with one of the static symbols.
  unfoldable pub signal_static : Static → Bytes → Act S Raw
  unfolding signal_internal deref
  signal_static name text = do symbol ← deref name; signal_internal symbol text

  -- `.unwrap_or_else(|_| panic!("Failed to signal {}", text))`
  abbrev pub or_panic : Bytes → Result Raw → Act S Raw
  or_panic text (success raw) = pure raw
  or_panic text (failure _) = panic (string (codes "Failed to signal " ++ text))

  unfoldable pub handle_known : ErrorKind → Act S Raw
  unfolding signal_static non_local_exit_signal non_local_exit_throw
  handle_known (signal_kind symbol details) = non_local_exit_signal symbol.raw details.raw
  handle_known (throw tag value) = non_local_exit_throw tag.raw value.raw
  handle_known (wrong_type_user_ptr expected) = do
    let text = display_kind (wrong_type_user_ptr expected)
    r ← attempt (signal_static rust_wrong_type_user_ptr text)
    or_panic text r

  -- The errors that are not an `ErrorKind`.
  unfoldable pub signal_rust_error : Error → Act S Raw
  unfolding signal_static
  signal_rust_error e = do
    r ← attempt (signal_static rust_error (display e))
    or_panic (display e) r

  unfoldable pub maybe_exit : Result Value → Act S Raw
  unfolding handle_known signal_rust_error
  maybe_exit (success v) = pure v.raw
  maybe_exit (failure (kind k)) = handle_known k
  maybe_exit (failure e) = signal_rust_error e

  -- A panic that cannot be signaled is printed on the standard output, which is left out, and the
  -- function returns nil.
  abbrev pub or_nil : Result Raw → Act S Raw
  or_nil (success raw) = pure raw
  or_nil (failure _) = do v ← bind_static nil; pure v.raw

  unfoldable pub signal_panic : Bytes → Act S Raw
  unfolding signal_static bind_static
  signal_panic text = do r ← attempt (signal_static rust_panic text); or_nil r

  -- `downcast::<String>()` finds no `&'static str`: such a payload is printed as any other is, by
  -- the `Debug` of `dyn Any`.
  unfoldable pub handle_panic : Thread Raw → Act S Raw
  unfolding signal_panic handle_known
  handle_panic (finished raw) = pure raw
  handle_panic (unwound (string text)) = signal_panic text
  handle_panic (unwound (kind_payload k)) = handle_known k
  handle_panic (unwound (static_str _)) = signal_panic (codes "Any { .. }")
  handle_panic (unwound opaque) = signal_panic (codes "Any { .. }")

  -- `Env::define_error`: the name and the parents are converted first, the message with the call.
  unfoldable pub define_error : Act S Value → Bytes → LispArgs S → Act S Value
  unfolding call_name tuple_args str_into_lisp list
  define_error name message parents = do
    symbol ← name
    parent_list ← list parents
    call_name (codes "define-error")
        (tuple_args (pure symbol ∷ str_into_lisp message ∷ pure parent_list ∷ []))

  unfoldable pub define_core_errors : Act S (Unit {0})
  unfolding define_error intern bind_static
  define_core_errors = do
    define_error (bind_static rust_panic) (codes "Rust panic") (tuple_args (bind_static error ∷ []))
    define_error (bind_static rust_error) (codes "Rust error") (tuple_args (bind_static error ∷ []))
    wrong_type ← intern (codes "wrong-type-argument")
    define_error (bind_static rust_wrong_type_user_ptr) (codes "Wrong type user-ptr")
        (tuple_args (bind_static rust_error ∷ pure wrong_type ∷ []))
    pure tt

  -- `Env::signal`
  unfoldable pub signal : {T : Type 0} → Act S Value → LispArgs S → Act S T
  unfolding list
  signal name details = do
    symbol ← name
    payload ← list details
    fail (kind (signal_kind (temp_value symbol.raw) (temp_value payload.raw)))

  -- `ResultExt::or_signal`
  unfoldable pub or_signal : {T : Type 0} → Result T → Act S Value → Act S T
  unfolding signal str_into_lisp tuple_args
  or_signal (success x) name = pure x
  or_signal (failure e) name = signal name (tuple_args (str_into_lisp (display e) ∷ []))
