-- ===== src/TestModule/Errors.antt =====
-- Errors that are caught, made and passed on (test-module/src/test_error.rs, macros.rs).
pub mod Catching
use emacs_module_rs.Base.{ℤ, pos_part, [], ◌∷◌, ◌++◌, List, if◌then◌else◌}
use emacs_module_rs.Machine.{
  Bytes, codes, Address, Emacs, signal as signal_kind, throw, kind, string, Static, Act, pure, fail,
  panic, ◌>>=◌, ◌>>◌, Result, success, failure, attempt,
}
use emacs_module_rs.Value.{Value, eq, temp_value_value}
use emacs_module_rs.Global.{bind_static}
use emacs_module_rs.Call.{values_args, tuple_args, call_value, call_name}
use emacs_module_rs.Convert.Integer.{i64, usize, as_type, int_into_lisp, i64_from_lisp}
use emacs_module_rs.Convert.Text.{str_into_lisp, string_from_lisp}
use emacs_module_rs.Signal.{signal, or_signal}
use emacs_module_rs.Func.{CallArgs, parse_arg, export_function}
use emacs_module_rs.Init.{InitFn, define_errors}

module _ {S : Type 0} ⦃E : Emacs S⦄ where
  -- `call!`: the arguments are converted before the function is looked up.
  unfoldable pub call_converted : Bytes → List (Act S Value) → Act S Value
  unfolding tuple_args call_name
  call_converted name args = do raws ← tuple_args args; call_name name (pure raws)

  unfoldable pub lisp_divide : Value → Value → Act S ℤ
  unfolding call_converted i64_from_lisp int_into_lisp
  lisp_divide x y = do
    a ← i64_from_lisp x
    b ← i64_from_lisp y
    v ← call_converted (codes "/") (int_into_lisp i64 a ∷ int_into_lisp i64 b ∷ [])
    i64_from_lisp v

  abbrev type_of_result : Result Value → Act S Value
  type_of_result (success v) = pure v
  type_of_result (failure (kind (signal_kind symbol _))) = temp_value_value symbol
  type_of_result (failure e) = fail e

  unfoldable pub get_type : Value → Act S Value
  unfolding call_value temp_value_value
  get_type f = do r ← attempt (call_value f (values_args [])); type_of_result r

  abbrev pub caught : Value → Result Value → Act S Value
  caught expected_tag (success v) = pure v
  caught expected_tag (failure (kind (throw tag value))) = do
    thrown ← temp_value_value tag
    same ← eq thrown expected_tag
    if same then temp_value_value value else fail (kind (throw tag value))
  caught expected_tag (failure e) = fail e

  unfoldable pub catch : Value → Value → Act S Value
  unfolding call_value temp_value_value eq
  catch expected_tag lambda = do
    r ← attempt (call_value lambda (values_args []))
    caught expected_tag r

  unfoldable pub apply : Value → Value → Act S Value
  unfolding call_name tuple_args
  apply lambda args = call_name (codes "apply") (tuple_args (pure lambda ∷ pure args ∷ []))

  -- `fs::read_to_string` is what the system gives; `emrs_file_error` is the static.
  unfoldable pub read_file : (Bytes → Result Bytes) → Static → Bytes → Act S Bytes
  unfolding or_signal bind_static
  read_file read_to_string emrs_file_error path =
      or_signal (read_to_string path) (bind_static emrs_file_error)

  unfoldable pub panic_with : Bytes → Act S (Unit {0})
  panic_with message = panic (string message)

  unfoldable pub signal_text : Value → Bytes → Act S (Unit {0})
  unfolding signal str_into_lisp tuple_args
  signal_text symbol message = signal (pure symbol) (tuple_args (str_into_lisp message ∷ []))

  -- `i as usize` of a negative number is past the arguments, so that `get_arg` panics.
  unfoldable pub parse_text_arg : CallArgs → Act S Bytes
  unfolding parse_arg i64_from_lisp as_type
  parse_text_arg args = do
    i ← parse_arg i64_from_lisp args 0
    parse_arg string_from_lisp args (pos_part (as_type usize i))

  -- What `define_errors!` registers, of the three statics: a parent may be left out.
  unfoldable pub define_test_errors : (file_error test_error orphan : Static) → InitFn S
  unfolding define_errors bind_static
  define_test_errors file_error test_error orphan = define_errors (
      (bind_static file_error, codes "File error", [])
      ∷ (bind_static test_error, codes "Hello", codes "rust-error" ∷ [])
      ∷ (bind_static orphan, codes "Error", [])
      ∷ [])

  -- `init`, of the address of the function that `lambda!` declares.
  unfoldable pub init_errors : Bytes → Address → InitFn S
  unfolding export_function
  init_errors module_prefix parse_arg_function = do
    export_function (module_prefix ++ codes "error:") (codes "parse-arg") parse_arg_function 2 5 []
    pure tt

  unfoldable pub signal_custom : Static → Act S (Unit {0})
  unfolding signal bind_static
  signal_custom test_error = signal (bind_static test_error) (values_args [])
