-- ===== src/Init.antt =====
-- Loading a module (src/init.rs): the initializers of global references, the errors of the crate and
-- of the module, the test for the Emacs bug 31238, and the hook of the module, with the code that
-- Emacs gets back. The locks are left out, since loading is sequential.
pub mod Sets
pub mod Loaded
pub mod Status
pub mod Ready
pub mod References
use emacs_module_rs.Base.{
  ℕ, Bool, true, false, Option, none, some, List, [], ◌∷◌, ◌++◌, if◌then◌else◌,
}
use emacs_module_rs.Machine.{
  Bytes, codes, Raw, Emacs, signal, throw, Error, kind, string, Static, World, Act, ok, pure, panic,
  gets, ◌>>=◌, ◌>>◌, Result, success, failure, Thread, finished, unwound, attempt, catch_unwind,
}
use emacs_module_rs.Names.{equal_bytes}
use emacs_module_rs.Value.{Value, temp_value_value, is_not_nil, intern}
use emacs_module_rs.Global.{GlobalRef, init}
use emacs_module_rs.Statics.{message as message_subr}
use emacs_module_rs.Call.{values_args, tuple_args, call_name, call_static}
use emacs_module_rs.Convert.{bool_into_lisp}
use emacs_module_rs.Convert.Text.{str_into_lisp}
use emacs_module_rs.Signal.{define_core_errors, define_error}
use emacs_module_rs.Lifetime.{with_env}

-- `InitFn`
abbrev pub InitFn : Type 0 → Type 0
InitFn S = Act S (Unit {0})

module _ {S : Type 0} where
  -- The loops over `__GLOBAL_REFS__`, `__CUSTOM_ERRORS__` and `__INIT_FNS__`.
  unfoldable pub run_all : List (InitFn S) → InitFn S
  run_all [] = pure tt
  run_all (f ∷ rest) = do f; run_all rest

  -- `HAS_FIXED_GC_BUG_31238.get_or_init(|| fixed)`, on what it held.
  abbrev pub fix_or_init : Option Bool → Bool → InitFn S
  fix_or_init none fixed w = (ok tt, record w { has_fixed_gc_bug = some fixed })
  fix_or_init (some _) fixed w = (ok tt, w)

module _ {S : Type 0} ⦃E : Emacs S⦄ where
  -- `OnceGlobalRef::init_to_symbol` and `init_to_function`
  unfoldable pub init_to_symbol : Static → Bytes → Act S GlobalRef
  unfolding init intern
  init_to_symbol name text = init name (intern text)

  unfoldable pub init_to_function : Static → Bytes → Act S GlobalRef
  unfolding init intern call_name
  init_to_function name text =
      init name
        (do symbol ← intern text; call_name (codes "indirect-function") (values_args (symbol ∷ [])))

  -- The initializer that `global_refs!` registers, by the method it is given.
  unfoldable pub init_refs : (Static → Bytes → Act S GlobalRef) → List (Static × Bytes) → InitFn S
  init_refs init_method [] = pure tt
  init_refs init_method ((name, text) ∷ rest) = do init_method name text; init_refs init_method rest

  -- `Env::message`
  unfoldable pub message : Bytes → Act S Value
  unfolding call_static tuple_args str_into_lisp
  message text = call_static message_subr (tuple_args (str_into_lisp text ∷ []))

  -- The initializer that `define_errors!` registers: the names of the parents are interned first.
  unfoldable pub intern_all : List Bytes → Act S (List Value)
  unfolding intern
  intern_all [] = pure []
  intern_all (name ∷ rest) = do v ← intern name; vs ← intern_all rest; pure (v ∷ vs)

  unfoldable pub define_errors : List (Act S Value × Bytes × List Bytes) → InitFn S
  unfolding define_error intern_all
  define_errors [] = pure tt
  define_errors ((name, text, parents) ∷ rest) = do
    vs ← intern_all parents
    define_error name text (values_args vs)
    define_errors rest

  -- `debugging` is whether the environment variable EMACS_MODULE_RS_DEBUG is 1.
  unfoldable pub check_gc_bug_31238 : (debugging : Bool) → InitFn S
  unfolding intern call_name tuple_args str_into_lisp is_not_nil bool_into_lisp
  check_gc_bug_31238 debugging = do
    emacs_version ← intern (codes "emacs-version")
    version ← call_name (codes "default-value") (values_args (emacs_version ∷ []))
    v ← call_name (codes "version<=") (tuple_args (str_into_lisp (codes "27") ∷ pure version ∷ []))
    fixed ← is_not_nil v
    if debugging
        then (do
          disable ← intern (codes "module-rs-disable-gc-bug-31238-workaround")
          call_name (codes "set") (tuple_args (pure disable ∷ bool_into_lisp fixed ∷ [])))
        else pure v
    old ← gets (λ w. w.has_fixed_gc_bug)
    fix_or_init old fixed

-- `debugging`, of the environment variable EMACS_MODULE_RS_DEBUG.
abbrev pub debugging_of : Option Bytes → Bool
debugging_of none = false
debugging_of (some text) = equal_bytes text (codes "1")

-- What is loaded: the three lists, the hook, and the environment variable. `debug` is what `{:#?}`
-- prints of an `anyhow::Error`.
pub record Loading (S : Type 0) : Type 0 where
  pub global_refs : List (InitFn S)
  pub custom_errors : List (InitFn S)
  pub hook : Act S Value
  pub debugging : Bool
  pub debug : Error → Bytes

module _ {S : Type 0} ⦃E : Emacs S⦄ (loading : Loading S) where
  -- The closure of `initialize`.
  unfoldable pub setup : Act S Value
  unfolding run_all define_core_errors check_gc_bug_31238
  setup = do
    run_all loading.global_refs
    define_core_errors
    check_gc_bug_31238 loading.debugging
    run_all loading.custom_errors
    loading.hook

  unfoldable pub report_error : Error → Act S Value
  unfolding temp_value_value call_name tuple_args str_into_lisp message
  report_error (kind (signal symbol details)) = do
    s ← temp_value_value symbol
    d ← temp_value_value details
    call_name (codes "message") (
        tuple_args (
          str_into_lisp (codes "Error during initialization: symbol: %s data: %s")
          ∷ pure s
          ∷ pure d
          ∷ []))
  report_error e = message (codes "Error during initialization: " ++ loading.debug e)

  -- `.expect(..)`
  abbrev pub expect_value : Bytes → Result Value → Act S Value
  expect_value text (success v) = pure v
  expect_value text (failure e) = panic (string (text ++ codes ": " ++ loading.debug e))

  unfoldable pub status_of_setup : Result Value → Act S ℕ
  unfolding report_error
  status_of_setup (success _) = pure 0
  status_of_setup (failure e) = do
    r ← attempt (report_error e)
    expect_value (codes "Failed to message Emacs about initialization error") r
    pure 1

  unfoldable pub status_of_thread : Thread ℕ → Act S ℕ
  unfolding message
  status_of_thread (finished v) = pure v
  status_of_thread (unwound _) = do
    r ← attempt (message (codes "Panic during initialization: Any { .. }"))
    expect_value (codes "Failed to message Emacs about initialization panic") r
    pure 2

  -- `initialize`
  unfoldable pub initialize : Act S ℕ
  unfolding setup status_of_setup status_of_thread
  initialize = do
    result ← catch_unwind (do r ← attempt setup; status_of_setup r)
    status_of_thread result

  -- `emacs_module_init` and `emacs_rs_module_init` of `__module_init!`
  unfoldable pub module_init : Act S ℕ
  unfolding initialize with_env
  module_init = with_env initialize
