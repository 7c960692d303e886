-- ===== src/Tests/Modules.antt =====
-- The theorems of the macros and of loading, at concrete inputs.
use emacs_module_rs.Base.{
  ◌==◌, if◌then◌else◌, ◌≡◌, ◌↔◌, refl, arith, true, false, none, some, List, [], ◌∷◌, ◌++◌,
}
use emacs_module_rs.Machine.{codes, World, Outcome, ok, Act, pure, borrow_error, fail}
use emacs_module_rs.Exit.{raw_call}
use emacs_module_rs.Exit.Laws.{quiet}
use emacs_module_rs.Value.{Value, value}
use emacs_module_rs.Unwinding.{IsLoaded, NoPanic, NeverPanics-pure}
use emacs_module_rs.Frames.{KeepsFrame-pure}
use emacs_module_rs.Names.{lisp_pkg, lisp_path, ident_lisp_name}
use emacs_module_rs.Names.Paths.{join, hyphenated, lisp_path-join}
use emacs_module_rs.Machine.{lisp_name}
use emacs_module_rs.Init.{Loading, init_refs, init_to_function, init_to_symbol, setup, initialize}
use emacs_module_rs.Init.Loaded.{crate_refs}
use emacs_module_rs.Defun.Exporter.{fn_name, ModuleOpts, LispFunc, feature_of, prefix_of, auto_init}
use emacs_module_rs.Defun.Exporter.Prefix.{register, auto_init-prefix}
use emacs_module_rs.Init.Ready.{Sets-frame, initialize-IsLoaded}
use emacs_module_rs.Init.Status.{IsShown, IsCode, initialize_status}
use emacs_module_rs.Defun.Signature.{
  FnArg, typed, ident, reference, path, Arg, env, val, owned, ref, ref_mut, CheckedSignature,
  accepted, check_signature,
}
use emacs_module_rs.Defun.Signature.Arities.{IsNumbered, check_signature-IsNumbered}
use emacs_module_rs.Defun.Wrapper.{Passed, borrowed, borrowed_mut, ArgTypes, wrapper}
use emacs_module_rs.Defun.Wrapper.Calm.{wrapper-NoPanic}
use emacs_module_rs.Defun.Wrapper.Held.{IsExclusive}
use emacs_module_rs.Defun.Wrapper.Exclusive.{wrapper-IsExclusive}
use emacs_module_rs.Tests.Toy.{Toy, toy, toy-ExitLaws, loaded, user_ptr}
use emacs_module_rs.Tests.Exits.{loaded-IsLoaded}

-- `fn insert(env: &Env, map: &mut Map, key: String)`
abbrev inputs : List FnArg
inputs =
    typed (ident (codes "env")) (reference false (path true (codes "Env")))
    ∷ typed (ident (codes "map")) (reference true (path true (codes "Map")))
    ∷ typed (ident (codes "key")) (path true (codes "String"))
    ∷ []

abbrev signature : CheckedSignature
signature = record {
  args = env ∷ val ref_mut 0 (some (codes "map")) ∷ val owned 1 (some (codes "key")) ∷ [];
  start = 2;
  end = 2;
}

accepts : check_signature inputs true ≡ accepted signature
unfolding check_signature
accepts = refl

check_signature-IsNumbered_example : IsNumbered inputs signature
check_signature-IsNumbered_example = check_signature-IsNumbered inputs true signature accepts

abbrev pub types : ArgTypes Toy Value
types = record {
  from = λ n v. pure v;
  cell = λ n. record { type_name = codes "Map"; finalize = 100 };
}

abbrev body : List (Passed Value) → Act Toy Value
body ps = pure (value 0)

wrapper-NoPanic_example : NoPanic (wrapper types (3 ∷ 4 ∷ []) body signature.args loaded).0
wrapper-NoPanic_example =
    wrapper-NoPanic toy-ExitLaws types body (λ n v. NeverPanics-pure v)
      (λ ps. NeverPanics-pure (value 0)) inputs true signature (3 ∷ 4 ∷ []) loaded accepts refl
      loaded-IsLoaded

-- One object of the type, which is passed twice.
abbrev pub embedded : World Toy
embedded = record loaded {
  emacs = record {
    exit = quiet;
    refs = [];
    objects = user_ptr (some 100) 4096 ∷ [];
    cells = λ n. none;
  };
}

abbrev twice : List Arg
twice = val ref_mut 0 none ∷ val ref 1 none ∷ []

-- The second borrow is refused.
twice_test : (wrapper types (0 ∷ 0 ∷ []) body twice embedded).0 ≡ Outcome.err borrow_error
unfolding wrapper raw_call
twice_test = refl

-- A function that tells aliased references.
abbrev telling : List (Passed Value) → Act Toy Value
telling (borrowed_mut c ∷ borrowed d ∷ []) = if c == d then pure (value 1) else pure (value 0)
telling _ = pure (value 0)

not_told : (ps : List (Passed Value)) → IsExclusive ps → body ps ≡ telling ps
not_told ps h = ground arith

wrapper-IsExclusive_example :
    wrapper types (0 ∷ 0 ∷ []) body twice embedded
    ≡ wrapper types (0 ∷ 0 ∷ []) telling twice embedded
wrapper-IsExclusive_example =
    wrapper-IsExclusive toy-ExitLaws types (0 ∷ 0 ∷ []) body telling (λ n v. KeepsFrame-pure v)
      not_told twice embedded

abbrev pub unloaded : World Toy
unloaded = record loaded { globals = λ name. none }

abbrev loading : Loading Toy
loading = record {
  global_refs = crate_refs;
  custom_errors = [];
  hook = fail borrow_error;
  debugging = false;
  debug = λ e. [];
}

initialize_status_example :
    (((initialize loading unloaded).0 ≡ ok 0) ↔ ((v : Value) × ((setup loading unloaded).0 ≡ ok v)))
    × (((initialize loading unloaded).0 ≡ ok 1)
        ↔ IsShown loading (setup loading unloaded).0 (setup loading unloaded).1)
    × IsCode (initialize loading unloaded).0
initialize_status_example = initialize_status loading unloaded

lisp_path-join_example :
    (lisp_pkg (join (codes "my_crate") (codes "sub_mod" ∷ [])) ≡ lisp_name (codes "my_crate"))
    × (lisp_path (codes "my_feature", codes "/") (join (codes "my_crate") (codes "sub_mod" ∷ []))
        ≡ lisp_name (codes "my_feature" ++ codes "/" ++ hyphenated (codes "sub_mod" ∷ [])))
lisp_path-join_example =
    lisp_path-join (codes "my_feature") (codes "/") (codes "my_crate") (codes "sub_mod" ∷ []) refl
      refl

abbrev pub loading_well : Loading Toy
loading_well = record loading { hook = pure (value 0) }

initialize-IsLoaded_example : IsLoaded (initialize loading_well unloaded).1
unfolding initialize setup init_refs init_to_function init_to_symbol ident_lisp_name
initialize-IsLoaded_example =
    initialize-IsLoaded toy-ExitLaws loading_well [] [] refl tt tt tt
      (Sets-frame (pure (value 0)) (KeepsFrame-pure (value 0))) unloaded refl

abbrev pub opts : ModuleOpts
opts = record { name = fn_name; separator = codes "/"; mod_in_name = false; defun_prefix = none }

abbrev pub insert_func : LispFunc
insert_func = record {
  ident = codes "insert";
  doc = [];
  module_path = codes "my_crate::map";
  signature = signature;
  opts = record { name = none; mod_in_name = none; user_ptr = none };
  lambda = 500;
}

auto_init-prefix_example :
    ((auto_init opts
        (codes "my_crate")
        (codes "my_map")
        (register (insert_func ∷ []))
        (pure tt)
        loaded).1.prefix
      ≡ (prefix_of none (feature_of fn_name (codes "my_crate") (codes "my_map")), codes "/"))
    × ((auto_init opts
          (codes "my_crate")
          (codes "my_map")
          (register (insert_func ∷ []))
          (pure tt)
          loaded).1.mod_in_name
        ≡ false)
auto_init-prefix_example =
    auto_init-prefix toy-ExitLaws opts (codes "my_crate") (codes "my_map") (insert_func ∷ [])
      (pure tt) loaded (KeepsFrame-pure tt)
