-- ===== src/Func.antt =====
-- Functions that are exported to Lisp (src/func.rs).
pub mod References
pub mod Exits
pub mod Boundary
pub mod Signalling
pub mod Defining
use emacs_module_rs.Base.{
  ℕ, ℤ, pos, pos_part, take, map, Option, none, some, List, [], ◌∷◌, ◌++◌, length, get_elem?,
}
use emacs_module_rs.Machine.{
  Bytes, codes, decimal, Raw, Address, Emacs, string, Act, pure, panic, ◌>>=◌, ◌>>◌, attempt,
  catch_unwind,
}
use emacs_module_rs.Value.{Value, value, cstring, raw_call_value, intern}
use emacs_module_rs.Call.{values_args, call_name}
use emacs_module_rs.Convert.{FromLisp}
use emacs_module_rs.Convert.Integer.{i64, usize, as_type}
use emacs_module_rs.Signal.{maybe_exit, handle_panic}
use emacs_module_rs.Lifetime.{with_env}

module _ {S : Type 0} ⦃E : Emacs S⦄ where
  -- `Env::make_function`, with the arities `min..max` as `isize`.
  unfoldable pub make_function : Address → ℕ → ℕ → Bytes → Address → Act S Value
  unfolding cstring raw_call_value as_type
  make_function function min max doc details = do
    text ← cstring doc
    raw_call_value
        (E.make_function (as_type i64 (pos min)) (as_type i64 (pos max)) function text details)

  -- `Env::fset`
  unfoldable pub fset : Bytes → Value → Act S Value
  unfolding intern call_name
  fset name func = do
    symbol ← intern name
    call_name (codes "fset") (values_args (symbol ∷ func ∷ []))

  -- One mapping of `__export_functions!`: the function object is made before the name is interned.
  unfoldable pub export_function : Bytes → Bytes → Address → ℕ → ℕ → Bytes → Act S Value
  unfolding make_function fset
  export_function prefix name function min max doc = do
    func ← make_function function min max doc 0
    fset (prefix ++ name) func

-- `$name => ($func, $opt..)`: the name, the address of what `lambda!` declares, and the options.
pub record Mapping : Type 0 where
  pub name : Bytes
  pub function : Address
  pub min : ℕ
  pub max : ℕ
  pub doc : Option Bytes

-- The default of the doc string is empty.
abbrev pub doc_or_empty : Option Bytes → Bytes
doc_or_empty none = []
doc_or_empty (some doc) = doc

module _ {S : Type 0} ⦃E : Emacs S⦄ where
  -- `lambda!`, of the address of the function that it declares, `extern_lambda` below.
  unfoldable pub lambda_function : Address → ℕ → ℕ → Option Bytes → Act S Value
  unfolding make_function
  lambda_function function min max doc = make_function function min max (doc_or_empty doc) 0

  -- `__export_functions!`
  unfoldable pub export_functions : Bytes → List Mapping → Act S (Unit {0})
  unfolding export_function
  export_functions prefix [] = pure tt
  export_functions prefix (m ∷ rest) = do
    export_function prefix m.name m.function m.min m.max (doc_or_empty m.doc)
    export_functions prefix rest

-- `CallEnv`: the arguments that Emacs passes, `nargs` of them.
abbrev pub CallArgs : Type 0
CallArgs = List Raw

-- `CallEnv::new` and `raw_args`: the slice of `nargs as usize` values at the pointer.
unfoldable pub raw_args : ℤ → List Raw → CallArgs
unfolding as_type
raw_args nargs memory = take (pos_part (as_type usize nargs)) memory

-- `CallEnv::args`
abbrev pub arg_values : CallArgs → List Value
arg_values args = map value args

index_panic : ℕ → ℕ → Bytes
index_panic len i =
    codes "index out of bounds: the len is "
    ++ decimal len
    ++ codes " but the index is "
    ++ decimal i

module _ {S : Type 0} where
  abbrev arg_or_panic : ℕ → ℕ → Option Raw → Act S Value
  arg_or_panic len i none = panic (string (index_panic len i))
  arg_or_panic len i (some raw) = pure (value raw)

  -- `CallEnv::get_arg`
  unfoldable pub get_arg : CallArgs → ℕ → Act S Value
  unfolding index_panic
  get_arg args i = arg_or_panic (length args) i (get_elem? args i)

  -- `CallEnv::parse_arg`
  unfoldable pub parse_arg : {T : Type 0} → FromLisp S T → CallArgs → ℕ → Act S T
  unfolding get_arg
  parse_arg from args i = do v ← get_arg args i; from v

module _ {S : Type 0} ⦃E : Emacs S⦄ where
  -- What `handle_call` runs under `catch_unwind`: the function with the conversion of its result,
  -- and the exit that an error becomes.
  unfoldable pub run_guarded : Act S Value → Act S Raw
  unfolding maybe_exit
  run_guarded f = do lisp_result ← attempt f; maybe_exit lisp_result

  -- `CallEnv::handle_call`
  unfoldable pub handle_call : Act S Value → Act S Raw
  unfolding run_guarded handle_panic
  handle_call f = do result ← catch_unwind (run_guarded f); handle_panic result

  -- The function that `lambda!` declares: it has an `Env` of its own.
  unfoldable pub extern_lambda : (CallArgs → Act S Value) → CallArgs → Act S Raw
  unfolding handle_call with_env
  extern_lambda func args = with_env (handle_call (func args))
