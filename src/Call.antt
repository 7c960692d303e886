-- ===== src/Call.antt =====
-- Calls of Lisp functions (src/call.rs, emacs-macros/src/lisp_args.rs), and the methods of `Env`
-- that call one of the functions of src/subr.rs. A callable and each argument of a tuple is the
-- conversion that gives it.
pub mod Order
use emacs_module_rs.Base.{List, [], ◌∷◌, map}
use emacs_module_rs.Machine.{Bytes, codes, Raw, Emacs, Static, Act, pure, ◌>>=◌}
use emacs_module_rs.Value.{Value, protect, raw_call_value_unprotected, intern}
use emacs_module_rs.Global.{GlobalRef, bind, bind_static}
use emacs_module_rs.Statics.{
  cons as cons_subr, car as car_subr, cdr as cdr_subr, vector as vector_subr, list as list_subr,
}

-- `IntoLispArgs`
abbrev pub LispArgs : Type 0 → Type 0
LispArgs S = Act S (List Raw)

module _ {S : Type 0} where
  -- Arrays and slices of values (`impl_for_array`, and the impl for `&T`).
  abbrev pub values_args : List Value → LispArgs S
  values_args vs = pure (map (λ v. v.raw) vs)

  -- Tuples (`impl_for_tuple`): the fields are converted from left to right, up to the first error.
  unfoldable pub tuple_args : List (Act S Value) → LispArgs S
  tuple_args [] = pure []
  tuple_args (into_lisp ∷ rest) = do v ← into_lisp; raws ← tuple_args rest; pure (v.raw ∷ raws)

module _ {S : Type 0} ⦃E : Emacs S⦄ where
  -- `Value::call_unprotected`
  unfoldable pub call_unprotected : Value → LispArgs S → Act S Value
  unfolding raw_call_value_unprotected
  call_unprotected f args = do
    lisp_args ← args
    raw_call_value_unprotected (E.funcall f.raw lisp_args)

  -- `Value::call`
  unfoldable pub call_value : Value → LispArgs S → Act S Value
  unfolding call_unprotected protect
  call_value f args = do v ← call_unprotected f args; protect v

  -- `Env::call`
  unfoldable pub call : Act S Value → LispArgs S → Act S Value
  unfolding call_value
  call func args = do f ← func; call_value f args

  -- `Env::call` of a function by name.
  unfoldable pub call_name : Bytes → LispArgs S → Act S Value
  unfolding call intern
  call_name name args = call (intern name) args

  -- `GlobalRef::call`
  unfoldable pub call_global : GlobalRef → LispArgs S → Act S Value
  unfolding call_value
  call_global g args = call_value (bind g) args

  -- `Env::call` of a function that a static holds.
  unfoldable pub call_static : Static → LispArgs S → Act S Value
  unfolding call bind_static
  call_static name args = call (bind_static name) args

  -- `Env::list`
  unfoldable pub list : LispArgs S → Act S Value
  unfolding call_static
  list args = call_static list_subr args

  -- `Env::vector`
  unfoldable pub vector : LispArgs S → Act S Value
  unfolding call_static
  vector args = call_static vector_subr args

  -- `Env::cons`
  unfoldable pub cons : Act S Value → Act S Value → Act S Value
  unfolding call_static tuple_args
  cons a d = call_static cons_subr (tuple_args (a ∷ d ∷ []))

  -- `Value::car` and `Value::cdr`, before the conversion of the result.
  unfoldable pub car : Value → Act S Value
  unfolding call_static tuple_args
  car v = call_static car_subr (tuple_args (pure v ∷ []))

  unfoldable pub cdr : Value → Act S Value
  unfolding call_static tuple_args
  cdr v = call_static cdr_subr (tuple_args (pure v ∷ []))

  -- `Env::provide`
  unfoldable pub provide : Bytes → Act S Value
  unfolding intern call_name
  provide name = do symbol ← intern name; call_name (codes "provide") (values_args (symbol ∷ []))

  -- `Env::call_unprotected`
  unfoldable pub call_env_unprotected : Act S Value → LispArgs S → Act S Value
  unfolding call_unprotected
  call_env_unprotected func args = do f ← func; call_unprotected f args

  -- `GlobalRef::call_unprotected`
  unfoldable pub call_global_unprotected : GlobalRef → LispArgs S → Act S Value
  unfolding call_unprotected
  call_global_unprotected g args = call_unprotected (bind g) args

module _ {S : Type 0} where
  -- `IntoLispCallable` and `IntoLispSymbol`, of a value and of a `GlobalRef`; a text is interned, and
  -- a static is bound.
  abbrev pub value_callable : Value → Act S Value
  value_callable v = pure v

  abbrev pub global_callable : GlobalRef → Act S Value
  global_callable g = value_callable (bind g)

  abbrev pub value_symbol : Value → Act S Value
  value_symbol v = pure v

  abbrev pub global_symbol : GlobalRef → Act S Value
  global_symbol g = value_symbol (bind g)

  unfoldable pub static_symbol : Static → Act S Value
  unfolding bind_static
  static_symbol name = do v ← bind_static name; value_symbol v

module _ {S : Type 0} ⦃E : Emacs S⦄ where
  unfoldable pub text_symbol : Bytes → Act S Value
  unfolding intern
  text_symbol text = intern text
