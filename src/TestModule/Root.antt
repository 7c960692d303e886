-- ===== src/TestModule/Root.antt =====
-- The root of the test module (test-module/src/lib.rs).
use emacs_module_rs.Base.{ℤ, pos, Bool, [], ◌∷◌, ◌++◌}
use emacs_module_rs.Machine.{Bytes, codes, Address, Emacs, Act, pure, ◌>>=◌, ◌>>◌}
use emacs_module_rs.Value.{Value}
use emacs_module_rs.Call.{values_args, call_name}
use emacs_module_rs.Convert.Integer.{i64_from_lisp, i64_into_lisp}
use emacs_module_rs.Convert.Integer.Overflow.{add_i64, sub_i64}
use emacs_module_rs.Func.{CallArgs, parse_arg, make_function}
use emacs_module_rs.Init.{InitFn, message}
use emacs_module_rs.Memory.{TypeId, Platform, embed, done}
use emacs_module_rs.TestModule.State.{Contents, string_wrapper, Cmd}
use emacs_module_rs.TestModule.Basics.{init_basics}
use emacs_module_rs.TestModule.Errors.{init_errors}

-- The addresses of the functions that the initialization exports by hand.
pub record Functions : Type 0 where
  pub sum_and_diff_function : Address
  pub sum_function : Address
  pub parse_arg_function : Address

-- `format!("{}/", MODULE)`
abbrev pub module_prefix : Bytes
module_prefix = codes "t" ++ codes "/"

abbrev pub greeting : Bytes
greeting = codes "Hel" ++ 0 ∷ codes "lo, " ++ 0 ∷ codes "Emacs"

module _ {S : Type 0} ⦃E : Emacs S⦄ where
  -- `t`, without the hook that silences the logging of panics.
  unfoldable pub test_module : Functions → InitFn S
  unfolding message init_basics init_errors
  test_module functions = do
    message greeting
    init_basics module_prefix functions.sum_and_diff_function functions.sum_function
    init_errors module_prefix functions.parse_arg_function
    pure tt

  -- `emacs::lambda!(env, dec, 1..1, "decrement")`, of the address of what it declares.
  unfoldable pub make_dec : Address → Act S Value
  unfolding make_function
  make_dec dec = make_function dec 1 1 (codes "decrement") 0

  unfoldable pub make_inc_and_plus : (inc plus : Address) → Act S Value
  unfolding make_function call_name
  make_inc_and_plus inc plus = do
    vi ← make_function inc 1 1 (codes "increment") 0
    vp ← make_function plus 2 2 [] 0
    call_name (codes "cons") (values_args (vi ∷ vp ∷ []))

module _ {S : Type 0} ⦃E : Emacs S⦄ (checks : Bool) where
  unfoldable pub inc : ℤ → Act S ℤ
  unfolding add_i64
  inc x = add_i64 checks x (pos 1)

  -- The functions that `make_dec` and `make_inc_and_plus` wrap.
  unfoldable pub dec_arg : CallArgs → Act S Value
  unfolding parse_arg i64_from_lisp i64_into_lisp sub_i64
  dec_arg args = do
    i ← parse_arg i64_from_lisp args 0
    d ← sub_i64 checks i (pos 1)
    i64_into_lisp d

  unfoldable pub inc_arg : CallArgs → Act S Value
  unfolding parse_arg i64_from_lisp i64_into_lisp add_i64
  inc_arg args = do
    i ← parse_arg i64_from_lisp args 0
    d ← add_i64 checks i (pos 1)
    i64_into_lisp d

  unfoldable pub plus_args : CallArgs → Act S Value
  unfolding parse_arg i64_from_lisp i64_into_lisp add_i64
  plus_args args = do
    x ← parse_arg i64_from_lisp args 0
    y ← parse_arg i64_from_lisp args 1
    s ← add_i64 checks x y
    i64_into_lisp s

module _ {S : Type 0} where
  -- `str::to_uppercase` is the standard library's.
  abbrev pub to_uppercase : (Bytes → Bytes) → Bytes → Act S Bytes
  to_uppercase upper s = pure (upper s)

module _ {S : Type 0} ⦃E : Emacs S⦄ (platform : Platform S Contents) (ty : TypeId) where
  unfoldable pub wrap_string : Bytes → Cmd S Value
  unfolding embed
  wrap_string s process = done (embed platform ty (string_wrapper s) process)
