-- ===== src/TestModule/Basics.antt =====
-- Numbers and texts (test-module/src/test_basics.rs), and vectors of Lisp (test_vector.rs).
use emacs_module_rs.Base.{
  ℕ, zero, suc, ◌+◌, ℤ, pos, negsuc, pos_part, Bool, Option, none, some, [], ◌∷◌, ◌++◌, replicate,
}
use emacs_module_rs.Machine.{Bytes, codes, decimal, Address, Emacs, Act, pure, ◌>>=◌, ◌>>◌}
use emacs_module_rs.Value.{Value}
use emacs_module_rs.Call.{values_args, list}
use emacs_module_rs.Convert.{option_into_lisp, value_from_lisp, value_into_lisp}
use emacs_module_rs.Convert.Integer.{u64, usize, as_type, max_value, i64_from_lisp, i64_into_lisp}
use emacs_module_rs.Convert.Integer.Overflow.{add_i64, sub_i64}
use emacs_module_rs.Convert.Text.{str_into_lisp, copy_string_contents}
use emacs_module_rs.Func.{CallArgs, parse_arg, make_function, fset, export_function}
use emacs_module_rs.Init.{InitFn}
use emacs_module_rs.Vector.{Vector, vec_get, vec_set, make_vector}

-- `format!("{}", x)` of an `i64`
unfoldable pub signed_decimal : ℤ → Bytes
unfolding decimal
signed_decimal (pos n) = decimal n
signed_decimal (negsuc n) = b'-' ∷ decimal (n + 1)

-- `Option::map`
abbrev mapped : (Bytes → Bytes) → Option Bytes → Option Bytes
mapped f none = none
mapped f (some s) = some (f s)

module _ {S : Type 0} ⦃E : Emacs S⦄ (checks : Bool) where
  unfoldable pub sum_and_diff : CallArgs → Act S Value
  unfolding parse_arg i64_from_lisp i64_into_lisp add_i64 sub_i64 list
  sum_and_diff args = do
    x ← parse_arg i64_from_lisp args 0
    y ← parse_arg i64_from_lisp args 1
    s ← add_i64 checks x y
    vs ← i64_into_lisp s
    d ← sub_i64 checks x y
    vd ← i64_into_lisp d
    list (values_args (vs ∷ vd ∷ []))

  unfoldable pub sum : CallArgs → Act S ℤ
  unfolding parse_arg i64_from_lisp add_i64
  sum args = do
    x ← parse_arg i64_from_lisp args 0
    y ← parse_arg i64_from_lisp args 1
    add_i64 checks x y

module _ {S : Type 0} ⦃E : Emacs S⦄ where
  -- Of the address of the function that `lambda!` declares.
  unfoldable pub using_fset : Bytes → Address → InitFn S
  unfolding make_function fset
  using_fset module_prefix sum_and_diff_function = do
    func ← make_function sum_and_diff_function 2 2 [] 0
    fset (module_prefix ++ codes "sum-and-diff") func
    pure tt

  unfoldable pub init_basics : Bytes → (sum_and_diff_function sum_function : Address) → InitFn S
  unfolding using_fset export_function
  init_basics module_prefix sum_and_diff_function sum_function = do
    using_fset module_prefix sum_and_diff_function
    export_function module_prefix (codes "sum") sum_function 2 2 []
    pure tt

  -- `to_lowercase` is the standard library's.
  unfoldable pub to_lowercase_or_nil : (Bytes → Bytes) → Option Bytes → Act S Value
  unfolding option_into_lisp str_into_lisp
  to_lowercase_or_nil to_lowercase input =
      option_into_lisp str_into_lisp (mapped to_lowercase input)

  unfoldable pub copy_to_string : (Bytes → Bytes) → Value → ℕ → Act S Bytes
  unfolding copy_string_contents
  copy_to_string from_utf8_lossy v size = do
    s ← copy_string_contents v (replicate size 0)
    pure (from_utf8_lossy s)

  -- `vec_get` and `vec_set` of the test module; a negative index goes by `as usize` and `as isize`.
  unfoldable pub get_at : Vector → ℤ → Act S Value
  unfolding vec_get as_type
  get_at v i = vec_get value_from_lisp v (pos_part (as_type usize i))

  unfoldable pub set_at : Vector → ℤ → Value → Act S (Unit {0})
  unfolding vec_set as_type
  set_at v i value = vec_set value_into_lisp v (pos_part (as_type usize i)) value

  -- The loop of `stringify_num_vector`, from `i` on.
  unfoldable pub stringify_from : Vector → ℕ → ℕ → Act S (Unit {0})
  unfolding vec_get vec_set i64_from_lisp str_into_lisp signed_decimal
  stringify_from v zero i = pure tt
  stringify_from v (suc left) i = do
    x ← vec_get i64_from_lisp v i
    vec_set str_into_lisp v i (signed_decimal x)
    stringify_from v left (i + 1)

  unfoldable pub stringify_num_vector : Vector → Act S Vector
  unfolding stringify_from
  stringify_num_vector v = do stringify_from v v.len 0; pure v

  unfoldable pub make_filled : ℕ → Value → Act S Vector
  unfolding make_vector
  make_filled length init = make_vector length (pure init)

module _ {S : Type 0} where
  -- `identity_i8`, `identity_u8`, `identity` and `identity_if_vector`
  abbrev pub identity : {T : Type 0} → T → Act S T
  identity x = pure x

  -- `match` and `ignore_args`
  abbrev pub do_nothing : Act S (Unit {0})
  do_nothing = pure tt

  unfoldable pub u64_overflow : Act S ℤ
  u64_overflow = pure (max_value u64)
