-- ===== src/TestModule/Calls.antt =====
-- Calls of Lisp functions in each of the ways that there are (test-module/src/call.rs).
pub mod Ending
use emacs_module_rs.Base.{ℕ, zero, suc, ◌+◌, pos, true, Option, none, some, List, [], ◌∷◌, map}
use emacs_module_rs.Machine.{codes, Emacs, Act, pure, ◌>>=◌, ◌>>◌}
use emacs_module_rs.Value.{Value, intern}
use emacs_module_rs.Call.{LispArgs, values_args, tuple_args, call_value, call_name}
use emacs_module_rs.Convert.{bool_into_lisp}
use emacs_module_rs.Convert.Integer.{i32, u16, usize, int_into_lisp}
use emacs_module_rs.Convert.Text.{str_into_lisp}
use emacs_module_rs.Vector.{Vector, IntoIter, into_iter, next}

module _ {S : Type 0} ⦃E : Emacs S⦄ where
  -- `for i in 0..n { ints.push(i.into_lisp(env)?) }`, from `i` on.
  unfoldable pub push_ints : ℕ → ℕ → Act S (List Value)
  unfolding int_into_lisp
  push_ints zero i = pure []
  push_ints (suc n) i = do
    v ← int_into_lisp u16 (pos i)
    rest ← push_ints n (i + 1)
    pure (v ∷ rest)

  -- `(x, y, z)`; the literal of `y` is an `i32`.
  unfoldable pub xyz : LispArgs S
  unfolding tuple_args str_into_lisp int_into_lisp bool_into_lisp
  xyz =
      tuple_args (str_into_lisp (codes "x") ∷ int_into_lisp i32 (pos 1) ∷ bool_into_lisp true ∷ [])

  unfoldable pub call_lists : ℕ → Act S Value
  unfolding str_into_lisp int_into_lisp bool_into_lisp intern call_name call_value xyz push_ints
  call_lists n = do
    vx ← str_into_lisp (codes "x")
    vy ← int_into_lisp i32 (pos 1)
    vz ← bool_into_lisp true
    list ← intern (codes "list")
    list_subr ← call_name (codes "symbol-function") (values_args (list ∷ []))
    call_name (codes "list") (values_args [])
    call_name (codes "list") (values_args [])
    call_name (codes "list") (values_args (vx ∷ vy ∷ vz ∷ []))
    call_name (codes "list") (values_args (vx ∷ vy ∷ vz ∷ []))
    call_name (codes "list") (values_args (vx ∷ []))
    call_name (codes "list") xyz
    call_value list (values_args [])
    call_value list_subr xyz
    call_name (codes "list") (values_args [])
    ints ← push_ints n 0
    call_value list (values_args ints)

  unfoldable pub call_with : Value → Value → Act S Value
  unfolding call_value
  call_with function arg = call_value function (values_args (arg ∷ []))

  -- The loop of `mapc_vec`: the element is taken, and the function called on it and its index. On
  -- fuel; one more than the length is enough (`Ending`).
  unfoldable pub mapc_from : ℕ → Value → ℕ → IntoIter → Act S (Unit {0})
  unfolding next call_value tuple_args int_into_lisp
  mapc_from zero function i it = pure tt
  mapc_from (suc fuel) function i it = do
    taken ← next it
    elim taken.0 [
      | none ↦ pure tt
      | some elem ↦ do
        call_value function (tuple_args (int_into_lisp usize (pos i) ∷ pure elem ∷ []))
        mapc_from fuel function (i + 1) taken.1
    ]

  unfoldable pub mapc_vec : Value → Vector → Act S (Unit {0})
  unfolding mapc_from
  mapc_vec function vector = mapc_from (suc vector.len) function 0 (into_iter vector)
