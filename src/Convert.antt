-- ===== src/Convert.antt =====
-- Conversions between Rust and Lisp values (src/types/mod.rs, src/types/float.rs, and the impls for
-- text and references elsewhere).
pub mod Integer
pub mod Text
use emacs_module_rs.Base.{ℕ, Bool, true, false, Option, none, some, if◌then◌else◌}
use emacs_module_rs.Machine.{Emacs, Act, pure, ◌>>=◌}
use emacs_module_rs.Exit.{raw_call}
use emacs_module_rs.Value.{Value, raw_call_value_unprotected, is_not_nil}
use emacs_module_rs.Global.{GlobalRef, bind, make_global_ref, bind_static}
use emacs_module_rs.Statics.{nil, t}

abbrev pub FromLisp : Type 0 → Type 0 → Type 0
FromLisp S T = Value → Act S T

abbrev pub IntoLisp : Type 0 → Type 0 → Type 0
IntoLisp S T = T → Act S Value

module _ {S : Type 0} where
  -- `Value` itself, both ways.
  abbrev pub value_from_lisp : FromLisp S Value
  value_from_lisp v = pure v

  abbrev pub value_into_lisp : IntoLisp S Value
  value_into_lisp v = pure v

  -- `()` and `bool`
  unfoldable pub unit_into_lisp : IntoLisp S (Unit {0})
  unfolding bind_static
  unit_into_lisp _ = bind_static nil

  unfoldable pub bool_into_lisp : IntoLisp S Bool
  unfolding bind_static
  bool_into_lisp b = if b then bind_static t else bind_static nil

  -- `&GlobalRef`
  abbrev pub global_into_lisp : IntoLisp S GlobalRef
  global_into_lisp g = pure (bind g)

  -- `Option<T>`
  unfoldable pub option_into_lisp : {T : Type 0} → IntoLisp S T → IntoLisp S (Option T)
  unfolding bind_static
  option_into_lisp into (some x) = into x
  option_into_lisp into none = bind_static nil

module _ {S : Type 0} ⦃E : Emacs S⦄ where
  unfoldable pub option_from_lisp : {T : Type 0} → FromLisp S T → FromLisp S (Option T)
  unfolding is_not_nil
  option_from_lisp from v = do
    present ← is_not_nil v
    if present then (do x ← from v; pure (some x)) else pure none

  -- `GlobalRef`
  unfoldable pub global_from_lisp : FromLisp S GlobalRef
  unfolding make_global_ref
  global_from_lisp v = make_global_ref v

  -- `f64`, by its bits.
  unfoldable pub float_from_lisp : FromLisp S ℕ
  unfolding raw_call
  float_from_lisp v = raw_call (E.extract_float v.raw)

  unfoldable pub float_into_lisp : IntoLisp S ℕ
  unfolding raw_call_value_unprotected
  float_into_lisp x = raw_call_value_unprotected (E.make_float x)
