-- ===== src/Vector.antt =====
-- Lisp vectors (src/types/vector.rs): `Vector` is a value with the size that Emacs gave.
pub mod Iterate
pub mod Ending
use emacs_module_rs.Base.{
  ℕ, zero, suc, ◌+◌, ◌-◌, ℤ, pos, negsuc, Option, none, some, List, [], ◌∷◌, ◌++◌, leb,
  if◌then◌else◌,
}
use emacs_module_rs.Machine.{
  Bytes, codes, decimal, Raw, Emacs, display, string, Act, pure, panic, ◌>>=◌, ◌>>◌, Result,
  success, failure, attempt,
}
use emacs_module_rs.Exit.{raw_call}
use emacs_module_rs.Value.{Value, value, raw_call_value_unprotected}
use emacs_module_rs.Convert.{FromLisp, IntoLisp}
use emacs_module_rs.Convert.Integer.{isize, usize, as_type, int_into_lisp}
use emacs_module_rs.Statics.{make_vector as make_vector_subr}
use emacs_module_rs.Call.{tuple_args, call_static}

pub record Vector : Type 0 where
  pub value : Value
  pub len : ℕ

abbrev pub from_value_unchecked : Value → ℕ → Vector
from_value_unchecked value len = record { value = value; len = len }

module _ {S : Type 0} where
  -- `.try_into().expect(..)`, from `isize` to `usize`.
  abbrev pub size_or_panic : ℤ → Act S ℕ
  size_or_panic (pos n) = pure n
  size_or_panic (negsuc _) = panic (string (codes "Invalid size from Emacs: TryFromIntError(())"))

  -- `Vector::size` and `Vector::len`, and `IntoLisp for Vector`
  abbrev pub size : Vector → Act S ℕ
  size v = pure v.len

  abbrev pub vector_into_lisp : IntoLisp S Vector
  vector_into_lisp v = pure v.value

-- `IntoIter`
pub record IntoIter : Type 0 where
  pub vector : Vector
  pub i : ℕ

abbrev pub into_iter : Vector → IntoIter
into_iter v = record { vector = v; i = 0 }

-- `size_hint`, whose two bounds are the same number.
abbrev pub size_hint : IntoIter → ℕ
size_hint it = it.vector.len - it.i

module _ {S : Type 0} ⦃E : Emacs S⦄ where
  -- `FromLisp for Vector`
  unfoldable pub vector_from_lisp : FromLisp S Vector
  unfolding raw_call
  vector_from_lisp v = do
    size ← raw_call (E.vec_size v.raw)
    len ← size_or_panic size
    pure (from_value_unchecked v len)

  -- `Vector::get`
  unfoldable pub vec_get : {T : Type 0} → FromLisp S T → Vector → ℕ → Act S T
  unfolding raw_call_value_unprotected as_type
  vec_get from v i = do
    x ← raw_call_value_unprotected (E.vec_get v.value.raw (as_type isize (pos i)))
    from x

  -- `Vector::set`
  unfoldable pub vec_set : {T : Type 0} → IntoLisp S T → Vector → ℕ → T → Act S (Unit {0})
  unfolding raw_call as_type
  vec_set into v i x = do
    new ← into x
    raw_call (E.vec_set v.value.raw (as_type isize (pos i)) new.raw)

  -- `.unwrap_or_else(|err| panic!(..))`
  abbrev pub element_or_panic : ℕ → Result Value → Act S Value
  element_or_panic i (success v) = pure v
  element_or_panic i (failure e) = panic (
      string (
        codes "Unable to get Emacs vector's element at index "
        ++ decimal i
        ++ codes ": "
        ++ display e))

  -- `IntoIter::next`
  unfoldable pub next : IntoIter → Act S (Option Value × IntoIter)
  unfolding vec_get
  next it = if leb it.vector.len it.i then pure (none, it) else (do
    r ← attempt (vec_get pure it.vector it.i)
    x ← element_or_panic it.i r
    pure (some x, record it { i = it.i + 1 }))

  -- The values that are left, as a `for` loop takes them from `next`. On fuel: `Vector.Iterate`
  -- shows that `size_hint` and one more is enough.
  unfoldable pub collect : ℕ → IntoIter → Act S (List Value)
  unfolding next
  collect zero it = pure []
  collect (suc fuel) it = do
    taken ← next it
    elim taken.0 [ none ↦ pure [] | some x ↦ do xs ← collect fuel taken.1; pure (x ∷ xs) ]

  -- `Env::make_vector`
  unfoldable pub make_vector : ℕ → Act S Value → Act S Vector
  unfolding call_static tuple_args int_into_lisp
  make_vector length init = do
    v ← call_static make_vector_subr (tuple_args (int_into_lisp usize (pos length) ∷ init ∷ []))
    pure (from_value_unchecked v length)
