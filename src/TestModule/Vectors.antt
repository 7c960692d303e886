-- ===== src/TestModule/Vectors.antt =====
-- A vector that is embedded as a bare box (test-module/src/vector.rs).
pub mod Swap
pub mod Safe
use emacs_module_rs.Base.{ℤ, Bool, ◌+ℤ◌, List, [], ◌∷◌}
use emacs_module_rs.Machine.{Emacs}
use emacs_module_rs.Value.{Value}
use emacs_module_rs.Convert.Integer.{i64, int_into_lisp}
use emacs_module_rs.Convert.Integer.Xor.{xor_i64}
use emacs_module_rs.Convert.Integer.Overflow.{add_i64, mul_i64}
use emacs_module_rs.UserPtr.{get_mut, ref_from_lisp}
use emacs_module_rs.Call.{tuple_args, values_args, list}
use emacs_module_rs.Memory.{TypeId, Platform, embed, done}
use emacs_module_rs.TestModule.State.{
  Contents, vector, Cmd, ret, in_world, fetch, store, as_vector, ◌>>=◌, ◌>>◌,
}

-- The three assignments of `swap_components`.
unfoldable pub xor_swap : ℤ × ℤ → ℤ × ℤ
unfolding xor_i64
xor_swap (x, y) =
    let x1 = xor_i64 x y in let y1 = xor_i64 y x1 in let x2 = xor_i64 x1 y1 in (x2, y1)

-- `platform` has the finalizers, and `ty` is the type `Vector`.
module _ {S : Type 0} ⦃E : Emacs S⦄ (platform : Platform S Contents) (ty : TypeId) where
  unfoldable pub swap_components : Value → Cmd S Value
  unfolding get_mut xor_swap
  swap_components v = do
    p ← in_world (get_mut (platform.transfer ty) v)
    c ← fetch p
    vec ← as_vector c
    let swapped = xor_swap vec
    store p (vector swapped.0 swapped.1)
    ret v

  -- `make` and `make1`
  unfoldable pub make : ℤ → ℤ → Cmd S Value
  unfolding embed
  make x y process = done (embed platform ty (vector x y) process)

  -- `&Vector`, read.
  abbrev vector_of : Value → Cmd S (ℤ × ℤ)
  vector_of v = do p ← in_world (ref_from_lisp (platform.transfer ty) v); c ← fetch p; as_vector c

  unfoldable pub to_list : Value → Cmd S Value
  unfolding ref_from_lisp int_into_lisp list
  to_list v = do
    in_world (ref_from_lisp (platform.transfer ty) v)
    vec ← vector_of v
    x ← in_world (int_into_lisp i64 vec.0)
    y ← in_world (int_into_lisp i64 vec.1)
    in_world (list (values_args (x ∷ y ∷ [])))

-- With the overflow checks of the build.
module _ {S : Type 0} ⦃E : Emacs S⦄ (platform : Platform S Contents) (ty : TypeId)
    (checks : Bool) where
  unfoldable pub add : Value → Value → Cmd S Value
  unfolding add_i64 make ref_from_lisp
  add a b = do
    va ← vector_of platform ty a
    vb ← vector_of platform ty b
    x ← in_world (add_i64 checks vb.0 va.0)
    y ← in_world (add_i64 checks vb.1 va.1)
    make platform ty x y

  unfoldable pub scale_mutably : ℤ → Value → Cmd S (Unit {0})
  unfolding get_mut mul_i64
  scale_mutably times v = do
    p ← in_world (get_mut (platform.transfer ty) v)
    c ← fetch p
    vec ← as_vector c
    x ← in_world (mul_i64 checks vec.0 times)
    store p (vector x vec.1)
    y ← in_world (mul_i64 checks vec.1 times)
    store p (vector x y)
