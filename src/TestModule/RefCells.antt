-- ===== src/TestModule/RefCells.antt =====
-- An integer that is embedded in a `RefCell` (test-module/src/ref_cell.rs).
pub mod Counting
use emacs_module_rs.Base.{ℤ, pos, Bool, []}
use emacs_module_rs.Machine.{Emacs}
use emacs_module_rs.Value.{Value}
use emacs_module_rs.Convert.Integer.Overflow.{add_i64}
use emacs_module_rs.Call.{values_args, call_value}
use emacs_module_rs.Memory.{TypeId, Platform, embed, done}
use emacs_module_rs.TestModule.State.{
  Contents, integer, Cmd, ret, in_world, fetch, store, as_integer, with_ref, with_ref_mut, ◌>>=◌,
  ◌>>◌,
}

-- `ty` is the type `RefCell<i64>`.
module _ {S : Type 0} ⦃E : Emacs S⦄ (platform : Platform S Contents) (ty : TypeId) where
  unfoldable pub wrap : ℤ → Cmd S Value
  unfolding embed
  wrap x process = done (embed platform ty (integer x) process)

  -- `into_rust` and `try_borrow`, as in a wrapper.
  unfoldable pub unwrap : Value → Cmd S ℤ
  unfolding with_ref
  unwrap r = with_ref (platform.transfer ty) r (λ cell. do c ← fetch cell; as_integer c)

  unfoldable pub inc_cell : Bool → Value → Cmd S ℤ
  unfolding with_ref_mut add_i64
  inc_cell checks r = with_ref_mut (platform.transfer ty) r (λ cell. do
    c ← fetch cell
    x ← as_integer c
    y ← in_world (add_i64 checks x (pos 1))
    store cell (integer y)
    ret y)

  unfoldable pub unwrap_and_call : Value → Value → Cmd S (Unit {0})
  unfolding with_ref call_value
  unwrap_and_call r lambda =
      with_ref (platform.transfer ty) r
        (λ cell. do in_world (call_value lambda (values_args [])); ret tt)
