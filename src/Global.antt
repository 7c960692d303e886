-- ===== src/Global.antt =====
-- Global references (src/global.rs): `GlobalRef`, and `OnceGlobalRef`, a static cell that is set
-- once when the module is loaded.
pub mod Once
use emacs_module_rs.Base.{String, Option, none, some, ◌==◌, if◌then◌else◌}
use emacs_module_rs.Machine.{
  codes, Raw, Emacs, string, Static, Act, ok, pure, panic, gets, ◌>>=◌, ◌>>◌,
}
use emacs_module_rs.Exit.{raw_call_no_exit, raw_call}
use emacs_module_rs.Value.{Value, value}

pub record GlobalRef : Type 0 where
  pub raw : Raw

-- `GlobalRef::from_raw`
abbrev pub from_raw : Raw → GlobalRef
from_raw raw = record { raw = raw }

-- `GlobalRef::bind`
abbrev pub bind : GlobalRef → Value
bind g = value g.raw

module _ {S : Type 0} where
  -- `inner.get().expect(..)`
  abbrev pub get_cell : String → Option Raw → Act S GlobalRef
  get_cell message none = panic (string (codes message))
  get_cell message (some raw) = pure (from_raw raw)

  -- `OnceGlobalRef::deref`
  unfoldable pub deref : Static → Act S GlobalRef
  deref name = do
    cell ← gets (λ w. w.globals name)
    get_cell "Cannot access an uninitialized global reference" cell

  -- `OnceGlobalRef::bind`, by way of `deref`.
  unfoldable pub bind_static : Static → Act S Value
  unfolding deref
  bind_static name = do g ← deref name; pure (bind g)

  abbrev pub fill : Static → Raw → Act S (Unit {0})
  fill name raw w =
      (ok tt, record w { globals = λ other. if name == other then some raw else w.globals other })

  -- `OnceCell::set(..).expect(..)`, on what the cell held.
  abbrev pub set_once : Static → Option Raw → Raw → Act S (Unit {0})
  set_once name none raw = fill name raw
  set_once name (some _) raw =
      panic (string (codes "Cannot initialize a global reference more than once"))

module _ {S : Type 0} ⦃E : Emacs S⦄ where
  -- `GlobalRef::new`, `Value::make_global_ref`
  unfoldable pub make_global_ref : Value → Act S GlobalRef
  make_global_ref v = do raw ← raw_call_no_exit (E.make_global_ref v.raw); pure (from_raw raw)

  unfoldable pub free : GlobalRef → Act S (Unit {0})
  unfolding raw_call
  free g = do raw_call (E.free_global_ref g.raw); pure tt

  -- `GlobalRef::clone`
  unfoldable pub clone : GlobalRef → Act S GlobalRef
  unfolding make_global_ref
  clone g = make_global_ref (bind g)

  -- `OnceGlobalRef::init`: the value is computed, and a reference made, before the cell is tested.
  unfoldable pub init : Static → Act S Value → Act S GlobalRef
  unfolding make_global_ref
  init name f = do
    v ← f
    g ← make_global_ref v
    cell ← gets (λ w. w.globals name)
    set_once name cell g.raw
    filled ← gets (λ w. w.globals name)
    get_cell "Failed to get an initialized OnceGlobalRef" filled
