-- ===== src/TestModule/HashMap.antt =====
-- A `HashMap` that is embedded in a `RefCell` (test-module/src/hash_map.rs).
pub mod Refines
use emacs_module_rs.Base.{Option, [], List}
use emacs_module_rs.Machine.{Bytes, Emacs}
use emacs_module_rs.Value.{Value}
use emacs_module_rs.Maps.{map_get, map_insert}
use emacs_module_rs.Memory.{TypeId, Platform, embed, done}
use emacs_module_rs.TestModule.State.{
  Contents, map, Cmd, ret, fetch, store, as_map, with_ref, with_ref_mut, ◌>>=◌, ◌>>◌,
}

module _ {S : Type 0} ⦃E : Emacs S⦄ (platform : Platform S Contents) (ty : TypeId) where
  -- `make`, `make1` and `make2`: the type is `RefCell<Map>`.
  unfoldable pub make_map : Cmd S Value
  unfolding embed
  make_map process = done (embed platform ty (map []) process)

  unfoldable pub get : Value → Bytes → Cmd S (Option Bytes)
  unfolding with_ref map_get
  get v key =
      with_ref (platform.transfer ty) v
        (λ cell. do c ← fetch cell; m ← as_map c; ret (map_get key m))

  unfoldable pub set : Value → Bytes → Bytes → Cmd S (Option Bytes)
  unfolding with_ref_mut map_get map_insert
  set v key value = with_ref_mut (platform.transfer ty) v (λ cell. do
    c ← fetch cell
    m ← as_map c
    store cell (map (map_insert key value m))
    ret (map_get key m))
