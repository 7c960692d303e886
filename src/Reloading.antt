-- ===== src/Reloading.antt =====
-- Live reloading (rs-module/src/lib.rs): `load` drops the library of a path, opens it again and runs
-- its initializer. What libloading does is a parameter.
pub mod Table
use emacs_module_rs.Base.{ℕ, Bool, true, false, Option, none, some, [], ◌∷◌, ◌++◌}
use emacs_module_rs.Machine.{
  Bytes, codes, Emacs, Error, Payload, string, World, Outcome, ok, err, panicked, Act,
}
use emacs_module_rs.Value.{Value}
use emacs_module_rs.Init.{message}
use emacs_module_rs.Maps.{Map, map_get, map_insert, map_remove}

-- `Library::new`, `Library::get` of `emacs_rs_module_init`, whose function gives a status, and what
-- `{:?}` prints of a library and of a poisoned lock.
pub record Loader (S L : Type 0) : Type 0 where
  pub open_library : Bytes → Act S L
  pub get_init : L → Act S (Act S ℕ)
  pub debug : L → Bytes
  pub debug_poison : Bytes

-- `LIBRARIES`: a lock is poisoned when a panic unwinds through its guard.
pub record Libraries (L : Type 0) : Type 0 where
  pub entries : Map L
  pub poisoned : Bool

-- Code that holds the guard.
abbrev pub Locked : Type 0 → Type 0 → Type 0 → Type 0
Locked S L A = World S → Map L → Outcome A × World S × Map L

module _ {S L A : Type 0} where
  abbrev pub finish : A → Locked S L A
  finish a w m = (ok a, w, m)

  abbrev pub outside : Act S A → Locked S L A
  outside f w m = ((f w).0, (f w).1, m)

module _ {S L A B : Type 0} where
  abbrev pub and_then :
      Outcome A × World S × Map L → (A → Locked S L B) → Outcome B × World S × Map L
  and_then (ok a, w, m) f = f a w m
  and_then (err e, w, m) f = (err e, w, m)
  and_then (panicked p, w, m) f = (panicked p, w, m)

  infixl 5 ◌>>=◌ ◌>>◌
  abbrev pub ◌>>=◌ : Locked S L A → (A → Locked S L B) → Locked S L B
  ◌>>=◌ f g w m = and_then (f w m) g

  abbrev pub ◌>>◌ : Locked S L A → Locked S L B → Locked S L B
  f >> g = f >>= λ _. g

module _ {S L : Type 0} where
  -- `libraries.remove(&path)`
  abbrev pub take_out : Bytes → Locked S L (Option L)
  take_out path w m = (ok (map_get path m), w, map_remove path m)

  -- `libraries.insert(path.clone(), lib)`
  abbrev pub put_in : Bytes → L → Locked S L (Unit {0})
  put_in path lib w m = (ok tt, w, map_insert path lib m)

abbrev pub tagged : Bytes → Bytes → Bytes
tagged path text = codes "[" ++ path ++ codes "]: " ++ text

abbrev pub unloading : {S L : Type 0} → Loader S L → Bytes → Option L → Bytes
unloading loader path (some l) = tagged path (codes "unloaded " ++ loader.debug l ++ codes "...")
unloading loader path none = tagged path (codes "not loaded yet")

module _ {S L : Type 0} where
  -- The guard is dropped.
  abbrev pub unlocked : Outcome Value × World S × Map L → Outcome Value × World S × Libraries L
  unlocked (panicked p, w, m) = (panicked p, w, record { entries = m; poisoned = true })
  unlocked (o, w, m) = (o, w, record { entries = m; poisoned = false })

module _ {S L : Type 0} ⦃E : Emacs S⦄ (loader : Loader S L) where
  -- The library that is opened, and its initializer run.
  unfoldable pub open_and_init : Bytes → Locked S L L
  unfolding message
  open_and_init path = do
    outside (message (tagged path (codes "loading...")))
    lib ← outside (loader.open_library path)
    outside (message (tagged path (codes "initializing...")))
    rs_init ← outside (loader.get_init lib)
    status ← outside rs_init
    finish lib

  -- The body of `load`, while the lock is held. The status of the initializer is not looked at.
  unfoldable pub load_locked : Bytes → Locked S L Value
  unfolding message map_get map_insert map_remove open_and_init
  load_locked path = do
    old ← take_out path
    outside (message (unloading loader path old))
    lib ← open_and_init path
    put_in path lib
    outside (message (tagged path (codes "loaded and initialized")))

  abbrev load_on : Bool → Bytes → World S → Libraries L → Outcome Value × World S × Libraries L
  load_on true path w libraries = (
    panicked (string (codes "Failed to acquire lock for module map: " ++ loader.debug_poison)),
    w,
    libraries,
  )
  load_on false path w libraries = unlocked (load_locked path w libraries.entries)

  unfoldable pub load : Bytes → World S → Libraries L → Outcome Value × World S × Libraries L
  unfolding load_locked
  load path w libraries = load_on libraries.poisoned path w libraries

module _ {S : Type 0} ⦃E : Emacs S⦄ where
  -- `init`
  unfoldable pub init_reloading : Act S Value
  unfolding message
  init_reloading = message (codes "[rs-module]: defined functions...")
