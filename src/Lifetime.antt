-- ===== src/Lifetime.antt =====
-- The life of an `Env` (src/env.rs): it is made with an empty list of protected values, or with none
-- where Emacs has the fix of its bug 31238, and when it is dropped it frees what it protected.
pub mod Drop
pub mod Balance
pub mod Settling
pub mod Leaving
pub mod Rooted
use emacs_module_rs.Base.{Bool, false, Option, none, some, List, [], ◌∷◌, ◌||◌, ◌==◌, if◌then◌else◌}
use emacs_module_rs.Machine.{
  codes, Raw, FuncallExit, Emacs, static_str, World, Outcome, ok, Act, pure, panic, gets, ◌>>=◌,
  ◌>>◌,
}
use emacs_module_rs.Global.{from_raw, free}
use emacs_module_rs.Exit.{
  signal_status, throw_status, raw_call_no_exit, non_local_exit_get, non_local_exit_clear,
  non_local_exit_signal, non_local_exit_throw,
}

-- `*HAS_FIXED_GC_BUG_31238.get().unwrap_or(&false)`
abbrev fixed_or_false : Option Bool → Bool
fixed_or_false none = false
fixed_or_false (some b) = b

module _ {S : Type 0} where
  abbrev pub set_protected : Option (List Raw) → Act S (Unit {0})
  set_protected roots w = (ok tt, record w { protected = roots })

  -- `Env::new`: from here on the calls go by the new `Env`.
  unfoldable pub new_env : Act S (Unit {0})
  new_env = do
    fixed ← gets (λ w. w.has_fixed_gc_bug)
    set_protected (if fixed_or_false fixed then none else some [])

module _ {S : Type 0} ⦃E : Emacs S⦄ where
  -- The loop over the protected values.
  unfoldable pub free_all : List Raw → Act S (Unit {0})
  free_all [] = pure tt
  free_all (raw ∷ rest) = do raw_call_no_exit (E.free_global_ref raw); free_all rest

  abbrev pub restore_exit : FuncallExit → Act S (Unit {0})
  restore_exit x =
      if x.status == signal_status
      then (do non_local_exit_signal x.symbol x.payload; pure tt)
      else if x.status == throw_status
      then (do non_local_exit_throw x.symbol x.payload; pure tt)
      else pure tt

  unfoldable pub drop_roots : Option (List Raw) → Act S (Unit {0})
  unfolding free_all non_local_exit_get non_local_exit_clear non_local_exit_signal
      non_local_exit_throw
  drop_roots none = pure tt
  drop_roots (some roots) = do
    x ← non_local_exit_get
    if x.status == signal_status || x.status == throw_status then non_local_exit_clear else pure tt
    free_all roots
    restore_exit x

  -- `Drop for Env`
  unfoldable pub drop_env : Act S (Unit {0})
  unfolding drop_roots
  drop_env = do roots ← gets (λ w. w.protected); drop_roots roots

  -- The current `Env` is dropped however the body ends, and the one outside is current again.
  abbrev after_body : {A : Type 0} → Option (List Raw) → Outcome A × World S → Outcome A × World S
  after_body outer (r, w) = (r, record (drop_env w).1 { protected = outer })

  -- A block with an `Env` of its own.
  unfoldable pub with_env : {A : Type 0} → Act S A → Act S A
  unfolding new_env drop_env
  with_env body w = after_body w.protected ((new_env >> body) w)

module _ {S : Type 0} ⦃E : Emacs S⦄ where
  -- `last().unwrap()`
  abbrev last_or_panic : List Raw → Act S Raw
  last_or_panic [] = panic (static_str (codes "called `Option::unwrap()` on a `None` value"))
  last_or_panic (raw ∷ []) = pure raw
  last_or_panic (_ ∷ raw ∷ rest) = last_or_panic (raw ∷ rest)

  abbrev free_last : Option (List Raw) → Act S (Unit {0})
  free_last none = pure tt
  free_last (some roots) = do raw ← last_or_panic roots; free (from_raw raw)

  -- `Env::free_last_protected`, which leaves the reference in the list.
  unfoldable pub free_last_protected : Act S (Unit {0})
  unfolding free
  free_last_protected = do roots ← gets (λ w. w.protected); free_last roots
