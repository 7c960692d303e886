-- ===== src/Frames/Drop.antt =====
-- Dropping an `Env` leaves the statics and the borrows as they are (src/env.rs).
use emacs_module_rs.Base.{refl, Option, none, some, List, [], ◌∷◌, ◌||◌, ◌==◌, if◌then◌else◌}
use emacs_module_rs.Machine.{Raw, FuncallExit, Emacs, gets, pure}
use emacs_module_rs.Exit.{
  raw_call_no_exit, signal_status, throw_status, non_local_exit_get, non_local_exit_clear,
  non_local_exit_signal, non_local_exit_throw,
}
use emacs_module_rs.Lifetime.{free_all, restore_exit, drop_roots, drop_env}
use emacs_module_rs.Frames.{
  KeepsFrame, KeepsFrame-pure, KeepsFrame-gets, KeepsFrame-bind, KeepsFrame-if,
}

module _ {S : Type 0} ⦃E : Emacs S⦄ where
  KeepsFrame-get : KeepsFrame {S = S} non_local_exit_get
  unfolding non_local_exit_get
  KeepsFrame-get = record { at = λ w. refl }

  KeepsFrame-clear : KeepsFrame {S = S} non_local_exit_clear
  unfolding non_local_exit_clear
  KeepsFrame-clear = record { at = λ w. refl }

  pub KeepsFrame-signal : (a b : Raw) → KeepsFrame {S = S} (non_local_exit_signal a b)
  unfolding non_local_exit_signal
  KeepsFrame-signal a b = record { at = λ w. refl }

  pub KeepsFrame-throw : (a b : Raw) → KeepsFrame {S = S} (non_local_exit_throw a b)
  unfolding non_local_exit_throw
  KeepsFrame-throw a b = record { at = λ w. refl }

  KeepsFrame-free : (raw : Raw) → KeepsFrame {S = S} (raw_call_no_exit (E.free_global_ref raw))
  KeepsFrame-free raw = record { at = λ w. refl }

  KeepsFrame-free_all : (roots : List Raw) → KeepsFrame {S = S} (free_all roots)
  unfolding free_all
  KeepsFrame-free_all [] = KeepsFrame-pure tt
  KeepsFrame-free_all (raw ∷ rest) =
      KeepsFrame-bind (raw_call_no_exit (E.free_global_ref raw)) (λ u. free_all rest)
        (KeepsFrame-free raw) (λ u. KeepsFrame-free_all rest)

  KeepsFrame-restore_exit : (x : FuncallExit) → KeepsFrame {S = S} (restore_exit x)
  KeepsFrame-restore_exit x =
      KeepsFrame-if (x.status == signal_status) _ _
        (KeepsFrame-bind (non_local_exit_signal x.symbol x.payload) _ (KeepsFrame-signal _ _)
          (λ u. KeepsFrame-pure tt))
        (KeepsFrame-if (x.status == throw_status) _ _
          (KeepsFrame-bind (non_local_exit_throw x.symbol x.payload) _ (KeepsFrame-throw _ _)
            (λ u. KeepsFrame-pure tt))
          (KeepsFrame-pure tt))

  KeepsFrame-drop_roots : (roots : Option (List Raw)) → KeepsFrame {S = S} (drop_roots roots)
  unfolding drop_roots
  KeepsFrame-drop_roots none = KeepsFrame-pure tt
  KeepsFrame-drop_roots (some roots) = KeepsFrame-bind non_local_exit_get _ KeepsFrame-get (λ x.
      KeepsFrame-bind
        (if x.status == signal_status || x.status == throw_status
          then non_local_exit_clear
          else pure tt)
        _
        (KeepsFrame-if (x.status == signal_status || x.status == throw_status) _ _ KeepsFrame-clear
          (KeepsFrame-pure tt))
        (λ u.
          KeepsFrame-bind (free_all roots) _ (KeepsFrame-free_all roots)
            (λ u'. KeepsFrame-restore_exit x)))

  pub KeepsFrame-drop_env : KeepsFrame {S = S} drop_env
  unfolding drop_env
  KeepsFrame-drop_env =
      KeepsFrame-bind (gets (λ w. w.protected)) drop_roots (KeepsFrame-gets (λ w. w.protected))
        KeepsFrame-drop_roots
