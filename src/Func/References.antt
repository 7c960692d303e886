-- ===== src/Func/References.antt =====
-- A call of an exported function leaves no global reference behind.
use emacs_module_rs.Base.{ℕ, ◌≡◌}
use emacs_module_rs.Machine.{Raw, Emacs, IsQuiet, ExitLaws, RefLaws, World, Act, attempt}
use emacs_module_rs.Value.{Value}
use emacs_module_rs.Signal.{maybe_exit, handle_panic}
use emacs_module_rs.Lifetime.Balance.{Settles, Settles-attempt, with_env_balance}
use emacs_module_rs.Lifetime.Settling.{KeepingCalls}
use emacs_module_rs.Lifetime.Leaving.{
  Ends, Balances-Ends, Ends-bind, Ends-catch_unwind, Ends-maybe_exit, Ends-handle_panic,
}
use emacs_module_rs.Func.{CallArgs, run_guarded, handle_call, extern_lambda}

module _ {S : Type 0} ⦃E : Emacs S⦄ {refs : Raw → S → ℕ} (exits : ExitLaws S)
    (laws : RefLaws S refs) (calls : KeepingCalls refs) where
  Ends-run_guarded : (f : Act S Value) → Settles refs f → Ends refs (run_guarded f)
  unfolding run_guarded
  Ends-run_guarded f h =
      Ends-bind (attempt f) maybe_exit (Settles-attempt f h) (Ends-maybe_exit exits laws calls)

  Ends-handle_call : (f : Act S Value) → Settles refs f → Ends refs (handle_call f)
  unfolding handle_call
  Ends-handle_call f h =
      Ends-catch_unwind (run_guarded f) handle_panic (Ends-run_guarded f h) (λ raw base w b. b)
        (Ends-handle_panic exits laws calls)

  -- An exported call, made while no exit is pending, whose function settles (it protects what it
  -- makes, and frees nothing else), however it ends, leaves every global reference held as often
  -- as before it, and gives the caller its protected list back. Emacs follows ExitLaws and
  -- RefLaws, and its calls KeepingCalls.
  pub extern_lambda_refs :
      (func : CallArgs → Act S Value) (args : CallArgs) (w : World S) (r : Raw)
      → IsQuiet w.emacs
      → Settles refs (func args)
      → (refs r (extern_lambda func args w).1.emacs ≡ refs r w.emacs)
        × ((extern_lambda func args w).1.protected ≡ w.protected)
  unfolding extern_lambda
  extern_lambda_refs func args w r q h =
      let (same, _, _, back) =
        with_env_balance exits laws (handle_call (func args)) w r q
          (Balances-Ends (Ends-handle_call (func args) h)) in
      (same, back)
