-- ===== src/Init/References/Loading.antt =====
-- Loading from its beginning to the code that Emacs gets back: what it leaves of the references.
use mathlib.Core.Path.{subst}
use emacs_module_rs.Base.{ℕ, ◌+◌, ◌-◌, ◌≤◌, ◌≡◌, refl, sym, ap, Option, List, [], ◌∷◌, arith}
use emacs_module_rs.Machine.{
  Bytes, codes, Raw, Emacs, IsQuiet, ExitLaws, RefLaws, signal as signal_kind, throw, kind, Error,
  Static, World, Outcome, ok, err, panicked, Act, pure, ◌>>=◌, Result, success, failure, attempt,
  continue, as_thread,
}
use emacs_module_rs.Value.{Value, temp_value_value, value}
use emacs_module_rs.Statics.{message as message_subr}
use emacs_module_rs.Call.{tuple_args, call_static}
use emacs_module_rs.Convert.Text.{str_into_lisp}
use emacs_module_rs.Signal.{define_core_errors}
use emacs_module_rs.Lifetime.{new_env, drop_env, with_env}
use emacs_module_rs.Lifetime.Drop.{count}
use emacs_module_rs.Lifetime.Balance.{owed, Settles-pure, drop_settles}
use emacs_module_rs.Lifetime.Settling.{KeepingCalls, Settles-str, Settles-call_static}
use emacs_module_rs.Lifetime.Settling.Calls.{
  Settles-tuple_args, Settles-temp_value, Settles-define_core_errors,
}
use emacs_module_rs.Frames.{Frame, KeepsFrame-pure, KeepsFrame-protect}
use emacs_module_rs.Frames.Calls.{
  KeepsFrame-tuple_args, KeepsFrame-str, KeepsFrame-call_static, KeepsFrame-define_core_errors,
}
use emacs_module_rs.Frames.Drop.{KeepsFrame-drop_env}
use emacs_module_rs.Init.{
  run_all, message, Loading, setup, report_error, expect_value, status_of_setup, status_of_thread,
  initialize, module_init,
}
use emacs_module_rs.Init.Status.{after_panic}
use emacs_module_rs.Init.References.{
  held_by, NotPanicked, IsAccounted, Accounts, Accounts-pure, Accounts-panic, Accounts-Settles,
  Accounts-attempt, Accounts-bind,
}
use emacs_module_rs.Init.References.Setup.{
  AllAccount, Accounts-run_all, Accounts-call, Accounts-check,
}

module _ {S : Type 0} ⦃E : Emacs S⦄ {refs : Raw → S → ℕ} (exits : ExitLaws S)
    (laws : RefLaws S refs) (calls : KeepingCalls refs) (names : List Static)
    (loading : Loading S) where
  Accounts-message : (text : Bytes) → Accounts refs names (message text)
  unfolding message
  Accounts-message text =
      Accounts-Settles (call_static message_subr (tuple_args (str_into_lisp text ∷ [])))
        (Settles-call_static exits laws calls message_subr _
          (Settles-tuple_args (str_into_lisp text ∷ []) (Settles-str exits laws calls text, tt)))
        (KeepsFrame-call_static exits message_subr _
          (KeepsFrame-tuple_args (str_into_lisp text ∷ []) (KeepsFrame-str exits text, tt)))

  Accounts-report_error : (e : Error) → Accounts refs names (report_error loading e)
  unfolding report_error temp_value_value
  Accounts-report_error (kind (signal_kind symbol details)) =
      let shown = codes "Error during initialization: symbol: %s data: %s" in
      Accounts-bind (temp_value_value symbol) _
        (Accounts-Settles (temp_value_value symbol) (Settles-temp_value exits laws calls symbol)
          (KeepsFrame-protect (value symbol.raw)))
        (λ s.
          Accounts-bind (temp_value_value details) _
            (Accounts-Settles (temp_value_value details)
              (Settles-temp_value exits laws calls details)
              (KeepsFrame-protect (value details.raw)))
            (λ d.
              Accounts-call exits laws calls names (codes "message")
                (str_into_lisp shown ∷ pure s ∷ pure d ∷ [])
                (Settles-str exits laws calls shown, (Settles-pure s, (Settles-pure d, tt)))
                (KeepsFrame-str exits shown, (KeepsFrame-pure s, (KeepsFrame-pure d, tt)))))
  Accounts-report_error (kind (throw tag v)) = Accounts-message _
  Accounts-report_error e = Accounts-message _

  Accounts-expect_value :
      (text : Bytes) (r : Result Value) → Accounts refs names (expect_value loading text r)
  Accounts-expect_value text (success v) = Accounts-pure v
  Accounts-expect_value text (failure e) = Accounts-panic _

  Accounts-status_of_setup : (r : Result Value) → Accounts refs names (status_of_setup loading r)
  unfolding status_of_setup
  Accounts-status_of_setup (success v) = Accounts-pure 0
  Accounts-status_of_setup (failure e) =
      Accounts-bind (attempt (report_error loading e)) _
        (Accounts-attempt (report_error loading e) (Accounts-report_error e))
        (λ r.
          let text = codes "Failed to message Emacs about initialization error" in
          Accounts-bind (expect_value loading text r) (λ v. pure 1) (Accounts-expect_value text r)
            (λ v. Accounts-pure 1))

  Accounts-setup :
      AllAccount refs names loading.global_refs
      → AllAccount refs names loading.custom_errors
      → Accounts refs names loading.hook
      → Accounts refs names (setup loading)
  unfolding setup
  Accounts-setup globals errors hook =
      Accounts-bind (run_all loading.global_refs) _ (Accounts-run_all loading.global_refs globals)
        (λ u1.
          Accounts-bind define_core_errors _
            (Accounts-Settles define_core_errors (Settles-define_core_errors exits laws calls)
              (KeepsFrame-define_core_errors exits))
            (λ u2.
              Accounts-bind _ _ (Accounts-check exits laws calls names loading.debugging) (λ u3.
                Accounts-bind (run_all loading.custom_errors) _
                  (Accounts-run_all loading.custom_errors errors) (λ u4. hook))))

-- The codes 0 and 1 are given only if nothing panics.
module _ {S : Type 0} ⦃E : Emacs S⦄ (loading : Loading S) where
  abbrev setup_status : Act S ℕ
  setup_status = attempt (setup loading) >>= status_of_setup loading

  after_setup_status :
      (o : Outcome ℕ) (w : World S) (n : ℕ)
      → (continue (as_thread o) (status_of_thread loading) w).0 ≡ ok n
      → n ≤ 1
      → NotPanicked o × ((continue (as_thread o) (status_of_thread loading) w).1 ≡ w)
  unfolding status_of_thread
  after_setup_status (ok k) w n e small = (tt, refl)
  after_setup_status (err x) w n e small = (tt, refl)
  after_setup_status (panicked p) w n e small = absurd (omega (arith, after_panic loading p w n e))

module _ {S : Type 0} ⦃E : Emacs S⦄ {refs : Raw → S → ℕ} (exits : ExitLaws S)
    (laws : RefLaws S refs) (calls : KeepingCalls refs) (names : List Static) (loading : Loading S)
    (globals : AllAccount refs names loading.global_refs)
    (errors : AllAccount refs names loading.custom_errors)
    (hook : Accounts refs names loading.hook) where
  initialize-IsAccounted :
      (base : Raw → ℕ) (w : World S) (n : ℕ)
      → IsAccounted refs names base w
      → (initialize loading w).0 ≡ ok n
      → n ≤ 1
      → IsAccounted refs names base (initialize loading w).1
  unfolding initialize
  initialize-IsAccounted base w n h e small =
      let (fine, same) =
        after_setup_status loading (setup_status loading w).0 (setup_status loading w).1 n e
          small in
      let k =
        Accounts-bind (attempt (setup loading)) (status_of_setup loading)
          (Accounts-attempt (setup loading)
            (Accounts-setup exits laws calls names loading globals errors hook))
          (Accounts-status_of_setup exits laws calls names loading) in
      subst (IsAccounted refs names base) (sym same) (k.at base w h fine)

  new_env-IsAccounted :
      (w : World S)
      → IsQuiet w.emacs
      → ((r : Raw) → held_by names w.globals r ≤ refs r w.emacs)
      → IsAccounted refs names (λ r. refs r w.emacs - held_by names w.globals r) (new_env w).1
  unfolding new_env owed count
  new_env-IsAccounted w q held = record {
    balanced = record { held = λ r. ground (arith, held r) };
    quiet = q;
  }

  -- After a load that does not panic, each reference is held as often as before it, and once more for
  -- each static that was set to it.
  pub module_init_refs :
      (w : World S) (n : ℕ)
      → IsQuiet w.emacs
      → ((r : Raw) → held_by names w.globals r ≤ refs r w.emacs)
      → (module_init loading w).0 ≡ ok n
      → n ≤ 1
      → let w' = (module_init loading w).1 in
        (w'.protected ≡ w.protected)
        × ((r : Raw)
            → refs r w'.emacs + held_by names w.globals r
              ≡ refs r w.emacs + held_by names w'.globals r)
  unfolding module_init with_env
  module_init_refs w n q held e small =
      let base : Raw → ℕ = λ r. refs r w.emacs - held_by names w.globals r in
      let w2 = (initialize loading (new_env w).1).1 in
      let acc =
        initialize-IsAccounted base (new_env w).1 n (new_env-IsAccounted w q held) e small in
      let kept : (drop_env w2).1.globals ≡ w2.globals =
        ap (λ (f : Frame). f.globals) (KeepsFrame-drop_env.at w2) in
      (
        refl,
        λ r.
            let (freed, _) =
              drop_settles exits laws (λ r. held_by names w2.globals r + base r) w2.protected w2 r
                refl acc.balanced in
            let same : held_by names (drop_env w2).1.globals r ≡ held_by names w2.globals r =
              ap (λ (g : Static → Option Raw). held_by names g r) kept in
            omega (arith, freed, same, held r),
      )
