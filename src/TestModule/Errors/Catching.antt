-- ===== src/TestModule/Errors/Catching.antt =====
-- `catch` of the test module as Lisp sees it (test-module/src/test_error.rs): it catches what is
-- thrown for its tag, and lets every other exit through.
use emacs_module_rs.Base.{
  ap, ℕ, ◌≡◌, refl, Bool, if◌then◌else◌, Option, none, some, Option-cases, inl, inr, Bool-cases, [],
}
use emacs_module_rs.Machine.{
  as_result, failure, Raw, Emacs, IsQuiet, ExitLaws, RefLaws, temp_value, throw, kind, World,
  Outcome, ok, err, continue, ErrorKind, Act,
}
use emacs_module_rs.Exit.{raw_call}
use emacs_module_rs.Exit.Laws.{
  Pending, quiet, signalled, thrown, pending, result_of, handle_exit_outcome, pending_quiet,
}
use emacs_module_rs.Value.{Value, value, protect, eq, temp_value_value, raw_call_value_unprotected}
use emacs_module_rs.Call.{values_args, call_value, call_unprotected}
use emacs_module_rs.Signal.{maybe_exit}
use emacs_module_rs.Func.{handle_call, run_guarded}
use emacs_module_rs.Func.Exits.{StandsFor, handle_call-err}
use emacs_module_rs.TestModule.Errors.{caught, catch}

module _ {S : Type 0} ⦃E : Emacs S⦄ {refs : Raw → S → ℕ} (exits : ExitLaws S)
    (laws : RefLaws S refs) where
  protect_ends :
      (v : Value) (w : World S)
      → IsQuiet w.emacs
      → ((protect v w).0 ≡ ok v) × IsQuiet (protect v w).1.emacs
  unfolding protect
  protect_ends v w q = elim (Option-cases w.protected) [
    | inl e ↦ rw e (refl, q)
    | inr (roots, e) ↦ rw e (refl, laws.make-IsQuiet v.raw w.emacs q)
  ]

  called_ends :
      (raw : Raw) (p : Pending) (f : S → Raw × S) (w : World S)
      → (raw_call f w).0 ≡ result_of p raw
      → IsQuiet (raw_call f w).1.emacs
      → let r =
          continue (raw_call_value_unprotected f w).0 protect (raw_call_value_unprotected f w).1 in
        (r.0 ≡ result_of p (value raw)) × IsQuiet r.1.emacs
  unfolding raw_call_value_unprotected
  called_ends raw quiet f w e q = rw e (protect_ends (value raw) _ q)
  called_ends raw (signalled a b) f w e q = rw e (refl, q)
  called_ends raw (thrown a b) f w e q = rw e (refl, q)

-- What Lisp sees of `catch`, by what is pending after the call of the lambda and by whether a tag is
-- `eq` to the expected one: the exit that is left, and the value that is returned.
abbrev pub uncaught : (Raw → Bool) → Pending → Pending
uncaught is_expected (thrown tag v) = if is_expected tag then quiet else thrown tag v
uncaught is_expected p = p

abbrev pub returned : (Raw → Bool) → Raw → Pending → Option Raw
returned is_expected raw quiet = some raw
returned is_expected raw (signalled _ _) = none
returned is_expected raw (thrown tag v) = if is_expected tag then some v else none

-- The `Result` of `catch`.
abbrev outcome : Option Raw → Pending → Outcome Value
outcome (some raw) p = ok (value raw)
outcome none p = result_of p (value 0)

module _ {S : Type 0} ⦃E : Emacs S⦄ {refs : Raw → S → ℕ} (exits : ExitLaws S)
    (laws : RefLaws S refs) (expected : Value) (is_expected : Raw → Bool)
    (eq_expected : (tag : Raw) (s : S) → E.eq tag expected.raw s ≡ is_expected tag) where
  caught_throw :
      (a b : Raw) (w : World S)
      → IsQuiet w.emacs
      → let r = caught expected (failure (kind (throw (temp_value a) (temp_value b)))) w in
        (r.0 ≡ outcome (returned is_expected 0 (thrown a b)) (uncaught is_expected (thrown a b)))
        × IsQuiet r.1.emacs
  unfolding temp_value_value eq
  caught_throw a b w q =
      let (e, q1) = protect_ends exits laws (value a) w q in
      elim (Bool-cases (is_expected a)) [
        | inl yes_it ↦
            rw (e, eq_expected a (protect (value a) w).1.emacs, yes_it)
              (protect_ends exits laws (value b) _ q1)
        | inr no_it ↦ rw (e, eq_expected a (protect (value a) w).1.emacs, no_it) (refl, q1)
      ]

  catch_of_call :
      (raw : Raw) (p : Pending) (o : Outcome Value) (w : World S)
      → o ≡ result_of p (value raw)
      → IsQuiet w.emacs
      → let r = continue (as_result o) (caught expected) w in
        (r.0 ≡ outcome (returned is_expected raw p) (uncaught is_expected p)) × IsQuiet r.1.emacs
  catch_of_call raw quiet o w e q = rw e (refl, q)
  catch_of_call raw (signalled a b) o w e q = rw e (refl, q)
  catch_of_call raw (thrown a b) o w e q = rw e (caught_throw a b w q)

module _ {S : Type 0} ⦃E : Emacs S⦄ where
  -- The exit that is pending, and the value, if one is returned.
  abbrev Handled : Option Raw → Pending → Outcome Raw × World S → Type 0
  Handled ret p r = (pending r.1.emacs ≡ p) × ((raw : Raw) → ret ≡ some raw → r.0 ≡ ok raw)

module _ {S : Type 0} ⦃E : Emacs S⦄ (exits : ExitLaws S) where
  handle_call-ok :
      (f : Act S Value) (raw : Raw) (w : World S)
      → (f w).0 ≡ ok (value raw)
      → handle_call f w ≡ (ok raw, (f w).1)
  unfolding handle_call run_guarded maybe_exit
  handle_call-ok f raw w e = rw e refl

  handle_call-failed :
      (f : Act S Value) (p : Pending) (k : ErrorKind) (w : World S)
      → (f w).0 ≡ err (kind k)
      → StandsFor p k
      → IsQuiet (f w).1.emacs
      → pending (handle_call f w).1.emacs ≡ p
  handle_call-failed f p k w e h q =
      handle_call-err exits f k w (f w).1 (ap (λ (o : Outcome Value). (o, (f w).1)) e) p h q

  ends_ok :
      (f : Act S Value) (raw : Raw) (w : World S)
      → (f w).0 ≡ ok (value raw)
      → IsQuiet (f w).1.emacs
      → Handled (some raw) quiet (handle_call f w)
  ends_ok f raw w e q =
      let same = handle_call-ok f raw w e in
      (
        rw same (pending_quiet exits (f w).1.emacs q),
        λ raw' is. rw same (let same_raw : raw ≡ raw' = cc in ap ok same_raw),
      )

  ends_err :
      (f : Act S Value) (p : Pending) (k : ErrorKind) (w : World S)
      → (f w).0 ≡ err (kind k)
      → StandsFor p k
      → IsQuiet (f w).1.emacs
      → Handled none p (handle_call f w)
  ends_err f p k w e h q = (handle_call-failed f p k w e h q, λ raw is. cc)

  call_ends :
      (is_expected : Raw → Bool) (raw : Raw) (p : Pending) (f : Act S Value) (w : World S)
      → (f w).0 ≡ outcome (returned is_expected raw p) (uncaught is_expected p)
      → IsQuiet (f w).1.emacs
      → Handled (returned is_expected raw p) (uncaught is_expected p) (handle_call f w)
  call_ends is_expected raw quiet f w e q = ends_ok f raw w e q
  call_ends is_expected raw (signalled a b) f w e q = ends_err f (signalled a b) _ w e refl q
  call_ends is_expected raw (thrown a b) f w e q = elim (Bool-cases (is_expected a)) [
    | inl yes_it ↦ rw yes_it (ends_ok f b w (rw yes_it at e) q)
    | inr no_it ↦ rw no_it (ends_err f (thrown a b) _ w (rw no_it at e) refl q)
  ]

module _ {S : Type 0} ⦃E : Emacs S⦄ {refs : Raw → S → ℕ} (exits : ExitLaws S)
    (laws : RefLaws S refs) (expected : Value) (is_expected : Raw → Bool)
    (eq_expected : (tag : Raw) (s : S) → E.eq tag expected.raw s ≡ is_expected tag) where
  -- After handle_call of catch: if the call of the lambda returns or signals, the same value is
  -- returned, or the same signal is pending; if it throws, the thrown value is returned and no
  -- exit is pending where the tag is eq to the expected one, and else the same throw is pending.
  -- What is eq to the expected tag does not depend on the state of Emacs. Emacs follows ExitLaws
  -- and RefLaws.
  pub handle_call-catch :
      (lambda : Value) (w : World S)
      → let r = E.funcall lambda.raw [] w.emacs in
        let h = handle_call (catch expected lambda) w in
        (pending h.1.emacs ≡ uncaught is_expected (pending r.1))
        × ((raw : Raw) → returned is_expected r.0 (pending r.1) ≡ some raw → h.0 ≡ ok raw)
  unfolding catch call_value call_unprotected raw_call
  handle_call-catch lambda w =
      let (raw, s) = E.funcall lambda.raw [] w.emacs in
      let (e, q, _) = handle_exit_outcome exits raw (record w { emacs = s }) in
      let (e1, q1) = called_ends exits laws raw (pending s) (E.funcall lambda.raw []) w e q in
      let (e2, q2) =
        catch_of_call exits laws expected is_expected eq_expected raw (pending s)
          (call_value lambda (values_args []) w).0 (call_value lambda (values_args []) w).1 e1 q1 in
      call_ends exits is_expected raw (pending s) (catch expected lambda) w e2 q2
