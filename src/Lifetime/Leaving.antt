-- ===== src/Lifetime/Leaving.antt =====
-- The operations that leave an exit pending, and keep the references balanced (src/error.rs).
use emacs_module_rs.Base.{ℕ, ◌∙◌}
use emacs_module_rs.Machine.{
  Bytes, Raw, Emacs, ExitLaws, RefLaws, World, Act, Outcome, ok, err, panicked, pure, ◌>>=◌, Static,
  Result, success, failure, attempt, as_result, as_thread, catch_unwind, Thread, finished, unwound,
  Payload, string, kind_payload, continue, ErrorKind, signal, throw, wrong_type_user_ptr, kind,
  display,
}
use emacs_module_rs.Exit.{non_local_exit_signal, non_local_exit_throw}
use emacs_module_rs.Value.{Value}
use emacs_module_rs.Global.{bind_static}
use emacs_module_rs.Statics.{nil, rust_error, rust_panic, rust_wrong_type_user_ptr}
use emacs_module_rs.Signal.{
  signal_internal, signal_static, or_panic, or_nil, handle_known, maybe_exit, handle_panic,
  signal_rust_error, signal_panic,
}
use emacs_module_rs.Lifetime.Balance.{
  Settles, Balances, IsSettled, IsBalanced, Settles-pure, Settles-bind,
}
use emacs_module_rs.Lifetime.Settling.{
  KeepingCalls, Settles-deref, Settles-bind_static, Settles-str, Settles-list,
}

-- How an action ends that was begun in a settled world: with a value an exit may be pending, with
-- an error or a panic none is.
abbrev pub EndsAt :
    {S A : Type 0} ⦃E : Emacs S⦄ → (Raw → S → ℕ) → (Raw → ℕ) → Outcome A → World S → Type 0
EndsAt refs base (ok _) w = IsBalanced refs base w
EndsAt refs base (err _) w = IsSettled refs base w
EndsAt refs base (panicked _) w = IsSettled refs base w

module _ {S : Type 0} ⦃E : Emacs S⦄ (refs : Raw → S → ℕ) where
  pub record Ends {A : Type 0} (m : Act S A) : Type 0 where
    pub at :
        (base : Raw → ℕ) (w : World S) → IsSettled refs base w → EndsAt refs base (m w).0 (m w).1

module _ {S A : Type 0} ⦃E : Emacs S⦄ {refs : Raw → S → ℕ} where
  EndsAt-IsBalanced :
      (base : Raw → ℕ) (o : Outcome A) (w : World S) → EndsAt refs base o w → IsBalanced refs base w
  EndsAt-IsBalanced base (ok a) w h = h
  EndsAt-IsBalanced base (err e) w h = h.balanced
  EndsAt-IsBalanced base (panicked p) w h = h.balanced

  EndsAt-IsSettled :
      (base : Raw → ℕ) (o : Outcome A) (w : World S) → IsSettled refs base w → EndsAt refs base o w
  EndsAt-IsSettled base (ok a) w h = h.balanced
  EndsAt-IsSettled base (err e) w h = h
  EndsAt-IsSettled base (panicked p) w h = h

  pub Balances-Ends : {m : Act S A} → Ends refs m → Balances refs m
  Balances-Ends {m} km = record {
    at = λ base w h. EndsAt-IsBalanced base (m w).0 (m w).1 (km.at base w h);
  }

  pub Ends-Settles : (m : Act S A) → Settles refs m → Ends refs m
  Ends-Settles m km = record {
    at = λ base w h. EndsAt-IsSettled base (m w).0 (m w).1 (km.at base w h);
  }

module _ {S A B : Type 0} ⦃E : Emacs S⦄ {refs : Raw → S → ℕ} where
  Ends-continue :
      (base : Raw → ℕ) (o : Outcome A) (f : A → Act S B) (w : World S)
      → ((a : A) → Ends refs (f a))
      → IsSettled refs base w
      → EndsAt refs base (continue o f w).0 (continue o f w).1
  Ends-continue base (ok a) f w kf h = (kf a).at base w h
  Ends-continue base (err e) f w kf h = h
  Ends-continue base (panicked p) f w kf h = h

  pub Ends-bind :
      (m : Act S A) (f : A → Act S B)
      → Settles refs m
      → ((a : A) → Ends refs (f a))
      → Ends refs (m >>= f)
  Ends-bind m f km kf = record {
    at = λ base w h. Ends-continue base (m w).0 f (m w).1 kf (km.at base w h);
  }

module _ {S : Type 0} ⦃E : Emacs S⦄ (refs : Raw → S → ℕ) where
  -- An exit with a message is tried, and where it fails the code panics or returns nil.
  or_panic-ends :
      (base : Raw → ℕ) (text : Bytes) (o : Outcome Raw) (w : World S)
      → EndsAt refs base o w
      → let r = continue (as_result o) (or_panic text) w in EndsAt refs base r.0 r.1
  or_panic-ends base text (ok raw) w h = h
  or_panic-ends base text (err e) w h = h
  or_panic-ends base text (panicked p) w h = h

  or_nil-ends :
      (base : Raw → ℕ) (o : Outcome Raw) (w : World S)
      → EndsAt refs base o w
      → let r = continue (as_result o) or_nil w in EndsAt refs base r.0 r.1
  or_nil-ends base (ok raw) w h = h
  or_nil-ends base (err e) w h =
      (Ends-Settles _ (
          Settles-bind (bind_static nil) (λ v. pure v.raw) (Settles-bind_static nil)
            (λ v. Settles-pure v.raw))).at
        base w h
  or_nil-ends base (panicked p) w h = h

module _ {S : Type 0} ⦃E : Emacs S⦄ {refs : Raw → S → ℕ} where
  -- After `catch_unwind`.
  pub Ends-catch_unwind :
      {A B : Type 0} (m : Act S A) (f : Thread A → Act S B)
      → Ends refs m
      → ((a : A) (base : Raw → ℕ) (w : World S)
          → IsBalanced refs base w
          → EndsAt refs base (f (finished a) w).0 (f (finished a) w).1)
      → ((p : Payload) → Ends refs (f (unwound p)))
      → Ends refs (catch_unwind m >>= f)
  Ends-catch_unwind {A} {B} m f km done failed = record {
    at = λ base w h. go base (m w).0 (m w).1 (km.at base w h);
  }
    where
      go :
          (base : Raw → ℕ) (o : Outcome A) (w : World S)
          → EndsAt refs base o w
          → let r = continue (as_thread o) f w in EndsAt refs base r.0 r.1
      go base (ok a) w h = done a base w h
      go base (err e) w h = h
      go base (panicked p) w h = (failed p).at base w h

module _ {S : Type 0} ⦃E : Emacs S⦄ {refs : Raw → S → ℕ} (exits : ExitLaws S)
    (laws : RefLaws S refs) (calls : KeepingCalls refs) where
  Ends-signal : (a b : Raw) → Ends refs (non_local_exit_signal a b)
  unfolding non_local_exit_signal
  Ends-signal a b = record {
    at = λ base w h. record { held = λ r. laws.refs-signal a b w.emacs r ∙ h.balanced.held r };
  }

  Ends-throw : (a b : Raw) → Ends refs (non_local_exit_throw a b)
  unfolding non_local_exit_throw
  Ends-throw a b = record {
    at = λ base w h. record { held = λ r. laws.refs-throw a b w.emacs r ∙ h.balanced.held r };
  }

  Ends-signal_static : (name : Static) (text : Bytes) → Ends refs (signal_static name text)
  unfolding signal_static signal_internal
  Ends-signal_static name text =
      search
        (
          Ends-bind, Settles-pure, Settles-deref, Settles-bind_static, Settles-str, Settles-list,
          Ends-signal,
        )
        depth 8

  Ends-or_panic :
      (name : Static) (text shown : Bytes)
      → Ends refs (attempt (signal_static name text) >>= or_panic shown)
  Ends-or_panic name text shown = record {
    at = λ base w h.
        let r = signal_static name text w in
        or_panic-ends refs base shown r.0 r.1 ((Ends-signal_static name text).at base w h);
  }

  pub Ends-handle_known : (k : ErrorKind) → Ends refs (handle_known k)
  unfolding handle_known
  Ends-handle_known (signal a b) = Ends-signal a.raw b.raw
  Ends-handle_known (throw a b) = Ends-throw a.raw b.raw
  Ends-handle_known (wrong_type_user_ptr expected) = Ends-or_panic rust_wrong_type_user_ptr _ _

  pub Ends-maybe_exit : (r : Result Value) → Ends refs (maybe_exit r)
  unfolding maybe_exit signal_rust_error
  Ends-maybe_exit (success v) = Ends-Settles _ (Settles-pure v.raw)
  Ends-maybe_exit (failure (kind k)) = Ends-handle_known k
  Ends-maybe_exit (failure e) = Ends-or_panic rust_error (display e) (display e)

  Ends-signal_panic : (text : Bytes) → Ends refs (signal_panic text)
  unfolding signal_panic
  Ends-signal_panic text = record {
    at = λ base w h.
        let r = signal_static rust_panic text w in
        or_nil-ends refs base r.0 r.1 ((Ends-signal_static rust_panic text).at base w h);
  }

  pub Ends-handle_panic : (p : Payload) → Ends refs (handle_panic (unwound p))
  unfolding handle_panic
  Ends-handle_panic (string text) = Ends-signal_panic text
  Ends-handle_panic (kind_payload k) = Ends-handle_known k
  Ends-handle_panic _ = Ends-signal_panic _
