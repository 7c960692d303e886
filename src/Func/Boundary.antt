-- ===== src/Func/Boundary.antt =====
-- The boundary between Rust and C: when a call of an exported function returns to Emacs, and when a
-- panic goes through it.
use emacs_module_rs.Base.{◌≡◌, ◌<◌, ◌++◌, arith}
use emacs_module_rs.Machine.{
  Bytes, codes, Raw, Emacs, ExitLaws, World, Act, Outcome, ok, err, panicked, pure, continue, ◌>>=◌,
  attempt, as_result, as_thread, Payload, string, static_str, kind_payload, opaque, ErrorKind,
  signal, throw, wrong_type_user_ptr, Error, kind, display_kind, display, Static, Result, success,
  failure, unwound,
}
use emacs_module_rs.Value.{Value}
use emacs_module_rs.Global.{bind_static}
use emacs_module_rs.Statics.{nil, rust_error, rust_panic, rust_wrong_type_user_ptr}
use emacs_module_rs.Signal.{
  signal_static, or_panic, or_nil, handle_known, maybe_exit, handle_panic, signal_rust_error,
  signal_panic,
}
use emacs_module_rs.Unwinding.{IsLoaded, NoPanic, NeverPanics-signal_static}
use emacs_module_rs.Func.{run_guarded, handle_call}

-- The call returns a value to C.
abbrev pub Returns : {A : Type 0} → Outcome A → Type 0
Returns (ok _) = Unit
Returns (err _) = ⊥
Returns (panicked _) = ⊥

-- A panic payload that is not a `WrongTypeUserPtr`.
abbrev pub IsSignalable : Payload → Type 0
IsSignalable (kind_payload (wrong_type_user_ptr _)) = ⊥
IsSignalable _ = Unit

abbrev pub IsSignalableEnd : {A : Type 0} → Outcome A → Type 0
IsSignalableEnd (panicked p) = IsSignalable p
IsSignalableEnd _ = Unit

-- What the code under `catch_unwind` may end in.
abbrev Contained : {S A : Type 0} → Outcome A → World S → Type 0
Contained (ok _) w = Unit
Contained (err _) w = ⊥
Contained (panicked p) w = IsSignalable p × IsLoaded w

module _ {S : Type 0} ⦃E : Emacs S⦄ (exits : ExitLaws S) where
  or_panic-Contained :
      (text : Bytes) (o : Outcome Raw) (w : World S)
      → NoPanic o
      → IsLoaded w
      → let r = continue (as_result o) (or_panic text) w in Contained r.0 r.1
  or_panic-Contained text (ok raw) w n h = tt
  or_panic-Contained text (err e) w n h = (tt, h)
  or_panic-Contained text (panicked p) w n h = elim n [ ]

  report-Contained :
      (name : Static) (text shown : Bytes) (w : World S)
      → name < 13
      → IsLoaded w
      → let r = (attempt (signal_static name text) >>= or_panic shown) w in Contained r.0 r.1
  report-Contained name text shown w small h =
      let r = signal_static name text w in
      let (n, h') = (NeverPanics-signal_static exits name text small).at w h in
      or_panic-Contained shown r.0 r.1 n h'

  handle_known-Contained :
      (k : ErrorKind) (w : World S)
      → IsLoaded w
      → Contained (handle_known k w).0 (handle_known k w).1
  unfolding handle_known
  handle_known-Contained (signal a b) w h = tt
  handle_known-Contained (throw a b) w h = tt
  handle_known-Contained (wrong_type_user_ptr x) w h =
      report-Contained rust_wrong_type_user_ptr _ _ w (omega arith) h

  maybe_exit-Contained :
      (r : Result Value) (w : World S)
      → IsLoaded w
      → Contained (maybe_exit r w).0 (maybe_exit r w).1
  unfolding maybe_exit signal_rust_error
  maybe_exit-Contained (success v) w h = tt
  maybe_exit-Contained (failure (kind k)) w h = handle_known-Contained k w h
  maybe_exit-Contained (failure e) w h =
      report-Contained rust_error (display e) (display e) w (omega arith) h

  raw_of-Returns :
      (o : Outcome Value) (w : World S) → Returns o → Returns (continue o (λ v. pure v.raw) w).0
  raw_of-Returns (ok v) w r = tt
  raw_of-Returns (err e) w r = elim r [ ]
  raw_of-Returns (panicked p) w r = elim r [ ]

  nil-Returns : (w : World S) → IsLoaded w → Returns (bind_static {S = S} nil w).0
  unfolding bind_static
  nil-Returns w h = let set = h.statics nil (omega arith) in ground arith

  or_nil-Returns :
      (o : Outcome Raw) (w : World S)
      → NoPanic o
      → IsLoaded w
      → Returns (continue (as_result o) or_nil w).0
  or_nil-Returns (ok raw) w n h = tt
  or_nil-Returns (err e) w n h = raw_of-Returns (bind_static nil w).0 _ (nil-Returns w h)
  or_nil-Returns (panicked p) w n h = elim n [ ]

  signal_panic-Returns : (text : Bytes) (w : World S) → IsLoaded w → Returns (signal_panic text w).0
  unfolding signal_panic
  signal_panic-Returns text w h =
      let r = signal_static rust_panic text w in
      let (n, h') = (NeverPanics-signal_static exits rust_panic text (omega arith)).at w h in
      or_nil-Returns r.0 r.1 n h'

  handle_panic-Returns :
      (p : Payload) (w : World S)
      → IsSignalable p
      → IsLoaded w
      → Returns (handle_panic (unwound p) w).0
  unfolding handle_panic handle_known
  handle_panic-Returns (string text) w i h = signal_panic-Returns text w h
  handle_panic-Returns (kind_payload (signal a b)) w i h = tt
  handle_panic-Returns (kind_payload (throw a b)) w i h = tt
  handle_panic-Returns (kind_payload (wrong_type_user_ptr x)) w i h = elim i [ ]
  handle_panic-Returns (static_str text) w i h = signal_panic-Returns _ w h
  handle_panic-Returns opaque w i h = signal_panic-Returns _ w h

  guarded-Contained :
      (o : Outcome Value) (w : World S)
      → IsSignalableEnd o
      → IsLoaded w
      → let r = continue (as_result o) maybe_exit w in Contained r.0 r.1
  guarded-Contained (ok v) w i h = maybe_exit-Contained (success v) w h
  guarded-Contained (err e) w i h = maybe_exit-Contained (failure e) w h
  guarded-Contained (panicked p) w i h = (i, h)

  caught-Returns :
      (o : Outcome Raw) (w : World S)
      → Contained o w
      → Returns (continue (as_thread o) handle_panic w).0
  unfolding handle_panic
  caught-Returns (ok raw) w c = tt
  caught-Returns (err e) w c = elim c [ ]
  caught-Returns (panicked p) w c = handle_panic-Returns p w c.0 c.1

  -- However an exported function ends, handle_call returns a value to Emacs and lets no panic
  -- through, if the crate's statics are set when the function ends and it has not panicked with
  -- a WrongTypeUserPtr payload. Emacs follows ExitLaws.
  pub handle_call-Returns :
      (f : Act S Value) (w : World S)
      → IsLoaded (f w).1
      → IsSignalableEnd (f w).0
      → Returns (handle_call f w).0
  unfolding handle_call run_guarded
  handle_call-Returns f w h i =
      let r = run_guarded f w in caught-Returns r.0 r.1 (guarded-Contained (f w).0 (f w).1 i h)

  -- If an exported function panics with a WrongTypeUserPtr payload and the call that should
  -- signal it fails, handle_call itself panics: the panic goes through the boundary to C. Emacs
  -- follows ExitLaws.
  pub handle_call_unwinds :
      (f : Act S Value) (expected : Bytes) (w w' : World S) (e : Error)
      → let text = display_kind (wrong_type_user_ptr expected) in
        f w ≡ (panicked (kind_payload (wrong_type_user_ptr expected)), w')
        → (signal_static rust_wrong_type_user_ptr text w').0 ≡ err e
        → (handle_call f w).0 ≡ panicked (string (codes "Failed to signal " ++ text))
  unfolding handle_call run_guarded handle_panic handle_known
  handle_call_unwinds f expected w w' e ends fails = rw (ends, fails)
