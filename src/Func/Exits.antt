-- ===== src/Func/Exits.antt =====
-- Which non-local exit is pending after a call of an exported function.
use emacs_module_rs.Base.{◌≡◌, ◌≢◌, refl, ap, some, [], ◌∷◌}
use emacs_module_rs.Machine.{
  Bytes, codes, Raw, Emacs, IsQuiet, ExitLaws, World, Act, Outcome, ok, err, panicked, continue,
  ◌>>=◌, as_result, as_thread, failure, display, Payload, string, kind_payload, ErrorKind, signal,
  throw, Error, kind, temp_value, Static,
}
use emacs_module_rs.Exit.{raw_call, non_local_exit_signal}
use emacs_module_rs.Exit.Laws.{
  Pending, quiet, signalled, thrown, pending, result_of, handle_exit_outcome, pending-signal,
  pending-throw,
}
use emacs_module_rs.Value.{Value}
use emacs_module_rs.Global.{deref}
use emacs_module_rs.Statics.{rust_error, rust_panic}
use emacs_module_rs.Call.{values_args, list}
use emacs_module_rs.Convert.Text.{str_into_lisp}
use emacs_module_rs.Signal.{
  signal_internal, signal_static, handle_known, maybe_exit, handle_panic, signal_panic,
  signal_rust_error, or_panic, or_nil,
}
use emacs_module_rs.Func.{run_guarded, handle_call}

-- The Rust error that stands for a Lisp exit.
abbrev pub StandsFor : Pending → ErrorKind → Type 0
StandsFor quiet k = ⊥
StandsFor (signalled a b) k = k ≡ signal (temp_value a) (temp_value b)
StandsFor (thrown a b) k = k ≡ throw (temp_value a) (temp_value b)

module _ {S : Type 0} ⦃E : Emacs S⦄ (exits : ExitLaws S) where
  -- A function that ends in the error of a Lisp exit, or panics with it, leaves that exit pending.
  handle_known-pending :
      (p : Pending) (k : ErrorKind) (w : World S)
      → StandsFor p k
      → IsQuiet w.emacs
      → pending (handle_known k w).1.emacs ≡ p
  unfolding handle_known
  handle_known-pending quiet k w h q = elim h [ ]
  handle_known-pending (signalled a b) k w h q = rw h (pending-signal exits a b w.emacs q)
  handle_known-pending (thrown a b) k w h q = rw h (pending-throw exits a b w.emacs q)

  pub handle_call-err :
      (f : Act S Value) (k : ErrorKind) (w w' : World S)
      → f w ≡ (err (kind k), w')
      → (p : Pending) → StandsFor p k
      → IsQuiet w'.emacs
      → pending (handle_call f w).1.emacs ≡ p
  unfolding handle_call run_guarded maybe_exit handle_panic handle_known
  handle_call-err f k w w' e quiet h q = elim h [ ]
  handle_call-err f k w w' e (signalled a b) h q = rw (e, h) (pending-signal exits a b w'.emacs q)
  handle_call-err f k w w' e (thrown a b) h q = rw (e, h) (pending-throw exits a b w'.emacs q)

  -- If an exported function panics with the ErrorKind of a signal or a throw while no exit is
  -- pending, that exit is pending after handle_call. Emacs follows ExitLaws.
  pub handle_call-panicked :
      (f : Act S Value) (k : ErrorKind) (w w' : World S)
      → f w ≡ (panicked (kind_payload k), w')
      → (p : Pending) → StandsFor p k
      → IsQuiet w'.emacs
      → pending (handle_call f w).1.emacs ≡ p
  unfolding handle_call run_guarded handle_panic
  handle_call-panicked f k w w' e p h q = rw e (handle_known-pending p k w' h q)

bind-err :
    {S A B : Type 0} (m : Act S A) (g : A → Act S B) (w : World S) (e : Error)
    → (m w).0 ≡ err e
    → (m >>= g) w ≡ (err e, (m w).1)
bind-err m g w e h = ap (λ o. continue o g (m w).1) h

module _ {S : Type 0} ⦃E : Emacs S⦄ (exits : ExitLaws S) where
  passes :
      {A : Type 0} (f : S → A × S) (g : A → Act S Value) (w : World S) (p : Pending) (k : ErrorKind)
      → StandsFor p k
      → (raw_call f w).0 ≡ err (kind k)
      → IsQuiet (raw_call f w).1.emacs
      → pending (handle_call (raw_call f >>= g) w).1.emacs ≡ p
  passes f g w p k h e q =
      handle_call-err exits (raw_call f >>= g) k w _ (bind-err (raw_call f) g w _ e) p h q

  passes_pending :
      {A : Type 0} (f : S → A × S) (g : A → Act S Value) (w : World S) (p : Pending)
      → p ≢ quiet
      → (raw_call f w).0 ≡ result_of p (f w.emacs).0
      → IsQuiet (raw_call f w).1.emacs
      → (k : ErrorKind) × StandsFor p k
        × ((raw_call f w).0 ≡ err (kind k))
        × (pending (handle_call (raw_call f >>= g) w).1.emacs ≡ p)
  passes_pending f g w quiet ne e q = absurd (ne refl)
  passes_pending f g w (signalled a b) ne e q =
      (_, refl, e, passes f g w (signalled a b) _ refl e q)
  passes_pending f g w (thrown a b) ne e q = (_, refl, e, passes f g w (thrown a b) _ refl e q)

  -- A raw call after which a signal or a throw is pending returns an Err in Rust, of the
  -- ErrorKind that stands for that exit, and after handle_call of a function that goes on with
  -- its result the exit is pending in Emacs exactly as it was. Emacs follows ExitLaws.
  pub exit_roundtrip :
      {A : Type 0} (f : S → A × S) (g : A → Act S Value) (w : World S)
      → pending (f w.emacs).1 ≢ quiet
      → (k : ErrorKind) × StandsFor (pending (f w.emacs).1) k
        × ((raw_call f w).0 ≡ err (kind k))
        × (pending (handle_call (raw_call f >>= g) w).1.emacs ≡ pending (f w.emacs).1)
  unfolding raw_call
  exit_roundtrip f g w ne =
      let (e, q, _) =
        handle_exit_outcome exits (f w.emacs).0 (record w { emacs = (f w.emacs).1 }) in
      passes_pending f g w (pending (f w.emacs).1) ne e q

-- The errors that `maybe_exit` does not know.
abbrev pub IsOther : Error → Type 0
IsOther (kind _) = ⊥
IsOther _ = Unit

-- In the world `w` each of the calls that turn a text into the data of a signal gives a value.
pub record IsTold {S : Type 0} ⦃E : Emacs S⦄ (name : Static) (text : Bytes) (w : World S)
    (symbol : Raw) (details : Value) : Type 0 where
  pub message : Value
  pub after_message : World S
  pub after_list : World S
  pub set : w.globals name ≡ some symbol
  pub made : str_into_lisp text w ≡ (ok message, after_message)
  pub listed : list (values_args (message ∷ [])) after_message ≡ (ok details, after_list)
  pub calm : IsQuiet after_list.emacs

-- The symbol is returned, and its signal is pending.
pub record Signals {S : Type 0} ⦃E : Emacs S⦄ (r : Outcome Raw × World S) (symbol : Raw)
    (details : Value) : Type 0 where
  pub returned : r.0 ≡ ok symbol
  pub left : pending r.1.emacs ≡ signalled symbol details.raw

module _ {S : Type 0} ⦃E : Emacs S⦄ (exits : ExitLaws S) where
  signal_static-Signals :
      (name : Static) (text : Bytes) (w : World S) {symbol : Raw} {details : Value}
      → IsTold name text w symbol details
      → Signals (signal_static name text w) symbol details
  unfolding signal_static signal_internal deref non_local_exit_signal
  signal_static-Signals name text w {symbol} {details} told =
      rw (told.set, told.made, told.listed)
        record {
          returned = refl;
          left = pending-signal exits symbol details.raw told.after_list.emacs told.calm;
        }

  or_panic-Signals :
      (shown : Bytes) (r : Outcome Raw × World S) {symbol : Raw} {details : Value}
      → Signals r symbol details
      → Signals (continue (as_result r.0) (or_panic shown) r.1) symbol details
  or_panic-Signals shown r h = rw h.returned (record { returned = refl; left = h.left })

  or_nil-Signals :
      (r : Outcome Raw × World S) {symbol : Raw} {details : Value}
      → Signals r symbol details
      → Signals (continue (as_result r.0) or_nil r.1) symbol details
  or_nil-Signals r h = rw h.returned (record { returned = refl; left = h.left })

  caught-Signals :
      (r : Outcome Raw × World S) {symbol : Raw} {details : Value}
      → Signals r symbol details
      → Signals (continue (as_thread r.0) handle_panic r.1) symbol details
  unfolding handle_panic
  caught-Signals r h = rw h.returned (record { returned = refl; left = h.left })

  signal_rust_error-Signals :
      (e : Error) (w : World S) {symbol : Raw} {details : Value}
      → IsOther e
      → IsTold rust_error (display e) w symbol details
      → Signals (maybe_exit (failure e) w) symbol details
  unfolding maybe_exit signal_rust_error
  signal_rust_error-Signals (kind k) w o told = elim o [ ]
  signal_rust_error-Signals e w o told =
      or_panic-Signals (display e) (signal_static rust_error (display e) w)
        (signal_static-Signals rust_error (display e) w told)

  -- If an exported function ends in an error that is no ErrorKind, and the calls that build the
  -- signal give values, handle_call returns the symbol rust-error and leaves pending its signal
  -- with the list of the message. Emacs follows ExitLaws.
  pub handle_call-rust_error :
      (f : Act S Value) (e : Error) (w w' : World S) {symbol : Raw} {details : Value}
      → f w ≡ (err e, w')
      → IsOther e
      → IsTold rust_error (display e) w' symbol details
      → Signals (handle_call f w) symbol details
  unfolding handle_call run_guarded
  handle_call-rust_error f e w w' ends o told =
      rw ends (caught-Signals (maybe_exit (failure e) w') (signal_rust_error-Signals e w' o told))

  -- The text that a panic is signaled with: a `String` payload is the text, and any other that is
  -- no `ErrorKind` is printed without it, a `&'static str` too.
  abbrev pub panic_text : Payload → Bytes
  panic_text (string text) = text
  panic_text _ = codes "Any { .. }"

  abbrev pub IsOpaque : Payload → Type 0
  IsOpaque (kind_payload _) = ⊥
  IsOpaque _ = Unit

  -- If an exported function panics with a payload that is no ErrorKind, and the calls that build
  -- the signal give values, handle_call leaves the signal rust-panic pending; its text is the
  -- payload if that is a String, and "Any { .. }" for any other, a static string too. Emacs
  -- follows ExitLaws.
  pub handle_call-rust_panic :
      (f : Act S Value) (p : Payload) (w w' : World S) {symbol : Raw} {details : Value}
      → f w ≡ (panicked p, w')
      → IsOpaque p
      → IsTold rust_panic (panic_text p) w' symbol details
      → Signals (handle_call f w) symbol details
  unfolding handle_call run_guarded handle_panic signal_panic
  handle_call-rust_panic f (string text) w w' ends o told = rw ends (
      or_nil-Signals (signal_static rust_panic text w')
        (signal_static-Signals rust_panic text w' told))
  handle_call-rust_panic f (kind_payload k) w w' ends o told = elim o [ ]
  handle_call-rust_panic f _ w w' ends o told =
      rw ends (
        or_nil-Signals (signal_static rust_panic _ w') (signal_static-Signals rust_panic _ w' told))
