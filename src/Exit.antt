-- ===== src/Exit.antt =====
-- Non-local exits (src/error.rs) and calls of raw functions (src/macros.rs). A raw function is a
-- step on the Emacs state. The panic of `raw_fn!` at a missing entry of the function table is left
-- out: every table that Emacs hands out since version 25 has the entries in use.
pub mod Laws
use emacs_module_rs.Base.{ℕ, Bool, ◌++◌, ◌==◌, if◌then◌else◌}
use emacs_module_rs.Machine.{
  codes, decimal, Raw, FuncallExit, Emacs, temp_value, signal, throw, kind, string, World, Act, ok,
  pure, fail, panic, ◌>>=◌, ◌>>◌,
}

-- The constants of `emacs_funcall_exit`.
abbrev pub return_status : ℕ
return_status = 0

abbrev pub signal_status : ℕ
signal_status = 1

abbrev pub throw_status : ℕ
throw_status = 2

module _ {S : Type 0} where
  -- `unsafe_raw_call_no_exit!`
  abbrev pub raw_call_no_exit : {A : Type 0} → (S → A × S) → Act S A
  raw_call_no_exit f w = (ok (f w.emacs).0, record w { emacs = (f w.emacs).1 })

  -- The same for a function that only reads.
  abbrev pub raw_read : {A : Type 0} → (S → A) → Act S A
  raw_read f w = (ok (f w.emacs), w)

  -- The same for a function with no result.
  abbrev pub raw_effect : (S → S) → Act S (Unit {0})
  raw_effect f w = (ok tt, record w { emacs = f w.emacs })

module _ {S : Type 0} ⦃E : Emacs S⦄ where
  unfoldable pub non_local_exit_get : Act S FuncallExit
  non_local_exit_get = raw_read E.non_local_exit_get

  unfoldable pub non_local_exit_clear : Act S (Unit {0})
  non_local_exit_clear = raw_effect E.non_local_exit_clear

  unfoldable pub non_local_exit_throw : Raw → Raw → Act S Raw
  non_local_exit_throw tag value = do raw_effect (E.non_local_exit_throw tag value); pure tag

  unfoldable pub non_local_exit_signal : Raw → Raw → Act S Raw
  non_local_exit_signal symbol payload = do
    raw_effect (E.non_local_exit_signal symbol payload)
    pure symbol

  -- A pending exit becomes an `Err`, and is cleared.
  unfoldable pub handle_exit : {A : Type 0} → A → Act S A
  unfolding non_local_exit_get non_local_exit_clear
  handle_exit result = do
    x ← non_local_exit_get
    if x.status == return_status
        then pure result
        else if x.status == signal_status
        then (do
          non_local_exit_clear
          fail (kind (signal (temp_value x.symbol) (temp_value x.payload))))
        else if x.status == throw_status
        then (do
          non_local_exit_clear
          fail (kind (throw (temp_value x.symbol) (temp_value x.payload))))
        else panic (string (codes "Unexpected non local exit status " ++ decimal x.status))

  -- `unsafe_raw_call!`
  unfoldable pub raw_call : {A : Type 0} → (S → A × S) → Act S A
  unfolding handle_exit
  raw_call f = do result ← raw_call_no_exit f; handle_exit result
