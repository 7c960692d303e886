-- ===== src/Func/Signalling.antt =====
-- A signal that an exported function makes (src/error.rs, `Env::signal`), and Lisp's view of it.
use emacs_module_rs.Base.{◌≡◌, refl}
use emacs_module_rs.Machine.{
  Emacs, ExitLaws, IsQuiet, temp_value, signal as signal_kind, World, ok, Act, ◌>>=◌,
}
use emacs_module_rs.Exit.Laws.{signalled, pending}
use emacs_module_rs.Value.{Value}
use emacs_module_rs.Call.{LispArgs, list}
use emacs_module_rs.Signal.{signal}
use emacs_module_rs.Func.{handle_call}
use emacs_module_rs.Func.Exits.{handle_call-err}

module _ {S : Type 0} ⦃E : Emacs S⦄ (exits : ExitLaws S) where
  -- If an exported function calls Env::signal, and the symbol and the list of the details are
  -- made while no exit is pending, then after handle_call the signal with this symbol and this
  -- list is pending. Emacs follows ExitLaws.
  pub handle_call-signal :
      {T : Type 0} (name : Act S Value) (details : LispArgs S) (rest : T → Act S Value)
      (w w1 w2 : World S) (symbol payload : Value)
      → name w ≡ (ok symbol, w1)
      → list details w1 ≡ (ok payload, w2)
      → IsQuiet w2.emacs
      → pending (handle_call (signal {T = T} name details >>= rest) w).1.emacs
        ≡ signalled symbol.raw payload.raw
  unfolding signal
  handle_call-signal {T = T} name details rest w w1 w2 symbol payload named listed q =
      let k = signal_kind (temp_value symbol.raw) (temp_value payload.raw) in
      handle_call-err exits (signal {T = T} name details >>= rest) k w w2 (rw (named, listed) refl)
        (signalled symbol.raw payload.raw) refl q
