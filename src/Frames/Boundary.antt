-- ===== src/Frames/Boundary.antt =====
-- A call of an exported function changes no static and no borrow but as its function does
-- (src/func.rs, src/error.rs).
use emacs_module_rs.Base.{◌∙◌, [], ◌∷◌}
use emacs_module_rs.Machine.{
  Bytes, Raw, Emacs, ExitLaws, Act, pure, ◌>>=◌, attempt, catch_unwind, Result, success, failure,
  Thread, finished, unwound, string, static_str, kind_payload, opaque, ErrorKind, signal, throw,
  wrong_type_user_ptr, kind, display, display_kind, Static,
}
use emacs_module_rs.Value.{Value}
use emacs_module_rs.Global.{deref, bind_static, GlobalRef}
use emacs_module_rs.Statics.{nil, rust_error, rust_panic, rust_wrong_type_user_ptr}
use emacs_module_rs.Call.{values_args, list}
use emacs_module_rs.Convert.Text.{str_into_lisp}
use emacs_module_rs.Signal.{
  signal_internal, signal_static, or_panic, or_nil, handle_known, maybe_exit, handle_panic,
  signal_rust_error, signal_panic,
}
use emacs_module_rs.Lifetime.{new_env, with_env}
use emacs_module_rs.Func.{run_guarded, handle_call}
use emacs_module_rs.Frames.{
  KeepsFrame, KeepsFrame-pure, KeepsFrame-panic, KeepsFrame-gets, KeepsFrame-attempt,
  KeepsFrame-bind,
}
use emacs_module_rs.Frames.Calls.{
  KeepsFrame-get_cell, KeepsFrame-bind_static, KeepsFrame-str, KeepsFrame-list,
}
use emacs_module_rs.Frames.Drop.{KeepsFrame-signal, KeepsFrame-throw, KeepsFrame-drop_env}

module _ {S : Type 0} ⦃E : Emacs S⦄ (exits : ExitLaws S) where
  KeepsFrame-signal_internal :
      (symbol : GlobalRef) (text : Bytes) → KeepsFrame {S = S} (signal_internal symbol text)
  unfolding signal_internal
  KeepsFrame-signal_internal symbol text =
      KeepsFrame-bind (str_into_lisp text) _ (KeepsFrame-str exits text) (λ message.
        KeepsFrame-bind (list (values_args (message ∷ []))) _
          (KeepsFrame-list exits (values_args (message ∷ [])) (KeepsFrame-pure _))
          (λ details. KeepsFrame-signal symbol.raw details.raw))

  KeepsFrame-signal_static :
      (name : Static) (text : Bytes) → KeepsFrame {S = S} (signal_static name text)
  unfolding signal_static deref
  KeepsFrame-signal_static name text =
      KeepsFrame-bind (deref name) _
        (KeepsFrame-bind _ _ (KeepsFrame-gets (λ w. w.globals name))
          (λ cell. KeepsFrame-get_cell "Cannot access an uninitialized global reference" cell))
        (λ symbol. KeepsFrame-signal_internal symbol text)

  KeepsFrame-or_panic : (text : Bytes) (r : Result Raw) → KeepsFrame {S = S} (or_panic text r)
  KeepsFrame-or_panic text (success raw) = KeepsFrame-pure raw
  KeepsFrame-or_panic text (failure e) = KeepsFrame-panic _

  KeepsFrame-or_nil : (r : Result Raw) → KeepsFrame {S = S} (or_nil r)
  KeepsFrame-or_nil (success raw) = KeepsFrame-pure raw
  KeepsFrame-or_nil (failure e) =
      KeepsFrame-bind (bind_static nil) (λ v. pure v.raw) (KeepsFrame-bind_static nil)
        (λ v. KeepsFrame-pure v.raw)

  KeepsFrame-tell :
      (name : Static) (text shown : Bytes)
      → KeepsFrame {S = S} (attempt (signal_static name text) >>= or_panic shown)
  KeepsFrame-tell name text shown =
      KeepsFrame-bind (attempt (signal_static name text)) (or_panic shown)
        (KeepsFrame-attempt (signal_static name text) (KeepsFrame-signal_static name text))
        (KeepsFrame-or_panic shown)

  KeepsFrame-handle_known : (k : ErrorKind) → KeepsFrame {S = S} (handle_known k)
  unfolding handle_known
  KeepsFrame-handle_known (signal a b) = KeepsFrame-signal a.raw b.raw
  KeepsFrame-handle_known (throw a b) = KeepsFrame-throw a.raw b.raw
  KeepsFrame-handle_known (wrong_type_user_ptr expected) =
      let text = display_kind (wrong_type_user_ptr expected) in
      KeepsFrame-tell rust_wrong_type_user_ptr text text

  KeepsFrame-maybe_exit : (r : Result Value) → KeepsFrame {S = S} (maybe_exit r)
  unfolding maybe_exit signal_rust_error
  KeepsFrame-maybe_exit (success v) = KeepsFrame-pure v.raw
  KeepsFrame-maybe_exit (failure (kind k)) = KeepsFrame-handle_known k
  KeepsFrame-maybe_exit (failure e) = KeepsFrame-tell rust_error (display e) (display e)

  KeepsFrame-signal_panic : (text : Bytes) → KeepsFrame {S = S} (signal_panic text)
  unfolding signal_panic
  KeepsFrame-signal_panic text =
      KeepsFrame-bind (attempt (signal_static rust_panic text)) or_nil
        (KeepsFrame-attempt (signal_static rust_panic text)
          (KeepsFrame-signal_static rust_panic text))
        KeepsFrame-or_nil

  KeepsFrame-handle_panic : (r : Thread Raw) → KeepsFrame {S = S} (handle_panic r)
  unfolding handle_panic
  KeepsFrame-handle_panic (finished raw) = KeepsFrame-pure raw
  KeepsFrame-handle_panic (unwound (string text)) = KeepsFrame-signal_panic text
  KeepsFrame-handle_panic (unwound (kind_payload k)) = KeepsFrame-handle_known k
  KeepsFrame-handle_panic (unwound (static_str _)) = KeepsFrame-signal_panic _
  KeepsFrame-handle_panic (unwound opaque) = KeepsFrame-signal_panic _

  pub KeepsFrame-handle_call : (f : Act S Value) → KeepsFrame f → KeepsFrame (handle_call f)
  unfolding handle_call run_guarded
  KeepsFrame-handle_call f k =
      let inner =
        KeepsFrame-bind (attempt f) maybe_exit (KeepsFrame-attempt f k) KeepsFrame-maybe_exit in
      KeepsFrame-bind (catch_unwind (run_guarded f)) handle_panic (record { at = inner.at })
        KeepsFrame-handle_panic

module _ {S : Type 0} ⦃E : Emacs S⦄ where
  pub KeepsFrame-with_env : {A : Type 0} (m : Act S A) → KeepsFrame m → KeepsFrame (with_env m)
  unfolding with_env new_env
  KeepsFrame-with_env m k = record {
    at = λ w. let w2 = (m (new_env w).1).1 in KeepsFrame-drop_env.at w2 ∙ k.at (new_env w).1;
  }
