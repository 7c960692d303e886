-- ===== src/Frames/Calls.antt =====
-- The calls of Lisp functions that leave the statics and the borrows as they are.
use emacs_module_rs.Base.{String, Option, none, some, List, [], ◌∷◌}
use emacs_module_rs.Machine.{Bytes, codes, Raw, Emacs, ExitLaws, Static, Act, pure}
use emacs_module_rs.Value.{Value, intern}
use emacs_module_rs.Global.{get_cell, deref, bind_static, bind}
use emacs_module_rs.Statics.{
  error, rust_error, rust_panic, rust_wrong_type_user_ptr, list as list_subr,
}
use emacs_module_rs.Call.{LispArgs, tuple_args, call, call_name, call_static, list}
use emacs_module_rs.Convert.Text.{str_into_lisp}
use emacs_module_rs.Signal.{define_error, define_core_errors}
use emacs_module_rs.Frames.{
  KeepsFrame, KeepsFrame-pure, KeepsFrame-panic, KeepsFrame-gets, KeepsFrame-bind,
  KeepsFrame-intern, KeepsFrame-raw_call_value, KeepsFrame-call_value,
}

module _ {S : Type 0} where
  pub KeepsFrame-get_cell : (m : String) (cell : Option Raw) → KeepsFrame {S = S} (get_cell m cell)
  KeepsFrame-get_cell m none = KeepsFrame-panic _
  KeepsFrame-get_cell m (some raw) = KeepsFrame-pure _

  pub KeepsFrame-bind_static : (name : Static) → KeepsFrame {S = S} (bind_static name)
  unfolding bind_static deref
  KeepsFrame-bind_static name =
      KeepsFrame-bind _ _
        (KeepsFrame-bind _ _ (KeepsFrame-gets (λ w. w.globals name))
          (λ cell. KeepsFrame-get_cell "Cannot access an uninitialized global reference" cell))
        (λ g. KeepsFrame-pure (bind g))

  abbrev pub AllKeep : List (Act S Value) → Type 0
  AllKeep [] = Unit
  AllKeep (m ∷ rest) = KeepsFrame m × AllKeep rest

  pub KeepsFrame-tuple_args : (ms : List (Act S Value)) → AllKeep ms → KeepsFrame (tuple_args ms)
  unfolding tuple_args
  KeepsFrame-tuple_args [] h = KeepsFrame-pure []
  KeepsFrame-tuple_args (m ∷ rest) (h, hs) = KeepsFrame-bind m _ h (λ v.
      KeepsFrame-bind (tuple_args rest) _ (KeepsFrame-tuple_args rest hs)
        (λ raws. KeepsFrame-pure _))

module _ {S : Type 0} ⦃E : Emacs S⦄ (exits : ExitLaws S) where
  pub KeepsFrame-str : (s : Bytes) → KeepsFrame {S = S} (str_into_lisp s)
  unfolding str_into_lisp
  KeepsFrame-str s = KeepsFrame-raw_call_value exits (E.make_string s)

  pub KeepsFrame-call_named :
      (name : Bytes) (args : LispArgs S) → KeepsFrame args → KeepsFrame (call_name name args)
  unfolding call_name call
  KeepsFrame-call_named name args h =
      KeepsFrame-bind (intern name) _ (KeepsFrame-intern exits name)
        (λ f. KeepsFrame-call_value exits f args h)

  pub KeepsFrame-call_static :
      (name : Static) (args : LispArgs S) → KeepsFrame args → KeepsFrame (call_static name args)
  unfolding call_static call
  KeepsFrame-call_static name args h =
      KeepsFrame-bind (bind_static name) _ (KeepsFrame-bind_static name)
        (λ f. KeepsFrame-call_value exits f args h)

  pub KeepsFrame-list : (args : LispArgs S) → KeepsFrame args → KeepsFrame (list args)
  unfolding list
  KeepsFrame-list args h = KeepsFrame-call_static list_subr args h

  pub KeepsFrame-define_error :
      (name : Act S Value) (text : Bytes) (parents : LispArgs S)
      → KeepsFrame name
      → KeepsFrame parents
      → KeepsFrame (define_error name text parents)
  unfolding define_error
  KeepsFrame-define_error name text parents h hs = KeepsFrame-bind name _ h (λ symbol.
      KeepsFrame-bind (list parents) _ (KeepsFrame-list parents hs) (λ parent_list.
        KeepsFrame-call_named (codes "define-error") _ (
          KeepsFrame-tuple_args (pure symbol ∷ str_into_lisp text ∷ pure parent_list ∷ [])
            (KeepsFrame-pure symbol, (KeepsFrame-str text, (KeepsFrame-pure parent_list, tt))))))

  KeepsFrame-define_static :
      (name : Static) (text : Bytes) (parents : LispArgs S)
      → KeepsFrame parents
      → KeepsFrame (define_error (bind_static name) text parents)
  KeepsFrame-define_static name text parents h =
      KeepsFrame-define_error (bind_static name) text parents (KeepsFrame-bind_static name) h

  pub KeepsFrame-define_core_errors : KeepsFrame {S = S} define_core_errors
  unfolding define_core_errors
  KeepsFrame-define_core_errors =
      let error_args =
        KeepsFrame-tuple_args {S = S} (bind_static error ∷ []) (KeepsFrame-bind_static error, tt) in
      KeepsFrame-bind _ _ (KeepsFrame-define_static rust_panic (codes "Rust panic") _ error_args)
        (λ v1.
          KeepsFrame-bind _ _
            (KeepsFrame-define_static rust_error (codes "Rust error") _ error_args)
            (λ v2.
              KeepsFrame-bind _ _ (KeepsFrame-intern exits (codes "wrong-type-argument"))
                (λ wrong_type.
                  KeepsFrame-bind _ _
                    (KeepsFrame-define_static rust_wrong_type_user_ptr (codes "Wrong type user-ptr")
                      _
                      (KeepsFrame-tuple_args (bind_static rust_error ∷ pure wrong_type ∷ [])
                        (KeepsFrame-bind_static rust_error, (KeepsFrame-pure wrong_type, tt))))
                    (λ v3. KeepsFrame-pure tt))))
