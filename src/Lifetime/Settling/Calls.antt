-- ===== src/Lifetime/Settling/Calls.antt =====
-- The calls by name that settle, and the definition of errors (src/call.rs, src/error.rs).
use emacs_module_rs.Base.{ℕ, Bool, true, false, if◌then◌else◌, Option, none, some, List, [], ◌∷◌}
use emacs_module_rs.Machine.{
  Bytes, codes, Raw, Emacs, TempValue, ExitLaws, RefLaws, Static, Act, pure,
}
use emacs_module_rs.Value.{Value, cstring, cstring_or, find_nul, intern, temp_value_value, value}
use emacs_module_rs.Global.{bind_static}
use emacs_module_rs.Statics.{error, rust_error, rust_panic, rust_wrong_type_user_ptr, t, nil}
use emacs_module_rs.Call.{LispArgs, tuple_args, call, call_name, list}
use emacs_module_rs.Convert.{bool_into_lisp}
use emacs_module_rs.Convert.Text.{str_into_lisp}
use emacs_module_rs.Signal.{define_error, define_core_errors}
use emacs_module_rs.Lifetime.Balance.{
  Settles, Settles-pure, Settles-fail, Settles-bind, Settles-protect, Settles-raw_call_value,
}
use emacs_module_rs.Lifetime.Settling.{
  KeepingCalls, Settles-bind_static, Settles-str, Settles-call_value, Settles-list,
}

module _ {S : Type 0} ⦃E : Emacs S⦄ (refs : Raw → S → ℕ) where
  abbrev pub AllSettle : List (Act S Value) → Type 0
  AllSettle [] = Unit
  AllSettle (m ∷ rest) = Settles refs m × AllSettle rest

module _ {S : Type 0} ⦃E : Emacs S⦄ {refs : Raw → S → ℕ} where
  pub Settles-if :
      {A : Type 0} (b : Bool) (m n : Act S A)
      → Settles refs m
      → Settles refs n
      → Settles refs (if b then m else n)
  Settles-if true m n h k = h
  Settles-if false m n h k = k

  Settles-cstring_or : (s : Bytes) (at : Option ℕ) → Settles refs (cstring_or s at)
  unfolding cstring_or
  Settles-cstring_or s none = Settles-pure s
  Settles-cstring_or s (some at) = Settles-fail _

  pub Settles-cstring : (s : Bytes) → Settles refs (cstring s)
  unfolding cstring
  Settles-cstring s = Settles-cstring_or s (find_nul 0 s)

  pub Settles-tuple_args :
      (ms : List (Act S Value)) → AllSettle refs ms → Settles refs (tuple_args ms)
  unfolding tuple_args
  Settles-tuple_args [] h = Settles-pure []
  Settles-tuple_args (m ∷ rest) (h, hs) =
      Settles-bind m _ h (λ v.
        Settles-bind (tuple_args rest) _ (Settles-tuple_args rest hs) (λ raws. Settles-pure _))

  pub Settles-bool : (b : Bool) → Settles refs (bool_into_lisp b)
  unfolding bool_into_lisp
  Settles-bool true = Settles-bind_static t
  Settles-bool false = Settles-bind_static nil

module _ {S : Type 0} ⦃E : Emacs S⦄ {refs : Raw → S → ℕ} (exits : ExitLaws S)
    (laws : RefLaws S refs) (calls : KeepingCalls refs) where
  pub Settles-temp_value : (v : TempValue) → Settles refs (temp_value_value v)
  unfolding temp_value_value
  Settles-temp_value v = Settles-protect exits laws (value v.raw)

  pub Settles-intern : (name : Bytes) → Settles refs (intern name)
  unfolding intern
  Settles-intern name =
      Settles-bind (cstring name) _ (Settles-cstring name)
        (λ s. Settles-raw_call_value exits laws (E.intern s) (calls.intern s))

  pub Settles-call_named :
      (name : Bytes) (args : LispArgs S) → Settles refs args → Settles refs (call_name name args)
  unfolding call_name call
  Settles-call_named name args h =
      Settles-bind (intern name) _ (Settles-intern name)
        (λ f. Settles-call_value exits laws calls f args h)

  pub Settles-define_error :
      (name : Act S Value) (text : Bytes) (parents : LispArgs S)
      → Settles refs name
      → Settles refs parents
      → Settles refs (define_error name text parents)
  unfolding define_error
  Settles-define_error name text parents h hs = Settles-bind name _ h (λ symbol.
      Settles-bind (list parents) _ (Settles-list exits laws calls parents hs) (λ parent_list.
        Settles-call_named (codes "define-error") _ (
          Settles-tuple_args (pure symbol ∷ str_into_lisp text ∷ pure parent_list ∷ []) (
            Settles-pure symbol,
            (Settles-str exits laws calls text, (Settles-pure parent_list, tt)),
          ))))

  Settles-define_static :
      (name : Static) (text : Bytes) (parents : LispArgs S)
      → Settles refs parents
      → Settles refs (define_error (bind_static name) text parents)
  Settles-define_static name text parents h =
      Settles-define_error (bind_static name) text parents (Settles-bind_static name) h

  pub Settles-define_core_errors : Settles refs define_core_errors
  unfolding define_core_errors
  Settles-define_core_errors =
      let error_args =
        Settles-tuple_args (bind_static error ∷ []) (Settles-bind_static error, tt) in
      Settles-bind _ _ (Settles-define_static rust_panic (codes "Rust panic") _ error_args) (λ v1.
        Settles-bind _ _ (Settles-define_static rust_error (codes "Rust error") _ error_args) (λ v2.
          Settles-bind _ _ (Settles-intern (codes "wrong-type-argument")) (λ wrong_type.
            Settles-bind _ _
              (Settles-define_static rust_wrong_type_user_ptr (codes "Wrong type user-ptr") _ (
                Settles-tuple_args (bind_static rust_error ∷ pure wrong_type ∷ [])
                  (Settles-bind_static rust_error, (Settles-pure wrong_type, tt))))
              (λ v3. Settles-pure tt))))
