-- ===== src/Init/Ready.antt =====
-- A module that is loaded with the code 0 is ready for the calls of its functions.
use emacs_module_rs.Base.{
  ◌≡◌, ap, Bool, true, false, Option, none, some, List, [], ◌∷◌, ◌++◌, if◌then◌else◌,
}
use emacs_module_rs.Machine.{codes, Emacs, ExitLaws, Static, World, ok, Act, pure, gets, ◌>>=◌}
use emacs_module_rs.Value.{Value, intern, is_not_nil}
use emacs_module_rs.Call.{tuple_args, call_name}
use emacs_module_rs.Convert.{bool_into_lisp}
use emacs_module_rs.Convert.Text.{str_into_lisp}
use emacs_module_rs.Signal.{define_core_errors}
use emacs_module_rs.Statics.{nil, t}
use emacs_module_rs.Unwinding.{IsLoaded}
use emacs_module_rs.Frames.{
  Frame, KeepsFrame, KeepsFrame-pure, KeepsFrame-gets, KeepsFrame-bind, KeepsFrame-if,
  KeepsFrame-intern, KeepsFrame-call_name,
}
use emacs_module_rs.Frames.Calls.{
  KeepsFrame-bind_static, KeepsFrame-tuple_args, KeepsFrame-str, KeepsFrame-call_named,
  KeepsFrame-define_core_errors,
}
use emacs_module_rs.Init.{
  InitFn, run_all, fix_or_init, init_to_symbol, init_to_function, check_gc_bug_31238, Loading,
  setup, initialize,
}
use emacs_module_rs.Init.Sets.{
  Sets, Sets-bind, Sets-pure, Sets-init_to_symbol, Sets-init_to_function, Sets-init_refs, names_of,
}
use emacs_module_rs.Init.Loaded.{crate_subrs, crate_symbols, crate_refs, crate-IsLoaded}
use emacs_module_rs.Init.Status.{initialize_zero}

module _ {S : Type 0} where
  -- What keeps the statics unsets none of them.
  pub Sets-frame : {A : Type 0} (m : Act S A) → KeepsFrame m → Sets [] m
  Sets-frame m k = record {
    keeps = λ w other h. let e = ap (λ (f : Frame). f.globals) (k.at w) in rw e h;
    sets = λ w a e. tt;
  }

  -- None of a list of initializers unsets a static.
  abbrev pub NoneUnsets : List (InitFn S) → Type 0
  NoneUnsets [] = Unit
  NoneUnsets (f ∷ rest) = Sets [] f × NoneUnsets rest

  Sets-run_all : (fs : List (InitFn S)) → NoneUnsets fs → Sets [] (run_all fs)
  unfolding run_all
  Sets-run_all [] h = Sets-pure tt
  Sets-run_all (f ∷ rest) (h, hs) = Sets-bind f _ h (λ u. Sets-run_all rest hs)

  Sets-run_all-append :
      (before rest : List (InitFn S)) {names : List Static}
      → NoneUnsets before
      → Sets names (run_all rest)
      → Sets names (run_all (before ++ rest))
  unfolding run_all
  Sets-run_all-append [] rest h k = k
  Sets-run_all-append (f ∷ before) rest (h, hs) k =
      Sets-bind f _ h (λ u. Sets-run_all-append before rest hs k)

  Sets-fix_or_init : (old : Option Bool) (fixed : Bool) → Sets {S = S} [] (fix_or_init old fixed)
  Sets-fix_or_init none fixed = record { keeps = λ w other h. h; sets = λ w a e. tt }
  Sets-fix_or_init (some b) fixed = record { keeps = λ w other h. h; sets = λ w a e. tt }

module _ {S : Type 0} ⦃E : Emacs S⦄ (exits : ExitLaws S) where
  pub KeepsFrame-bool : (b : Bool) → KeepsFrame {S = S} (bool_into_lisp b)
  unfolding bool_into_lisp
  KeepsFrame-bool true = KeepsFrame-bind_static t
  KeepsFrame-bool false = KeepsFrame-bind_static nil

  KeepsFrame-is_not_nil : (v : Value) → KeepsFrame {S = S} (is_not_nil v)
  unfolding is_not_nil
  KeepsFrame-is_not_nil v = KeepsFrame-gets (λ w. E.is_not_nil v.raw w.emacs)

  Sets-check : (debugging : Bool) → Sets {S = S} [] (check_gc_bug_31238 debugging)
  unfolding check_gc_bug_31238
  Sets-check debugging =
      Sets-bind _ _
        (Sets-frame (intern (codes "emacs-version"))
          (KeepsFrame-intern exits (codes "emacs-version")))
        (λ emacs_version.
          Sets-bind _ _
            (Sets-frame _ (KeepsFrame-call_name exits (codes "default-value") (emacs_version ∷ [])))
            (λ version.
              Sets-bind _ _
                (Sets-frame _ (
                  KeepsFrame-call_named exits (codes "version<=") _ (
                    KeepsFrame-tuple_args (str_into_lisp (codes "27") ∷ pure version ∷ [])
                      (KeepsFrame-str exits (codes "27"), (KeepsFrame-pure version, tt)))))
                (λ v. Sets-bind _ _ (Sets-frame (is_not_nil v) (KeepsFrame-is_not_nil v)) (λ fixed.
                  Sets-bind _ _ (Sets-frame _ (workaround debugging fixed v)) (λ u.
                    Sets-bind (gets (λ w. w.has_fixed_gc_bug)) _
                      (Sets-frame _ (KeepsFrame-gets (λ w. w.has_fixed_gc_bug)))
                      (λ old. Sets-fix_or_init old fixed))))))
    where
      workaround :
          (debugging fixed : Bool) (v : Value)
          → KeepsFrame {S = S} (
              if debugging
              then (do
                disable ← intern (codes "module-rs-disable-gc-bug-31238-workaround")
                call_name (codes "set") (tuple_args (pure disable ∷ bool_into_lisp fixed ∷ [])))
              else pure v)
      workaround debugging fixed v =
          KeepsFrame-if debugging _ _
            (KeepsFrame-bind _ _
              (KeepsFrame-intern exits (codes "module-rs-disable-gc-bug-31238-workaround"))
              (λ disable. KeepsFrame-call_named exits (codes "set") _ (
                KeepsFrame-tuple_args (pure disable ∷ bool_into_lisp fixed ∷ [])
                  (KeepsFrame-pure disable, (KeepsFrame-bool fixed, tt)))))
            (KeepsFrame-pure v)

  -- The setup of a module whose initializers are the crate's and others that unset no static.
  module _ (loading : Loading S) (before after : List (InitFn S))
      (registered : loading.global_refs ≡ before ++ (crate_refs ++ after))
      (before_keeps : NoneUnsets before) (after_keeps : NoneUnsets after)
      (errors_keep : NoneUnsets loading.custom_errors) (hook_keeps : Sets [] loading.hook) where
    Sets-setup : Sets (names_of crate_subrs ++ names_of crate_symbols ++ []) (setup loading)
    unfolding setup
    Sets-setup =
        let subrs =
          Sets-init_refs exits init_to_function (Sets-init_to_function exits) crate_subrs in
        let symbols =
          Sets-init_refs exits init_to_symbol (Sets-init_to_symbol exits) crate_symbols in
        let refs = Sets-run_all-append before (crate_refs ++ after) before_keeps (
          Sets-bind _ _ subrs
            (λ u1. Sets-bind _ _ symbols (λ u2. Sets-run_all after after_keeps))) in
        rw registered (
          Sets-bind _ _ refs (λ u3.
            Sets-bind _ _ (Sets-frame define_core_errors (KeepsFrame-define_core_errors exits))
              (λ u4. Sets-bind _ _ (Sets-check loading.debugging) (λ u5.
                Sets-bind _ _ (Sets-run_all loading.custom_errors errors_keep)
                  (λ u6. hook_keeps)))))

    -- If initialize returns 0, every static of the crate is set, where the initializers of
    -- global references are the crate's own and others, before and after them, and none of
    -- these, of the definitions of errors and of the hook unsets a static. Emacs follows
    -- ExitLaws.
    pub initialize-IsLoaded :
        (w : World S) → (initialize loading w).0 ≡ ok 0 → IsLoaded (initialize loading w).1
    initialize-IsLoaded w h =
        let ((v, e), same) = initialize_zero loading w h in
        rw same (crate-IsLoaded (setup loading w).1 (Sets-setup.sets w v e))
