-- ===== src/Defun/Exporter/References.antt =====
-- The references that the hook of a module and its definitions of errors make and hold.
use emacs_module_rs.Base.{Bool, ℕ, List, [], ◌∷◌, ◌++◌}
use emacs_module_rs.Machine.{
  Bytes, codes, Raw, Address, Emacs, ExitLaws, RefLaws, Static, Act, pure, gets,
}
use emacs_module_rs.Value.{Value, cstring, intern}
use emacs_module_rs.Call.{values_args, provide}
use emacs_module_rs.Func.{make_function, fset, export_function}
use emacs_module_rs.Names.{lisp_path}
use emacs_module_rs.Signal.{define_error}
use emacs_module_rs.Lifetime.Balance.{
  Settles, Settles-pure, Settles-bind, Settles-gets, Settles-raw_call_value,
}
use emacs_module_rs.Lifetime.Settling.{KeepingCalls, Settles-bind_static}
use emacs_module_rs.Global.{bind_static}
use emacs_module_rs.Lifetime.Settling.Calls.{
  Settles-cstring, Settles-intern, Settles-call_named, Settles-define_error,
}
use emacs_module_rs.Frames.{KeepsFrame, KeepsFrame-pure, KeepsFrame-bind, KeepsFrame-intern}
use emacs_module_rs.Frames.Calls.{KeepsFrame-define_error, KeepsFrame-bind_static}
use emacs_module_rs.Init.{InitFn, run_all, intern_all, define_errors}
use emacs_module_rs.Init.References.{Accounts, Accounts-pure, Accounts-Settles, Accounts-bind}
use emacs_module_rs.Defun.Exporter.{
  LispFunc, FnMap, values, exporter, ModuleOpts, feature_of, prefix_of, auto_init, set_prefix,
  configure_mod_in_name, full_doc, path_of, name_of,
}
use emacs_module_rs.Defun.Exporter.Prefix.{
  AllFns, register, register-AllFns, KeepsFrame-exporter, KeepsFrame-provide,
}

module _ {S : Type 0} ⦃E : Emacs S⦄ {refs : Raw → S → ℕ} (exits : ExitLaws S)
    (laws : RefLaws S refs) (calls : KeepingCalls refs) where
  Settles-fset : (name : Bytes) (func : Value) → Settles refs (fset name func)
  unfolding fset
  Settles-fset name func =
      Settles-bind (intern name) _ (Settles-intern exits laws calls name) (λ symbol.
        Settles-call_named exits laws calls (codes "fset") (values_args (symbol ∷ func ∷ []))
          (Settles-pure _))

  Settles-make_function :
      (function : Address) (min max : ℕ) (doc : Bytes) (details : Address)
      → Settles refs (make_function function min max doc details)
  unfolding make_function
  Settles-make_function function min max doc details =
      Settles-bind (cstring doc) _ (Settles-cstring doc) (λ text.
        Settles-raw_call_value exits laws _ (calls.make_function _ _ function text details))

  Settles-export_function :
      (prefix name : Bytes) (function : Address) (min max : ℕ) (doc : Bytes)
      → Settles refs (export_function prefix name function min max doc)
  unfolding export_function
  Settles-export_function prefix name function min max doc =
      Settles-bind (make_function function min max doc 0) _
        (Settles-make_function function min max doc 0) (Settles-fset (prefix ++ name))

  Settles-exporter : (f : LispFunc) → Settles refs (exporter f)
  unfolding exporter
  Settles-exporter f =
      Settles-bind (gets (λ w. w.mod_in_name)) _ (Settles-gets (λ w. w.mod_in_name))
        (λ crate_mod_in_name.
          Settles-bind (gets (λ w. w.prefix)) _ (Settles-gets (λ w. w.prefix)) (λ names.
            Settles-bind
              (export_function
                (lisp_path names (path_of f.opts.mod_in_name crate_mod_in_name f.module_path))
                (name_of f.opts.name f.ident) f.lambda f.signature.start f.signature.end
                (full_doc f))
              (λ v. pure tt)
              (Settles-export_function
                (lisp_path names (path_of f.opts.mod_in_name crate_mod_in_name f.module_path))
                (name_of f.opts.name f.ident) f.lambda f.signature.start f.signature.end
                (full_doc f))
              (λ v. Settles-pure tt)))

  Settles-provide : (name : Bytes) → Settles refs (provide name)
  unfolding provide
  Settles-provide name =
      Settles-bind (intern name) _ (Settles-intern exits laws calls name) (λ symbol.
        Settles-call_named exits laws calls (codes "provide") (values_args (symbol ∷ []))
          (Settles-pure _))

  Settles-intern_all : (names : List Bytes) → Settles refs (intern_all names)
  unfolding intern_all
  Settles-intern_all [] = Settles-pure []
  Settles-intern_all (name ∷ rest) =
      Settles-bind (intern name) _ (Settles-intern exits laws calls name) (λ v.
        Settles-bind (intern_all rest) (λ vs. pure (v ∷ vs)) (Settles-intern_all rest)
          (λ vs. Settles-pure (v ∷ vs)))

module _ {S : Type 0} ⦃E : Emacs S⦄ (exits : ExitLaws S) where
  KeepsFrame-intern_all : (names : List Bytes) → KeepsFrame {S = S} (intern_all names)
  unfolding intern_all
  KeepsFrame-intern_all [] = KeepsFrame-pure []
  KeepsFrame-intern_all (name ∷ rest) =
      KeepsFrame-bind (intern name) _ (KeepsFrame-intern exits name) (λ v.
        KeepsFrame-bind (intern_all rest) (λ vs. pure (v ∷ vs)) (KeepsFrame-intern_all rest)
          (λ vs. KeepsFrame-pure (v ∷ vs)))

-- The names of the errors are statics, as `define_errors!` gives them.
module _ {S : Type 0} where
  abbrev pub bound : List (Static × Bytes × List Bytes) → List (Act S Value × Bytes × List Bytes)
  bound [] = []
  bound ((name, text, parents) ∷ rest) = (bind_static name, text, parents) ∷ bound rest

module _ {S : Type 0} ⦃E : Emacs S⦄ {refs : Raw → S → ℕ} (exits : ExitLaws S)
    (laws : RefLaws S refs) (calls : KeepingCalls refs) (names : List Static) where
  pub Accounts-define_errors :
      (errors : List (Static × Bytes × List Bytes))
      → Accounts refs names (define_errors (bound errors))
  unfolding define_errors
  Accounts-define_errors [] = Accounts-pure tt
  Accounts-define_errors ((name, text, parents) ∷ rest) =
      Accounts-bind (intern_all parents) _
        (Accounts-Settles (intern_all parents) (Settles-intern_all exits laws calls parents)
          (KeepsFrame-intern_all exits parents))
        (λ vs.
          Accounts-bind (define_error (bind_static name) text (values_args vs))
            (λ v. define_errors (bound rest))
            (Accounts-Settles _
              (Settles-define_error exits laws calls (bind_static name) text (values_args vs)
                (Settles-bind_static name) (Settles-pure _))
              (KeepsFrame-define_error exits (bind_static name) text (values_args vs)
                (KeepsFrame-bind_static name) (KeepsFrame-pure _)))
            (λ v. Accounts-define_errors rest))

  Accounts-run_fns :
      (funcs : FnMap S)
      → AllFns (Accounts refs names) funcs
      → Accounts refs names (run_all (values funcs))
  unfolding run_all
  Accounts-run_fns [] h = Accounts-pure tt
  Accounts-run_fns ((key, f) ∷ rest) (k, h) =
      Accounts-bind f (λ u. run_all (values rest)) k (λ u. Accounts-run_fns rest h)

  Accounts-exporter : (f : LispFunc) → Accounts refs names (exporter f)
  Accounts-exporter f =
      Accounts-Settles (exporter f) (Settles-exporter exits laws calls f)
        (KeepsFrame-exporter exits f)

  Accounts-set_prefix : (x : Bytes × Bytes) → Accounts refs names (set_prefix x)
  Accounts-set_prefix x = record {
    at = λ base w h n. record { balanced = record { held = h.balanced.held }; quiet = h.quiet };
  }

  Accounts-configure : (b : Bool) → Accounts refs names (configure_mod_in_name b)
  Accounts-configure b = record {
    at = λ base w h n. record { balanced = record { held = h.balanced.held }; quiet = h.quiet };
  }

  pub Accounts-auto_init :
      (opts : ModuleOpts) (module_path hook_name : Bytes) (fs : List LispFunc) (hook : InitFn S)
      → Accounts refs names hook
      → Accounts refs names (auto_init opts module_path hook_name (register fs) hook)
  unfolding auto_init
  Accounts-auto_init opts module_path hook_name fs hook k =
      let feature = feature_of opts.name module_path hook_name in
      let prefix = prefix_of opts.defun_prefix feature in
      Accounts-bind (set_prefix (prefix, opts.separator)) _
        (Accounts-set_prefix (prefix, opts.separator))
        (λ u1.
          Accounts-bind (configure_mod_in_name opts.mod_in_name) _
            (Accounts-configure opts.mod_in_name)
            (λ u2.
              Accounts-bind (run_all (values (register fs))) _
                (Accounts-run_fns (register fs)
                  (register-AllFns (Accounts refs names) Accounts-exporter fs))
                (λ u3.
                  Accounts-bind hook (λ u. provide feature) k
                    (λ u4.
                      Accounts-Settles (provide feature) (Settles-provide exits laws calls feature)
                        (KeepsFrame-provide exits feature)))))
