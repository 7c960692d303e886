-- ===== src/Defun/Exporter/Prefix.antt =====
-- The prefix under which the functions of a module are exported.
use emacs_module_rs.Base.{ℕ, ◌≡◌, ap, Bool-cases, inl, inr, List, [], ◌∷◌, ◌++◌}
use emacs_module_rs.Machine.{Bytes, codes, Address, Emacs, ExitLaws, World, gets}
use emacs_module_rs.Value.{cstring, intern}
use emacs_module_rs.Call.{provide}
use emacs_module_rs.Func.{make_function, fset, export_function}
use emacs_module_rs.Names.{equal_bytes, lisp_path}
use emacs_module_rs.Init.{InitFn, run_all}
use emacs_module_rs.Frames.{
  Frame, KeepsFrame, KeepsFrame-pure, KeepsFrame-gets, KeepsFrame-bind, KeepsFrame-cstring,
  KeepsFrame-intern, KeepsFrame-call_name, KeepsFrame-raw_call_value,
}
use emacs_module_rs.Maps.{map_insert}
use emacs_module_rs.Defun.Exporter.{
  LispFunc, FnMap, values, exporter, registrator, ModuleOpts, feature_of, prefix_of, auto_init,
  full_doc, path_of, name_of,
}

module _ {S : Type 0} ⦃E : Emacs S⦄ (exits : ExitLaws S) where
  KeepsFrame-export :
      (prefix name : Bytes) (function : Address) (min max : ℕ) (doc : Bytes)
      → KeepsFrame {S = S} (export_function prefix name function min max doc)
  unfolding export_function make_function fset
  KeepsFrame-export prefix name function min max doc =
      KeepsFrame-bind _ _
        (KeepsFrame-bind (cstring doc) _ (KeepsFrame-cstring doc)
          (λ text. KeepsFrame-raw_call_value exits _))
        (λ func.
          KeepsFrame-bind (intern (prefix ++ name)) _ (KeepsFrame-intern exits (prefix ++ name))
            (λ symbol. KeepsFrame-call_name exits (codes "fset") (symbol ∷ func ∷ [])))

  pub KeepsFrame-exporter : (f : LispFunc) → KeepsFrame {S = S} (exporter f)
  unfolding exporter
  KeepsFrame-exporter f =
      KeepsFrame-bind (gets (λ w. w.mod_in_name)) _ (KeepsFrame-gets (λ w. w.mod_in_name))
        (λ crate_mod_in_name.
          KeepsFrame-bind (gets (λ w. w.prefix)) _ (KeepsFrame-gets (λ w. w.prefix)) (λ names.
            KeepsFrame-bind _ _
              (KeepsFrame-export
                (lisp_path names (path_of f.opts.mod_in_name crate_mod_in_name f.module_path))
                (name_of f.opts.name f.ident) f.lambda f.signature.start f.signature.end
                (full_doc f))
              (λ v. KeepsFrame-pure tt)))

-- The map that registering functions builds.
unfoldable pub register : {S : Type 0} ⦃E : Emacs S⦄ → List LispFunc → FnMap S
unfolding registrator
register [] = []
register (f ∷ rest) = registrator f (register rest)

-- What holds of each function of the map.
module _ {S : Type 0} (P : InitFn S → Type 0) where
  abbrev pub AllFns : FnMap S → Type 0
  AllFns [] = Unit
  AllFns ((_, f) ∷ rest) = P f × AllFns rest

  map_insert-AllFns :
      (key : Bytes) (f : InitFn S) (funcs : FnMap S)
      → P f
      → AllFns funcs
      → AllFns (map_insert key f funcs)
  unfolding map_insert
  map_insert-AllFns key f [] k h = (k, tt)
  map_insert-AllFns key f ((other, g) ∷ rest) k (kg, h) =
      elim (Bool-cases (equal_bytes other key)) [
        | inl e ↦ rw e (k, h)
        | inr e ↦ rw e (kg, map_insert-AllFns key f rest k h)
      ]

  pub register-AllFns :
      ⦃E : Emacs S⦄
      → ((f : LispFunc) → P (exporter f))
      → (fs : List LispFunc) → AllFns (register fs)
  unfolding register registrator
  register-AllFns k [] = tt
  register-AllFns k (f ∷ rest) =
      map_insert-AllFns _ (exporter f) (register rest) (k f) (register-AllFns k rest)

module _ {S : Type 0} where
  KeepsFrame-run_all :
      (funcs : FnMap S) → AllFns KeepsFrame funcs → KeepsFrame (run_all (values funcs))
  unfolding run_all
  KeepsFrame-run_all [] h = KeepsFrame-pure tt
  KeepsFrame-run_all ((key, f) ∷ rest) (k, h) =
      KeepsFrame-bind f _ k (λ u. KeepsFrame-run_all rest h)

module _ {S : Type 0} ⦃E : Emacs S⦄ (exits : ExitLaws S) where
  pub KeepsFrame-provide : (name : Bytes) → KeepsFrame {S = S} (provide name)
  unfolding provide
  KeepsFrame-provide name =
      KeepsFrame-bind (intern name) _ (KeepsFrame-intern exits name)
        (λ symbol. KeepsFrame-call_name exits (codes "provide") (symbol ∷ []))

  -- However the hook of #[module] ends, the prefix is the defun_prefix, or the name of the
  -- feature if there is none, with the separator, and mod_in_name is as the options say, for any
  -- functions that are registered, if the hook of the user leaves the statics as they are. Emacs
  -- follows ExitLaws.
  pub auto_init-prefix :
      (opts : ModuleOpts) (module_path hook_name : Bytes) (fs : List LispFunc) (hook : InitFn S)
      (w : World S)
      → KeepsFrame hook
      → let w' = (auto_init opts module_path hook_name (register fs) hook w).1 in
        (w'.prefix ≡ (
          prefix_of opts.defun_prefix (feature_of opts.name module_path hook_name),
          opts.separator,
        ))
        × (w'.mod_in_name ≡ opts.mod_in_name)
  unfolding auto_init
  auto_init-prefix opts module_path hook_name fs hook w k =
      let feature = feature_of opts.name module_path hook_name in
      let configured = record w {
        prefix = (prefix_of opts.defun_prefix feature, opts.separator);
        mod_in_name = opts.mod_in_name;
      } in
      let kept =
        (KeepsFrame-bind (run_all (values (register fs))) _
            (KeepsFrame-run_all (register fs)
              (register-AllFns KeepsFrame (KeepsFrame-exporter exits) fs))
            (λ u. KeepsFrame-bind hook _ k (λ u'. KeepsFrame-provide feature))).at
          configured in
      (ap (λ (x : Frame). x.prefix) kept, ap (λ (x : Frame). x.mod_in_name) kept)
