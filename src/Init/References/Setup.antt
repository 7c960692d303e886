-- ===== src/Init/References/Setup.antt =====
-- The references that the steps of loading make and hold (src/init.rs).
use emacs_module_rs.Base.{
  ℕ, ◌≡◌, Bool, true, false, Option, none, some, List, [], ◌∷◌, ◌++◌, if◌then◌else◌, refl,
}
use emacs_module_rs.Machine.{
  Bytes, codes, Raw, Emacs, ExitLaws, RefLaws, Static, Act, pure, gets, ◌>>=◌,
}
use emacs_module_rs.Value.{Value, intern, is_not_nil}
use emacs_module_rs.Global.{GlobalRef}
use emacs_module_rs.Call.{values_args, tuple_args, call_name}
use emacs_module_rs.Convert.{bool_into_lisp}
use emacs_module_rs.Convert.Text.{str_into_lisp}
use emacs_module_rs.Lifetime.Drop.{count}
use emacs_module_rs.Lifetime.Balance.{Settles-pure}
use emacs_module_rs.Lifetime.Settling.{KeepingCalls, Settles-str}
use emacs_module_rs.Lifetime.Settling.Calls.{
  Settles-bool, Settles-tuple_args, Settles-intern, Settles-call_named, AllSettle,
}
use emacs_module_rs.Frames.{KeepsFrame-pure, KeepsFrame-intern}
use emacs_module_rs.Frames.Calls.{
  KeepsFrame-tuple_args, KeepsFrame-str, KeepsFrame-call_named, AllKeep,
}
use emacs_module_rs.Init.{
  InitFn, run_all, fix_or_init, init_to_symbol, init_to_function, init_refs, check_gc_bug_31238,
}
use emacs_module_rs.Init.Loaded.{crate_refs, crate_subrs, crate_symbols}
use emacs_module_rs.Init.Sets.{names_of}
use emacs_module_rs.Init.Ready.{KeepsFrame-bool}
use emacs_module_rs.Init.References.{
  Accounts, Accounts-pure, Accounts-Settles, Accounts-bind, Accounts-init,
}

module _ {S : Type 0} ⦃E : Emacs S⦄ (refs : Raw → S → ℕ) (names : List Static) where
  -- Each of a list of initializers keeps account of the references.
  abbrev pub AllAccount : List (InitFn S) → Type 0
  AllAccount [] = Unit
  AllAccount (f ∷ rest) = Accounts refs names f × AllAccount rest

-- Each static is one of the names, once.
abbrev pub AllOnce : List Static → List (Static × Bytes) → Type 0
AllOnce names [] = Unit
AllOnce names ((name, _) ∷ rest) = (count name names ≡ 1) × AllOnce names rest

module _ {S : Type 0} ⦃E : Emacs S⦄ {refs : Raw → S → ℕ} {names : List Static} where
  pub Accounts-run_all :
      (fs : List (InitFn S)) → AllAccount refs names fs → Accounts refs names (run_all fs)
  unfolding run_all
  Accounts-run_all [] h = Accounts-pure tt
  Accounts-run_all (f ∷ rest) (h, hs) =
      Accounts-bind f (λ u. run_all rest) h (λ u. Accounts-run_all rest hs)

  Accounts-fix_or_init :
      (old : Option Bool) (fixed : Bool) → Accounts refs names (fix_or_init {S = S} old fixed)
  Accounts-fix_or_init none fixed = record {
    at = λ base w h n. record { balanced = record { held = h.balanced.held }; quiet = h.quiet };
  }
  Accounts-fix_or_init (some b) fixed = record { at = λ base w h n. h }

module _ {S : Type 0} ⦃E : Emacs S⦄ {refs : Raw → S → ℕ} (exits : ExitLaws S)
    (laws : RefLaws S refs) (calls : KeepingCalls refs) (names : List Static) where
  Accounts-intern : (name : Bytes) → Accounts refs names (intern name)
  Accounts-intern name =
      Accounts-Settles (intern name) (Settles-intern exits laws calls name)
        (KeepsFrame-intern exits name)

  pub Accounts-call :
      (name : Bytes) (ms : List (Act S Value))
      → AllSettle refs ms
      → AllKeep ms
      → Accounts refs names (call_name name (tuple_args ms))
  Accounts-call name ms h k =
      Accounts-Settles (call_name name (tuple_args ms))
        (Settles-call_named exits laws calls name (tuple_args ms) (Settles-tuple_args ms h))
        (KeepsFrame-call_named exits name (tuple_args ms) (KeepsFrame-tuple_args ms k))

  Accounts-call_values :
      (name : Bytes) (vs : List Value) → Accounts refs names (call_name name (values_args vs))
  Accounts-call_values name vs =
      Accounts-Settles (call_name name (values_args vs))
        (Settles-call_named exits laws calls name (values_args vs) (Settles-pure _))
        (KeepsFrame-call_named exits name (values_args vs) (KeepsFrame-pure _))

  pub Accounts-init_to_symbol :
      (name : Static) (text : Bytes)
      → count name names ≡ 1
      → Accounts refs names (init_to_symbol name text)
  unfolding init_to_symbol
  Accounts-init_to_symbol name text once =
      Accounts-init laws names name once (intern text) (Accounts-intern text)

  pub Accounts-init_to_function :
      (name : Static) (text : Bytes)
      → count name names ≡ 1
      → Accounts refs names (init_to_function name text)
  unfolding init_to_function
  Accounts-init_to_function name text once = Accounts-init laws names name once _ (
      Accounts-bind (intern text) _ (Accounts-intern text)
        (λ symbol. Accounts-call_values (codes "indirect-function") (symbol ∷ [])))

  pub Accounts-init_refs :
      (method : Static → Bytes → Act S GlobalRef)
      → ((name : Static) (text : Bytes)
          → count name names ≡ 1
          → Accounts refs names (method name text))
      → (rs : List (Static × Bytes)) → AllOnce names rs
      → Accounts refs names (init_refs method rs)
  unfolding init_refs
  Accounts-init_refs method k [] h = Accounts-pure tt
  Accounts-init_refs method k ((name, text) ∷ rest) (once, h) =
      Accounts-bind (method name text) (λ g. init_refs method rest) (k name text once)
        (λ g. Accounts-init_refs method k rest h)

  -- The workaround is switched on or off by Lisp.
  Accounts-workaround :
      (debugging fixed : Bool) (v : Value)
      → Accounts refs names (
          if debugging
          then (do
            disable ← intern (codes "module-rs-disable-gc-bug-31238-workaround")
            call_name (codes "set") (tuple_args (pure disable ∷ bool_into_lisp fixed ∷ [])))
          else pure v)
  Accounts-workaround true fixed v =
      Accounts-bind (intern (codes "module-rs-disable-gc-bug-31238-workaround")) _
        (Accounts-intern (codes "module-rs-disable-gc-bug-31238-workaround"))
        (λ disable.
          Accounts-call (codes "set") (pure disable ∷ bool_into_lisp fixed ∷ [])
            (Settles-pure disable, (Settles-bool fixed, tt))
            (KeepsFrame-pure disable, (KeepsFrame-bool exits fixed, tt)))
  Accounts-workaround false fixed v = Accounts-pure v

  Accounts-is_not_nil : (v : Value) → Accounts refs names (is_not_nil v)
  unfolding is_not_nil
  Accounts-is_not_nil v = record { at = λ base w h n. h }

  pub Accounts-check : (debugging : Bool) → Accounts refs names (check_gc_bug_31238 debugging)
  unfolding check_gc_bug_31238
  Accounts-check debugging =
      Accounts-bind (intern (codes "emacs-version")) _ (Accounts-intern (codes "emacs-version"))
        (λ emacs_version.
          Accounts-bind _ _ (Accounts-call_values (codes "default-value") (emacs_version ∷ []))
            (λ version.
              Accounts-bind _ _
                (Accounts-call (codes "version<=") (str_into_lisp (codes "27") ∷ pure version ∷ [])
                  (Settles-str exits laws calls (codes "27"), (Settles-pure version, tt))
                  (KeepsFrame-str exits (codes "27"), (KeepsFrame-pure version, tt)))
                (λ v. Accounts-bind (is_not_nil v) _ (Accounts-is_not_nil v) (λ fixed.
                  Accounts-bind _ _ (Accounts-workaround debugging fixed v) (λ u.
                    Accounts-bind (gets (λ w. w.has_fixed_gc_bug)) _
                      (record { at = λ base w h n. h }) (λ old. Accounts-fix_or_init old fixed))))))

abbrev pub crate_names : List Static
crate_names = names_of crate_subrs ++ names_of crate_symbols

module _ {S : Type 0} ⦃E : Emacs S⦄ {refs : Raw → S → ℕ} (exits : ExitLaws S)
    (laws : RefLaws S refs) (calls : KeepingCalls refs) where
  -- What the crate registers keeps account of the crate's own statics.
  pub crate-AllAccount : AllAccount refs crate_names crate_refs
  unfolding count
  crate-AllAccount =
      let function = Accounts-init_to_function exits laws calls crate_names in
      let symbol = Accounts-init_to_symbol exits laws calls crate_names in
      (
        Accounts-init_refs exits laws calls crate_names init_to_function function crate_subrs
            (refl, (refl, (refl, (refl, (refl, (refl, (refl, tt))))))),
        (
          Accounts-init_refs exits laws calls crate_names init_to_symbol symbol crate_symbols
              (refl, (refl, (refl, (refl, (refl, (refl, tt)))))),
          tt,
        ),
      )
