-- ===== src/Defun/Exporter/Loading.antt =====
-- Loading a module that is made by the macros: the references that it leaves.
use emacs_module_rs.Base.{Bool, ℕ, ◌+◌, ◌≤◌, ◌≡◌, List, [], ◌∷◌, ◌++◌}
use emacs_module_rs.Machine.{
  Bytes, Raw, Emacs, IsQuiet, ExitLaws, RefLaws, Static, World, ok, Error,
}
use emacs_module_rs.Lifetime.Balance.{Settles}
use emacs_module_rs.Lifetime.Settling.{KeepingCalls}
use emacs_module_rs.Frames.{KeepsFrame}
use emacs_module_rs.Init.{
  InitFn, define_errors, init_refs, init_to_function, init_to_symbol, Loading, module_init,
}
use emacs_module_rs.Init.Sets.{names_of}
use emacs_module_rs.Init.Loaded.{crate_subrs, crate_symbols}
use emacs_module_rs.Init.References.{held_by, Accounts-Settles}
use emacs_module_rs.Init.References.Setup.{
  AllOnce, crate_names, Accounts-init_to_symbol, Accounts-init_to_function, Accounts-init_refs,
}
use emacs_module_rs.Init.References.Loading.{module_init_refs}
use emacs_module_rs.Defun.Exporter.{LispFunc, ModuleOpts, auto_init}
use emacs_module_rs.Defun.Exporter.Prefix.{register}
use emacs_module_rs.Defun.Exporter.References.{bound, Accounts-define_errors, Accounts-auto_init}

-- The statics of the crate and those of the module.
abbrev pub statics_of : List (Static × Bytes) → List Static
statics_of own = crate_names ++ names_of own

-- A module made by the macros, with symbols of its own.
module _ {S : Type 0} ⦃E : Emacs S⦄ (own : List (Static × Bytes))
    (errors : List (Static × Bytes × List Bytes)) (opts : ModuleOpts)
    (module_path hook_name : Bytes) (fs : List LispFunc) (hook : InitFn S) (debugging : Bool)
    (debug : Error → Bytes) where
  -- The crate registers its initializers, and the macros those of the module.
  abbrev pub loading_of : Loading S
  loading_of = record {
    global_refs =
        init_refs init_to_function crate_subrs
        ∷ init_refs init_to_symbol crate_symbols
        ∷ init_refs init_to_symbol own
        ∷ [];
    custom_errors = define_errors (bound errors) ∷ [];
    hook = auto_init opts module_path hook_name (register fs) hook;
    debugging = debugging;
    debug = debug;
  }

  -- After a load that returns 0 or 1 of a module made by the macros, whose hook frees nothing
  -- but what it made and leaves the statics alone, every global reference is held as often as
  -- before it, and once more for each static that was set to it, and the protected list of the
  -- caller is back, if no two initializers are for one static and the statics held their
  -- references before. Emacs follows ExitLaws and RefLaws, and its calls KeepingCalls.
  pub load_refs :
      {refs : Raw → S → ℕ} (exits : ExitLaws S) (laws : RefLaws S refs) (calls : KeepingCalls refs)
      (w : World S) (n : ℕ)
      → AllOnce (statics_of own) crate_subrs
      → AllOnce (statics_of own) crate_symbols
      → AllOnce (statics_of own) own
      → Settles refs hook
      → KeepsFrame hook
      → IsQuiet w.emacs
      → ((r : Raw) → held_by (statics_of own) w.globals r ≤ refs r w.emacs)
      → (module_init loading_of w).0 ≡ ok n
      → n ≤ 1
      → let w' = (module_init loading_of w).1 in
        (w'.protected ≡ w.protected)
        × ((r : Raw)
            → refs r w'.emacs + held_by (statics_of own) w.globals r
              ≡ refs r w.emacs + held_by (statics_of own) w'.globals r)
  load_refs exits laws calls w n once_subrs once_symbols once_own settles keeps =
      let by_symbol = Accounts-init_to_symbol exits laws calls (statics_of own) in
      let of_refs = Accounts-init_refs exits laws calls (statics_of own) in
      module_init_refs exits laws calls (statics_of own) loading_of
        (
          of_refs init_to_function (Accounts-init_to_function exits laws calls (statics_of own))
              crate_subrs once_subrs,
          (
            of_refs init_to_symbol by_symbol crate_symbols once_symbols,
            (of_refs init_to_symbol by_symbol own once_own, tt),
          ),
        )
        (Accounts-define_errors exits laws calls (statics_of own) errors, tt)
        (Accounts-auto_init exits laws calls (statics_of own) opts module_path hook_name fs hook
          (Accounts-Settles hook settles keeps))
        w n
