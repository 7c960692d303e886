-- ===== src/Tests/References.antt =====
-- The theorems on global references and protected values, in the small Emacs.
use emacs_module_rs.Base.{◌+◌, ◌≡◌, refl, arith, some, List, [], ◌∷◌, false}
use emacs_module_rs.Machine.{codes, Raw, Static, World, ok, pure}
use emacs_module_rs.Init.{
  define_errors, Loading, init_refs, init_to_function, init_to_symbol, setup, initialize,
  module_init,
}
use emacs_module_rs.Names.{ident_lisp_name}
use emacs_module_rs.Defun.Exporter.{auto_init, exporter}
use emacs_module_rs.Defun.Exporter.Prefix.{register}
use emacs_module_rs.Defun.Exporter.Loading.{loading_of, statics_of, load_refs}
use emacs_module_rs.Frames.{KeepsFrame-pure}
use emacs_module_rs.Lifetime.{new_env, with_env}
use emacs_module_rs.Init.References.{held_by}
use emacs_module_rs.Lifetime.Drop.{count}
use emacs_module_rs.Lifetime.Balance.{owed, IsSettled, Settles-pure}
use emacs_module_rs.Tests.Toy.{Toy, toy, toy_refs, loaded, toy-ExitLaws, toy-RefLaws}
use emacs_module_rs.Tests.Exits.{toy-KeepingCalls}
use emacs_module_rs.Tests.Modules.{unloaded, opts, insert_func}

-- A module with one symbol, one error and one function.
abbrev map_loading : Loading Toy
map_loading =
    loading_of ((20, codes "my-error") ∷ []) ((20, codes "My error", codes "error" ∷ []) ∷ []) opts
      (codes "my_crate") (codes "my_map") (insert_func ∷ []) (pure tt) false (λ e. [])

abbrev map_statics : List Static
map_statics = statics_of ((20, codes "my-error") ∷ [])

unset_0 : (r : Raw) → held_by map_statics unloaded.globals r ≡ 0
unfolding held_by
unset_0 r = refl

loaded_0 : (module_init map_loading unloaded).0 ≡ ok 0
unfolding module_init with_env new_env initialize setup init_refs init_to_function init_to_symbol
    ident_lisp_name define_errors auto_init register exporter
loaded_0 = refl

load_refs_example :
    let w = (module_init map_loading unloaded).1 in
    (w.protected ≡ unloaded.protected)
    × ((r : Raw)
        → toy_refs r w.emacs + held_by map_statics unloaded.globals r
          ≡ toy_refs r unloaded.emacs + held_by map_statics w.globals r)
unfolding count
load_refs_example =
    load_refs ((20, codes "my-error") ∷ []) ((20, codes "My error", codes "error" ∷ []) ∷ []) opts
      (codes "my_crate") (codes "my_map") (insert_func ∷ []) (pure tt) false (λ e. []) toy-ExitLaws
      toy-RefLaws toy-KeepingCalls unloaded 0
      (refl, (refl, (refl, (refl, (refl, (refl, (refl, tt)))))))
      (refl, (refl, (refl, (refl, (refl, (refl, tt)))))) (refl, tt) (Settles-pure tt)
      (KeepsFrame-pure tt) refl (λ r. omega (arith, unset_0 r)) loaded_0 (omega arith)

-- An Env that has protected nothing.
abbrev pub fresh : World Toy
fresh = record loaded { protected = some [] }

pub fresh-IsSettled : IsSettled toy_refs (λ r. 0) fresh
unfolding owed count
fresh-IsSettled = record { balanced = record { held = λ r. refl }; quiet = refl }
