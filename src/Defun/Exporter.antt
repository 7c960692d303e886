-- ===== src/Defun/Exporter.antt =====
-- The exporter and the registrator that `#[defun]` generates, and the hook that `#[module]`
-- generates (emacs-macros/src/module.rs).
pub mod Prefix
pub mod References
pub mod Loading
pub mod Defined
use emacs_module_rs.Base.{Bool, Option, none, some, List, [], ◌∷◌, ◌++◌, if◌then◌else◌}
use emacs_module_rs.Machine.{Bytes, codes, Address, Emacs, Act, ok, pure, gets, ◌>>=◌, ◌>>◌}
use emacs_module_rs.Value.{Value}
use emacs_module_rs.Call.{provide}
use emacs_module_rs.Func.{export_function}
use emacs_module_rs.Names.{lisp_pkg, lisp_path, ident_lisp_name, equal_bytes}
use emacs_module_rs.Maps.{Map, map_insert}
use emacs_module_rs.Init.{InitFn, run_all}
use emacs_module_rs.Defun.Signature.{
  CheckedSignature, lisp_signature, UserPtr, NestedMeta, meta_path, lit_str, other_meta, OptsError,
  too_few_items, too_many_items, custom, Parsed, accepted, rejected,
}

-- The options of `#[defun]`.
pub record FuncOpts : Type 0 where
  pub name : Option Bytes
  pub mod_in_name : Option Bool
  pub user_ptr : Option UserPtr

-- A `#[defun]` function: its identifier, its doc comment (`util::doc`), the module it stands in
-- (`module_path!()`), what its signature gives, and its `extern_lambda`.
pub record LispFunc : Type 0 where
  pub ident : Bytes
  pub doc : Bytes
  pub module_path : Bytes
  pub signature : CheckedSignature
  pub opts : FuncOpts
  pub lambda : Address

abbrev pub path_of : Option Bool → (crate_mod_in_name : Bool) → Bytes → Bytes
path_of none crate_mod_in_name module_path = if crate_mod_in_name then module_path else []
path_of (some b) crate_mod_in_name module_path = if b then module_path else []

unfoldable pub name_of : Option Bytes → Bytes → Bytes
unfolding ident_lisp_name
name_of none ident = ident_lisp_name ident
name_of (some name) ident = name

unfoldable pub full_doc : LispFunc → Bytes
unfolding lisp_signature
full_doc f = f.doc ++ codes "\n\n" ++ lisp_signature f.signature.args

-- `FnMap`, by full path. A `HashMap` is iterated over in no particular order.
abbrev pub FnMap : Type 0 → Type 0
FnMap S = Map (InitFn S)

abbrev pub values : {S : Type 0} → FnMap S → List (InitFn S)
values [] = []
values ((_, f) ∷ rest) = f ∷ values rest

module _ {S : Type 0} ⦃E : Emacs S⦄ where
  -- The function of `gen_exporter`
  unfoldable pub exporter : LispFunc → InitFn S
  unfolding lisp_path name_of full_doc export_function
  exporter f = do
    crate_mod_in_name ← gets (λ w. w.mod_in_name)
    names ← gets (λ w. w.prefix)
    export_function (lisp_path names (path_of f.opts.mod_in_name crate_mod_in_name f.module_path))
        (name_of f.opts.name f.ident) f.lambda f.signature.start f.signature.end (full_doc f)
    pure tt

  -- The function of `gen_registrator`
  unfoldable pub registrator : LispFunc → FnMap S → FnMap S
  unfolding map_insert exporter
  registrator f funcs = map_insert (f.module_path ++ codes "::" ++ f.ident) (exporter f) funcs

-- The options of `#[module]`.
pub data Name : Type 0 where
  crate_name fn_name : Name
  str_name : Bytes → Name

pub record ModuleOpts : Type 0 where
  pub name : Name
  pub separator : Bytes
  pub mod_in_name : Bool
  pub defun_prefix : Option Bytes

unfoldable name_word : Bytes → Parsed OptsError Name
name_word w =
    if equal_bytes w (codes "fn")
    then accepted fn_name
    else if equal_bytes w (codes "crate")
    then accepted crate_name
    else rejected (custom (codes "Expected crate/fn"))

-- `Name::from_list` and `Name::from_string`
unfoldable pub name_from_list : List NestedMeta → Parsed OptsError Name
unfolding name_word
name_from_list [] = rejected (too_few_items 1)
name_from_list (meta_path w ∷ []) = name_word w
name_from_list (lit_str s ∷ []) = accepted (str_name s)
name_from_list (other_meta ∷ []) = rejected (custom (codes "Expected crate/fn or a string"))
name_from_list (_ ∷ _ ∷ _) = rejected (too_many_items 1)

abbrev pub name_from_string : Bytes → Parsed OptsError Name
name_from_string lit = accepted (str_name lit)

-- The feature's name, by the path of the module and the name of the hook.
unfoldable pub feature_of : Name → (module_path hook : Bytes) → Bytes
unfolding lisp_pkg ident_lisp_name
feature_of crate_name module_path hook = lisp_pkg module_path
feature_of (str_name name) module_path hook = name
feature_of fn_name module_path hook = ident_lisp_name hook

abbrev pub prefix_of : Option Bytes → Bytes → Bytes
prefix_of none feature = feature
prefix_of (some prefix) feature = prefix

module _ {S : Type 0} where
  abbrev pub set_prefix : Bytes × Bytes → InitFn S
  set_prefix names w = (ok tt, record w { prefix = names })

  abbrev pub configure_mod_in_name : Bool → InitFn S
  configure_mod_in_name b w = (ok tt, record w { mod_in_name = b })

module _ {S : Type 0} ⦃E : Emacs S⦄ where
  -- The function of `gen_init`
  unfoldable pub auto_init :
      ModuleOpts → (module_path hook_name : Bytes) → FnMap S → InitFn S → Act S Value
  unfolding feature_of run_all provide
  auto_init opts module_path hook_name funcs hook = do
    let feature = feature_of opts.name module_path hook_name
    set_prefix (prefix_of opts.defun_prefix feature, opts.separator)
    configure_mod_in_name opts.mod_in_name
    run_all (values funcs)
    hook
    provide feature
