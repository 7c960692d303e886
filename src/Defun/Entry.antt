-- ===== src/Defun/Entry.antt =====
-- The entry points of the macros (emacs-macros/src/lib.rs): what `#[defun]` and `#[module]` parse, and
-- the items that they print (func.rs, module.rs), doc comments (util.rs), and the impls that
-- lisp_args.rs prints. An item is told by its kind and the identifiers that it stands on.
use emacs_module_rs.Base.{
  ℕ, zero, suc, ◌+◌, Bool, Option, none, some, List, [], ◌∷◌, ◌++◌, ◌==◌, if◌then◌else◌, ◌≡◌, refl,
}
use emacs_module_rs.Machine.{Bytes, codes, decimal, Address}
use emacs_module_rs.Names.{equal_bytes, concat_ident, ident_lisp_name}
use emacs_module_rs.Defun.Signature.{
  FnArg, CheckedSignature, Parsed, accepted, rejected, check_signature,
}
use emacs_module_rs.Defun.Exporter.{FuncOpts, LispFunc, ModuleOpts}

-- An attribute: `path = literal`, by the last segment and the literal if that is a text, or another.
pub data Attr : Type 0 where
  name_value : (last_segment : Bytes) → Option Bytes → Attr
  other_attr : Attr

-- `ItemFn`: of what the macros look at. The return type is written, or is not.
pub record FnItem : Type 0 where
  pub ident : Bytes
  pub attrs : List Attr
  pub inputs : List FnArg
  pub has_output : Bool

-- `trim_start_matches(' ')`
abbrev trim_spaces : Bytes → Bytes
trim_spaces [] = []
trim_spaces (c ∷ rest) = let trimmed = trim_spaces rest in if c == b' ' then trimmed else c ∷ rest

abbrev doc_lines : List Attr → List Bytes
doc_lines [] = []
doc_lines (name_value name (some text) ∷ rest) =
    let lines = doc_lines rest in
    if equal_bytes name (codes "doc") then trim_spaces text ∷ lines else lines
doc_lines (name_value name none ∷ rest) = doc_lines rest
doc_lines (other_attr ∷ rest) = doc_lines rest

-- `join("\n")`
abbrev join_lines : List Bytes → Bytes
join_lines [] = []
join_lines (line ∷ []) = line
join_lines (line ∷ next ∷ rest) = line ++ codes "\n" ++ join_lines (next ∷ rest)

-- `util::doc`
unfoldable pub doc_of : List Attr → Bytes
doc_of attrs = join_lines (doc_lines attrs)

doc_test :
    doc_of (
      name_value (codes "doc") (some (codes " 1+"))
      ∷ other_attr
      ∷ name_value (codes "doc") (some (codes "x"))
      ∷ [])
    ≡ codes "1+\nx"
unfolding doc_of
doc_test = refl

-- What is printed.
pub data Item : Type 0 where
  definition : FnItem → Item
  auto_init_of : ModuleOpts → (hook : Bytes) → Item
  module_init_of : (init : Bytes) → Item
  exporter_of : (exporter wrapper : Bytes) → LispFunc → Item
  registrator_of : (registrator exporter : Bytes) → LispFunc → Item
  args_of_tuple : (type_vars : List Bytes) → Item
  args_of_array : (length : ℕ) → Item

abbrev parse_checked :
    FnItem
    → Bytes
    → Address
    → FuncOpts
    → Parsed (List Bytes) CheckedSignature
    → Parsed (List Bytes) LispFunc
parse_checked item module_path lambda opts (accepted signature) = accepted (record {
  ident = item.ident;
  doc = doc_of item.attrs;
  module_path = module_path;
  signature = signature;
  opts = opts;
  lambda = lambda;
})
parse_checked item module_path lambda opts (rejected errors) = rejected errors

-- `LispFunc::parse`, on what darling gives for the options; the errors are their messages. The path
-- of the module and the address of the wrapper are known when the module is built.
unfoldable pub parse_func :
    Parsed (List Bytes) FuncOpts → FnItem → Bytes → Address → Parsed (List Bytes) LispFunc
unfolding doc_of check_signature
parse_func (rejected errors) item module_path lambda = rejected errors
parse_func (accepted opts) item module_path lambda =
    parse_checked item module_path lambda opts (check_signature item.inputs item.has_output)

abbrev pub wrapper_ident : Bytes → Bytes
unfolding concat_ident
wrapper_ident ident = concat_ident (codes "__emr_O_") ident

abbrev pub exporter_ident : Bytes → Bytes
unfolding concat_ident
exporter_ident ident = concat_ident (codes "__emrs_E_") ident

abbrev pub registrator_ident : Bytes → Bytes
unfolding concat_ident
registrator_ident ident = concat_ident (codes "__emrs_R_") ident

-- `LispFunc::render`
unfoldable pub render_func : FnItem → LispFunc → List Item
unfolding wrapper_ident exporter_ident registrator_ident
render_func item f =
    definition item
    ∷ exporter_of (exporter_ident f.ident) (wrapper_ident f.ident) f
    ∷ registrator_of (registrator_ident f.ident) (exporter_ident f.ident) f
    ∷ []

abbrev rendered_func : FnItem → Parsed (List Bytes) LispFunc → Parsed (List Bytes) (List Item)
unfolding render_func
rendered_func item (accepted f) = accepted (render_func item f)
rendered_func item (rejected errors) = rejected errors

-- `#[defun]`
unfoldable pub defun :
    Parsed (List Bytes) FuncOpts → FnItem → Bytes → Address → Parsed (List Bytes) (List Item)
unfolding parse_func rendered_func
defun opts item module_path lambda = rendered_func item (parse_func opts item module_path lambda)

-- `Module::parse`, on what darling gives for the options.
abbrev pub parse_module : Parsed (List Bytes) ModuleOpts → Parsed (List Bytes) ModuleOpts
parse_module (accepted opts) = accepted opts
parse_module (rejected errors) = rejected errors

-- `Module::gen_registrator`
abbrev pub module_registrator : Item
module_registrator = module_init_of (codes "__emrs_auto_init__")

-- `Module::render`
unfoldable pub render_module : FnItem → ModuleOpts → List Item
render_module item opts = definition item ∷ auto_init_of opts item.ident ∷ module_registrator ∷ []

abbrev rendered_module : FnItem → Parsed (List Bytes) ModuleOpts → Parsed (List Bytes) (List Item)
unfolding render_module
rendered_module item (accepted opts) = accepted (render_module item opts)
rendered_module item (rejected errors) = rejected errors

-- `#[module]`
unfoldable pub module_macro :
    Parsed (List Bytes) ModuleOpts → FnItem → Parsed (List Bytes) (List Item)
unfolding rendered_module
module_macro opts item = rendered_module item (parse_module opts)

-- `T1` to `Tn`, from `i` on.
abbrev type_vars : ℕ → ℕ → List Bytes
unfolding decimal
type_vars zero i = []
type_vars (suc n) i = (codes "T" ++ decimal (i + 1)) ∷ type_vars n (i + 1)

unfoldable pub impl_for_tuple : ℕ → Item
unfolding type_vars
impl_for_tuple arity = args_of_tuple (type_vars arity 0)

-- From `i` on.
abbrev tuples_from : ℕ → ℕ → List Item
unfolding impl_for_tuple
tuples_from zero i = []
tuples_from (suc n) i = impl_for_tuple i ∷ tuples_from n (i + 1)

unfoldable pub impl_for_tuples : ℕ → List Item
unfolding tuples_from
impl_for_tuples max_arity = tuples_from max_arity 1

unfoldable pub impl_for_array : ℕ → Item
impl_for_array length = args_of_array length

abbrev arrays_from : ℕ → ℕ → List Item
unfolding impl_for_array
arrays_from zero i = []
arrays_from (suc n) i = impl_for_array i ∷ arrays_from n (i + 1)

unfoldable pub impl_for_arrays : ℕ → List Item
unfolding arrays_from
impl_for_arrays max_length = arrays_from (suc max_length) 0

-- The macro `lisp_name!`
abbrev pub lisp_name_macro : Bytes → Bytes
unfolding ident_lisp_name
lisp_name_macro id = ident_lisp_name id

-- `impl_lisp_args_for_tuples!` and `impl_lisp_args_for_arrays!`, of the literal that they are given.
unfoldable pub impl_lisp_args_for_tuples : (arity : ℕ) → List Item
unfolding impl_for_tuples
impl_lisp_args_for_tuples arity = impl_for_tuples arity

unfoldable pub impl_lisp_args_for_arrays : (length : ℕ) → List Item
unfolding impl_for_arrays
impl_lisp_args_for_arrays length = impl_for_arrays length
