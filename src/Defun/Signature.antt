-- ===== src/Defun/Signature.antt =====
-- The arguments of a `#[defun]` function (`check_signature` and what it calls). The spans of the
-- tokens are left out, and an error is its message.
pub mod Arities
use emacs_module_rs.Base.{
  ℕ, ◌+◌, Bool, true, false, Option, none, some, List, [], ◌∷◌, ◌++◌, map, if◌then◌else◌, ltb, leb,
  ◌-◌,
}
use emacs_module_rs.Machine.{Bytes, codes}
use emacs_module_rs.Names.{ends_with, equal_bytes, ident_lisp_name}

-- The parts of `syn` that the code looks at: a type, a pattern, an argument, and an item of an
-- attribute's list. `path` is printed as tokens, and `no_self` says that it has no qualified self.
pub data RustType : Type 0 where
  reference : (is_mut : Bool) → RustType → RustType
  path : (no_self : Bool) → Bytes → RustType
  other_type : RustType

pub data Pattern : Type 0 where
  ident : Bytes → Pattern
  wild other_pattern : Pattern

pub data FnArg : Type 0 where
  typed : Pattern → RustType → FnArg
  receiver : FnArg

pub data NestedMeta : Type 0 where
  meta_path : (last_segment : Bytes) → NestedMeta
  lit_str : Bytes → NestedMeta
  other_meta : NestedMeta

pub data Access : Type 0 where
  owned ref ref_mut : Access

pub data Arg : Type 0 where
  env : Arg
  val : (access : Access) (nth : ℕ) (name : Option Bytes) → Arg

pub data UserPtr : Type 0 where
  ref_cell rw_lock mutex direct : UserPtr

-- `darling::Error`, of the three kinds in use.
pub data OptsError : Type 0 where
  too_few_items too_many_items : ℕ → OptsError
  custom : Bytes → OptsError

-- `Result` of the macros.
pub data Parsed (E A : Type 0) : Type 0 where
  accepted : A → Parsed E A
  rejected : E → Parsed E A

unfoldable user_ptr_word : Bytes → Parsed OptsError UserPtr
user_ptr_word word =
    if equal_bytes word (codes "refcell")
    then accepted ref_cell
    else if equal_bytes word (codes "mutex")
    then accepted mutex
    else if equal_bytes word (codes "rwlock")
    then accepted rw_lock
    else if equal_bytes word (codes "direct")
    then accepted direct
    else rejected (custom (codes "Unknown kind of embedding"))

-- `UserPtr::from_word` and `UserPtr::from_list`
abbrev pub user_ptr_from_word : Parsed OptsError UserPtr
user_ptr_from_word = accepted ref_cell

unfoldable pub user_ptr_from_list : List NestedMeta → Parsed OptsError UserPtr
unfolding user_ptr_word
user_ptr_from_list [] = rejected (too_few_items 1)
user_ptr_from_list (meta_path w ∷ []) = user_ptr_word w
user_ptr_from_list (lit_str _ ∷ []) = rejected (custom (codes "Expected an identifier"))
user_ptr_from_list (other_meta ∷ []) = rejected (custom (codes "Expected an identifier"))
user_ptr_from_list (_ ∷ _ ∷ _) = rejected (too_many_items 1)

unfoldable pub is_env : RustType → Bool
is_env (reference _ elem) = is_env elem
is_env (path true text) = ends_with text (codes "Env")
is_env (path false _) = false
is_env other_type = false

abbrev is_reference : RustType → Bool
is_reference (reference _ _) = true
is_reference _ = false

abbrev pub access_of : RustType → Access
access_of (reference true _) = ref_mut
access_of (reference false _) = ref
access_of _ = owned

-- The variables of the loop of `check_signature`.
pub record Checking : Type 0 where
  pub i : ℕ
  pub errors : List Bytes
  pub has_env : Bool
  pub args : List Arg

abbrev report_if : Bool → Bytes → List Bytes → List Bytes
report_if true message errors = errors ++ message ∷ []
report_if false message errors = errors

abbrev negated : Bool → Bool
negated true = false
negated false = true

-- An argument that is the environment.
unfoldable pub check_env : RustType → Checking → Checking
check_env ty c = record c {
  errors =
      report_if c.has_env (codes "&Env must be passed only once") (
        report_if (negated (is_reference ty)) (codes "Can only take an &Env, not an Env") c.errors);
  has_env = true;
  args = c.args ++ env ∷ [];
}

-- A value, by its pattern. One that is no identifier is reported, and is no argument.
unfoldable pub push_val : Option Bytes → RustType → Checking → Checking
push_val name ty c = record c { i = c.i + 1; args = c.args ++ val (access_of ty) c.i name ∷ [] }

unfoldable pub check_val : Pattern → RustType → Checking → Checking
unfolding push_val
check_val (ident id) ty c = push_val (some id) ty c
check_val wild ty c = push_val none ty c
check_val other_pattern ty c = record c { errors = c.errors ++ codes "Expected identifier" ∷ [] }

unfoldable pub check_arg : FnArg → Checking → Checking
unfolding check_env check_val is_env
check_arg (typed pat ty) c = if is_env ty then check_env ty c else check_val pat ty c
check_arg receiver c = record c { errors = c.errors ++ codes "Cannot take self argument" ∷ [] }

unfoldable pub check_args : List FnArg → Checking → Checking
unfolding check_arg
check_args [] c = c
check_args (a ∷ rest) c = check_args rest (check_arg a c)

abbrev pub start_checking : Checking
start_checking = record { i = 0; errors = []; has_env = false; args = [] }

-- What `check_signature` gives: the arguments, and the arities `start..end`.
pub record CheckedSignature : Type 0 where
  pub args : List Arg
  pub start : ℕ
  pub end : ℕ

abbrev checked : List Bytes → Checking → Parsed (List Bytes) CheckedSignature
checked [] c = accepted (record { args = c.args; start = c.i; end = c.i })
checked (e ∷ errors) c = rejected (e ∷ errors)

abbrev output_errors : (has_output : Bool) → List Bytes → List Bytes
output_errors true errors = errors
output_errors false errors =
    errors ++ codes "Must return emacs::Result<T> where T: IntoLisp<'_>" ∷ []

unfoldable pub check_signature :
    List FnArg → (has_output : Bool) → Parsed (List Bytes) CheckedSignature
unfolding check_args
check_signature inputs has_output =
    let c = check_args inputs start_checking in checked (output_errors has_output c.errors) c

abbrev upper : ℕ → ℕ
upper c = if leb b'a' c then (if leb c b'z' then c - 32 else c) else c

-- `to_uppercase`, of ASCII text.
abbrev to_uppercase : Bytes → Bytes
to_uppercase s = map upper s

-- `lisp_name`
unfoldable pub arg_lisp_name : Arg → Option Bytes
unfolding ident_lisp_name
arg_lisp_name env = none
arg_lisp_name (val _ _ none) = some (b'_' ∷ [])
arg_lisp_name (val _ _ (some id)) = some (to_uppercase (ident_lisp_name id))

abbrev push_word : Option Bytes → Bytes → Bytes
push_word none sig = sig
push_word (some word) sig = sig ++ b' ' ∷ word

-- `lisp_signature`, with the text so far.
unfoldable pub push_words : List Arg → Bytes → Bytes
unfolding arg_lisp_name
push_words [] sig = sig
push_words (arg ∷ rest) sig = push_words rest (push_word (arg_lisp_name arg) sig)

unfoldable pub lisp_signature : List Arg → Bytes
unfolding push_words
lisp_signature args = push_words args (codes "(fn") ++ b')' ∷ []
