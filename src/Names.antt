-- ===== src/Names.antt =====
-- Lisp names of modules and functions (src/init.rs, emacs-macros/src/util.rs).
pub mod Paths
use emacs_module_rs.Base.{
  ℕ, Bool, true, false, Option, none, some, List, [], ◌∷◌, ◌++◌, ◌==◌, if◌then◌else◌,
}
use emacs_module_rs.Machine.{Bytes, codes, lisp_name, World}

-- `split("::")` from a place in the text, with the segment so far. `after_colon` says that the byte
-- before is a colon that is not yet part of the segment or of a separator.
unfoldable pub split_from : (after_colon : Bool) → Bytes → Bytes → List Bytes
split_from false segment [] = segment ∷ []
split_from true segment [] = (segment ++ b':' ∷ []) ∷ []
split_from false segment (c ∷ rest) = elim (c == b':') [
  | true ↦ split_from true segment rest
  | false ↦ split_from false (segment ++ c ∷ []) rest
]
split_from true segment (c ∷ rest) = elim (c == b':') [
  | true ↦ segment ∷ split_from false [] rest
  | false ↦ split_from false (segment ++ b':' ∷ c ∷ []) rest
]

unfoldable pub split : Bytes → List Bytes
unfolding split_from
split path = split_from false [] path

-- `nth(0)`: a split has a first segment at least, so the panic for none is left out.
abbrev pub first_segment : List Bytes → Bytes
first_segment [] = []
first_segment (segment ∷ _) = segment

-- `skip(1)`
abbrev pub skip_first : List Bytes → List Bytes
skip_first [] = []
skip_first (_ ∷ rest) = rest

unfoldable pub lisp_pkg : Bytes → Bytes
unfolding split lisp_name
lisp_pkg mod_path = lisp_name (first_segment (split mod_path))

-- The loop over the segments.
unfoldable pub push_segments : Bytes → List Bytes → Bytes
push_segments path [] = path
push_segments path (segment ∷ rest) = push_segments (path ++ segment ++ b'-' ∷ []) rest

-- `lisp_path`, with `__PREFIX__` as an argument.
unfoldable pub lisp_path : Bytes × Bytes → Bytes → Bytes
unfolding split push_segments lisp_name
lisp_path (prefix, separator) mod_path =
    lisp_name (push_segments (prefix ++ separator) (skip_first (split mod_path)))

-- `ends_with`, and equality of texts.
abbrev pub equal_bytes : Bytes → Bytes → Bool
equal_bytes [] [] = true
equal_bytes [] (_ ∷ _) = false
equal_bytes (_ ∷ _) [] = false
equal_bytes (a ∷ s) (b ∷ t) = if a == b then equal_bytes s t else false

abbrev pub ends_with : Bytes → Bytes → Bool
ends_with [] suffix = equal_bytes [] suffix
ends_with (c ∷ s) suffix = if equal_bytes (c ∷ s) suffix then true else ends_with s suffix

-- `IdentExt::unraw` on the text of an identifier: it takes off a leading `r#`.
abbrev pub unraw : Bytes → Bytes
unraw (a ∷ b ∷ rest) =
    if a == b'r' then (if b == b'#' then rest else a ∷ b ∷ rest) else a ∷ b ∷ rest
unraw id = id

-- `util::lisp_name`, and the macro `lisp_name!`
unfoldable pub ident_lisp_name : Bytes → Bytes
unfolding lisp_name
ident_lisp_name id = lisp_name (unraw id)

-- `util::concat`
unfoldable pub concat_ident : Bytes → Bytes → Bytes
concat_ident lhs rhs = lhs ++ unraw rhs
