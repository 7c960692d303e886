-- ===== src/Names/Paths.antt =====
-- The prefix that a module path gives to the Lisp names of its functions.
use mathlib.Core.List.{append_assoc, append-nil}
use emacs_module_rs.Base.{
  ℕ, Bool, if◌then◌else◌, ◌≡◌, ◌≢◌, refl, sym, ap, ◌∙◌, true, false, ◌==◌, List, [], ◌∷◌, ◌++◌,
  arith,
}
use emacs_module_rs.Machine.{Bytes, lisp_name}
use emacs_module_rs.Names.{split_from, split, push_segments, lisp_pkg, lisp_path}

-- A path of segments, as `module_path!()` writes it.
pub join : Bytes → List Bytes → Bytes
join first [] = first
join first (next ∷ rest) = first ++ b':' ∷ b':' ∷ join next rest

-- Each segment with a hyphen.
pub hyphenated : List Bytes → Bytes
hyphenated [] = []
hyphenated (segment ∷ rest) = segment ++ b'-' ∷ hyphenated rest

abbrev pub no_colon : Bytes → Bool
no_colon [] = true
no_colon (c ∷ s) = if c == b':' then false else no_colon s

abbrev pub none_colon : List Bytes → Bool
none_colon [] = true
none_colon (s ∷ rest) = if no_colon s then none_colon rest else false

no_colon_cons : (c : ℕ) (s : Bytes) → no_colon (c ∷ s) ≡ true → (c ≢ b':') × (no_colon s ≡ true)
no_colon_cons c s h = ground arith

none_colon_cons :
    (s : Bytes) (rest : List Bytes)
    → none_colon (s ∷ rest) ≡ true
    → (no_colon s ≡ true) × (none_colon rest ≡ true)
none_colon_cons s rest h = ground arith

split_from-other :
    (acc : Bytes) (c : ℕ) (rest : Bytes)
    → c ≢ b':'
    → split_from false acc (c ∷ rest) ≡ split_from false (acc ++ c ∷ []) rest
unfolding split_from
split_from-other acc c rest ne = ground arith

split_from-segment :
    (acc s rest : Bytes)
    → no_colon s ≡ true
    → split_from false acc (s ++ rest) ≡ split_from false (acc ++ s) rest
unfolding split_from
split_from-segment acc [] rest h = rw append-nil refl
split_from-segment acc (c ∷ s) rest h =
    let (ne, h') = no_colon_cons c s h in
    split_from-other acc c (s ++ rest) ne
    ∙ split_from-segment (acc ++ c ∷ []) s rest h'
    ∙ ap (λ a. split_from false a rest) (append_assoc acc (c ∷ []) s)

split_from-join :
    (first : Bytes) (rest : List Bytes)
    → no_colon first ≡ true
    → none_colon rest ≡ true
    → split_from false [] (join first rest) ≡ first ∷ rest
unfolding join split_from
split_from-join first [] h hs =
    ap (split_from false []) (sym (append-nil first)) ∙ split_from-segment [] first [] h
split_from-join first (next ∷ rest) h hs =
    let (h', hs') = none_colon_cons next rest hs in
    split_from-segment [] first (b':' ∷ b':' ∷ join next rest) h
    ∙ ap (λ r. first ∷ r) (split_from-join next rest h' hs')

push_segments-hyphenated :
    (path : Bytes) (segments : List Bytes)
    → push_segments path segments ≡ path ++ hyphenated segments
unfolding push_segments hyphenated
push_segments-hyphenated path [] = sym (append-nil path)
push_segments-hyphenated path (segment ∷ rest) =
    push_segments-hyphenated (path ++ segment ++ b'-' ∷ []) rest
    ∙ append_assoc (path ++ segment) (b'-' ∷ []) (hyphenated rest)
    ∙ append_assoc path segment (b'-' ∷ hyphenated rest)

-- For a path of a crate and modules, whose names have no colons, lisp_pkg is the Lisp name of
-- the crate, and lisp_path is the prefix, the separator and the modules, each with a hyphen,
-- with the underscores of all of it made hyphens, those of the prefix too.
pub lisp_path-join :
    (prefix separator crate : Bytes) (modules : List Bytes)
    → no_colon crate ≡ true
    → none_colon modules ≡ true
    → (lisp_pkg (join crate modules) ≡ lisp_name crate)
      × (lisp_path (prefix, separator) (join crate modules)
          ≡ lisp_name (prefix ++ separator ++ hyphenated modules))
unfolding lisp_pkg lisp_path split
lisp_path-join prefix separator crate modules h hs =
    let e = split_from-join crate modules h hs in
    (rw e refl, rw (e, push_segments-hyphenated (prefix ++ separator) modules) refl)
