-- ===== src/Convert/Text/Returning.antt =====
-- A text that goes to Lisp and comes back.
use emacs_module_rs.Base.{◌+◌, ◌≡◌, true, Option, none, some, [], ◌∷◌, ◌++◌, length}
use emacs_module_rs.Machine.{Bytes, Raw, Emacs, Copied, IsQuiet}

abbrev copied_of : Bytes → Bytes → Copied
copied_of buffer s = record { done = true; buffer = buffer; len = length s + 1 }

-- The manual on `make_string` and `copy_string_contents`: the text that a string is made of is read
-- back with a terminating zero byte, its length with that byte is given for the null pointer, and a
-- global reference leaves strings as they are. `texts r s` is the text of the string `r`.
pub record TextLaws (S : Type 0) ⦃E : Emacs S⦄ (texts : Raw → S → Option Bytes) : Type 0 where
  pub make-IsQuiet : (b : Bytes) (s : S) → IsQuiet s → IsQuiet (E.make_string b s).1
  pub make-texts :
      (b : Bytes) (s : S) → IsQuiet s → let (r, s') = E.make_string b s in texts r s' ≡ some b
  pub copy_size :
      (r : Raw) (b : Bytes) (s : S)
      → IsQuiet s
      → texts r s ≡ some b
      → E.copy_string_contents r none 0 s ≡ (copied_of [] b, s)
  pub copy_text :
      (r : Raw) (b buffer : Bytes) (s : S)
      → IsQuiet s
      → texts r s ≡ some b
      → length buffer ≡ length b + 1
      → E.copy_string_contents r (some buffer) (length b + 1) s ≡ (copied_of (b ++ 0 ∷ []) b, s)
  pub ref-IsQuiet : (v : Raw) (s : S) → IsQuiet s → IsQuiet (E.make_global_ref v s).1
  pub ref-texts : (v r : Raw) (s : S) → texts r (E.make_global_ref v s).1 ≡ texts r s
