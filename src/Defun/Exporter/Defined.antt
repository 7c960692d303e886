-- ===== src/Defun/Exporter/Defined.antt =====
-- Which functions Lisp has after the exporters of a module have run.
use emacs_module_rs.Base.{
  ℕ, ◌≡◌, refl, ap, ◌∙◌, Bool, Option, some, List, [], ◌∷◌, ◌++◌, map, if◌then◌else◌,
}
use emacs_module_rs.Machine.{
  Bytes, Raw, Emacs, IsQuiet, ExitLaws, RefLaws, World, ok, pure, continue-ok,
}
use emacs_module_rs.Names.{lisp_path, equal_bytes}
use emacs_module_rs.Maps.View.{updated}
use emacs_module_rs.Init.{run_all}
use emacs_module_rs.Func.{export_function}
use emacs_module_rs.Func.Defining.{Body, SymbolLaws, Yields-bind}
use emacs_module_rs.Func.Defining.Rules.{Cells}
use emacs_module_rs.Func.Defining.Exports.{body_with, Yields-export_function}
use emacs_module_rs.Frames.{Frame}
use emacs_module_rs.Defun.Exporter.{LispFunc, exporter, full_doc, path_of, name_of}
use emacs_module_rs.Defun.Exporter.Prefix.{KeepsFrame-exporter}

-- The name of a function in Lisp, by `__PREFIX__` and `__MOD_IN_NAME__`, and what it is there.
abbrev pub full_name : Bytes × Bytes → Bool → LispFunc → Bytes
full_name names crate_mod_in_name f =
    lisp_path names (path_of f.opts.mod_in_name crate_mod_in_name f.module_path)
    ++ name_of f.opts.name f.ident

abbrev pub body_of : LispFunc → Body
body_of f = body_with f.lambda f.signature.start f.signature.end (full_doc f) 0

-- The last function of a list that goes by a name, or else what the name had.
abbrev pub last_named : Bytes × Bytes → Bool → List LispFunc → Bytes → Option Body → Option Body
last_named names b [] n old = old
last_named names b (f ∷ rest) n old =
    last_named names b rest n
      (if equal_bytes (full_name names b f) n then some (body_of f) else old)

module _ {S : Type 0} ⦃E : Emacs S⦄ {refs : Raw → S → ℕ} {names : Raw → S → Option Bytes}
    {bodies : Raw → S → Option Body} {cells : Bytes → S → Option Body} (exits : ExitLaws S)
    (ref_laws : RefLaws S refs) (laws : SymbolLaws names bodies cells) where
  exporter-defined :
      (f : LispFunc) (w : World S)
      → IsQuiet w.emacs
      → (exporter f w).0 ≡ ok tt
      → IsQuiet (exporter f w).1.emacs
        × ((n : Bytes)
            → cells n (exporter f w).1.emacs ≡ (
                if equal_bytes (full_name w.prefix w.mod_in_name f) n
                then some (body_of f)
                else cells n w.emacs))
  unfolding exporter
  exporter-defined f w q e =
      let old : Bytes → Option Body = λ n. cells n w.emacs in
      let path = lisp_path w.prefix (path_of f.opts.mod_in_name w.mod_in_name f.module_path) in
      let name = name_of f.opts.name f.ident in
      let after : Bytes → Option Body = updated (path ++ name) (body_of f) old in
      (Yields-bind {Q = λ v. Cells names bodies cells after}
          {R = λ u. Cells names bodies cells after}
          (export_function path name f.lambda f.signature.start f.signature.end (full_doc f))
          (λ v. pure tt)
          (Yields-export_function exits ref_laws laws old path name f.lambda f.signature.start
            f.signature.end (full_doc f))
          (λ v. record { at = λ w' a q' h e'. (q', h) })).at
        w tt q (λ n. refl) e

  -- When the exporters of some functions have run, in any order, without an error, the function
  -- cell of each name holds the last of the functions that goes by it, with the address, the
  -- arities and the doc string that the macro gives it, and the cell of any other name holds
  -- what it held. No exit was pending. Emacs follows ExitLaws, RefLaws and SymbolLaws.
  pub run_all-last_named :
      (fs : List LispFunc) (w : World S)
      → IsQuiet w.emacs
      → (run_all (map exporter fs) w).0 ≡ ok tt
      → (n : Bytes)
      → cells n (run_all (map exporter fs) w).1.emacs
        ≡ last_named w.prefix w.mod_in_name fs n (cells n w.emacs)
  unfolding run_all
  run_all-last_named [] w q e n = refl
  run_all-last_named (f ∷ rest) w q e n =
      let w1 = (exporter f w).1 in
      let (u, began, more) =
        continue-ok (exporter f w).0 (λ u. run_all (map exporter rest)) w1 tt e in
      let (q1, defined) = exporter-defined f w q began in
      let kept = (KeepsFrame-exporter exits f).at w in
      let later = run_all-last_named rest w1 q1 more n in
      let same : last_named w1.prefix w1.mod_in_name rest n (cells n w1.emacs)
          ≡ last_named w.prefix w.mod_in_name rest n (cells n w1.emacs) =
        ap (λ (x : Frame). last_named x.prefix x.mod_in_name rest n (cells n w1.emacs)) kept in
      rw began (later ∙ same ∙ ap (last_named w.prefix w.mod_in_name rest n) (defined n))
