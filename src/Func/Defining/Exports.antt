-- ===== src/Func/Defining/Exports.antt =====
-- The function cell that an export sets (src/func.rs).
use emacs_module_rs.Base.{ℕ, pos, ◌≡◌, ap, ◌∙◌, Option, some, sym, [], ◌∷◌, ◌++◌, if◌then◌else◌}
use emacs_module_rs.Machine.{Bytes, codes, Raw, Address, Emacs, ExitLaws, RefLaws, pure}
use emacs_module_rs.Exit.{raw_call}
use emacs_module_rs.Value.{Value, value, protect, raw_call_value_unprotected, cstring, intern}
use emacs_module_rs.Call.{values_args, call_unprotected, call_value, call, call_name}
use emacs_module_rs.Convert.Integer.{i64, as_type}
use emacs_module_rs.Names.{equal_bytes}
use emacs_module_rs.Maps.View.{updated}
use emacs_module_rs.Func.{make_function, fset, export_function}
use emacs_module_rs.Func.Defining.{Body, SymbolLaws, Yields, Yields-bind}
use emacs_module_rs.Func.Defining.Rules.{
  Stable, Cells, Stable-Cells, Stable-body, Stable-name, Stable-and, Yields-raw_call, Yields-value,
  Yields-protect, Yields-raw_call_value, Yields-cstring, Yields-intern,
}

-- What `make_function` makes, with the arities as `isize`.
abbrev pub body_with : Address → ℕ → ℕ → Bytes → Address → Body
body_with function min max doc details = record {
  function = function;
  min = as_type i64 (pos min);
  max = as_type i64 (pos max);
  doc = doc;
  details = details;
}

module _ {S : Type 0} ⦃E : Emacs S⦄ {refs : Raw → S → ℕ} {names : Raw → S → Option Bytes}
    {bodies : Raw → S → Option Body} {cells : Bytes → S → Option Body} (exits : ExitLaws S)
    (ref_laws : RefLaws S refs) (laws : SymbolLaws names bodies cells) where
  Yields-make_function :
      (P : S → Type 0) (function : Address) (min max : ℕ) (doc : Bytes) (details : Address)
      → Stable names bodies cells P
      → Yields P
          (make_function function min max doc details)
          (λ v s. P s × (bodies v.raw s ≡ some (body_with function min max doc details)))
  unfolding make_function
  Yields-make_function P function min max doc details k =
      let body = body_with function min max doc details in
      Yields-bind (cstring doc) _ (Yields-cstring exits ref_laws laws P doc) (λ text.
        Yields-raw_call_value exits ref_laws laws (λ s. (doc ≡ text) × P s)
          (λ r s. P s × (bodies r s ≡ some body))
          (E.make_function (as_type i64 (pos min)) (as_type i64 (pos max)) function text details)
          (λ s q (same, h) calm. (
            k.at s _ h (laws.make_function-Later _ _ function text details s q),
            laws.make_function-body _ _ function text details s q calm
                ∙ ap (λ t. some (body_with function min max t details)) (sym same),
          ))
          (λ r. Stable-and names bodies cells P _ k (Stable-body names bodies cells r body)))

  Yields-set_cell :
      (old : Bytes → Option Body) (f symbol func : Value) (n : Bytes) (b : Body)
      → Yields
          (λ s.
            ((Cells names bodies cells old s × (bodies func.raw s ≡ some b))
              × (names symbol.raw s ≡ some n))
            × (names f.raw s ≡ some (codes "fset")))
          (call_value f (values_args (symbol ∷ func ∷ [])))
          (λ v. Cells names bodies cells (updated n b old))
  unfolding call_value call_unprotected raw_call_value_unprotected
  Yields-set_cell old f symbol func n b =
      Yields-bind _ protect
        (Yields-bind (raw_call (E.funcall f.raw (symbol.raw ∷ func.raw ∷ [])))
          (λ raw. pure (value raw))
          (Yields-raw_call exits ref_laws laws _ (λ r. Cells names bodies cells (updated n b old))
            (E.funcall f.raw (symbol.raw ∷ func.raw ∷ []))
            (λ s q (((same, made), named), by) calm other.
              laws.fset-cells f.raw symbol.raw func.raw n b s q by named made calm other
              ∙ ap (λ c. if equal_bytes n other then some b else c) (same other)))
          (Yields-value exits ref_laws laws (λ r. Cells names bodies cells (updated n b old))))
        (λ v.
          Yields-protect exits ref_laws laws (λ r. Cells names bodies cells (updated n b old)) v
            (λ r. Stable-Cells names bodies cells (updated n b old)))

  Yields-fset :
      (old : Bytes → Option Body) (name : Bytes) (func : Value) (b : Body)
      → Yields
          (λ s. Cells names bodies cells old s × (bodies func.raw s ≡ some b))
          (fset name func)
          (λ v. Cells names bodies cells (updated name b old))
  unfolding fset call_name call
  Yields-fset old name func b =
      let made =
        Stable-and names bodies cells (Cells names bodies cells old) _
          (Stable-Cells names bodies cells old) (Stable-body names bodies cells func.raw b) in
      Yields-bind (intern name) _ (Yields-intern exits ref_laws laws _ name made) (λ symbol.
        Yields-bind (intern (codes "fset")) _
          (Yields-intern exits ref_laws laws _ (codes "fset") (
            Stable-and names bodies cells _ _ made
              (Stable-name names bodies cells symbol.raw name)))
          (λ f. Yields-set_cell old f symbol func name b))

  -- An export sets the function cell of its name, and no other.
  pub Yields-export_function :
      (old : Bytes → Option Body) (prefix name : Bytes) (function : Address) (min max : ℕ)
      (doc : Bytes)
      → Yields
          (Cells names bodies cells old)
          (export_function prefix name function min max doc)
          (λ v.
            Cells names bodies cells
              (updated (prefix ++ name) (body_with function min max doc 0) old))
  unfolding export_function
  Yields-export_function old prefix name function min max doc =
      Yields-bind (make_function function min max doc 0) _
        (Yields-make_function _ function min max doc 0 (Stable-Cells names bodies cells old))
        (λ func. Yields-fset old (prefix ++ name) func (body_with function min max doc 0))
