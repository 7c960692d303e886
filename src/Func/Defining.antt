-- ===== src/Func/Defining.antt =====
-- What an exported function defines: the function cell of the symbol of its name.
pub mod Rules
pub mod Exports
use mathlib.Core.Path.{subst}
use emacs_module_rs.Base.{
  ℕ, ℤ, pos, ◌≡◌, refl, sym, ap, ◌∙◌, Option, none, some, Option-cases, inl, inr, List, [], ◌∷◌,
  ◌++◌, if◌then◌else◌, arith,
}
use emacs_module_rs.Machine.{
  Bytes, codes, Raw, Address, Emacs, IsQuiet, ExitLaws, RefLaws, World, Outcome, ok, err, panicked,
  Act, pure, ◌>>=◌, continue,
}
use emacs_module_rs.Exit.{raw_call, handle_exit}
use emacs_module_rs.Exit.Laws.{pending, quiet, signalled, thrown, result_of, handle_exit_outcome}
use emacs_module_rs.Value.{
  Value, value, protect, protect_in, raw_call_value, raw_call_value_unprotected, cstring,
  cstring_or, find_nul, intern,
}
use emacs_module_rs.Names.{equal_bytes}

-- A function of a module: its address, arities, doc string and data.
pub record Body : Type 0 where
  pub function : Address
  pub min : ℤ
  pub max : ℤ
  pub doc : Bytes
  pub details : Address

-- What is known of Lisp objects stays known, and no function cell changes.
pub record Later {S : Type 0} (names : Raw → S → Option Bytes) (bodies : Raw → S → Option Body)
    (cells : Bytes → S → Option Body) (s s' : S) : Type 0 where
  pub named : (r : Raw) (n : Bytes) → names r s ≡ some n → names r s' ≡ some n
  pub bodied : (r : Raw) (b : Body) → bodies r s ≡ some b → bodies r s' ≡ some b
  pub same : (n : Bytes) → cells n s' ≡ cells n s

-- The manual on symbols and module functions: by which name a symbol goes, which function an object
-- is, and which function of a module is in the function cell of a symbol. What signals has no
-- result.
pub record SymbolLaws {S : Type 0} ⦃E : Emacs S⦄ (names : Raw → S → Option Bytes)
    (bodies : Raw → S → Option Body) (cells : Bytes → S → Option Body) : Type 0 where
  pub ref-Later :
      (r : Raw) (s : S) → IsQuiet s → Later names bodies cells s (E.make_global_ref r s).1
  pub intern-Later : (n : Bytes) (s : S) → IsQuiet s → Later names bodies cells s (E.intern n s).1
  pub intern-named :
      (n : Bytes) (s : S)
      → IsQuiet s
      → IsQuiet (E.intern n s).1
      → let (r, s') = E.intern n s in names r s' ≡ some n
  pub make_function-Later :
      (min max : ℤ) (f : Address) (doc : Bytes) (details : Address) (s : S)
      → IsQuiet s
      → Later names bodies cells s (E.make_function min max f doc details s).1
  pub make_function-body :
      (min max : ℤ) (f : Address) (doc : Bytes) (details : Address) (s : S)
      → IsQuiet s
      → IsQuiet (E.make_function min max f doc details s).1
      → let (r, s') = E.make_function min max f doc details s in
        bodies r s'
        ≡ some (record { function = f; min = min; max = max; doc = doc; details = details })
  pub fset-cells :
      (f symbol func : Raw) (n : Bytes) (b : Body) (s : S)
      → IsQuiet s
      → names f s ≡ some (codes "fset")
      → names symbol s ≡ some n
      → bodies func s ≡ some b
      → IsQuiet (E.funcall f (symbol ∷ func ∷ []) s).1
      → (other : Bytes)
      → cells other (E.funcall f (symbol ∷ func ∷ []) s).1
        ≡ (if equal_bytes n other then some b else cells other s)

-- From a state with `P` and no pending exit, the action ends, if it gives a value, in one with `Q`.
pub record Yields {S A : Type 0} ⦃E : Emacs S⦄ (P : S → Type 0) (m : Act S A) (Q : A → S → Type 0)
    : Type 0 where
  pub at :
      (w : World S) (a : A)
      → IsQuiet w.emacs
      → P w.emacs
      → (m w).0 ≡ ok a
      → IsQuiet (m w).1.emacs × Q a (m w).1.emacs

module _ {S A B : Type 0} ⦃E : Emacs S⦄ {Q : A → S → Type 0} {R : B → S → Type 0} where
  Yields-continue :
      (o : Outcome A) (f : A → Act S B) (w : World S) (b : B)
      → ((a : A) → o ≡ ok a → IsQuiet w.emacs × Q a w.emacs)
      → ((a : A) → Yields (Q a) (f a) R)
      → (continue o f w).0 ≡ ok b
      → IsQuiet (continue o f w).1.emacs × R b (continue o f w).1.emacs
  Yields-continue (ok a) f w b h kf e = let (q, is) = h a refl in (kf a).at w b q is e
  Yields-continue (err x) f w b h kf e = cc e
  Yields-continue (panicked x) f w b h kf e = cc e

  pub Yields-bind :
      {P : S → Type 0} (m : Act S A) (f : A → Act S B)
      → Yields P m Q
      → ((a : A) → Yields (Q a) (f a) R)
      → Yields P (m >>= f) R
  Yields-bind m f km kf = record {
    at = λ w b q h e. Yields-continue (m w).0 f (m w).1 b (λ a. km.at w a q h) kf e;
  }

module _ {S : Type 0} ⦃E : Emacs S⦄ (exits : ExitLaws S) where
  pub raw_call_ok :
      {A : Type 0} (f : S → A × S) (w : World S) (a : A)
      → (raw_call f w).0 ≡ ok a
      → IsQuiet (f w.emacs).1
        × ((f w.emacs).0 ≡ a)
        × ((raw_call f w).1 ≡ record w { emacs = (f w.emacs).1 })
  unfolding raw_call handle_exit
  raw_call_ok f w a e = (
    ground (arith, exits.status_known (f w.emacs).1, e),
    ground (arith, exits.status_known (f w.emacs).1, e),
    ground (arith, exits.status_known (f w.emacs).1, e),
  )
