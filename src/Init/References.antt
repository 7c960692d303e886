-- ===== src/Init/References.antt =====
-- What loading does to the global references: the statics that are set hold one each, and the values
-- that were protected meanwhile hold none when it is over.
pub mod Setup
pub mod Loading
use mathlib.Core.Path.{subst}
use emacs_module_rs.Base.{
  ℕ, zero, suc, ◌+◌, ◌≤◌, ◌≡◌, refl, sym, ap, ◌∙◌, Bool, true, false, Bool-cases, Option, none,
  some, Option-cases, List, [], ◌∷◌, ◌++◌, ◌==◌, ==_iff, if◌then◌else◌, arith, inl, inr,
}
use emacs_module_rs.Machine.{
  Raw, Emacs, IsQuiet, ExitLaws, RefLaws, Static, World, Outcome, ok, err, panicked, Error, Payload,
  Act, pure, panic, ◌>>=◌, continue, attempt, as_result,
}
use emacs_module_rs.Value.{Value}
use emacs_module_rs.Global.{GlobalRef, from_raw, init, make_global_ref, get_cell, set_once}
use emacs_module_rs.Global.Once.{fill_and_get, filled, fill_and_get-filled, init_end}
use emacs_module_rs.Lifetime.Drop.{count}
use emacs_module_rs.Lifetime.Balance.{owed, IsBalanced, IsSettled, Settles}
use emacs_module_rs.Frames.{Frame, KeepsFrame}

-- How often the statics of a list hold a reference.
abbrev pub holds : Option Raw → Raw → ℕ
holds none r = 0
holds (some x) r = if x == r then 1 else 0

unfoldable pub held_by : List Static → (Static → Option Raw) → Raw → ℕ
held_by [] globals r = 0
held_by (name ∷ rest) globals r = holds (globals name) r + held_by rest globals r

abbrev pub NotPanicked : {A : Type 0} → Outcome A → Type 0
NotPanicked (ok _) = Unit
NotPanicked (err _) = Unit
NotPanicked (panicked _) = ⊥

module _ {A : Type 0} where
  as_result-NotPanicked : (o : Outcome A) → NotPanicked (as_result o) → NotPanicked o
  as_result-NotPanicked (ok a) h = tt
  as_result-NotPanicked (err e) h = tt
  as_result-NotPanicked (panicked p) h = h

module _ {S : Type 0} ⦃E : Emacs S⦄ (refs : Raw → S → ℕ) (names : List Static) where
  -- Every reference is held as often as it was outside, once more for each time that the current
  -- `Env` protects it, and once more for each static that holds it. No exit is pending.
  abbrev pub IsAccounted : (Raw → ℕ) → World S → Type 0
  IsAccounted base w = IsSettled refs (λ r. held_by names w.globals r + base r) w

  -- Unless it panics, the action keeps account of the references.
  pub record Accounts {A : Type 0} (m : Act S A) : Type 0 where
    pub at :
        (base : Raw → ℕ) (w : World S)
        → IsAccounted base w
        → NotPanicked (m w).0
        → IsAccounted base (m w).1

module _ {S A : Type 0} ⦃E : Emacs S⦄ {refs : Raw → S → ℕ} {names : List Static} where
  pub Accounts-pure : (a : A) → Accounts refs names (pure {S = S} a)
  Accounts-pure a = record { at = λ base w h n. h }

  pub Accounts-panic : (p : Payload) → Accounts refs names (panic {S = S} {A = A} p)
  Accounts-panic p = record { at = λ base w h n. elim n [ ] }

  -- What settles and leaves the statics alone.
  pub Accounts-Settles : (m : Act S A) → Settles refs m → KeepsFrame m → Accounts refs names m
  Accounts-Settles m km k = record {
    at = λ base w h n.
        let kept : (m w).1.globals ≡ w.globals = ap (λ (f : Frame). f.globals) (k.at w) in
        subst (λ g. IsSettled refs (λ r. held_by names g r + base r) (m w).1) (sym kept)
          (km.at (λ r. held_by names w.globals r + base r) w h);
  }

  pub Accounts-attempt : (m : Act S A) → Accounts refs names m → Accounts refs names (attempt m)
  Accounts-attempt m km = record {
    at = λ base w h n. km.at base w h (as_result-NotPanicked (m w).0 n);
  }

module _ {S A B : Type 0} ⦃E : Emacs S⦄ {refs : Raw → S → ℕ} {names : List Static} where
  Accounts-continue :
      (base : Raw → ℕ) (o : Outcome A) (f : A → Act S B) (w : World S)
      → ((a : A) → Accounts refs names (f a))
      → (NotPanicked o → IsAccounted refs names base w)
      → NotPanicked (continue o f w).0
      → IsAccounted refs names base (continue o f w).1
  Accounts-continue base (ok a) f w kf h n = (kf a).at base w (h tt) n
  Accounts-continue base (err e) f w kf h n = h tt
  Accounts-continue base (panicked p) f w kf h n = h n

  pub Accounts-bind :
      (m : Act S A) (f : A → Act S B)
      → Accounts refs names m
      → ((a : A) → Accounts refs names (f a))
      → Accounts refs names (m >>= f)
  Accounts-bind m f km kf = record {
    at = λ base w h n. Accounts-continue base (m w).0 f (m w).1 kf (km.at base w h) n;
  }

-- The static that is set holds one reference more.
module _ (name : Static) (raw : Raw) (globals : Static → Option Raw) where
  abbrev filling : Static → Option Raw
  filling other = if name == other then some raw else globals other

  held_by-others :
      (names : List Static) (r : Raw)
      → count name names ≡ 0
      → held_by names filling r ≡ held_by names globals r
  unfolding held_by count
  held_by-others [] r h = refl
  held_by-others (x ∷ rest) r h = ground (arith, held_by-others rest r)

  held_by-filling :
      (names : List Static) (r : Raw)
      → globals name ≡ none
      → count name names ≡ 1
      → held_by names filling r ≡ holds (some raw) r + held_by names globals r
  unfolding held_by count
  held_by-filling [] r free h = absurd (omega arith)
  held_by-filling (x ∷ rest) r free h =
      ground (arith, held_by-others rest r, held_by-filling rest r free)

module _ {S : Type 0} ⦃E : Emacs S⦄ {refs : Raw → S → ℕ} (laws : RefLaws S refs)
    (names : List Static) (name : Static) (once : count name names ≡ 1) where
  -- The reference that is made is the static's.
  filled-IsAccounted :
      (base : Raw → ℕ) (v : Value) (w : World S)
      → w.globals name ≡ none
      → IsAccounted refs names base w
      → let (raw, s) = E.make_global_ref v.raw w.emacs in
        IsAccounted refs names base (filled name raw (record w { emacs = s }))
  filled-IsAccounted base v w free h =
      let raw = (E.make_global_ref v.raw w.emacs).0 in
      record {
        balanced = record {
          held = λ r. omega (
            arith,
            h.balanced.held r,
            laws.make-adds v.raw w.emacs r h.quiet,
            held_by-filling name raw w.globals names r free once,
          );
        };
        quiet = laws.make-IsQuiet v.raw w.emacs h.quiet;
      }

  fill_and_get-IsAccounted :
      (base : Raw → ℕ) (v : Value) (w : World S) (cell : Option Raw)
      → w.globals name ≡ cell
      → IsAccounted refs names base w
      → let (raw, s) = E.make_global_ref v.raw w.emacs in
        let r = fill_and_get name raw cell (record w { emacs = s }) in
        NotPanicked r.0 → IsAccounted refs names base r.1
  fill_and_get-IsAccounted base v w none free h n =
      let (raw, s) = E.make_global_ref v.raw w.emacs in
      subst (λ (r : Outcome GlobalRef × World S). IsAccounted refs names base r.1)
        (sym (fill_and_get-filled name raw (record w { emacs = s })))
        (filled-IsAccounted base v w free h)
  fill_and_get-IsAccounted base v w (some x) set h n = elim n [ ]

  Accounts-init_end : (v : Value) → Accounts refs names (init_end name v)
  Accounts-init_end v = record {
    at = λ base w h n. fill_and_get-IsAccounted base v w (w.globals name) refl h n;
  }

  pub Accounts-init : (f : Act S Value) → Accounts refs names f → Accounts refs names (init name f)
  unfolding init make_global_ref
  Accounts-init f k = Accounts-bind f _ k Accounts-init_end
