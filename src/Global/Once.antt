-- ===== src/Global/Once.antt =====
-- A `OnceGlobalRef` is set once.
use emacs_module_rs.Base.{
  ◌≡◌, refl, sym, ap, ◌∙◌, true, Option, none, some, ◌==◌, ==_iff, if◌then◌else◌,
}
use emacs_module_rs.Machine.{
  Raw, Emacs, Static, World, Outcome, ok, err, panicked, Act, gets, ◌>>=◌, ◌>>◌, continue,
}
use emacs_module_rs.Value.{Value}
use emacs_module_rs.Global.{GlobalRef, from_raw, get_cell, set_once, make_global_ref, init, deref}
use emacs_module_rs.Frames.{Frame, KeepsFrame}

abbrev pub NotOk : {A : Type 0} → Outcome A → Type 0
NotOk (ok _) = ⊥
NotOk (err _) = Unit
NotOk (panicked _) = Unit

module _ {S : Type 0} (name : Static) (raw : Raw) where
  -- The end of `init`, by what the cell held.
  abbrev pub fill_and_get : Option Raw → Act S GlobalRef
  fill_and_get cell = do
    set_once name cell raw
    filled ← gets (λ w. w.globals name)
    get_cell "Failed to get an initialized OnceGlobalRef" filled

  abbrev pub filled : World S → World S
  filled w = record w { globals = λ other. if name == other then some raw else w.globals other }

  filled_own : (w : World S) → (filled w).globals name ≡ some raw
  filled_own w = let own : (name == name) ≡ true = (==_iff name name).1 refl in rw own refl

  pub fill_and_get-filled : (w : World S) → fill_and_get none w ≡ (ok (from_raw raw), filled w)
  fill_and_get-filled w =
      ap (λ c. get_cell "Failed to get an initialized OnceGlobalRef" c (filled w)) (filled_own w)

  deref-filled : (w : World S) → (deref name (filled w)).0 ≡ ok (from_raw raw)
  unfolding deref
  deref-filled w =
      ap (λ c. (get_cell "Cannot access an uninitialized global reference" c (filled w)).0)
        (filled_own w)

  fill_and_get-deref :
      (cell : Option Raw) (w : World S) (g : GlobalRef)
      → (fill_and_get cell w).0 ≡ ok g
      → (deref name (fill_and_get cell w).1).0 ≡ ok g
  fill_and_get-deref none w g e =
      ap (λ (r : Outcome GlobalRef × World S). (deref name r.1).0) (fill_and_get-filled w)
      ∙ deref-filled w
      ∙ ap (λ (r : Outcome GlobalRef × World S). r.0) (sym (fill_and_get-filled w))
      ∙ e
  fill_and_get-deref (some x) w g e = absurd (cc e)

  fill_and_get-again :
      (cell : Option Raw) (w : World S) (x : Raw)
      → cell ≡ some x
      → NotOk (fill_and_get cell w).0 × ((fill_and_get cell w).1 ≡ w)
  fill_and_get-again cell w x e = rw e (tt, refl)

module _ {S : Type 0} ⦃E : Emacs S⦄ (name : Static) where
  abbrev pub init_end : Value → Act S GlobalRef
  init_end v w =
      let (raw, s) = E.make_global_ref v.raw w.emacs in
      fill_and_get name raw (w.globals name) (record w { emacs = s })

  end_deref :
      (o : Outcome Value) (w : World S) (g : GlobalRef)
      → (continue o init_end w).0 ≡ ok g
      → (deref name (continue o init_end w).1).0 ≡ ok g
  end_deref (ok v) w g e =
      let (raw, s) = E.make_global_ref v.raw w.emacs in
      fill_and_get-deref name raw (w.globals name) (record w { emacs = s }) g e
  end_deref (err x) w g e = absurd (cc e)
  end_deref (panicked p) w g e = absurd (cc e)

  end_again :
      (o : Outcome Value) (w : World S) (x : Raw)
      → w.globals name ≡ some x
      → NotOk (continue o init_end w).0 × ((continue o init_end w).1.globals ≡ w.globals)
  end_again (ok v) w x e =
      let (raw, s) = E.make_global_ref v.raw w.emacs in
      let (not_ok, same) =
        fill_and_get-again name raw (w.globals name) (record w { emacs = s }) x e in
      (not_ok, ap (λ (w' : World S). w'.globals) same)
  end_again (err y) w x e = (tt, refl)
  end_again (panicked p) w x e = (tt, refl)

  -- What init returns is what the static gives from then on.
  pub deref-init :
      (f : Act S Value) (w : World S) (g : GlobalRef)
      → (init name f w).0 ≡ ok g
      → (deref name (init name f w).1).0 ≡ ok g
  unfolding init make_global_ref
  deref-init f w g e = end_deref (f w).0 (f w).1 g e

  -- A static that is set is not set again: init gives no reference, and leaves all statics as
  -- they are, if computing the value does.
  pub init_again :
      (f : Act S Value) (w : World S) (x : Raw)
      → KeepsFrame f
      → w.globals name ≡ some x
      → NotOk (init name f w).0 × ((init name f w).1.globals ≡ w.globals)
  unfolding init make_global_ref
  init_again f w x k e =
      let kept = ap (λ (y : Frame). y.globals) (k.at w) in
      let (not_ok, same) =
        end_again (f w).0 (f w).1 x (ap (λ (g : Static → Option Raw). g name) kept ∙ e) in
      (not_ok, same ∙ kept)
