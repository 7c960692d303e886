-- ===== src/Init/Status.antt =====
-- The code that Emacs gets back from loading a module.
use emacs_module_rs.Base.{ℕ, ◌≤◌, ◌≡◌, ◌≢◌, refl, ◌↔◌, arith}
use emacs_module_rs.Machine.{
  Emacs, Error, Payload, World, Outcome, ok, err, panicked, ◌>>=◌, continue, as_result, failure,
  unwound, catch_unwind,
}
use emacs_module_rs.Value.{Value}
use emacs_module_rs.Init.{
  Loading, setup, report_error, status_of_setup, status_of_thread, initialize,
}

abbrev code_of_report : Outcome Value → ℕ
code_of_report (ok _) = 1
code_of_report (err _) = 2
code_of_report (panicked _) = 2

-- One of the three codes, or a panic.
abbrev pub IsCode : Outcome ℕ → Type 0
IsCode (ok n) = n ≤ 2
IsCode (err _) = ⊥
IsCode (panicked _) = Unit

never_zero : (o : Outcome Value) → 0 ≢ code_of_report o
never_zero (ok v) h = absurd (omega arith)
never_zero (err e) h = absurd (omega arith)
never_zero (panicked p) h = absurd (omega arith)

only_shown : (o : Outcome Value) → 1 ≡ code_of_report o → (v : Value) × (o ≡ ok v)
only_shown (ok v) h = (v, refl)
only_shown (err e) h = absurd (omega arith)
only_shown (panicked p) h = absurd (omega arith)

-- 0 if the setup gives a value, 1 if its error can be reported, and else 2.
abbrev pub code_of : Outcome Value → (report : Error → Outcome Value) → ℕ
code_of (ok _) report = 0
code_of (err e) report = code_of_report (report e)
code_of (panicked _) report = 2

module _ {S : Type 0} ⦃E : Emacs S⦄ (loading : Loading S) where
  -- The end of `initialize` after a panic.
  pub after_panic :
      (p : Payload) (w : World S) (n : ℕ)
      → (status_of_thread loading (unwound p) w).0 ≡ ok n
      → n ≡ 2
  unfolding status_of_thread
  after_panic p w n e = ground arith

  after_report :
      (e : Error) (w : World S) (n : ℕ)
      → ((catch_unwind (status_of_setup loading (failure e)) >>= status_of_thread loading) w).0
        ≡ ok n
      → n ≡ code_of_report (report_error loading e w).0
  unfolding status_of_setup status_of_thread
  after_report e w n h = ground arith

  -- `initialize` from the outcome of the setup on.
  abbrev from_setup : Outcome Value → World S → Outcome ℕ × World S
  from_setup o w =
      (catch_unwind (λ w'. continue (as_result o) (status_of_setup loading) w')
          >>= status_of_thread loading)
        w

  by_outcome :
      (o : Outcome Value) (w : World S) (n : ℕ)
      → (from_setup o w).0 ≡ ok n
      → n ≡ code_of o (λ e. (report_error loading e w).0)
  unfolding status_of_setup status_of_thread
  by_outcome (ok v) w n h = cc h
  by_outcome (err e) w n h = after_report e w n h
  by_outcome (panicked p) w n h = after_panic p w n h

  -- An error that Emacs shows gives 1.
  reported :
      (e : Error) (w : World S) (v : Value)
      → (report_error loading e w).0 ≡ ok v
      → (from_setup (err e) w).0 ≡ ok 1
  unfolding status_of_setup status_of_thread
  reported e w v h = ground arith

  -- The outcome is an error that Emacs shows.
  abbrev pub IsShown : Outcome Value → World S → Type 0
  IsShown o w = (e : Error) × (v : Value) × (o ≡ err e) × ((report_error loading e w).0 ≡ ok v)

  zero_inv :
      (o : Outcome Value) (w : World S) → (from_setup o w).0 ≡ ok 0 → (v : Value) × (o ≡ ok v)
  zero_inv (ok v) w h = (v, refl)
  zero_inv (err e) w h = absurd (never_zero _ (by_outcome (err e) w 0 h))
  zero_inv (panicked p) w h = absurd (cc (by_outcome (panicked p) w 0 h))

  one_inv : (o : Outcome Value) (w : World S) → (from_setup o w).0 ≡ ok 1 → IsShown o w
  one_inv (ok v) w h = absurd (cc (by_outcome (ok v) w 1 h))
  one_inv (err e) w h =
      let (v, shown) = only_shown _ (by_outcome (err e) w 1 h) in (e, v, refl, shown)
  one_inv (panicked p) w h = absurd (cc (by_outcome (panicked p) w 1 h))

  zero_from : (o : Outcome Value) (w : World S) (v : Value) → o ≡ ok v → (from_setup o w).0 ≡ ok 0
  unfolding status_of_setup status_of_thread
  zero_from o w v e = rw e refl

  zero_world : (o : Outcome Value) (w : World S) (v : Value) → o ≡ ok v → (from_setup o w).1 ≡ w
  unfolding status_of_setup status_of_thread
  zero_world o w v e = rw e refl

  one_from : (o : Outcome Value) (w : World S) → IsShown o w → (from_setup o w).0 ≡ ok 1
  one_from o w (e, v, is, shown) = rw is (reported e w v shown)

  from_setup-IsCode : (o : Outcome Value) (w : World S) → IsCode (from_setup o w).0
  unfolding status_of_setup status_of_thread
  from_setup-IsCode (ok v) w = omega arith
  from_setup-IsCode (err e) w = ground arith
  from_setup-IsCode (panicked p) w = ground arith

  -- initialize returns 0 exactly if each step of the setup gives a value, and 1 exactly if one
  -- gives an error that Emacs then shows; else it returns 2, or panics.
  pub initialize_status :
      (w : World S)
      → (((initialize loading w).0 ≡ ok 0) ↔ ((v : Value) × ((setup loading w).0 ≡ ok v)))
        × (((initialize loading w).0 ≡ ok 1) ↔ IsShown (setup loading w).0 (setup loading w).1)
        × IsCode (initialize loading w).0
  unfolding initialize
  initialize_status w =
      let (o, w') = setup loading w in
      (
        (λ h. zero_inv o w' h, λ h. zero_from o w' h.0 h.1),
        (λ h. one_inv o w' h, λ h. one_from o w' h),
        from_setup-IsCode o w',
      )

  -- With the code 0, the state is the one that the setup leaves.
  pub initialize_zero :
      (w : World S)
      → (initialize loading w).0 ≡ ok 0
      → ((v : Value) × ((setup loading w).0 ≡ ok v))
        × ((initialize loading w).1 ≡ (setup loading w).1)
  unfolding initialize
  initialize_zero w h =
      let (v, e) = zero_inv (setup loading w).0 (setup loading w).1 h in
      ((v, e), zero_world (setup loading w).0 (setup loading w).1 v e)
