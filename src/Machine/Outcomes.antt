-- ===== src/Machine/Outcomes.antt =====
-- How the steps of a call decide what it does.
use emacs_module_rs.Base.{◌≡◌, refl, arith}
use emacs_module_rs.Machine.State.{World, Outcome, ok, err, panicked, Act, continue}

module _ {S A B : Type 0} where
  -- What ends well has begun well.
  pub continue-ok :
      (o : Outcome A) (f : A → Act S B) (w : World S) (b : B)
      → (continue o f w).0 ≡ ok b
      → (a : A) × (o ≡ ok a) × ((f a w).0 ≡ ok b)
  continue-ok (ok a) f w b e = (a, refl, e)
  continue-ok (err x) f w b e = ground (arith, e)
  continue-ok (panicked x) f w b e = ground (arith, e)

  -- Two ways to go on are the same if they are on the value that there is.
  pub continue-same :
      (o : Outcome A) (f g : A → Act S B) (w : World S)
      → ((a : A) → o ≡ ok a → f a w ≡ g a w)
      → continue o f w ≡ continue o g w
  continue-same (ok a) f g w same = same a refl
  continue-same (err x) f g w same = refl
  continue-same (panicked x) f g w same = refl
