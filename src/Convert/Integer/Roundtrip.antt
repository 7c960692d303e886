-- ===== src/Convert/Integer/Roundtrip.antt =====
-- An integer that goes to Lisp and comes back.
use emacs_module_rs.Base.{ℤ, ◌≡◌, refl, arith, ap}
use emacs_module_rs.Machine.{Emacs, IsQuiet, World, Outcome, ok, err, try_from_int_error, ◌>>=◌}
use emacs_module_rs.Exit.Laws.{raw_call-quiet}
use emacs_module_rs.Value.{value, raw_call_value_unprotected}
use emacs_module_rs.Convert.Integer.{
  IntType, i64, isize, u64, usize, InRange, i64_from_lisp, i64_into_lisp, int_from_lisp,
  int_into_lisp,
}
use emacs_module_rs.Convert.Integer.Bounds.{
  IntegerLaws, as_type-eq_of_InRange, try_into-ok, try_into-err,
}

module _ {S : Type 0} ⦃E : Emacs S⦄ (laws : IntegerLaws S) (x : ℤ) (w : World S)
    (q : IsQuiet w.emacs) (fits : InRange i64 x) where
  -- The world after the integer is made, and the value.
  i64_into_lisp-ok :
      i64_into_lisp x w
      ≡ (ok (value (E.make_integer x w.emacs).0), record w { emacs = (E.make_integer x w.emacs).1 })
  unfolding i64_into_lisp raw_call_value_unprotected
  i64_into_lisp-ok = rw (raw_call-quiet (E.make_integer x) w (laws.make-IsQuiet x w.emacs q fits))

  int_into_lisp-ok : (ty : IntType) → int_into_lisp ty x w ≡ i64_into_lisp x w
  unfolding int_into_lisp
  int_into_lisp-ok isize = rw (try_into-ok i64 x w fits)
  int_into_lisp-ok u64 = rw (try_into-ok i64 x w fits)
  int_into_lisp-ok usize = rw (try_into-ok i64 x w fits)
  int_into_lisp-ok i64 = refl
  int_into_lisp-ok _ = rw (as_type-eq_of_InRange i64 x fits)

  -- In the default build, an integer of a type that is also an i64 goes to Lisp and comes back
  -- to its type unchanged, if no exit was pending and integers follow IntegerLaws.
  pub int_from_lisp-int_into_lisp :
      (ty : IntType) → InRange ty x → ((int_into_lisp ty x >>= int_from_lisp ty) w).0 ≡ ok x
  unfolding int_from_lisp i64_from_lisp
  int_from_lisp-int_into_lisp ty h =
      let s' = (E.make_integer x w.emacs).1 in
      let r = (E.make_integer x w.emacs).0 in
      rw
        (
          int_into_lisp-ok ty,
          i64_into_lisp-ok,
          raw_call-quiet (E.extract_integer r) (record w { emacs = s' })
              (laws.extract-IsQuiet x w.emacs q fits),
          laws.extract-make x w.emacs q fits,
        )
        (ap (λ (r : Outcome ℤ × World S). r.0) (try_into-ok ty x _ h))

module _ {S : Type 0} ⦃E : Emacs S⦄ where
  -- In the default build, an integer of one of the types that no i64 holds is refused before
  -- Emacs is called.
  pub int_into_lisp_refuses :
      (ty : IntType) (x : ℤ) (w : World S)
      → InRange ty x
      → ¬ InRange i64 x
      → int_into_lisp ty x w ≡ (err try_from_int_error, w)
  unfolding int_into_lisp
  int_into_lisp_refuses isize x w h out = absurd (out h)
  int_into_lisp_refuses i64 x w h out = absurd (out h)
  int_into_lisp_refuses u64 x w h out = rw (try_into-err i64 x w out)
  int_into_lisp_refuses usize x w h out = rw (try_into-err i64 x w out)
  int_into_lisp_refuses _ x w h out = absurd (out (omega arith))
