-- ===== src/Convert/Integer/Bounds.antt =====
-- Ranges of the integer conversions: what they accept, keep and refuse.
use emacs_module_rs.Base.{ℤ, ◌≡◌, arith, ◌↔◌, ◌⊎◌, true, Bool-cases, inl, inr}
use emacs_module_rs.Machine.{Emacs, IsQuiet, World, ok, err, try_from_int_error}
use emacs_module_rs.Value.{Value}
use emacs_module_rs.Convert.Integer.{
  IntType, i8, i64, InRange, in_range, as_type, try_into, i64_from_lisp, int_from_lisp,
}

-- `as` gives an integer of the type.
pub as_type-InRange : (ty : IntType) (x : ℤ) → InRange ty (as_type ty x)
unfolding as_type
as_type-InRange i8 x = ground arith
as_type-InRange _ x = ground arith

-- It keeps one that is of the type.
pub as_type-eq_of_InRange : (ty : IntType) (x : ℤ) → InRange ty x → as_type ty x ≡ x
unfolding as_type
as_type-eq_of_InRange i8 x h = ground arith
as_type-eq_of_InRange _ x h = ground arith

-- With the lossy conversions an integer of any of the types goes to i64 and back unchanged.
pub as_type-as_type : (ty : IntType) (x : ℤ) → InRange ty x → as_type ty (as_type i64 x) ≡ x
unfolding as_type
as_type-as_type i8 x h = ground arith
as_type-as_type _ x h = ground arith

pub in_range_iff : (ty : IntType) (x : ℤ) → (in_range ty x ≡ true) ↔ InRange ty x
unfolding in_range
in_range_iff ty x = ground arith

module _ {S : Type 0} where
  pub try_into-ok :
      (ty : IntType) (x : ℤ) (w : World S) → InRange ty x → try_into ty x w ≡ (ok x, w)
  unfolding try_into
  try_into-ok ty x w h = rw ((in_range_iff ty x).1 h)

  -- A refusal changes nothing.
  pub try_into-err :
      (ty : IntType) (x : ℤ) (w : World S)
      → ¬ InRange ty x
      → try_into ty x w ≡ (err try_from_int_error, w)
  unfolding try_into
  try_into-err ty x w out = elim (Bool-cases (in_range ty x)) [
    | inl inside ↦ absurd (out ((in_range_iff ty x).0 inside))
    | inr outside ↦ rw outside
  ]

  try_into_inv : (ty : IntType) (x : ℤ) (w : World S) → (try_into ty x w).0 ≡ ok x → InRange ty x
  unfolding try_into
  try_into_inv ty x w e = elim (Bool-cases (in_range ty x)) [
    | inl inside ↦ (in_range_iff ty x).0 inside
    | inr outside ↦ absurd (cc (rw outside at e))
  ]

-- The manual on `make_integer` and `extract_integer`: an `i64` that is made and read is the same.
-- (Emacs before 27 has smaller integers, and signals.)
pub record IntegerLaws (S : Type 0) ⦃E : Emacs S⦄ : Type 0 where
  pub make-IsQuiet : (x : ℤ) (s : S) → IsQuiet s → InRange i64 x → IsQuiet (E.make_integer x s).1
  pub extract-IsQuiet :
      (x : ℤ) (s : S)
      → IsQuiet s
      → InRange i64 x
      → let (r, s') = E.make_integer x s in IsQuiet (E.extract_integer r s').1
  pub extract-make :
      (x : ℤ) (s : S)
      → IsQuiet s
      → InRange i64 x
      → let (r, s') = E.make_integer x s in (E.extract_integer r s').0 ≡ x

module _ {S : Type 0} ⦃E : Emacs S⦄ where
  -- What it does not accept is an error of the conversion, and no exit of Emacs.
  pub int_from_lisp_refuses :
      (ty : IntType) (v : Value) (i : ℤ) (w w' : World S)
      → i64_from_lisp v w ≡ (ok i, w')
      → ¬ InRange ty i
      → int_from_lisp ty v w ≡ (err try_from_int_error, w')
  unfolding int_from_lisp
  int_from_lisp_refuses ty v i w w' e out = rw e (try_into-err ty i w' out)

  -- Where Emacs gives an integer, its conversion to a type gives that integer if it is one of
  -- the type, and else the error of try_into, and changes nothing more in either case.
  pub int_from_lisp_cases :
      (ty : IntType) (v : Value) (i : ℤ) (w w' : World S)
      → i64_from_lisp v w ≡ (ok i, w')
      → (InRange ty i × (int_from_lisp ty v w ≡ (ok i, w')))
        ⊎ ((¬ InRange ty i) × (int_from_lisp ty v w ≡ (err try_from_int_error, w')))
  unfolding int_from_lisp
  int_from_lisp_cases ty v i w w' e = elim (Bool-cases (in_range ty i)) [
    | inl inside ↦
        let fits = (in_range_iff ty i).0 inside in inl (fits, rw e (try_into-ok ty i w' fits))
    | inr outside ↦
        let out : ¬ InRange ty i = λ fits. cc (rw outside at (in_range_iff ty i).1 fits) in
        inr (out, int_from_lisp_refuses ty v i w w' e out)
  ]
