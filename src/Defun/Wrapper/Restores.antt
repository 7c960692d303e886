-- ===== src/Defun/Wrapper/Restores.antt =====
-- The guards of the wrapper: what they leave, and what they exclude.
use emacs_module_rs.Base.{
  ℕ, zero, suc, ◌≡◌, refl, sym, ap, ◌∙◌, fun_ext, true, false, Bool-cases, inl, inr, List, [], ◌∷◌,
  ◌++◌, ◌==◌, if◌then◌else◌, ==_iff, get_elem?, Option-cases,
}
use emacs_module_rs.Machine.{
  Address, Emacs, ExitLaws, Borrow, shared, exclusive, World, Outcome, ok, err, panicked, Act,
  ◌>>=◌, continue,
}
use emacs_module_rs.Value.{Value}
use emacs_module_rs.UserPtr.{
  Transfer, is_finalizer, get_user_ptr, get_user_finalizer, get_raw_pointer, ref_from_lisp,
  into_ref, into_ref_mut, try_borrow, try_borrow_mut, set_borrow, released,
}
use emacs_module_rs.Func.{CallArgs, get_arg}
use emacs_module_rs.Frames.{
  Frame, frame, KeepsFrame, KeepsFrame-pure, KeepsFrame-fail, KeepsFrame-bind, KeepsFrame-if,
  KeepsFrame-raw_call, KeepsFrame-panic,
}
use emacs_module_rs.Defun.Signature.{Arg, env, val, owned, ref, ref_mut}
use emacs_module_rs.Defun.Wrapper.{
  Passed, env_ref, by_value, borrowed, borrowed_mut, ArgTypes, guarded, bind_args, wrapper,
}

pub same : (cell : Address) → (cell == cell) ≡ true
same cell = (==_iff cell cell).1 refl

abbrev set_flags : Address → Borrow → (Address → Borrow) → Address → Borrow
set_flags cell b flags other = if cell == other then b else flags other

abbrev released_flags : Address → (Address → Borrow) → Address → Borrow
released_flags cell flags = set_flags cell (released (flags cell)) flags

set_flags_other :
    (cell other : Address) (b : Borrow) (flags : Address → Borrow)
    → (cell == other) ≡ false
    → set_flags cell b flags other ≡ flags other
set_flags_other cell other b flags e = rw e refl

set_flags_same :
    (cell other : Address) (b : Borrow) (flags : Address → Borrow)
    → (cell == other) ≡ true
    → set_flags cell b flags other ≡ b
set_flags_same cell other b flags e = rw e refl

-- A flag that is set and set back.
set_back :
    (flags : Address → Borrow) (cell : Address) (b' : Borrow)
    → released b' ≡ flags cell
    → released_flags cell (set_flags cell b' flags) ≡ flags
set_back flags cell b' back = fun_ext (λ other. elim (Bool-cases (cell == other)) [
  | inl e ↦
      set_flags_same cell other _ (set_flags cell b' flags) e
      ∙ ap released (set_flags_same cell cell b' flags (same cell))
      ∙ back
      ∙ ap flags ((==_iff cell other).0 e)
  | inr e ↦
      set_flags_other cell other _ (set_flags cell b' flags) e
      ∙ set_flags_other cell other b' flags e
])

abbrev with_flags : Frame → (Address → Borrow) → Frame
with_flags f flags = record f { borrows = flags }

module _ {S A : Type 0} (cell : Address) (b b' : Borrow) (m : Act S A) (w : World S)
    (found : w.borrows cell ≡ b) (k : KeepsFrame m) where
  -- A guard that is taken by setting the flag sets it back, if what runs meanwhile leaves it.
  guarded-frame : released b' ≡ b → frame (guarded cell m (set_borrow cell b' w)).1 ≡ frame w
  guarded-frame back =
      let taken = set_borrow cell b' w in
      ap (λ (f : Frame). with_flags f (released_flags cell f.borrows)) (k.at taken)
      ∙ ap (with_flags (frame w)) (set_back w.borrows cell b' (back ∙ sym found))

module _ {S A : Type 0} (cell : Address) (m : Address → Act S A)
    (k : (c : Address) → KeepsFrame (m c)) (w : World S) where
  try_borrow-frame :
      (b : Borrow)
      → w.borrows cell ≡ b
      → frame ((try_borrow cell b >>= λ c. guarded c (m c)) w).1 ≡ frame w
  try_borrow-frame (shared n) e =
      guarded-frame cell (shared n) (shared (suc n)) (m cell) w e (k cell) refl
  try_borrow-frame exclusive e = refl

  try_borrow_mut-frame :
      (b : Borrow)
      → w.borrows cell ≡ b
      → frame ((try_borrow_mut cell b >>= λ c. guarded c (m c)) w).1 ≡ frame w
  try_borrow_mut-frame (shared zero) e =
      guarded-frame cell (shared zero) exclusive (m cell) w e (k cell) refl
  try_borrow_mut-frame (shared (suc n)) e = refl
  try_borrow_mut-frame exclusive e = refl

module _ {S A B C : Type 0} (f : A → Act S B) (g : B → Act S C) where
  pub continue_assoc :
      (o : Outcome A) (w : World S)
      → continue (continue o f w).0 g (continue o f w).1 ≡ continue o (λ a. f a >>= g) w
  continue_assoc (ok a) w = refl
  continue_assoc (err e) w = refl
  continue_assoc (panicked p) w = refl

  KeepsFrame-assoc :
      (m : Act S A) → KeepsFrame (m >>= λ a. f a >>= g) → KeepsFrame ((m >>= f) >>= g)
  KeepsFrame-assoc m k = record {
    at = λ w. ap (λ (r : Outcome C × World S). frame r.1) (continue_assoc (m w).0 (m w).1) ∙ k.at w;
  }

module _ {S : Type 0} ⦃E : Emacs S⦄ (exits : ExitLaws S) where
  pub KeepsFrame-ref : (ty : Transfer) (v : Value) → KeepsFrame {S = S} (ref_from_lisp ty v)
  unfolding ref_from_lisp get_raw_pointer get_user_finalizer get_user_ptr
  KeepsFrame-ref ty v =
      KeepsFrame-bind (get_user_finalizer v) _
        (KeepsFrame-raw_call exits (E.get_user_finalizer v.raw))
        (λ fin.
          KeepsFrame-if (is_finalizer ty fin) _ _ (KeepsFrame-raw_call exits (E.get_user_ptr v.raw))
            (KeepsFrame-fail _))

  module _ {A : Type 0} (ty : Transfer) (v : Value) (m : Address → Act S A)
      (k : (c : Address) → KeepsFrame (m c)) where
    KeepsFrame-into_ref : KeepsFrame (into_ref ty v >>= λ c. guarded c (m c))
    unfolding into_ref
    KeepsFrame-into_ref = KeepsFrame-assoc _ _ (ref_from_lisp ty v) (
        KeepsFrame-bind (ref_from_lisp ty v) _ (KeepsFrame-ref ty v)
          (λ cell. record { at = λ w. try_borrow-frame cell m k w (w.borrows cell) refl }))

    KeepsFrame-into_ref_mut : KeepsFrame (into_ref_mut ty v >>= λ c. guarded c (m c))
    unfolding into_ref_mut
    KeepsFrame-into_ref_mut = KeepsFrame-assoc _ _ (ref_from_lisp ty v) (
        KeepsFrame-bind (ref_from_lisp ty v) _ (KeepsFrame-ref ty v)
          (λ cell. record { at = λ w. try_borrow_mut-frame cell m k w (w.borrows cell) refl }))

  pub KeepsFrame-get_arg : (args : CallArgs) (i : ℕ) → KeepsFrame {S = S} (get_arg args i)
  unfolding get_arg
  KeepsFrame-get_arg args i = elim (Option-cases (get_elem? args i)) [
    | inl e ↦ rw e (KeepsFrame-panic _)
    | inr (x, e) ↦ rw e (KeepsFrame-pure _)
  ]

module _ {S T : Type 0} ⦃E : Emacs S⦄ (exits : ExitLaws S) (types : ArgTypes S T) (args : CallArgs)
    (body : List (Passed T) → Act S Value)
    (keeping : (n : ℕ) (v : Value) → KeepsFrame (types.from n v))
    (keeping_body : (ps : List (Passed T)) → KeepsFrame (body ps)) where
  pub KeepsFrame-bind_args :
      (signature : List Arg) (ps : List (Passed T))
      → KeepsFrame (bind_args types args body signature ps)
  unfolding bind_args
  KeepsFrame-bind_args [] ps = keeping_body ps
  KeepsFrame-bind_args (env ∷ rest) ps = KeepsFrame-bind_args rest (ps ++ env_ref ∷ [])
  KeepsFrame-bind_args (val owned nth _ ∷ rest) ps =
      KeepsFrame-bind (get_arg args nth) _ (KeepsFrame-get_arg exits args nth) (λ v.
        KeepsFrame-bind (types.from nth v) _ (keeping nth v)
          (λ x. KeepsFrame-bind_args rest (ps ++ by_value x ∷ [])))
  KeepsFrame-bind_args (val ref nth _ ∷ rest) ps =
      KeepsFrame-bind (get_arg args nth) _ (KeepsFrame-get_arg exits args nth) (λ v.
        KeepsFrame-into_ref exits (types.cell nth) v _
          (λ c. KeepsFrame-bind_args rest (ps ++ borrowed c ∷ [])))
  KeepsFrame-bind_args (val ref_mut nth _ ∷ rest) ps =
      KeepsFrame-bind (get_arg args nth) _ (KeepsFrame-get_arg exits args nth) (λ v.
        KeepsFrame-into_ref_mut exits (types.cell nth) v _
          (λ c. KeepsFrame-bind_args rest (ps ++ borrowed_mut c ∷ [])))

  wrapper-borrows :
      (signature : List Arg) (w : World S)
      → (wrapper types args body signature w).1.borrows ≡ w.borrows
  unfolding wrapper
  wrapper-borrows signature w =
      ap (λ (f : Frame). f.borrows) ((KeepsFrame-bind_args signature []).at w)
