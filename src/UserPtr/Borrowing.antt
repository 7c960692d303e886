-- ===== src/UserPtr/Borrowing.antt =====
-- Borrowing a `RefCell` that is embedded in Lisp.
use emacs_module_rs.Base.{zero, suc, ◌≡◌, refl, ap, ◌∙◌, Option, some}
use emacs_module_rs.Machine.{
  Address, Raw, Emacs, IsQuiet, ExitLaws, Borrow, shared, exclusive, borrow_error, borrow_mut_error,
  World, Outcome, ok, err, ◌>>=◌,
}
use emacs_module_rs.Frames.{Frame, KeepsFrame-raw_call_value}
use emacs_module_rs.UserPtr.{
  Transfer, ref_from_lisp, make_user_ptr, box_into_lisp, into_ref, into_ref_mut, try_borrow,
  try_borrow_mut,
}
use emacs_module_rs.UserPtr.Tags.{
  UserPtrLaws, get_raw_pointer-embeds, box_into_lisp-embeds, tag_same,
}

-- What borrowing a cell with a flag gives.
abbrev pub borrow_outcome : Borrow → Address → Outcome Address
borrow_outcome (shared _) cell = ok cell
borrow_outcome exclusive cell = err borrow_error

abbrev pub borrow_mut_outcome : Borrow → Address → Outcome Address
borrow_mut_outcome (shared zero) cell = ok cell
borrow_mut_outcome (shared (suc _)) cell = err borrow_mut_error
borrow_mut_outcome exclusive cell = err borrow_mut_error

module _ {S : Type 0} where
  try_borrow_outcome :
      (cell : Address) (b : Borrow) (w : World S) → (try_borrow cell b w).0 ≡ borrow_outcome b cell
  try_borrow_outcome cell (shared n) w = refl
  try_borrow_outcome cell exclusive w = refl

  try_borrow_mut_outcome :
      (cell : Address) (b : Borrow) (w : World S)
      → (try_borrow_mut cell b w).0 ≡ borrow_mut_outcome b cell
  try_borrow_mut_outcome cell (shared zero) w = refl
  try_borrow_mut_outcome cell (shared (suc n)) w = refl
  try_borrow_mut_outcome cell exclusive w = refl

module _ {S : Type 0} ⦃E : Emacs S⦄ (exits : ExitLaws S)
    {embeds : Raw → S → Option (Option Address × Address)} (laws : UserPtrLaws S embeds)
    (ty : Transfer) (cell : Address) (w : World S) (q : IsQuiet w.emacs) where
  embedded_flag : (box_into_lisp ty cell w).1.borrows cell ≡ w.borrows cell
  unfolding box_into_lisp make_user_ptr
  embedded_flag =
      ap (λ (f : Frame). f.borrows cell)
        ((KeepsFrame-raw_call_value exits (E.make_user_ptr (some ty.finalize) cell)).at w)

  -- A RefCell that is embedded in Lisp can be borrowed back unless it is borrowed mutably, and
  -- mutably only if it is not borrowed at all; else it is the error of the standard library. No
  -- exit was pending, and user pointers follow UserPtrLaws. Emacs follows ExitLaws.
  pub into_ref-box_into_lisp :
      (((box_into_lisp ty cell >>= into_ref ty) w).0 ≡ borrow_outcome (w.borrows cell) cell)
      × (((box_into_lisp ty cell >>= into_ref_mut ty) w).0
          ≡ borrow_mut_outcome (w.borrows cell) cell)
  unfolding into_ref into_ref_mut ref_from_lisp
  into_ref-box_into_lisp =
      let (o, calm, e) = box_into_lisp-embeds laws ty cell w q in
      let w1 = (box_into_lisp ty cell w).1 in
      let r = (E.make_user_ptr (some ty.finalize) cell w.emacs).0 in
      let back = get_raw_pointer-embeds laws ty cell r (some ty.finalize) w1 calm e in
      (
        rw (o, back, tag_same ty)
            (try_borrow_outcome cell (w1.borrows cell) w1
              ∙ ap (λ b. borrow_outcome b cell) embedded_flag),
        rw (o, back, tag_same ty)
            (try_borrow_mut_outcome cell (w1.borrows cell) w1
              ∙ ap (λ b. borrow_mut_outcome b cell) embedded_flag),
      )
