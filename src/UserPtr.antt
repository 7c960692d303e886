-- ===== src/UserPtr.antt =====
-- Rust data embedded in Lisp as user pointers (src/types/user_ptr.rs), and the borrows of a `RefCell`
-- that is embedded (src/value.rs). The finalizer of a type serves as its runtime type tag.
pub mod Tags
pub mod Borrowing
use emacs_module_rs.Base.{
  ℕ, zero, suc, ◌+◌, Bool, true, false, Option, none, some, ◌==◌, if◌then◌else◌,
}
use emacs_module_rs.Machine.{
  Bytes, Address, Emacs, wrong_type_user_ptr, kind, borrow_error, borrow_mut_error, Borrow, shared,
  exclusive, World, Act, ok, pure, fail, gets, ◌>>=◌, ◌>>◌,
}
use emacs_module_rs.Exit.{raw_call}
use emacs_module_rs.Value.{Value, raw_call_value}

-- `Transfer`: the name of a type, and the address of its instance of `finalize`.
pub record Transfer : Type 0 where
  pub type_name : Bytes
  pub finalize : Address

-- `Some(fin) if fin == finalize::<T>`
abbrev pub is_finalizer : Transfer → Option Address → Bool
is_finalizer ty none = false
is_finalizer ty (some fin) = fin == ty.finalize

module _ {S : Type 0} ⦃E : Emacs S⦄ where
  unfoldable pub make_user_ptr : Option Address → Address → Act S Value
  unfolding raw_call_value
  make_user_ptr fin ptr = raw_call_value (E.make_user_ptr fin ptr)

  unfoldable pub get_user_ptr : Value → Act S Address
  unfolding raw_call
  get_user_ptr v = raw_call (E.get_user_ptr v.raw)

  unfoldable pub get_user_finalizer : Value → Act S (Option Address)
  unfolding raw_call
  get_user_finalizer v = raw_call (E.get_user_finalizer v.raw)

  -- `Value::get_raw_pointer`
  unfoldable pub get_raw_pointer : Transfer → Value → Act S Address
  unfolding get_user_ptr get_user_finalizer
  get_raw_pointer ty v = do
    fin ← get_user_finalizer v
    if is_finalizer ty fin then get_user_ptr v else fail (kind (wrong_type_user_ptr ty.type_name))

  -- `FromLisp for &T`: the reference is the pointer.
  unfoldable pub ref_from_lisp : Transfer → Value → Act S Address
  unfolding get_raw_pointer
  ref_from_lisp ty v = get_raw_pointer ty v

  -- `IntoLisp for Box<T>`, of the box at an address.
  unfoldable pub box_into_lisp : Transfer → Address → Act S Value
  unfolding make_user_ptr
  box_into_lisp ty raw = make_user_ptr (some ty.finalize) raw

  -- `Value::get_mut`
  unfoldable pub get_mut : Transfer → Value → Act S Address
  unfolding get_raw_pointer
  get_mut ty v = get_raw_pointer ty v

-- The flag of one cell is set.
abbrev pub set_borrow : {S : Type 0} → Address → Borrow → World S → World S
set_borrow cell b w = record w { borrows = λ other. if cell == other then b else w.borrows other }

-- `Drop` of a guard: `RefMut` frees the cell, `Ref` counts one reader less.
abbrev pub released : Borrow → Borrow
released (shared zero) = shared zero
released (shared (suc n)) = shared n
released exclusive = shared 0

module _ {S : Type 0} where
  -- `RefCell::try_borrow` and `try_borrow_mut`, on the flag that is found: the guard is the cell.
  abbrev pub try_borrow : Address → Borrow → Act S Address
  try_borrow cell (shared n) w = (ok cell, set_borrow cell (shared (suc n)) w)
  try_borrow cell exclusive w = fail borrow_error w

  abbrev pub try_borrow_mut : Address → Borrow → Act S Address
  try_borrow_mut cell (shared zero) w = (ok cell, set_borrow cell exclusive w)
  try_borrow_mut cell (shared (suc n)) w = fail borrow_mut_error w
  try_borrow_mut cell exclusive w = fail borrow_mut_error w

  abbrev pub release : Address → World S → World S
  release cell w = set_borrow cell (released (w.borrows cell)) w

module _ {S : Type 0} ⦃E : Emacs S⦄ where
  -- `Value::into_ref`
  unfoldable pub into_ref : Transfer → Value → Act S Address
  unfolding ref_from_lisp
  into_ref ty v = do
    container ← ref_from_lisp ty v
    flag ← gets (λ w. w.borrows container)
    try_borrow container flag

  -- `Value::into_ref_mut`
  unfoldable pub into_ref_mut : Transfer → Value → Act S Address
  unfolding ref_from_lisp
  into_ref_mut ty v = do
    container ← ref_from_lisp ty v
    flag ← gets (λ w. w.borrows container)
    try_borrow_mut container flag
