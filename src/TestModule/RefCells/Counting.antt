-- ===== src/TestModule/RefCells/Counting.antt =====
-- What `inc` does to the integer in a `RefCell`, by its borrow flag (test-module/src/ref_cell.rs).
use emacs_module_rs.Base.{
  ℕ, ℤ, pos, negsuc, ◌+ℤ◌, ◌≡◌, ◌≢◌, refl, ap, sym, ◌∙◌, Bool, true, false, Bool-cases, inl, inr,
  some, zero, suc, arith,
}
use emacs_module_rs.Machine.{
  codes, static_str, Payload, Address, Emacs, World, Borrow, shared, exclusive, borrow_mut_error,
  Outcome, ok, err, panicked,
}
use emacs_module_rs.Value.{Value}
use emacs_module_rs.UserPtr.{into_ref_mut, try_borrow_mut, set_borrow, release}
use emacs_module_rs.Convert.Integer.{i64, InRange, in_range, as_type}
use emacs_module_rs.Convert.Integer.Bounds.{in_range_iff}
use emacs_module_rs.Convert.Integer.Overflow.{fit_i64, add_i64}
use emacs_module_rs.Memory.{TypeId, live, write, Platform, Process, done}
use emacs_module_rs.Memory.Owners.{write-at, write-other}
use emacs_module_rs.TestModule.State.{Contents, integer, with_ref_mut}
use emacs_module_rs.TestModule.HashMap.Refines.{
  PointsTo, ref_from_lisp-PointsTo, into_ref_mut-free, release-set_borrow,
}
use emacs_module_rs.TestModule.RefCells.{inc_cell}

abbrev overflow : Payload
overflow = static_str (codes "attempt to add with overflow")

-- What an increment should answer, by the flag of the cell, and what the cell should hold after it.
pub data Counted (checks : Bool) (x : ℤ) : Borrow → Outcome ℤ → ℤ → Type 0 where
  counts : InRange i64 (x +ℤ pos 1) → Counted checks x (shared 0) (ok (x +ℤ pos 1)) (x +ℤ pos 1)
  overflows :
      checks ≡ true
      → x ≡ pos 9223372036854775807
      → Counted checks x (shared 0) (panicked overflow) x
  wraps :
      checks ≡ false
      → x ≡ pos 9223372036854775807
      → Counted checks x (shared 0) (ok (negsuc 9223372036854775807)) (negsuc 9223372036854775807)
  is_read : {n : ℕ} → Counted checks x (shared (suc n)) (err borrow_mut_error) x
  is_written : Counted checks x exclusive (err borrow_mut_error) x

true-false : true ≡ false → ⊥
true-false e = cc e

at_most : (x : ℤ) → InRange i64 x → ¬ InRange i64 (x +ℤ pos 1) → x ≡ pos 9223372036854775807
unfolding ◌+ℤ◌
at_most x h out = ground (arith, out)

wrapped : as_type i64 (pos 9223372036854775807 +ℤ pos 1) ≡ negsuc 9223372036854775807
unfolding as_type ◌+ℤ◌
wrapped = refl

module _ {S : Type 0} (x : ℤ) (w : World S) where
  add_one-fits :
      (checks : Bool) → InRange i64 (x +ℤ pos 1) → add_i64 checks x (pos 1) w ≡ (ok (x +ℤ pos 1), w)
  unfolding add_i64 fit_i64
  add_one-fits checks fits = rw ((in_range_iff i64 (x +ℤ pos 1)).1 fits) refl

  outside : ¬ InRange i64 (x +ℤ pos 1) → in_range i64 (x +ℤ pos 1) ≡ false
  outside out = elim (Bool-cases (in_range i64 (x +ℤ pos 1))) [
    | inl inside ↦ absurd (out ((in_range_iff i64 (x +ℤ pos 1)).0 inside))
    | inr other ↦ other
  ]

  add_one-checked : ¬ InRange i64 (x +ℤ pos 1) → add_i64 true x (pos 1) w ≡ (panicked overflow, w)
  unfolding add_i64 fit_i64
  add_one-checked out = rw (outside out) refl

  add_one-wraps :
      ¬ InRange i64 (x +ℤ pos 1)
      → x ≡ pos 9223372036854775807
      → add_i64 false x (pos 1) w ≡ (ok (negsuc 9223372036854775807), w)
  unfolding add_i64 fit_i64
  add_one-wraps out e =
      rw (outside out) (ap (λ y. (ok y, w)) (ap (λ y. as_type i64 (y +ℤ pos 1)) e ∙ wrapped))

module _ {S : Type 0} ⦃E : Emacs S⦄ (platform : Platform S Contents) (ty : TypeId) (v : Value)
    (p : Address) (checks : Bool) where
  -- How an increment ends.
  pub record Increments (x : ℤ) (before : Process S Contents) : Type 0 where
    pub answer : Outcome ℤ
    pub left : ℤ
    pub after : Process S Contents
    pub runs : inc_cell platform ty checks v before ≡ done (answer, after)
    pub right : Counted checks x (before.world.borrows p) answer left
    pub held : after.heap p ≡ some (live ty (integer left))
    pub others : (q : Address) → p ≢ q → after.heap q ≡ before.heap q
    pub flag : after.world.borrows p ≡ before.world.borrows p

  module _ (x : ℤ) (before : Process S Contents)
      (points : PointsTo (platform.transfer ty) v p before.world.emacs)
      (held : before.heap p ≡ some (live ty (integer x))) where
    -- The cell is not borrowed.
    module _ (free : before.world.borrows p ≡ shared 0) where
      back : (release p (set_borrow p exclusive before.world)).borrows p ≡ before.world.borrows p
      back = release-set_borrow p exclusive before.world ∙ sym free

      stores :
          (n : ℤ)
          → add_i64 checks x (pos 1) (set_borrow p exclusive before.world)
            ≡ (ok n, set_borrow p exclusive before.world)
          → Counted checks x (shared 0) (ok n) n
          → Increments x before
      unfolding inc_cell with_ref_mut
      stores n e right = record {
        answer = ok n;
        left = n;
        after = record before {
          world = release p (set_borrow p exclusive before.world);
          heap = write before.heap p (some (live ty (integer n)));
        };
        runs =
            rw (into_ref_mut-free (platform.transfer ty) v p before.world points free, held, e)
              (rw held refl);
        right = rw free right;
        held = write-at before.heap p p (some (live ty (integer n)));
        others = λ q ne. write-other before.heap p q (some (live ty (integer n))) ne;
        flag = back;
      }

      stops :
          (payload : Payload)
          → add_i64 checks x (pos 1) (set_borrow p exclusive before.world)
            ≡ (panicked payload, set_borrow p exclusive before.world)
          → Counted checks x (shared 0) (panicked payload) x
          → Increments x before
      unfolding inc_cell with_ref_mut
      stops payload e right = record {
        answer = panicked payload;
        left = x;
        after = record before { world = release p (set_borrow p exclusive before.world) };
        runs =
            rw (into_ref_mut-free (platform.transfer ty) v p before.world points free, held, e)
              refl;
        right = rw free right;
        held = held;
        others = λ q ne. refl;
        flag = back;
      }

    -- The cell is borrowed.
    refused :
        (b : Borrow)
        → before.world.borrows p ≡ b
        → into_ref_mut (platform.transfer ty) v before.world ≡ (err borrow_mut_error, before.world)
        → Counted checks x b (err borrow_mut_error) x
        → Increments x before
    unfolding inc_cell with_ref_mut
    refused b e refuses right = record {
      answer = err borrow_mut_error;
      left = x;
      after = before;
      runs = rw refuses refl;
      right = rw e right;
      held = held;
      others = λ q ne. refl;
      flag = refl;
    }

    into_ref_mut-taken :
        (b : Borrow)
        → before.world.borrows p ≡ b
        → try_borrow_mut p b before.world ≡ (err borrow_mut_error, before.world)
        → into_ref_mut (platform.transfer ty) v before.world ≡ (err borrow_mut_error, before.world)
    unfolding into_ref_mut
    into_ref_mut-taken b e refuses =
        rw (ref_from_lisp-PointsTo (platform.transfer ty) v p before.world points, e) refuses

    free_Increments : before.world.borrows p ≡ shared 0 → InRange i64 x → Increments x before
    free_Increments free h =
        let w = set_borrow p exclusive before.world in
        elim (Bool-cases (in_range i64 (x +ℤ pos 1))) [
          | inl inside ↦
              let fits = (in_range_iff i64 (x +ℤ pos 1)).0 inside in
              stores free (x +ℤ pos 1) (add_one-fits x w checks fits) (counts fits)
          | inr beyond ↦
              let out : ¬ InRange i64 (x +ℤ pos 1) =
                λ fits. true-false (sym ((in_range_iff i64 (x +ℤ pos 1)).1 fits) ∙ beyond) in
              let most = at_most x h out in
              elim (Bool-cases checks) [
                | inl e ↦ stops free overflow (rw e (add_one-checked x w out)) (overflows e most)
                | inr e ↦ stores free _ (rw e (add_one-wraps x w out most)) (wraps e most)
              ]
        ]

    flag_Increments :
        (b : Borrow) → before.world.borrows p ≡ b → InRange i64 x → Increments x before
    flag_Increments (shared zero) e h = free_Increments e h
    flag_Increments (shared (suc n)) e h =
        refused (shared (suc n)) e (into_ref_mut-taken (shared (suc n)) e refl) is_read
    flag_Increments exclusive e h =
        refused exclusive e (into_ref_mut-taken exclusive e refl) is_written

  -- inc on a value that embeds an i64 in a RefCell, while no exit is pending: if the cell is
  -- borrowed it gives the error of the standard library and keeps the integer; else it stores
  -- and returns the integer plus one, or, at the last i64, panics and stores nothing with
  -- overflow checks, and stores and returns the first i64 without them. It is never undefined
  -- behaviour, and leaves the borrow of the cell and all other boxes as they were.
  pub inc_cell-Increments :
      (x : ℤ) (before : Process S Contents)
      → PointsTo (platform.transfer ty) v p before.world.emacs
      → before.heap p ≡ some (live ty (integer x))
      → InRange i64 x
      → Increments x before
  inc_cell-Increments x before points held h =
      flag_Increments x before points held (before.world.borrows p) refl h
