-- ===== src/Exit/Laws.antt =====
-- What the check after a raw call gives, from the documented behaviour of non-local exits.
use emacs_module_rs.Base.{ℕ, zero, suc, ◌≡◌, ◌⊎◌, arith}
use emacs_module_rs.Machine.{
  Raw, Emacs, IsQuiet, ExitLaws, temp_value, signal, throw, kind, World, Outcome, ok, err,
}
use emacs_module_rs.Exit.{handle_exit, raw_call}

-- What is pending, as the manual names it.
pub data Pending : Type 0 where
  quiet : Pending
  signalled : (symbol payload : Raw) → Pending
  thrown : (tag value : Raw) → Pending

pending_of : ℕ → Raw → Raw → Pending
pending_of zero a b = quiet
pending_of (suc zero) a b = signalled a b
pending_of (suc (suc _)) a b = thrown a b

module _ {S : Type 0} ⦃E : Emacs S⦄ where
  unfoldable pub pending : S → Pending
  unfolding pending_of
  pending s = let x = E.non_local_exit_get s in pending_of x.status x.symbol x.payload

-- The `Result` that stands for a pending exit.
abbrev pub result_of : {A : Type 0} → Pending → A → Outcome A
result_of quiet a = ok a
result_of (signalled a b) _ = err (kind (signal (temp_value a) (temp_value b)))
result_of (thrown a b) _ = err (kind (throw (temp_value a) (temp_value b)))

module _ {S : Type 0} ⦃E : Emacs S⦄ (laws : ExitLaws S) where
  pub status_cases :
      (s : S)
      → ((E.non_local_exit_get s).status ≡ 0)
        ⊎ ((E.non_local_exit_get s).status ≡ 1)
        ⊎ ((E.non_local_exit_get s).status ≡ 2)
  status_cases s = ground (arith, laws.status_known s)

  -- What is pending, by the status, and after an exit is set.
  pub pending_quiet : (s : S) → IsQuiet s → pending s ≡ quiet
  unfolding pending
  pending_quiet s e = rw e

  pub pending_signalled :
      (s : S)
      → (E.non_local_exit_get s).status ≡ 1
      → let x = E.non_local_exit_get s in pending s ≡ signalled x.symbol x.payload
  unfolding pending
  pending_signalled s e = rw e

  pub pending_thrown :
      (s : S)
      → (E.non_local_exit_get s).status ≡ 2
      → let x = E.non_local_exit_get s in pending s ≡ thrown x.symbol x.payload
  unfolding pending
  pending_thrown s e = rw e

  pub pending-signal :
      (a b : Raw) (s : S) → IsQuiet s → pending (E.non_local_exit_signal a b s) ≡ signalled a b
  unfolding pending
  pending-signal a b s q = rw (laws.get-signal a b s q)

  pub pending-throw :
      (a b : Raw) (s : S) → IsQuiet s → pending (E.non_local_exit_throw a b s) ≡ thrown a b
  unfolding pending
  pending-throw a b s q = rw (laws.get-throw a b s q)

  -- handle_exit returns the value when no exit is pending and else the error that stands for the
  -- exit, never panics, leaves no exit pending, and changes nothing when none was. Emacs follows
  -- ExitLaws.
  pub handle_exit_outcome :
      {A : Type 0} (a : A) (w : World S)
      → ((handle_exit a w).0 ≡ result_of (pending w.emacs) a)
        × IsQuiet (handle_exit a w).1.emacs
        × (pending w.emacs ≡ quiet → (handle_exit a w).1 ≡ w)
  unfolding handle_exit pending
  handle_exit_outcome a w = (
    ground (arith, laws.status_known w.emacs),
    ground (arith, laws.status_known w.emacs, laws.get-clear w.emacs),
    ground (arith, laws.status_known w.emacs),
  )

-- A raw call that sets no exit gives its value.
module _ {S : Type 0} ⦃E : Emacs S⦄ where
  pub raw_call-quiet :
      {A : Type 0} (f : S → A × S) (w : World S)
      → IsQuiet (f w.emacs).1
      → raw_call f w ≡ (ok (f w.emacs).0, record w { emacs = (f w.emacs).1 })
  unfolding raw_call
  raw_call-quiet f w q = rw q
