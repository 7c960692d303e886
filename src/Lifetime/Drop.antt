-- ===== src/Lifetime/Drop.antt =====
-- What dropping an `Env` does to the references that it holds and to a pending exit.
use emacs_module_rs.Base.{
  ℕ, ◌+◌, ◌≤◌, ◌≡◌, refl, sym, ◌∙◌, some, List, [], ◌∷◌, ◌==◌, if◌then◌else◌, arith, inl, inr,
}
use emacs_module_rs.Machine.{Raw, Emacs, IsQuiet, ExitLaws, RefLaws, World, Outcome, ok}
use emacs_module_rs.Exit.Laws.{
  pending, status_cases, pending_quiet, pending_signalled, pending_thrown, pending-signal,
  pending-throw,
}
use emacs_module_rs.Lifetime.{free_all, drop_roots, drop_env}

-- How often a list names a reference.
unfoldable pub count : Raw → List Raw → ℕ
count r [] = 0
count r (g ∷ rest) = (if g == r then 1 else 0) + count r rest

module _ {S : Type 0} ⦃E : Emacs S⦄ (refs : Raw → S → ℕ) (laws : RefLaws S refs) where
  -- With no exit pending, the loop frees each entry once.
  pub free_all_frees :
      (roots : List Raw) (w : World S) (r : Raw)
      → IsQuiet w.emacs
      → count r roots ≤ refs r w.emacs
      → ((free_all roots w).0 ≡ ok tt)
        × IsQuiet (free_all roots w).1.emacs
        × (count r roots + refs r (free_all roots w).1.emacs ≡ refs r w.emacs)
  unfolding free_all count
  free_all_frees [] w r q held = (refl, q, omega arith)
  free_all_frees (g ∷ roots) w r q held =
      let s' = (E.free_global_ref g w.emacs).1 in
      let removed = laws.free-removes g w.emacs r q (omega arith) in
      let (a, b, c) =
        free_all_frees roots (record w { emacs = s' }) r (laws.free-IsQuiet g w.emacs q)
          (omega arith) in
      (a, b, omega arith)

module _ {S : Type 0} ⦃E : Emacs S⦄ (refs : Raw → S → ℕ) (exits : ExitLaws S)
    (laws : RefLaws S refs) (roots : List Raw) (w : World S) (r : Raw) where
  -- What the steps of a drop keep and free, the reference `r` for each.
  Dropped : Outcome (Unit {0}) × World S → Type 0
  Dropped (result, w') =
      (result ≡ ok tt)
      × (pending w'.emacs ≡ pending w.emacs)
      × (count r roots + refs r w'.emacs ≡ refs r w.emacs)

  -- One lemma for each status.
  drop_quiet :
      (E.non_local_exit_get w.emacs).status ≡ 0
      → count r roots ≤ refs r w.emacs
      → Dropped (drop_roots (some roots) w)
  unfolding drop_roots Dropped
  drop_quiet q held =
      let (a, b, c) = free_all_frees refs laws roots w r q held in
      rw (q, a) (refl, pending_quiet exits _ b ∙ sym (pending_quiet exits _ q), c)

  drop_signalled :
      (E.non_local_exit_get w.emacs).status ≡ 1
      → count r roots ≤ refs r w.emacs
      → Dropped (drop_roots (some roots) w)
  unfolding drop_roots Dropped
  drop_signalled q held =
      let x = E.non_local_exit_get w.emacs in
      let cleared = record w { emacs = E.non_local_exit_clear w.emacs } in
      let kept = laws.refs-clear w.emacs r in
      let (a, b, c) =
        free_all_frees refs laws roots cleared r (exits.get-clear w.emacs) (omega arith) in
      let s' = (free_all roots cleared).1.emacs in
      rw (q, a)
        (
          refl,
          pending-signal exits _ _ s' b ∙ sym (pending_signalled exits _ q),
          omega (arith, laws.refs-signal x.symbol x.payload s' r),
        )

  drop_thrown :
      (E.non_local_exit_get w.emacs).status ≡ 2
      → count r roots ≤ refs r w.emacs
      → Dropped (drop_roots (some roots) w)
  unfolding drop_roots Dropped
  drop_thrown q held =
      let x = E.non_local_exit_get w.emacs in
      let cleared = record w { emacs = E.non_local_exit_clear w.emacs } in
      let kept = laws.refs-clear w.emacs r in
      let (a, b, c) =
        free_all_frees refs laws roots cleared r (exits.get-clear w.emacs) (omega arith) in
      let s' = (free_all roots cleared).1.emacs in
      rw (q, a)
        (
          refl,
          pending-throw exits _ _ s' b ∙ sym (pending_thrown exits _ q),
          omega (arith, laws.refs-throw x.symbol x.payload s' r),
        )

  -- Dropping an Env that protects values frees each reference that is still held at least as
  -- often as it is protected exactly as often as it is protected, whatever exit is pending, and
  -- leaves that exit pending as it was. Emacs follows ExitLaws and RefLaws.
  pub drop_env_frees :
      w.protected ≡ some roots
      → count r roots ≤ refs r w.emacs
      → ((drop_env w).0 ≡ ok tt)
        × (pending (drop_env w).1.emacs ≡ pending w.emacs)
        × (count r roots + refs r (drop_env w).1.emacs ≡ refs r w.emacs)
  unfolding drop_env Dropped
  drop_env_frees p held = simp p (elim (status_cases exits w.emacs) [
    | inl q ↦ drop_quiet q held
    | inr (inl q) ↦ drop_signalled q held
    | inr (inr q) ↦ drop_thrown q held
  ])
