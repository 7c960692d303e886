-- ===== src/Vector/Ending.antt =====
-- The iteration over a vector ends.
use emacs_module_rs.Base.{
  ℕ, zero, suc, ◌≡◌, refl, ◌<◌, Option, none, some, Bool-cases, inl, inr, leb, arith, List, [], ◌∷◌,
}
use emacs_module_rs.Machine.{
  Emacs, World, ok, Act, pure, ◌>>=◌, continue-ok, continue-same, attempt,
}
use emacs_module_rs.Value.{Value}
use emacs_module_rs.Vector.{IntoIter, size_hint, next, element_or_panic, vec_get, collect}

module _ {S : Type 0} ⦃E : Emacs S⦄ where
  -- An iterator that gives an element has one less to give.
  pub next-shrinks :
      (it : IntoIter) (w : World S) (x : Value) (later : IntoIter)
      → (next it w).0 ≡ ok (some x, later)
      → suc (size_hint later) ≡ size_hint it
  unfolding next
  next-shrinks it w x later e = elim (Bool-cases (leb it.vector.len it.i)) [
    | inl done ↦ ground (arith, rw done at e)
    | inr more ↦
        let began = rw more at e in
        let (r, _, e1) =
          continue-ok (attempt (vec_get pure it.vector it.i) w).0 _ _ (some x, later) began in
        let (v, _, e2) = continue-ok (element_or_panic it.i r _).0 _ _ (some x, later) e1 in
        ground (arith, e2, more)
  ]

  -- What `collect` does with what `next` gives.
  abbrev going_on : ℕ → Option Value × IntoIter → Act S (List Value)
  going_on fuel taken = elim taken.0 [
    | none ↦ pure []
    | some x ↦ do xs ← collect fuel taken.1; pure (x ∷ xs)
  ]

  going_on-same :
      (n m : ℕ) (it : IntoIter) (w : World S) (taken : Option Value × IntoIter)
      → ((later : IntoIter) (u : World S)
          → suc (size_hint later) ≡ size_hint it
          → collect n later u ≡ collect m later u)
      → (next it w).0 ≡ ok taken
      → going_on n taken (next it w).1 ≡ going_on m taken (next it w).1
  going_on-same n m it w (none, later) same e = refl
  going_on-same n m it w (some x, later) same e =
      rw (same later (next it w).1 (next-shrinks it w x later e)) refl

  -- The iteration over a vector ends by itself, whatever Emacs does: any fuel above the number
  -- of elements that are left gives the same outcome and the same state.
  pub collect-fuel :
      (n m : ℕ) (it : IntoIter) (w : World S)
      → size_hint it < n
      → size_hint it < m
      → collect n it w ≡ collect m it w
  unfolding collect
  collect-fuel zero m it w hn hm = absurd (omega (arith, hn))
  collect-fuel (suc n) zero it w hn hm = absurd (omega (arith, hm))
  collect-fuel (suc n) (suc m) it w hn hm =
      continue-same (next it w).0 (going_on n) (going_on m) (next it w).1 (λ taken.
        going_on-same n m it w taken (λ later u shorter.
          collect-fuel n m later u (omega (arith, shorter, hn)) (omega (arith, shorter, hm))))
